-- ===== src/Runtime/ApiCache/Fresh.antt =====
-- What the cache serves after a put and after a write of the data.
use fct.Base.{
  ℕ, suc, ◌+◌, ◌%◌, ◌^◌, ◌<◌, String, ◌≡◌, refl, ap, ◌∙◌, Option, none, some, ==_refl, nat_eq,
  string_eq, if◌then◌else◌, ltb, arith, lookup-insert,
}
use fct.Runtime.ApiCache.{Entry, Cache, get, put, invalidate, fresh_body}

-- An entry that there is has the version.
abbrev pub IsOf : ℕ → Option Entry → Type 0
IsOf version none = Unit
IsOf version (some e) = e.version ≡ version

put-get :
    (now later : ℕ) (key body : String) (c : Cache)
    → get later key (put now key body c) ≡ (if ltb (now + c.ttl) later then none else some body)
unfolding get put
put-get now later key body c =
    ap (fresh_body later c.version) (lookup-insert key key _ _)
    ∙ rw (==_refl key, ==_refl c.version) refl

stale-none :
    (now version : ℕ) (o : Option Entry)
    → version < 2 ^ 64
    → IsOf version o
    → fresh_body now (suc version % 2 ^ 64) o ≡ none
stale-none now version none l h = refl
stale-none now version (some e) l h = ground (arith, l, h)

-- What a put means for the reads of its key.
pub record IsFresh (now later : ℕ) (key body : String) (c : Cache) : Type 0 where
  pub served :
      get later key (put now key body c) ≡ (if ltb (now + c.ttl) later then none else some body)
  pub dropped : get later key (invalidate (put now key body c)) ≡ none

-- With a 64-bit version counter, a body that was put under a key is served until its time is over,
-- and no longer once the cache is invalidated.
pub put-IsFresh :
    (now later : ℕ) (key body : String) (c : Cache)
    → c.version < 2 ^ 64
    → IsFresh now later key body c
unfolding get put invalidate
put-IsFresh now later key body c l = record {
  served = put-get now later key body c;
  dropped =
      ap (fresh_body later (suc c.version % 2 ^ 64)) (lookup-insert key key _ _)
      ∙ rw (==_refl key) (
          stale-none later c.version
            (some (record { body = body; version = c.version; expires = now + c.ttl })) l refl);
}
