-- ===== src/Runtime/ApiCache.antt =====
-- runtime/resilience.go: apiCache, the read cache in front of entity lists.
-- A body is a text, a time a number; the version is the 64-bit counter with its wrap-around. A nil
-- cache, which stores nothing, is left out.
pub mod Fresh
mod Tests
use fct.Base.{
  ℕ, suc, ◌+◌, ◌%◌, ◌^◌, String, Bool, true, false, not, ◌||◌, Option, none, some, List, [], ◌∷◌,
  ◌==◌, nat_eq, string_eq, if◌then◌else◌, ltb, Map, lookup, insert, length,
}

pub record Entry : Type 0 where
  pub body : String
  pub version : ℕ
  pub expires : ℕ

pub record Cache : Type 0 where
  pub ttl : ℕ
  pub entries : Map String Entry
  pub version : ℕ

abbrev pub fresh_body : ℕ → ℕ → Option Entry → Option String
fresh_body now version none = none
fresh_body now version (some e) =
    if not (e.version == version) || ltb e.expires now then none else some e.body

unfoldable pub get : ℕ → String → Cache → Option String
get now key c = fresh_body now c.version (lookup key c.entries)

-- A table of more than 4096 entries is emptied first.
unfoldable pub put : ℕ → String → String → Cache → Cache
put now key body c = record c {
  entries =
      insert key (record { body = body; version = c.version; expires = now + c.ttl })
        (if ltb 4096 (length c.entries) then [] else c.entries);
}

unfoldable pub invalidate : Cache → Cache
invalidate c = record c { version = suc c.version % 2 ^ 64 }
