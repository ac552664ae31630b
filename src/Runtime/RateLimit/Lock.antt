-- ===== src/Runtime/RateLimit/Lock.antt =====
-- When repeated failures lock a username.
use fct.Base.{
  ℕ, suc, ◌+◌, ◌-◌, ◌≤◌, String, ◌≡◌, refl, false, ◌&&◌, none, some, List, [], ◌∷◌, ◌==◌, ==_refl,
  string_eq, if◌then◌else◌, leb, ltb, arith, eq_iff, All, length, lookup, lookup-insert,
  lookup-remove, ap, ◌∙◌,
}
use fct.Runtime.RateLimit.{Lockout, FailRecord, locked, fail, fresh_fail, counted, reset_fails}

unfoldable pub fail_all : String → List ℕ → Lockout → Lockout
fail_all key [] l = l
fail_all key (t ∷ ts) l = fail_all key ts (fail t key l)

-- The last of a time and the times after it.
unfoldable pub last_of : ℕ → List ℕ → ℕ
last_of t [] = t
last_of t (u ∷ ts) = last_of u ts

-- The record after n failures since `first`, the last of them at `t`.
abbrev after : Lockout → ℕ → ℕ → ℕ → FailRecord
after l first n t = record {
  count = n;
  first = first;
  until = if leb l.max n then some (t + l.cool) else none;
}

one-more :
    (l : Lockout) (first n t u : ℕ) → counted l u (after l first n t) ≡ after l first (suc n) u
one-more l first n t u = ground arith

next-fail :
    (key : String) (first n t u : ℕ) (l : Lockout)
    → u - first ≤ l.window
    → lookup key l.fails ≡ some (after l first n t)
    → lookup key (fail u key l).fails ≡ some (after l first (suc n) u)
unfolding fail
next-fail key first n t u l h e =
    let inside : ltb l.window (u - first) ≡ false = ground (arith, h) in
    lookup-insert key key _ l.fails
    ∙ rw (==_refl key, e, inside) (ap (λ r. some r) (one-more l first n t u))

more-fails :
    (key : String) (first n t : ℕ) (ts : List ℕ) (l : Lockout)
    → All (λ u. u - first ≤ l.window) ts
    → lookup key l.fails ≡ some (after l first n t)
    → lookup key (fail_all key ts l).fails ≡ some (after l first (n + length ts) (last_of t ts))
unfolding fail_all last_of fail
more-fails key first n t [] l h e = e ∙ ap (λ m. some (after l first m t)) (omega arith)
more-fails key first n t (u ∷ ts) l h e =
    more-fails key first (suc n) u ts (fail u key l) h.1 (next-fail key first n t u l h.0 e)
    ∙ ap (λ m. some (after l first m (last_of u ts))) (omega arith)

first-one : (l : Lockout) (t : ℕ) → counted l t (fresh_fail t) ≡ after l t 1 t
first-one l t = refl

first-fail :
    (key : String) (t : ℕ) (l : Lockout)
    → lookup key l.fails ≡ none
    → lookup key (fail t key l).fails ≡ some (after l t 1 t)
unfolding fail
first-fail key t l e =
    lookup-insert key key _ l.fails ∙ rw (==_refl key, e) (ap (λ r. some r) (first-one l t))

fail_all-max : (key : String) (ts : List ℕ) (l : Lockout) → (fail_all key ts l).max ≡ l.max
unfolding fail_all fail
fail_all-max key [] l = refl
fail_all-max key (t ∷ ts) l = fail_all-max key ts (fail t key l)

-- A username without a record that fails at some times, none of them later than the window after the
-- first, is locked afterwards exactly if there were as many failures as the limit, and then until the
-- cooling time after the last one is over.
pub fail_all-locked :
    (key : String) (t : ℕ) (ts : List ℕ) (l : Lockout) (now : ℕ)
    → lookup key l.fails ≡ none
    → All (λ u. u - t ≤ l.window) ts
    → locked now key (fail_all key (t ∷ ts) l)
      ≡ (leb l.max (suc (length ts)) && ltb now (last_of t ts + l.cool))
unfolding locked fail_all fail
fail_all-locked key t ts l now e h =
    let is = more-fails key t 1 t ts (fail t key l) h (first-fail key t l e) in rw is (ground arith)

-- A success forgets the failures of its username, and no other's.
pub reset_fails-locked :
    (key other : String) (l : Lockout) (now : ℕ)
    → locked now other (reset_fails key l) ≡ (if key == other then false else locked now other l)
unfolding locked reset_fails
reset_fails-locked key other l now =
    ground (arith, lookup-remove key other l.fails, eq_iff key other)
