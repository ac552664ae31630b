-- ===== src/Runtime/Jobs/Backoff.antt =====
-- The delay before a retry.
use native.Mathlib.Nat.{pow-suc}
use fct.Base.{ℕ, zero, suc, ◌*◌, ◌^◌, ◌≤◌, ◌<◌, ◌≡◌, ap, ◌∙◌, inl, inr, leb, min, arith, Bool-cases}
use fct.Runtime.Jobs.{backoff_loop, backoff, backoff_base, backoff_cap}

pow-pos : (n : ℕ) → 1 ≤ 2 ^ n
pow-pos zero = ground arith
pow-pos (suc n) = omega (arith, pow-suc 2 n, pow-pos n)

le-mul : (a p : ℕ) → 1 ≤ p → a ≤ a * p
le-mul a zero h = absurd (omega (arith, h))
le-mul a (suc q) h = omega arith

loop-eq : (n d : ℕ) → d < backoff_cap → backoff_loop n d ≡ min (d * 2 ^ n) backoff_cap
unfolding backoff_loop
loop-eq zero d h = ground arith
loop-eq (suc n) d h =
    let step : d * 2 ^ suc n ≡ d * 2 * 2 ^ n = ap (λ p. d * p) (pow-suc 2 n) ∙ omega arith in
    elim (Bool-cases (leb backoff_cap (d * 2))) [
      | inl e ↦
          let grows : d * 2 ≤ d * 2 * 2 ^ n = le-mul (d * 2) (2 ^ n) (pow-pos n) in
          ground (arith, step, e, grows)
      | inr e ↦ ground (arith, step, e, loop-eq n (d * 2) (ground (arith, e)))
    ]

-- The delay before retry n (from 1) is 5 seconds doubled n - 1 times, 10 minutes at most.
pub backoff-eq : (n : ℕ) → backoff (suc n) ≡ min (backoff_base * 2 ^ n) backoff_cap
unfolding backoff
backoff-eq n = loop-eq n backoff_base (ground arith)
