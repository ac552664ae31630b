-- ===== src/Base/Decimal.antt =====
-- Decimal numbers: the digits that strconv prints, and the value that digits stand for.
use native.Mathlib.Nat.{pow-suc}
use Prim.Native.Nat.{ℕ, zero, suc, ◌+◌, ◌-◌, ◌*◌, ◌/◌, ◌%◌, ◌^◌, ◌<◌}
use mathlib.Core.Path.{◌≡◌, refl}
use mathlib.Core.Bool.{true}
use mathlib.Core.List.{[], ◌∷◌, ◌++◌}
use mathlib.Core.Logic.{inl, inr, ◌≢◌}
use native.Mathlib.Omega.{arith}
use fct.Base.Tests.{ltb, if◌then◌else◌, Bool-cases}
use fct.Base.Text.{Text, is_digit}
use fct.Base.Lists.{All, All-append}

-- The digits of a number, for as many digits as there is fuel: a 64-bit number has 20 at most.
unfoldable pub digits : ℕ → ℕ → Text
digits zero n = []
digits (suc fuel) n =
    let rest = digits fuel (n / 10) in
    if ltb n 10 then (b'0' + n) ∷ [] else rest ++ (b'0' + n % 10) ∷ []

unfoldable pub print_u64 : ℕ → Text
unfolding digits
print_u64 n = digits 20 n

-- The value of a list of digits behind a number already read.
unfoldable pub value : ℕ → Text → ℕ
value v [] = v
value v (c ∷ s) = value (v * 10 + (c - b'0')) s

pub value-append : (v : ℕ) (s t : Text) → value v (s ++ t) ≡ value (value v s) t
unfolding value
value-append v [] t = refl
value-append v (c ∷ s) t = value-append (v * 10 + (c - b'0')) s t

pub value-digits : (fuel n : ℕ) → n < 10 ^ fuel → value 0 (digits fuel n) ≡ n
unfolding digits value
value-digits zero n h = omega arith
value-digits (suc fuel) n h = elim (Bool-cases (ltb n 10)) [
  | inl small ↦ rw small (ground arith)
  | inr big ↦
      rw (big, value-append 0 (digits fuel (n / 10)) ((b'0' + n % 10) ∷ []))
        (omega (arith, value-digits fuel (n / 10) (omega (arith, pow-suc 10 fuel, h))))
]

append-ne-nil : (xs : Text) (c : ℕ) → xs ++ c ∷ [] ≢ []
append-ne-nil [] c h = cc
append-ne-nil (x ∷ xs) c h = cc

pub digits-IsDigits : (fuel n : ℕ) → All (λ c. is_digit c ≡ true) (digits fuel n)
unfolding digits
digits-IsDigits zero n = tt
digits-IsDigits (suc fuel) n = elim (Bool-cases (ltb n 10)) [
  | inl small ↦ rw small (ground arith)
  | inr big ↦ rw big (
      All-append (λ c. is_digit c ≡ true) (digits fuel (n / 10)) _ (digits-IsDigits fuel (n / 10))
        (ground arith))
]

pub digits-ne-nil : (fuel n : ℕ) → digits (suc fuel) n ≢ []
unfolding digits
digits-ne-nil fuel n h = elim (Bool-cases (ltb n 10)) [
  | inl small ↦ cc (rw small at h)
  | inr big ↦ append-ne-nil (digits fuel (n / 10)) _ (rw big at h)
]
