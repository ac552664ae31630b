-- ===== src/Runtime/U64/Parse.antt =====
-- What the parser accepts, and with which value.
use fct.Base.{
  ℕ, ◌+◌, ◌-◌, ◌*◌, ◌/◌, ◌≤◌, ◌<◌, ◌≡◌, ◌≢◌, ◌∙◌, All-all, lt→ltb, refl, inl, inr, ◌⊎◌, true, false,
  [], ◌∷◌, arith, All, all, ltb, nat_eq, if◌then◌else◌, Bool-cases,
}
use fct.Base.Text.{Text, codes, is_digit, trim_prefix, cut_prefix}
use fct.Base.Decimal.{print_u64, value, value-digits, digits-IsDigits, digits, digits-ne-nil}
use fct.Runtime.U64.{
  modulus, max_u64, ParseResult, parsed, failed, parse_digits, parse_rest, parse_u64,
}

value-grows : (v : ℕ) (s : Text) → v ≤ value v s
unfolding value
value-grows v [] = ground arith
value-grows v (c ∷ s) = ground (arith, value-grows (v * 10 + (c - b'0')) s)

-- The test before a digit is the overflow test.
fits : (v d : ℕ) → d < 10 → ltb ((max_u64 - d) / 10) v ≡ false → v * 10 + d ≤ max_u64
fits v d l h = ground arith

overflows : (v d : ℕ) → d < 10 → ltb ((max_u64 - d) / 10) v ≡ true → modulus ≤ v * 10 + d
overflows v d l h = ground arith

abbrev pub too_large : ParseResult
too_large = failed "number too large to fit in target type"

abbrev pub reading : Text → ParseResult
reading s = if ltb (value 0 s) modulus then parsed (value 0 s) else too_large

all-digits :
    (v : ℕ) (s : Text)
    → v < modulus
    → all is_digit s ≡ true
    → parse_digits v s ≡ (if ltb (value v s) modulus then parsed (value v s) else too_large)
unfolding parse_digits value
all-digits v [] l h = ground arith
all-digits v (c ∷ s) l h =
    let d = c - b'0' in
    let n = v * 10 + d in
    elim (Bool-cases (ltb ((max_u64 - d) / 10) v)) [
      | inl e ↦
          let big = overflows v d (ground (arith, h)) e in
          ground (arith, h, e, big, value-grows n s)
      | inr e ↦
          let small = fits v d (ground (arith, h)) e in
          ground (arith, h, e, all-digits n s (ground (arith, small)))
    ]

bad-digit : (v : ℕ) (s : Text) → all is_digit s ≡ false → (n : ℕ) → parse_digits v s ≢ parsed n
unfolding parse_digits
bad-digit v [] h n e = absurd (cc)
bad-digit v (c ∷ s) h n e = elim (Bool-cases (is_digit c)) [
  | inl d ↦
      let later : all is_digit s ≡ false = ground (arith, d, h) in
      ground (arith, d, e, bad-digit (v * 10 + (c - b'0')) s later n)
  | inr d ↦ ground (arith, d, e)
]

-- What a text reads as, behind an optional plus.
pub record IsReading (s : Text) (r : ParseResult) : Type 0 where
  pub number :
      trim_prefix (codes "+") s ≢ []
      → all is_digit (trim_prefix (codes "+") s) ≡ true
      → r ≡ reading (trim_prefix (codes "+") s)
  pub no_number :
      (trim_prefix (codes "+") s ≡ []) ⊎ (all is_digit (trim_prefix (codes "+") s) ≡ false)
      → (n : ℕ) → r ≢ parsed n

rest-number : (b : Text) → b ≢ [] → all is_digit b ≡ true → parse_rest b ≡ reading b
rest-number [] d h = absurd (d refl)
rest-number (c ∷ s) d h = all-digits 0 (c ∷ s) (ground arith) h

rest-no_number :
    (b : Text) → (b ≡ []) ⊎ (all is_digit b ≡ false) → (n : ℕ) → parse_rest b ≢ parsed n
rest-no_number [] h n e = cc
rest-no_number (c ∷ s) (inl k) n e = cc
rest-no_number (c ∷ s) (inr k) n e = bad-digit 0 (c ∷ s) k n e

-- A text is read as the number that its digits stand for, behind an optional plus, if that fits in 64
-- bits, and is refused as too large if it does not; a text without digits, or with anything else in
-- it, is read as no number.
pub parse_u64-IsReading : (s : Text) → IsReading s (parse_u64 s)
unfolding parse_u64 cut_prefix
parse_u64-IsReading [] = record { number = λ d h. absurd (d refl); no_number = λ h n e. cc }
parse_u64-IsReading (c ∷ s) = record {
  number = rest-number (trim_prefix (codes "+") (c ∷ s));
  no_number = rest-no_number (trim_prefix (codes "+") (c ∷ s));
}

no-plus : (s : Text) → All (λ c. is_digit c ≡ true) s → trim_prefix (codes "+") s ≡ s
unfolding cut_prefix
no-plus [] h = refl
no-plus (c ∷ s) h = ground (arith, h.0)

digits-read :
    (s : Text) (n : ℕ)
    → s ≢ []
    → All (λ c. is_digit c ≡ true) s
    → value 0 s ≡ n
    → n < modulus
    → parse_u64 s ≡ parsed n
digits-read s n d is v l =
    let same = no-plus s is in
    (parse_u64-IsReading s).number (rw same d) (rw same (All-all is_digit s is))
    ∙ rw (same, v, lt→ltb n modulus l) refl

-- u64Parse reads back what u64Text prints, for every 64-bit pattern.
pub parse_u64-print : (n : ℕ) → n < modulus → parse_u64 (print_u64 n) ≡ parsed n
unfolding print_u64
parse_u64-print n h =
    digits-read (digits 20 n) n (digits-ne-nil 19 n) (digits-IsDigits 20 n)
      (value-digits 20 n (omega (arith, h))) h
