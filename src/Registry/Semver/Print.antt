-- ===== src/Registry/Semver/Print.antt =====
-- A version that is printed is read back.
use fct.Base.{
  ℕ, ◌<◌, ◌≡◌, ◌≢◌, refl, ap, ◌∙◌, All-all, All-map, All-append, Bool, true, false, some, [], ◌∷◌,
  ◌++◌, arith, All, ◌==◌, nat_eq,
}
use fct.Base.Text.{Text, trim_left, trim_right, trim, cut_at, split, cut_prefix, is_space, is_digit}
use fct.Base.Decimal.{digits, print_u64, value, value-digits, digits-IsDigits, digits-ne-nil}
use fct.Registry.Semver.{
  Semver, max_int, atoi, numbers, ends_version, parse_semver, to_text, non_empty,
}

module _ (p : ℕ → Bool) where
  trim_left-id : (s : Text) → All (λ c. p c ≡ false) s → trim_left p s ≡ s
  unfolding trim_left
  trim_left-id [] h = refl
  trim_left-id (c ∷ s) h = ground (arith, h.0)

  trim_right-id : (s : Text) → All (λ c. p c ≡ false) s → trim_right p s ≡ s
  unfolding trim_right
  trim_right-id [] h = refl
  trim_right-id (c ∷ []) h = ground (arith, h.0)
  trim_right-id (c ∷ (d ∷ s)) h = rw (trim_right-id (d ∷ s) h.1, trim_right) refl

  cut_at-id : (s : Text) → All (λ c. p c ≡ false) s → cut_at p s ≡ s
  unfolding cut_at
  cut_at-id [] h = refl
  cut_at-id (c ∷ s) h = ground (arith, cut_at-id s h.1)

split-id : (sep : ℕ) (s : Text) → All (λ c. (c == sep) ≡ false) s → split sep s ≡ s ∷ []
unfolding split
split-id sep [] h = refl
split-id sep (c ∷ s) h = rw (h.0, split-id sep s h.1)

split-sep :
    (sep : ℕ) (s t : Text)
    → All (λ c. (c == sep) ≡ false) s
    → split sep (s ++ sep ∷ t) ≡ s ∷ split sep t
unfolding split
split-sep sep [] t h = ground arith
split-sep sep (c ∷ s) t h = rw (h.0, split-sep sep s t h.1)

atoi-value :
    (s : Text)
    → s ≢ []
    → All (λ c. is_digit c ≡ true) s
    → value 0 s < max_int
    → atoi s ≡ some (value 0 s)
unfolding atoi
atoi-value [] e h b = absurd (e refl)
atoi-value (c ∷ s) e h b = ground (arith, All-all is_digit (c ∷ s) h)

atoi-print : (n : ℕ) → n < max_int → atoi (print_u64 n) ≡ some n
unfolding print_u64
atoi-print n b =
    let back = value-digits 20 n (omega arith) in
    atoi-value (digits 20 n) (digits-ne-nil 19 n) (digits-IsDigits 20 n) (rw back b) ∙ ap some back

abbrev core : Semver → Text
core v = print_u64 v.major ++ b'.' ∷ (print_u64 v.minor ++ b'.' ∷ print_u64 v.patch)

-- A test that no digit and no dot passes.
module _ (q : ℕ → Bool) (on_digit : (c : ℕ) → is_digit c ≡ true → q c ≡ false) where
  print-none : (n : ℕ) → All (λ c. q c ≡ false) (print_u64 n)
  unfolding print_u64
  print-none n =
      All-map (λ c. is_digit c ≡ true) (λ c. q c ≡ false) (digits 20 n) on_digit
        (digits-IsDigits 20 n)

  core-none : (v : Semver) → q b'.' ≡ false → All (λ c. q c ≡ false) (core v)
  core-none v dot =
      All-append (λ c. q c ≡ false) (print_u64 v.major) _ (print-none v.major)
        (
          dot,
          All-append (λ c. q c ≡ false) (print_u64 v.minor) _ (print-none v.minor)
              (dot, print-none v.patch),
        )

split-core :
    (v : Semver)
    → split b'.' (core v) ≡ print_u64 v.major ∷ print_u64 v.minor ∷ print_u64 v.patch ∷ []
split-core v =
    let no_dot = print-none (λ c. c == b'.') (λ c h. ground arith) in
    rw (
      split-sep b'.' (print_u64 v.major) (print_u64 v.minor ++ b'.' ∷ print_u64 v.patch)
          (no_dot v.major),
      split-sep b'.' (print_u64 v.minor) (print_u64 v.patch) (no_dot v.minor),
      split-id b'.' (print_u64 v.patch) (no_dot v.patch),
    )

non_empty-append : (s : Text) (c : ℕ) (t : Text) → non_empty (s ++ c ∷ t) ≡ some (s ++ c ∷ t)
non_empty-append [] c t = refl
non_empty-append (d ∷ s) c t = refl

-- Reading back what `String` prints gives the version, if its numbers fit a signed 64-bit integer.
pub parse_semver-to_text :
    (v : Semver)
    → v.major < max_int
    → v.minor < max_int
    → v.patch < max_int
    → parse_semver (to_text v) ≡ some v
unfolding parse_semver to_text trim numbers cut_prefix
parse_semver-to_text v ha hb hc =
    let spaces = core-none is_space (λ c h. ground arith) v refl in
    rw (
      trim_left-id is_space (to_text v) (refl, spaces),
      trim_right-id is_space (to_text v) (refl, spaces),
      cut_at-id ends_version (core v) (core-none ends_version (λ c h. ground arith) v refl),
      non_empty-append (print_u64 v.major) b'.' (print_u64 v.minor ++ b'.' ∷ print_u64 v.patch),
      split-core v,
      atoi-print v.major ha,
      atoi-print v.minor hb,
      atoi-print v.patch hc,
    )
