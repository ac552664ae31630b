-- ===== src/Ir/Params/Arity.antt =====
-- Which calls give every argument that is required.
use fct.Base.{
  ℕ, zero, suc, ◌-◌, ◌≡◌, ◌≤◌, refl, sym, ap, ◌∙◌, inl, inr, Bool, true, false, ◌&&◌, List, [], ◌∷◌,
  leb, ltb, all, drop, arith, if◌then◌else◌, Bool-cases,
}
use fct.Ir.Params.{Param, arity_from, required_arity}

abbrev pub optional : Param → Bool
optional p = p.is_optional

drop-cons :
    (i k : ℕ) (p : Param) (ps : List Param)
    → all optional (drop (k - i) (p ∷ ps))
      ≡ (if ltb i k then all optional (drop (k - suc i) ps) else (p.is_optional && all optional ps))
drop-cons i k p ps = elim (Bool-cases (ltb i k)) [
  | inl e ↦ let step : k - i ≡ suc (k - suc i) = ground (arith, e) in rw (e, step) refl
  | inr e ↦ let stop : k - i ≡ 0 = ground (arith, e) in rw (e, stop) refl
]

all-drop-nil : (m : ℕ) → all optional (drop m []) ≡ true
all-drop-nil zero = refl
all-drop-nil (suc m) = refl

drop-stop : (i k : ℕ) (ps : List Param) → ltb i k ≡ false → drop (k - suc i) ps ≡ ps
drop-stop i k ps e = let stop : k - suc i ≡ 0 = ground (arith, e) in rw stop refl

arity_from-leb :
    (i n k : ℕ) (ps : List Param)
    → n ≤ i
    → leb (arity_from i n ps) k ≡ (leb n k && all optional (drop (k - i) ps))
unfolding arity_from
arity_from-leb i n k [] h = rw (all-drop-nil (k - i)) (ground arith)
arity_from-leb i n k (p ∷ ps) h = elim (Bool-cases p.is_optional) [
  | inl e ↦
      let rest = arity_from-leb (suc i) n k ps (omega (arith, h)) in
      ap (λ b. leb (arity_from (suc i) (if b then n else suc i) ps) k) e
      ∙ rest
      ∙ ap (λ b. leb n k && b) (optional_tail e)
  | inr e ↦
      let rest = arity_from-leb (suc i) (suc i) k ps (omega arith) in
      ap (λ b. leb (arity_from (suc i) (if b then n else suc i) ps) k) e ∙ rest ∙ required_tail e
]
  where
    optional_tail :
        p.is_optional ≡ true
        → all optional (drop (k - suc i) ps) ≡ all optional (drop (k - i) (p ∷ ps))
    optional_tail e = elim (Bool-cases (ltb i k)) [
      | inl l ↦ sym (rw (drop-cons i k p ps, l) refl)
      | inr l ↦ rw (drop-cons i k p ps, l, e, drop-stop i k ps l) refl
    ]

    required_tail :
        p.is_optional ≡ false
        → (leb (suc i) k && all optional (drop (k - suc i) ps))
          ≡ (leb n k && all optional (drop (k - i) (p ∷ ps)))
    required_tail e = elim (Bool-cases (ltb i k)) [
      | inl l ↦ rw (drop-cons i k p ps, l) (ground (arith, l, h))
      | inr l ↦ rw (drop-cons i k p ps, l, e) (ground (arith, l, h))
    ]

-- A call with k arguments gives at least the required ones exactly if every parameter from the k-th
-- on is optional.
pub required_arity-leb :
    (k : ℕ) (ps : List Param) → leb (required_arity ps) k ≡ all optional (drop k ps)
unfolding required_arity
required_arity-leb k ps =
    let all_of : k - 0 ≡ k = omega arith in
    arity_from-leb 0 0 k ps (omega arith) ∙ rw all_of (ground arith)
