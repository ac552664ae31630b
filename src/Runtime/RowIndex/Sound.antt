-- ===== src/Runtime/RowIndex/Sound.antt =====
-- The positions that an index names for a value hold every row whose field equals it.
use fct.Base.{
  ℕ, ◌≡◌, ◌⊎◌, inl, inr, refl, subst, ◌∙◌, Bool, true, false, ◌||◌, Eq, Option, none, some, List,
  nat_eq, String, lookup, arith, Option-cases,
}
use fct.Base.Text.{Text, text_is, text_eq_iff}
use fct.Runtime.Value.{
  Any, nil, int, float, bool, text, bytes, items, row, Host, get_field, to_str, to_int,
}
use fct.Runtime.Value.Equal.{equal}
use fct.Runtime.RowIndex.{
  View, build, int_like, text_probe, text_key, bucket, no_view, build_ints, build_texts, named_by,
  positions_of,
}
use fct.Runtime.RowIndex.Positions.{positions}
use fct.Runtime.RowIndex.Views.{keyed, keyless, key_at, build-Holds}

text_probe-eq : {F : Type 0} (probe : Any F) (t : Text) → text_probe probe ≡ some t → probe ≡ text t
text_probe-eq (text s) t e = cc
text_probe-eq nil t e = absurd (cc)
text_probe-eq (int n) t e = absurd (cc)
text_probe-eq (float f) t e = absurd (cc)
text_probe-eq (bool b) t e = absurd (cc)
text_probe-eq (bytes b) t e = absurd (cc)
text_probe-eq (items b) t e = absurd (cc)
text_probe-eq (row b) t e = absurd (cc)

keyed-apart : {K : Type 0} ⦃c : Eq K⦄ (o : Option K) (k : K) → keyed o k ≡ true → keyless o ≡ false
keyed-apart none k e = absurd (cc)
keyed-apart (some own) k e = refl

module _ {F : Type 0} (h : Host F) where
  -- `==` holds between two values, in one order or the other.
  abbrev pub Same : Any F → Any F → Type 0
  Same v w = (equal h v w ≡ true) ⊎ (equal h w v ≡ true)

  ints-Same :
      (v probe : Any F) (k : ℕ)
      → int_like probe ≡ some k
      → Same v probe
      → (keyed (int_like v) k || keyless (int_like v)) ≡ true
  unfolding int_like equal to_int
  ints-Same nil nil k e s = ground arith
  ints-Same nil (int m) k e (inl s) = ground arith
  ints-Same nil (int m) k e (inr s) = ground arith
  ints-Same (int n) nil k e (inl s) = ground arith
  ints-Same (int n) nil k e (inr s) = ground arith
  ints-Same (int n) (int m) k e (inl s) = ground arith
  ints-Same (int n) (int m) k e (inr s) = ground arith
  ints-Same (float f) probe k e s = refl
  ints-Same (bool b) probe k e s = refl
  ints-Same (text t) probe k e s = refl
  ints-Same (bytes t) probe k e s = refl
  ints-Same (items t) probe k e s = refl
  ints-Same (row t) probe k e s = refl
  ints-Same v probe k e s = absurd (cc)

  texts-Same :
      (v : Any F) (t : Text)
      → Same v (text t)
      → (keyed (text_key h v) t || keyless (text_key h v)) ≡ true
  unfolding text_key equal to_str
  texts-Same (bytes s) t e = refl
  texts-Same (items s) t e = refl
  texts-Same (text s) t e = elim e [
    | inl f ↦ ground (arith, f)
    | inr f ↦ ground (arith, text_eq_iff t s, text_eq_iff s t)
  ]
  texts-Same v t (inl e) = ground (arith, text_eq_iff t (to_str h v), text_eq_iff (to_str h v) t)
  texts-Same v t (inr e) = ground (arith, text_eq_iff t (to_str h v), text_eq_iff (to_str h v) t)

  -- The positions named for a value: those of two tests that no row passes both, and every row whose
  -- field equals the value passes one.
  pub record Names (name : String) (all : List (Any F)) (probe : Any F) (a b : List ℕ)
      : Type 0 where
    pub hit : Any F → Bool
    pub left : Any F → Bool
    pub exact : a ≡ positions hit 0 all
    pub loose : b ≡ positions left 0 all
    pub apart : (r : Any F) → hit r ≡ true → left r ≡ false
    pub covers : (r : Any F) → Same (get_field r name) probe → (hit r || left r) ≡ true

  module _ {K : Type 0} ⦃c : Eq K⦄ (key_of : Any F → Option K) (name : String) where
    named_by-Names :
        (all : List (Any F)) (probe : Any F) (k : K) (view : Option (View K)) (a b : List ℕ)
        → ((v : Any F) → Same v probe → (keyed (key_of v) k || keyless (key_of v)) ≡ true)
        → build key_of name 0 no_view all ≡ view
        → named_by k view ≡ some (a, b)
        → Names name all probe a b
    unfolding lookup
    named_by-Names all probe k none a b key built e = absurd (cc)
    named_by-Names all probe k (some view) a b key built e =
        let held = build-Holds key_of name 0 no_view all view built in
        record {
          hit = λ r. keyed (key_at key_of name r) k;
          left = λ r. keyless (key_at key_of name r);
          exact = (let f : a ≡ bucket k view = cc in f) ∙ held.exact k;
          loose = (let f : b ≡ view.loose = cc in f) ∙ held.loose;
          apart = λ r. keyed-apart (key_at key_of name r) k;
          covers = λ r same. key (get_field r name) same;
        }

  pub positions_of-Names :
      (name : String) (all : List (Any F)) (probe : Any F) (a b : List ℕ)
      → positions_of h name all probe ≡ some (a, b)
      → Names name all probe a b
  unfolding positions_of build_ints build_texts
  positions_of-Names name all probe a b e = elim (Option-cases (int_like probe)) [
    | inr (k, found) ↦
        named_by-Names int_like name all probe k _ a b (λ v. ints-Same v probe k found) refl
          (rw (found, positions_of) at e)
    | inl no_int ↦ elim (Option-cases (text_probe probe)) [
      | inl no_text ↦ absurd (cc (rw (no_int, positions_of, no_text) at e))
      | inr (t, found) ↦
          named_by-Names (text_key h) name all probe t _ a b
            (λ v same. texts-Same v t (subst (Same v) (text_probe-eq probe t found) same)) refl
            (rw (no_int, positions_of, found) at e)
    ]
  ]
