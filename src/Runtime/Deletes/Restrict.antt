-- ===== src/Runtime/Deletes/Restrict.antt =====
-- What checkRestrict answers, and where it never does.
use fct.Base.{
  ℕ, zero, suc, String, ◌≡◌, refl, sym, ap, ◌∙◌, subst, inl, inr, ◌⊎◌, true, Option, none, some,
  List, [], ◌∷◌, nat_eq, elem, In,
}
use fct.Runtime.Deletes.{
  OnDelete, cascade, restrict, set_null, Reference, Stored, Rows, rows_in, field_int, ref_ids,
  Verdict, allowed, refused, verdict_along, first_refusal, check_each, check_restrict,
}
use fct.Runtime.Deletes.Lemmas.{elem-ref_ids}

-- A delete of ids would take a row that a restricting relation protects: one that references ids, or
-- one that references rows which the cascade takes with them.
pub data Blocked (children : String → List Reference) (rows : Rows) : String → List ℕ → Type 0 where
  protected :
      (e : String) (ids : List ℕ) (ch : Reference) (i : ℕ) (is : List ℕ)
      → In ch (children e)
      → ch.on_delete ≡ restrict
      → ref_ids ch.field ids (rows_in ch.entity rows) ≡ i ∷ is
      → Blocked children rows e ids
  through :
      (e : String) (ids : List ℕ) (ch : Reference) (i : ℕ) (is : List ℕ)
      → In ch (children e)
      → ch.on_delete ≡ cascade
      → ref_ids ch.field ids (rows_in ch.entity rows) ≡ i ∷ is
      → Blocked children rows ch.entity (i ∷ is)
      → Blocked children rows e ids

-- A verdict, if there is one, is a refusal exactly if B holds.
abbrev pub Judged : Type 0 → Option Verdict → Type 0
Judged B none = Unit
Judged B (some allowed) = B → ⊥
Judged B (some (refused ch)) = B

Judged-iff : (B C : Type 0) (v : Option Verdict) → (B → C) → (C → B) → Judged B v → Judged C v
Judged-iff B C none f g h = tt
Judged-iff B C (some allowed) f g h = λ c. h (g c)
Judged-iff B C (some (refused ch)) f g h = f h

Judged-either :
    (B C : Type 0) (v w : Option Verdict)
    → Judged B v
    → Judged C w
    → Judged (B ⊎ C) (first_refusal v w)
Judged-either B C none w h k = tt
Judged-either B C (some (refused ch)) w h k = inl h
Judged-either B C (some allowed) none h k = tt
Judged-either B C (some allowed) (some (refused ch)) h k = inr k
Judged-either B C (some allowed) (some allowed) h k = λ x. elim x [ inl b ↦ h b | inr c ↦ k c ]

module _ (children : String → List Reference) (rows : Rows) where
  -- What one relation says of the ids that reference what is deleted.
  abbrev Stops : Reference → OnDelete → List ℕ → Type 0
  Stops ch rule [] = ⊥
  Stops ch restrict (i ∷ is) = Unit
  Stops ch set_null (i ∷ is) = ⊥
  Stops ch cascade (i ∷ is) = Blocked children rows ch.entity (i ∷ is)

  abbrev StopsSome : List ℕ → List Reference → Type 0
  StopsSome ids [] = ⊥
  StopsSome ids (ch ∷ chs) =
      Stops ch ch.on_delete (ref_ids ch.field ids (rows_in ch.entity rows)) ⊎ StopsSome ids chs

  abbrev Judging : (String → List ℕ → Option Verdict) → Type 0
  Judging go = (e : String) (ids : List ℕ) → Judged (Blocked children rows e ids) (go e ids)

  along-Judged :
      (go : String → List ℕ → Option Verdict) (ch : Reference) (rule : OnDelete) (found : List ℕ)
      → Judging go
      → Judged (Stops ch rule found) (verdict_along go ch rule found)
  along-Judged go ch cascade [] j = λ b. b
  along-Judged go ch restrict [] j = λ b. b
  along-Judged go ch set_null [] j = λ b. b
  along-Judged go ch restrict (i ∷ is) j = tt
  along-Judged go ch set_null (i ∷ is) j = λ b. b
  along-Judged go ch cascade (i ∷ is) j = j ch.entity (i ∷ is)

  each-Judged :
      (go : String → List ℕ → Option Verdict) (ids : List ℕ) (chs : List Reference)
      → Judging go
      → Judged (StopsSome ids chs) (check_each go rows ids chs)
  unfolding check_each
  each-Judged go ids [] j = λ b. b
  each-Judged go ids (ch ∷ chs) j =
      let found = ref_ids ch.field ids (rows_in ch.entity rows) in
      Judged-either (Stops ch ch.on_delete found) (StopsSome ids chs)
        (verdict_along go ch ch.on_delete found) (check_each go rows ids chs)
        (along-Judged go ch ch.on_delete found j) (each-Judged go ids chs j)

  Stops-Blocked :
      (e : String) (ids : List ℕ) (ch : Reference) (rule : OnDelete) (found : List ℕ)
      → In ch (children e)
      → ch.on_delete ≡ rule
      → ref_ids ch.field ids (rows_in ch.entity rows) ≡ found
      → Stops ch rule found
      → Blocked children rows e ids
  Stops-Blocked e ids ch cascade [] c r f s = elim s [ ]
  Stops-Blocked e ids ch restrict [] c r f s = elim s [ ]
  Stops-Blocked e ids ch set_null [] c r f s = elim s [ ]
  Stops-Blocked e ids ch restrict (i ∷ is) c r f s = protected e ids ch i is c r f
  Stops-Blocked e ids ch set_null (i ∷ is) c r f s = elim s [ ]
  Stops-Blocked e ids ch cascade (i ∷ is) c r f s = through e ids ch i is c r f s

  some-Blocked :
      (e : String) (ids : List ℕ) (chs : List Reference)
      → ((ch : Reference) → In ch chs → In ch (children e))
      → StopsSome ids chs
      → Blocked children rows e ids
  some-Blocked e ids [] sub s = elim s [ ]
  some-Blocked e ids (ch ∷ chs) sub (inl s) =
      Stops-Blocked e ids ch ch.on_delete _ (sub ch (inl refl)) refl refl s
  some-Blocked e ids (ch ∷ chs) sub (inr s) = some-Blocked e ids chs (λ c h. sub c (inr h)) s

  in-StopsSome :
      (ids : List ℕ) (ch : Reference) (chs : List Reference)
      → In ch chs
      → Stops ch ch.on_delete (ref_ids ch.field ids (rows_in ch.entity rows))
      → StopsSome ids chs
  in-StopsSome ids ch [] h s = elim h [ ]
  in-StopsSome ids ch (c ∷ chs) (inl q) s = inl (
      subst (λ (x : Reference). Stops x x.on_delete (ref_ids x.field ids (rows_in x.entity rows))) q
        s)
  in-StopsSome ids ch (c ∷ chs) (inr h) s = inr (in-StopsSome ids ch chs h s)

  Stops-by :
      (ids found : List ℕ) (ch : Reference) (rule : OnDelete)
      → ch.on_delete ≡ rule
      → ref_ids ch.field ids (rows_in ch.entity rows) ≡ found
      → Stops ch rule found
      → Stops ch ch.on_delete (ref_ids ch.field ids (rows_in ch.entity rows))
  Stops-by ids found ch rule r f s =
      subst (λ x. Stops ch x (ref_ids ch.field ids (rows_in ch.entity rows))) (sym r)
        (subst (Stops ch rule) (sym f) s)

  Blocked-some :
      (e : String) (ids : List ℕ) → Blocked children rows e ids → StopsSome ids (children e)
  Blocked-some e ids (protected _ _ ch i is c r f) =
      in-StopsSome ids ch (children e) c (Stops-by ids (i ∷ is) ch restrict r f tt)
  Blocked-some e ids (through _ _ ch i is c r f b) =
      in-StopsSome ids ch (children e) c (Stops-by ids (i ∷ is) ch cascade r f b)

-- Whenever checkRestrict comes to its end, with whatever fuel, it refuses exactly the deletes that
-- would take a protected row.
pub check_restrict-Judged :
    (children : String → List Reference) (n : ℕ) (rows : Rows) (e : String) (ids : List ℕ)
    → Judged (Blocked children rows e ids) (check_restrict children n rows e ids)
unfolding check_restrict
check_restrict-Judged children zero rows e ids = tt
check_restrict-Judged children (suc n) rows e ids =
    let go = check_restrict children n rows in
    Judged-iff (StopsSome children rows ids (children e)) (Blocked children rows e ids)
      (check_each go rows ids (children e))
      (some-Blocked children rows e ids (children e) (λ c h. h)) (Blocked-some children rows e ids)
      (each-Judged children rows go ids (children e) (check_restrict-Judged children n rows))

elem-some :
    (i : ℕ) (found : List ℕ) → elem i found ≡ true → (j : ℕ) × (js : List ℕ) × (found ≡ j ∷ js)
elem-some i [] h = absurd (cc)
elem-some i (j ∷ js) h = (j, js, refl)

-- When the first relation to an entity cascades from the entity itself, and a row to be deleted
-- references itself by it, checkRestrict never comes to an end.
pub check_restrict-diverges :
    (children : String → List Reference) (n : ℕ) (rows : Rows) (e : String) (ids : List ℕ)
    (ch : Reference) (chs : List Reference) (r : Stored)
    → children e ≡ ch ∷ chs
    → ch.entity ≡ e
    → ch.on_delete ≡ cascade
    → In r (rows_in e rows)
    → field_int ch.field r ≡ r.id
    → elem r.id ids ≡ true
    → check_restrict children n rows e ids ≡ none
unfolding check_restrict check_each
check_restrict-diverges children zero rows e ids ch chs r c q rule m loops k = refl
check_restrict-diverges children (suc n) rows e ids ch chs r c q rule m loops k =
    let go = check_restrict children n rows in
    let found = ref_ids ch.field ids (rows_in ch.entity rows) in
    let own : elem r.id found ≡ true =
      elem-ref_ids ch.field ids (rows_in ch.entity rows) r
        (subst (λ x. In r (rows_in x rows)) (sym q) m) (ap (λ i. elem i ids) loops ∙ k) in
    let more = elem-some r.id found own in
    let again : check_restrict children n rows e (more.0 ∷ more.1) ≡ none =
      check_restrict-diverges children n rows e (more.0 ∷ more.1) ch chs r c q rule m loops
        (subst (λ is. elem r.id is ≡ true) more.2 own) in
    ap (check_each go rows ids) c
    ∙ ap (λ v. first_refusal v (check_each go rows ids chs))
        (ap (λ x. verdict_along go ch x found) rule
          ∙ ap (verdict_along go ch cascade) more.2
          ∙ ap (λ x. go x (more.0 ∷ more.1)) q
          ∙ again)
