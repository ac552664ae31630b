-- ===== src/Runtime/Channel/Await/Heard.antt =====
-- awaitAny of runtime/channel.go: what holds at each point of a wait, and where it ends.
use fct.Base.{
  ℕ, zero, suc, ◌+◌, ◌<◌, ◌≡◌, refl, sym, ap, ◌∙◌, subst, inl, inr, Bool, true, not, List, [], ◌∷◌,
  ◌++◌, append_assoc, append-nil, ◌==◌, nat_eq, if◌then◌else◌, elem, any, keep, length,
  length-append, arith, All, All-append, All-map, Bool-cases, if_cases, if_true, if_false,
}
use fct.Runtime.Channel.{Section, watches, System, at}
use fct.Runtime.Channel.Await.{
  Phase, watching, checking, waiting, answered, timed_out, is_ready, await_step, is_other, Reaches,
  starts, own, others, times_out,
}
use fct.Runtime.Channel.Await.Wakes.{Signalled, Watched, Heard, other-Keeps, watch-Watched}

abbrev Hears : ℕ → System → ℕ → Type 0
Hears w s id = Watched w s id × Heard w s id

-- What holds of the channels that a phase is past.
abbrev IsAwait : ℕ → List ℕ → Phase → System → Type 0
IsAwait w ids (watching rest) s = (seen : List ℕ) × (ids ≡ seen ++ rest) × All (Watched w s) seen
IsAwait w ids (checking i rest) s =
    (seen : List ℕ) × (ids ≡ seen ++ rest)
    × (length seen ≡ i)
    × All (Watched w s) ids
    × All (Hears w s) seen
IsAwait w ids waiting s = All (Hears w s) ids
IsAwait w ids (answered i) s = i < length ids
IsAwait w ids timed_out s = Unit

add_last :
    (ids seen rest : List ℕ) (id : ℕ) → ids ≡ seen ++ id ∷ rest → ids ≡ (seen ++ id ∷ []) ++ rest
add_last ids seen rest id e = e ∙ sym (append_assoc seen (id ∷ []) rest)

position :
    (ids seen rest : List ℕ) (i id : ℕ) → ids ≡ seen ++ id ∷ rest → length seen ≡ i → i < length ids
position ids seen rest i id e k = ground (arith, ap length e, length-append seen (id ∷ rest), k)

All-split : {A : Type 0} (P : A → Type 0) (xs ys : List A) → All P (xs ++ ys) → All P xs × All P ys
All-split P [] ys h = (tt, h)
All-split P (x ∷ xs) ys h = let rest = All-split P xs ys h.1 in ((h.0, rest.0), rest.1)

stays-Hears :
    (w : ℕ) (s : System) (id x : ℕ) (sec : Section)
    → is_other w sec ≡ true
    → Hears w s x
    → Hears w (at id sec s).0 x
stays-Hears w s id x sec o k = let kept = other-Keeps w id x sec s o k.0 in (kept.0, kept.1 k.1)

own-IsAwait :
    (w : ℕ) (ids : List ℕ) (p : Phase) (s : System)
    → IsAwait w ids p s
    → IsAwait w ids (await_step w ids p s).0 (await_step w ids p s).1
unfolding await_step
own-IsAwait w ids (watching []) s h =
    ([], refl, refl, subst (All (Watched w s)) (sym (h.1 ∙ append-nil h.0)) h.2, tt)
own-IsAwait w ids (watching (id ∷ rest)) s h = (
  h.0 ++ id ∷ [],
  add_last ids h.0 rest id h.1,
  All-append (Watched w (at id (watches w) s).0) h.0 (id ∷ [])
      (All-map (Watched w s) _ h.0 (λ x k. watch-Watched w id x s (inl k)) h.2)
      (watch-Watched w id id s (inr refl), tt),
)
own-IsAwait w ids (checking i []) s h = subst (All (Hears w s)) (sym (h.1 ∙ append-nil h.0)) h.4
own-IsAwait w ids (checking i (id ∷ rest)) s h =
    if_cases (λ (r : Phase × System). IsAwait w ids r.0 r.1) (is_ready (s.heap id)) (answered i, s)
      (checking (suc i) rest, s) (λ ready. position ids h.0 rest i id h.1 h.2)
      λ idle.
        let watched : Watched w s id =
          (All-split (Watched w s) h.0 (id ∷ rest) (subst (All (Watched w s)) h.1 h.3)).1.0 in
        let quiet : Heard w s id = λ ready. absurd (cc) in
        (
          h.0 ++ id ∷ [],
          add_last ids h.0 rest id h.1,
          length-append h.0 (id ∷ []) ∙ ground (arith, h.2),
          h.3,
          All-append (Hears w s) h.0 (id ∷ []) h.4 ((watched, quiet), tt),
        )
own-IsAwait w ids waiting s h =
    if_cases (λ (r : Phase × System). IsAwait w ids r.0 r.1) (elem w s.signals)
      (checking 0 ids, record s { signals = keep (λ x. not (x == w)) s.signals }) (waiting, s)
      (λ woken. ([], refl, refl, All-map (Hears w s) (Watched w s) ids (λ x k. k.0) h, tt))
      λ asleep. h
own-IsAwait w ids (answered i) s h = h
own-IsAwait w ids timed_out s h = h

others-IsAwait :
    (w : ℕ) (ids : List ℕ) (p : Phase) (s : System) (id : ℕ) (sec : Section)
    → is_other w sec ≡ true
    → IsAwait w ids p s
    → IsAwait w ids p (at id sec s).0
others-IsAwait w ids (watching rest) s id sec o h =
    (h.0, h.1, All-map (Watched w s) _ h.0 (λ x k. (other-Keeps w id x sec s o k).0) h.2)
others-IsAwait w ids (checking i rest) s id sec o h = (
  h.0,
  h.1,
  h.2,
  All-map (Watched w s) _ ids (λ x k. (other-Keeps w id x sec s o k).0) h.3,
  All-map (Hears w s) _ h.0 (λ x k. stays-Hears w s id x sec o k) h.4,
)
others-IsAwait w ids waiting s id sec o h =
    All-map (Hears w s) _ ids (λ x k. stays-Hears w s id x sec o k) h
others-IsAwait w ids (answered i) s id sec o h = h
others-IsAwait w ids timed_out s id sec o h = h

some_Heard :
    (w : ℕ) (s : System) (ids : List ℕ)
    → All (Hears w s) ids
    → any (λ id. is_ready (s.heap id)) ids ≡ true
    → Signalled w s
some_Heard w s [] h ready = absurd (cc)
some_Heard w s (id ∷ ids) h ready = elim (Bool-cases (is_ready (s.heap id))) [
  | inl e ↦ h.0.1 e
  | inr e ↦ some_Heard w s ids h.1 (ground (arith, e, ready))
]

Reaches-IsAwait :
    (w : ℕ) (ids : List ℕ) (p : Phase) (s : System) → Reaches w ids p s → IsAwait w ids p s
Reaches-IsAwait w ids p s (starts t) = ([], refl, tt)
Reaches-IsAwait w ids p s (own q t r) = own-IsAwait w ids q t (Reaches-IsAwait w ids q t r)
Reaches-IsAwait w ids p s (others q t id sec r o) =
    others-IsAwait w ids q t id sec o (Reaches-IsAwait w ids q t r)
Reaches-IsAwait w ids p s (times_out t r) = tt

-- Whatever other tasks do between the steps of a wait on ids, when it stands at the wait for its
-- wake-up and some channel of ids holds a value or is closed, then the wake-up is pending, so that
-- its next step is to look at the channels again.
pub Reaches-wakes :
    (w : ℕ) (ids : List ℕ) (s : System)
    → Reaches w ids waiting s
    → any (λ id. is_ready (s.heap id)) ids ≡ true
    → (await_step w ids waiting s).0 ≡ checking 0 ids
unfolding await_step
Reaches-wakes w ids s r ready =
    ap (λ (p : Phase × System). p.0)
      (if_true (elem w s.signals) _ (waiting, s)
        (some_Heard w s ids (Reaches-IsAwait w ids waiting s r) ready))

-- The position that a wait answers is that of one of its channels, whatever other tasks do in between.
Reaches-answered :
    (w i : ℕ) (ids : List ℕ) (s : System) → Reaches w ids (answered i) s → i < length ids
Reaches-answered w i ids s r = Reaches-IsAwait w ids (answered i) s r

-- n steps of one task, with none of the others in between.
unfoldable pub await_steps : ℕ → ℕ → List ℕ → Phase → System → Phase × System
unfolding await_step
await_steps zero w ids p s = (p, s)
await_steps (suc n) w ids p s = let r = await_step w ids p s in await_steps n w ids r.0 r.1

-- The position of the first channel that a test accepts.
unfoldable pub position_of : (ℕ → Bool) → List ℕ → ℕ
position_of test [] = 0
position_of test (id ∷ ids) = if test id then 0 else suc (position_of test ids)

steps-answered :
    (n w i : ℕ) (ids : List ℕ) (s : System) → (await_steps n w ids (answered i) s).0 ≡ answered i
unfolding await_steps await_step
steps-answered zero w i ids s = refl
steps-answered (suc n) w i ids s = steps-answered n w i ids s

steps-checking :
    (w i : ℕ) (ids rest : List ℕ) (s : System)
    → any (λ id. is_ready (s.heap id)) rest ≡ true
    → (await_steps (length rest) w ids (checking i rest) s).0
      ≡ answered (i + position_of (λ id. is_ready (s.heap id)) rest)
unfolding await_steps await_step position_of
steps-checking w i ids [] s h = absurd (cc)
steps-checking w i ids (id ∷ rest) s h = elim (Bool-cases (is_ready (s.heap id))) [
  | inl e ↦
      ap (λ (p : Phase × System). (await_steps (length rest) w ids p.0 p.1).0)
        (if_true (is_ready (s.heap id)) _ _ e)
      ∙ steps-answered (length rest) w i ids s
      ∙ ap answered (ground (arith, e))
  | inr e ↦
      ap (λ (p : Phase × System). (await_steps (length rest) w ids p.0 p.1).0)
        (if_false (is_ready (s.heap id)) _ _ e)
      ∙ steps-checking w (suc i) ids rest s (ground (arith, e, h))
      ∙ ap answered (ground (arith, e))
]

-- When a wait on ids that has reached its wait for the wake-up finds some channel of ids ready, it
-- answers the position of the first ready one within one step more than there are channels, when no
-- other task runs in between.
pub Reaches-answers :
    (w : ℕ) (ids : List ℕ) (s : System)
    → Reaches w ids waiting s
    → any (λ id. is_ready (s.heap id)) ids ≡ true
    → (await_steps (suc (length ids)) w ids waiting s).0
      ≡ answered (position_of (λ id. is_ready (s.heap id)) ids)
unfolding await_steps await_step
Reaches-answers w ids s r ready =
    ap (λ (p : Phase × System). (await_steps (length ids) w ids p.0 p.1).0)
      (if_true (elem w s.signals) _ (waiting, s)
        (some_Heard w s ids (Reaches-IsAwait w ids waiting s r) ready))
    ∙ steps-checking w 0 ids ids (record s { signals = keep (λ x. not (x == w)) s.signals }) ready
    ∙ ap answered (omega arith)
