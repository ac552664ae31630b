-- ===== src/Runtime/Channel/Await/Wakes.antt =====
-- The wake-ups of awaitAny: a section keeps the watch on a channel, and tells the watchers when it becomes ready.
use fct.Base.{
  ℕ, ◌≡◌, refl, sym, ◌∙◌, subst, inl, inr, ◌⊎◌, Bool, true, false, not, List, [], ◌∷◌, ◌++◌, ◌==◌,
  nat_eq, if◌then◌else◌, elem, keep, elem-append, arith, Bool-cases, if_true, if_false, ==_refl,
}
use fct.Runtime.Channel.{Chan, Section, watches, Answer, notifies, System, at, put, run_section}
use fct.Runtime.Channel.Sound.{
  Ran, blocked_send, refused_send, queued_send, blocked_recv, failed_recv, took, refused_try,
  queued_try, closed_now, watched, unwatched, section-Ran,
}
use fct.Runtime.Channel.Await.{is_ready, is_other}

elem-keep :
    (w x : ℕ) (ws : List ℕ)
    → (x == w) ≡ false
    → elem w ws ≡ true
    → elem w (keep (λ y. not (y == x)) ws) ≡ true
elem-keep w x [] e h = h
elem-keep w x (y ∷ ws) e h = ground (arith, elem-keep w x ws e)

-- A channel becomes ready only by a section that notifies.
Ran-ready :
    (c : Chan) (sec : Section) (r : Chan × Answer)
    → Ran c sec r
    → is_ready r.0 ≡ true
    → (is_ready c ≡ true) ⊎ (notifies sec r.1 ≡ true)
Ran-ready c sec r (blocked_send v f e) h = inl h
Ran-ready c sec r (refused_send v e) h = inl h
Ran-ready c sec r (queued_send v f e) h = inr refl
Ran-ready c sec r (blocked_recv q e) h = inl h
Ran-ready c sec r (failed_recv e) h = inl h
Ran-ready c sec r (took v rest q e) h = inl (ground (arith, q))
Ran-ready c sec r (refused_try v f) h = inl h
Ran-ready c sec r (queued_try v f e) h = inr refl
Ran-ready c sec r closed_now h = inr refl
Ran-ready c sec r (watched w) h = inl h
Ran-ready c sec r (unwatched w) h = inl h

Ran-watched :
    (w : ℕ) (c : Chan) (sec : Section) (r : Chan × Answer)
    → is_other w sec ≡ true
    → Ran c sec r
    → elem w c.watchers ≡ true
    → elem w r.0.watchers ≡ true
Ran-watched w c sec r o (blocked_send v f e) h = h
Ran-watched w c sec r o (refused_send v e) h = h
Ran-watched w c sec r o (queued_send v f e) h = h
Ran-watched w c sec r o (blocked_recv q e) h = h
Ran-watched w c sec r o (failed_recv e) h = h
Ran-watched w c sec r o (took v rest q e) h = h
Ran-watched w c sec r o (refused_try v f) h = h
Ran-watched w c sec r o (queued_try v f e) h = h
Ran-watched w c sec r o closed_now h = h
Ran-watched w c sec r o (watched x) h =
    ground (arith, elem-keep w x c.watchers (ground (arith, o)) h)
Ran-watched w c sec r o (unwatched x) h = elem-keep w x c.watchers (ground (arith, o)) h

-- The wake-up channel of w is full, and the channel knows it.
abbrev pub Signalled : ℕ → System → Type 0
Signalled w s = elem w s.signals ≡ true

abbrev pub Watched : ℕ → System → ℕ → Type 0
Watched w s id = elem w (s.heap id).watchers ≡ true

-- If the channel is ready, the wake-up is pending.
abbrev pub Heard : ℕ → System → ℕ → Type 0
Heard w s id = is_ready (s.heap id) ≡ true → Signalled w s

-- A wake-up that is pending stays so until w takes it.
signals-grow :
    (w : ℕ) (b : Bool) (ws signals : List ℕ)
    → elem w signals ≡ true
    → elem w (if b then ws ++ signals else signals) ≡ true
signals-grow w true ws signals h = elem-append w ws signals ∙ ground (arith, h)
signals-grow w false ws signals h = h

signals-sent :
    (w : ℕ) (b : Bool) (ws signals : List ℕ)
    → elem w ws ≡ true
    → b ≡ true
    → elem w (if b then ws ++ signals else signals) ≡ true
signals-sent w true ws signals h e = elem-append w ws signals ∙ ground (arith, h)
signals-sent w false ws signals h e = absurd (cc)

abbrev pub Keeps : ℕ → ℕ → System → System → Type 0
Keeps w id s t = Watched w t id × (Heard w s id → Heard w t id)

at-Keeps :
    (w id : ℕ) (sec : Section) (s : System)
    → is_other w sec ≡ true
    → Watched w s id
    → Keeps w id s (at id sec s).0
unfolding at
at-Keeps w id sec s o h =
    let r = run_section sec (s.heap id) in
    let ran = section-Ran sec (s.heap id) in
    let here : put id r.0 s.heap id ≡ r.0 = if_true (id == id) r.0 (s.heap id) (==_refl id) in
    (
      subst (λ c. elem w c.watchers ≡ true) (sym here) (Ran-watched w (s.heap id) sec r o ran h),
      λ before after.
          elim (Ran-ready (s.heap id) sec r ran (subst (λ c. is_ready c ≡ true) here after)) [
            | inl old ↦
                signals-grow w (notifies sec r.1) (s.heap id).watchers s.signals (before old)
            | inr new ↦ signals-sent w (notifies sec r.1) (s.heap id).watchers s.signals h new
          ],
    )

at-other :
    (w id other : ℕ) (sec : Section) (s : System)
    → (id == other) ≡ false
    → ((at id sec s).0.heap other ≡ s.heap other) × (Signalled w s → Signalled w (at id sec s).0)
unfolding at
at-other w id other sec s e =
    let r = run_section sec (s.heap id) in
    (
      if_false (id == other) r.0 (s.heap other) e,
      signals-grow w (notifies sec r.1) (s.heap id).watchers s.signals,
    )

pub other-Keeps :
    (w id other : ℕ) (sec : Section) (s : System)
    → is_other w sec ≡ true
    → Watched w s other
    → Keeps w other s (at id sec s).0
other-Keeps w id other sec s o h = elim (Bool-cases (id == other)) [
  | inl e ↦
      let same : id ≡ other = ground (arith, e) in
      subst (λ x. Keeps w x s (at id sec s).0) same
        (at-Keeps w id sec s o (subst (λ x. Watched w s x) (sym same) h))
  | inr e ↦
      let rest = at-other w id other sec s e in
      (
        subst (λ c. elem w c.watchers ≡ true) (sym rest.0) h,
        λ before after. rest.1 (before (subst (λ c. is_ready c ≡ true) rest.0 after)),
      )
]

-- Watching one channel keeps the watch on the others.
pub watch-Watched :
    (w id other : ℕ) (s : System)
    → Watched w s other ⊎ (other ≡ id)
    → Watched w (at id (watches w) s).0 other
unfolding at
watch-Watched w id other s h = elim (Bool-cases (id == other)) [
  | inl e ↦
      let c = (run_section (watches w) (s.heap id)).0 in
      subst (λ c. elem w c.watchers ≡ true) (sym (if_true (id == other) c (s.heap other) e))
        (ground (arith, ==_refl w))
  | inr e ↦ elim h [
    | inl k ↦ subst (λ c. elem w c.watchers ≡ true) (sym (at-other w id other (watches w) s e).0) k
    | inr k ↦ absurd (ground (arith, e, k))
  ]
]
