-- ===== src/Runtime/Channel/Monitor/OneSided.antt =====
-- A channel's senders and its receivers never wait for each other.
use fct.Base.{
  ℕ, ◌≤◌, ◌≡◌, refl, ap, ◌∙◌, ◌⊎◌, Option, none, some, List, [], ◌∷◌, String, length, All, All-map,
  arith, inl, inr,
}
use fct.Runtime.Channel.{
  Chan, Section, sends, receives, tries, closes, watches, unwatches, Answer, waits, answers,
  delivers, fails, run_section,
}
use fct.Runtime.Channel.Sound.{section-Ran}
use fct.Runtime.Channel.Port.{Ran-capacity}
use fct.Runtime.Channel.Monitor.{
  Task, Monitor, after_section, turn, pick, Event, arrives, proceeds, proceed, run_steps, idle,
}
use fct.Runtime.Channel.Monitor.Rested.{IsStuck, run_steps-IsRested}

after-chan : (t : Task) (r : Chan × Answer) (m : Monitor) → (after_section t r m).chan ≡ r.0
after-chan t (c, waits) m = refl
after-chan t (c, answers b) m = ground arith
after-chan t (c, delivers v) m = ground arith
after-chan t (c, fails) m = ground arith

proceed-capacity :
    (o : Option (Task × List Task)) (m : Monitor) → (proceed o m).chan.capacity ≡ m.chan.capacity
unfolding turn
proceed-capacity none m = refl
proceed-capacity (some (t, rest)) m =
    ap (λ c. c.capacity) (after-chan t (run_section t.section m.chan) (record m { awake = rest }))
    ∙ Ran-capacity m.chan t.section _ (section-Ran t.section m.chan)

steps-capacity : (es : List Event) (m : Monitor) → (run_steps es m).chan.capacity ≡ m.chan.capacity
unfolding run_steps
steps-capacity [] m = refl
steps-capacity (arrives t ∷ es) m = steps-capacity es (record m { awake = t ∷ m.awake })
steps-capacity (proceeds k ∷ es) m =
    steps-capacity es (proceed (pick k m.awake) m) ∙ proceed-capacity (pick k m.awake) m

abbrev pub IsSend : Section → Type 0
IsSend sec = (v : String) × (sec ≡ sends v)

-- No section of a list is a receive, or none is a send.
abbrev pub IsOneSided : List Task → Type 0
IsOneSided ts = All (λ t. IsSend t.section) ts ⊎ All (λ t. t.section ≡ receives) ts

module _ (c : Chan) (k : 1 ≤ c.capacity) where
  full-IsSend : (sec : Section) → length c.queue ≡ c.capacity → IsStuck c sec → IsSend sec
  full-IsSend (sends v) f h = (v, refl)
  full-IsSend receives f h = absurd (omega (arith, k, f, ap length h.1))
  full-IsSend (tries v) f h = absurd (cc)
  full-IsSend closes f h = absurd (cc)
  full-IsSend (watches w) f h = absurd (cc)
  full-IsSend (unwatches w) f h = absurd (cc)

  empty-IsReceive : (sec : Section) → c.queue ≡ [] → IsStuck c sec → sec ≡ receives
  empty-IsReceive (sends v) e h = absurd (omega (arith, k, h.1, ap length e))
  empty-IsReceive receives e h = refl
  empty-IsReceive (tries v) e h = absurd (cc)
  empty-IsReceive closes e h = absurd (cc)
  empty-IsReceive (watches w) e h = absurd (cc)
  empty-IsReceive (unwatches w) e h = absurd (cc)

  all-IsOneSided :
      (sec : Section) (ts : List Task)
      → IsStuck c sec
      → All (λ t. IsStuck c t.section) ts
      → All (λ t. IsSend t.section) ts × IsSend sec
        ⊎ All (λ t. t.section ≡ receives) ts × (sec ≡ receives)
  all-IsOneSided (sends v) ts h all =
      inl (All-map _ _ ts (λ t. full-IsSend t.section h.1) all, (v, refl))
  all-IsOneSided receives ts h all =
      inr (All-map _ _ ts (λ t. empty-IsReceive t.section h.1) all, refl)
  all-IsOneSided (tries v) ts h all = absurd (cc)
  all-IsOneSided closes ts h all = absurd (cc)
  all-IsOneSided (watches w) ts h all = absurd (cc)
  all-IsOneSided (unwatches w) ts h all = absurd (cc)

  stuck-IsOneSided : (ts : List Task) → All (λ t. IsStuck c t.section) ts → IsOneSided ts
  stuck-IsOneSided [] h = inl tt
  stuck-IsOneSided (t ∷ ts) h = elim (all-IsOneSided t.section ts h.0 h.1) [
    | inl (others, here) ↦ inl (here, others)
    | inr (others, here) ↦ inr (here, others)
  ]

-- On a channel of at least one place, whatever tasks come to it and in whatever order they go on, the
-- tasks asleep are all senders or all receivers: no sender and receiver sleep at once.
pub run_steps-IsOneSided :
    (n : ℕ) (es : List Event) → 1 ≤ n → IsOneSided (run_steps es (idle n)).asleep
run_steps-IsOneSided n es k =
    stuck-IsOneSided (run_steps es (idle n)).chan (omega (arith, k, steps-capacity es (idle n))) _
      (run_steps-IsRested n es).asleep
