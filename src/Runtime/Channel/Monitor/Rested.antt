-- ===== src/Runtime/Channel/Monitor/Rested.antt =====
-- No wake-up is lost: who sleeps has to.
use fct.Base.{
  ℕ, ◌≡◌, refl, true, false, Option, none, some, List, [], ◌∷◌, length, All, All-map, arith,
}
use fct.Runtime.Channel.{
  Chan, Section, sends, receives, tries, closes, watches, unwatches, Answer, run_section,
}
use fct.Runtime.Channel.Sound.{
  Ran, blocked_send, refused_send, queued_send, blocked_recv, failed_recv, took, refused_try,
  queued_try, closed_now, watched, unwatched, section-Ran, IsChan, Ran-IsChan,
}
use fct.Runtime.Channel.Monitor.{
  broadcasts, Task, Monitor, after_section, turn, pick, Event, arrives, proceeds, proceed,
  run_steps, idle,
}

-- What a section waits for has not come: room for a send, a value for a receive, or the close.
abbrev pub IsStuck : Chan → Section → Type 0
IsStuck c (sends v) = (c.closed ≡ false) × (length c.queue ≡ c.capacity)
IsStuck c receives = (c.closed ≡ false) × (c.queue ≡ [])
IsStuck c (tries v) = true ≡ false
IsStuck c closes = true ≡ false
IsStuck c (watches w) = true ≡ false
IsStuck c (unwatches w) = true ≡ false

pub record IsRested (m : Monitor) : Type 0 where
  pub chan : IsChan m.chan
  pub asleep : All (λ t. IsStuck m.chan t.section) m.asleep

-- Who watches a channel does not matter.
watch-IsStuck :
    (c : Chan) (ws : List ℕ) (sec : Section)
    → IsStuck c sec
    → IsStuck (record c { watchers = ws }) sec
watch-IsStuck c ws (sends v) h = h
watch-IsStuck c ws receives h = h
watch-IsStuck c ws (tries v) h = h
watch-IsStuck c ws closes h = h
watch-IsStuck c ws (watches w) h = h
watch-IsStuck c ws (unwatches w) h = h

after-IsRested :
    (id : ℕ) (sec : Section) (m : Monitor) (r : Chan × Answer)
    → IsRested m
    → Ran m.chan sec r
    → IsRested (after_section (record { id = id; section = sec }) r m)
unfolding broadcasts
after-IsRested id sec m r h (blocked_send v f e) = record {
  chan = h.chan;
  asleep = ((e, ground (arith, f, h.chan.bounded)), h.asleep);
}
after-IsRested id sec m r h (refused_send v e) = record { chan = h.chan; asleep = h.asleep }
after-IsRested id sec m r h (queued_send v f e) = record {
  chan = Ran-IsChan m.chan sec r h.chan (queued_send v f e);
  asleep = tt;
}
after-IsRested id sec m r h (blocked_recv q e) = record {
  chan = h.chan;
  asleep = ((e, q), h.asleep);
}
after-IsRested id sec m r h (failed_recv e) = record { chan = h.chan; asleep = h.asleep }
after-IsRested id sec m r h (took v rest q e) = record {
  chan = Ran-IsChan m.chan sec r h.chan (took v rest q e);
  asleep = tt;
}
after-IsRested id sec m r h (refused_try v f) = record { chan = h.chan; asleep = h.asleep }
after-IsRested id sec m r h (queued_try v f e) = record {
  chan = Ran-IsChan m.chan sec r h.chan (queued_try v f e);
  asleep = tt;
}
after-IsRested id sec m r h closed_now = record {
  chan = Ran-IsChan m.chan sec r h.chan closed_now;
  asleep = tt;
}
after-IsRested id sec m r h (watched w) = record {
  chan = Ran-IsChan m.chan sec r h.chan (watched w);
  asleep =
      All-map (λ t. IsStuck m.chan t.section) _ m.asleep
        (λ t. watch-IsStuck m.chan (run_section (watches w) m.chan).0.watchers t.section) h.asleep;
}
after-IsRested id sec m r h (unwatched w) = record {
  chan = Ran-IsChan m.chan sec r h.chan (unwatched w);
  asleep =
      All-map (λ t. IsStuck m.chan t.section) _ m.asleep
        (λ t. watch-IsStuck m.chan (run_section (unwatches w) m.chan).0.watchers t.section)
        h.asleep;
}

proceed-IsRested :
    (o : Option (Task × List Task)) (m : Monitor) → IsRested m → IsRested (proceed o m)
unfolding turn
proceed-IsRested none m h = h
proceed-IsRested (some (t, rest)) m h =
    after-IsRested t.id t.section (record m { awake = rest }) _
      (record { chan = h.chan; asleep = h.asleep }) (section-Ran t.section m.chan)

steps-IsRested : (es : List Event) (m : Monitor) → IsRested m → IsRested (run_steps es m)
unfolding run_steps
steps-IsRested [] m h = h
steps-IsRested (arrives t ∷ es) m h =
    steps-IsRested es _ (record { chan = h.chan; asleep = h.asleep })
steps-IsRested (proceeds k ∷ es) m h = steps-IsRested es _ (proceed-IsRested (pick k m.awake) m h)

-- Whatever tasks come to a new channel and in whatever order they go on, none sleeps through what it
-- waits for: a sender sleeps only while the channel is open and exactly full, a receiver only while it
-- is open and empty, and no other builtin sleeps.
pub run_steps-IsRested : (n : ℕ) (es : List Event) → IsRested (run_steps es (idle n))
run_steps-IsRested n es =
    steps-IsRested es (idle n)
      (record { chan = record { bounded = omega arith; emptied = λ e. refl }; asleep = tt })
