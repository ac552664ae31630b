-- ===== src/Runtime/Channel/Monitor.antt =====
-- runtime/channel.go: the tasks at a channel's mutex and its condition.
-- A task takes the mutex, runs its section and lets the mutex go, by returning or by cond.Wait. The
-- tasks in cond.Wait are asleep until a section ends by cond.Broadcast, which wakes them all: each
-- takes the mutex again in its turn and tests its loop's condition anew. Which task is next is free.
pub mod Rested
pub mod Tally
pub mod OneSided
use fct.Base.{
  ℕ, zero, suc, Bool, true, false, Option, none, some, List, [], ◌∷◌, ◌++◌, if◌then◌else◌,
}
use fct.Runtime.Channel.{
  Chan, Section, sends, receives, tries, closes, watches, unwatches, Answer, waits, answers,
  delivers, fails, run_section, send_section, recv_section, try_section, close_section,
}

-- Whether a section calls cond.Broadcast before it returns.
unfoldable pub broadcasts : Section → Answer → Bool
broadcasts (sends v) (answers queued) = queued
broadcasts receives (delivers v) = true
broadcasts (tries v) (answers queued) = queued
broadcasts closes a = true
broadcasts _ _ = false

pub record Task : Type 0 where
  pub id : ℕ
  pub section : Section

pub record Monitor : Type 0 where
  pub chan : Chan
  pub awake : List Task
  pub asleep : List Task
  pub ended : List (Task × Answer)

abbrev pub returns : Task → Answer → Monitor → Monitor
returns t a m =
    if broadcasts t.section a
    then record m { awake = m.asleep ++ m.awake; asleep = []; ended = (t, a) ∷ m.ended }
    else record m { ended = (t, a) ∷ m.ended }

-- What a section has left behind, and whether its task sleeps or returns.
abbrev pub after_section : Task → Chan × Answer → Monitor → Monitor
after_section t (c, waits) m = record m { chan = c; asleep = t ∷ m.asleep }
after_section t (c, answers b) m = returns t (answers b) (record m { chan = c })
after_section t (c, delivers v) m = returns t (delivers v) (record m { chan = c })
after_section t (c, fails) m = returns t fails (record m { chan = c })

unfoldable pub turn : Task → Monitor → Monitor
unfolding broadcasts send_section recv_section try_section close_section
turn t m = after_section t (run_section t.section m.chan) m

-- The entry at a position, and the others.
unfoldable pub pick : ℕ → List Task → Option (Task × List Task)
pick k [] = none
pick zero (t ∷ ts) = some (t, ts)
pick (suc k) (t ∷ ts) = elim (pick k ts) [ none ↦ none | some (u, rest) ↦ some (u, t ∷ rest) ]

-- A task arrives, or the awake task at a position takes the mutex.
pub data Event : Type 0 where
  arrives : Task → Event
  proceeds : ℕ → Event

abbrev pub proceed : Option (Task × List Task) → Monitor → Monitor
proceed none m = m
proceed (some (t, rest)) m = turn t (record m { awake = rest })

abbrev pub step : Event → Monitor → Monitor
step (arrives t) m = record m { awake = t ∷ m.awake }
step (proceeds k) m = proceed (pick k m.awake) m

unfoldable pub run_steps : List Event → Monitor → Monitor
unfolding turn pick
run_steps [] m = m
run_steps (e ∷ es) m = run_steps es (step e m)

-- A new channel, with no task at it.
abbrev pub idle : ℕ → Monitor
idle n = record {
  chan = record { queue = []; closed = false; capacity = n; watchers = [] };
  awake = [];
  asleep = [];
  ended = [];
}
