-- ===== src/Runtime/Channel/Tests.antt =====
-- A channel of two places, and a wait on it that another task's send ends.
use fct.Base.{
  String, Bool, ◌==◌, nat_eq, ℕ, ◌≡◌, refl, true, false, List, [], ◌∷◌, ◌++◌, ok, err, arith,
}
use fct.Runtime.Channel.{
  Chan, Section, sends, receives, tries, answers, delivers, run_section, send_section, recv_section,
  try_section, close_section, System, at, create_sized, send, recv, close, close_all, close_ids,
  lookup_id, no_such_channel, out_of_range,
}
use fct.Runtime.Channel.Sound.{IsChan}
use fct.Runtime.Channel.Port.{Rule, view, section-Rule}
use fct.Runtime.Channel.Monitor.{Task, Event, arrives, proceeds, pick, turn, run_steps, idle}
use fct.Runtime.Channel.Monitor.Rested.{IsRested, run_steps-IsRested}
use fct.Runtime.Channel.Monitor.OneSided.{IsOneSided, run_steps-IsOneSided}
use fct.Runtime.Channel.Fifo.{run_sections, accepted, delivered, sections-fifo}
use fct.Runtime.Channel.Await.{
  watching, checking, waiting, answered, await_step, Reaches, starts, own, others,
}
use fct.Runtime.Channel.Await.Heard.{Reaches-wakes, Reaches-answers, await_steps, position_of}

abbrev pair_of : Chan
pair_of = record { queue = "a" ∷ []; closed = false; capacity = 2; watchers = [] }

abbrev shut : Chan
shut = record { queue = []; closed = true; capacity = 2; watchers = [] }

-- The second send finds the channel full; a trySend then answers false.
abbrev script : List Section
script = sends "b" ∷ sends "c" ∷ tries "d" ∷ receives ∷ sends "e" ∷ []

sections-fifo_example :
    pair_of.queue ++ accepted script pair_of
    ≡ delivered script pair_of ++ (run_sections script pair_of).queue
unfolding run_sections send_section recv_section try_section
sections-fifo_example = sections-fifo script pair_of refl

script_queue : (run_sections script pair_of).queue ≡ "b" ∷ "e" ∷ []
unfolding run_sections send_section recv_section try_section
script_queue = refl

pair_of-IsChan : IsChan pair_of
pair_of-IsChan = record { bounded = omega arith; emptied = λ e. absurd (cc) }

section-Rule_example :
    Rule 2
      (view pair_of)
      (sends "b")
      (run_section (sends "b") pair_of).1
      (view (run_section (sends "b") pair_of).0)
    × IsChan (run_section (sends "b") pair_of).0
    × ((run_section (sends "b") pair_of).0.capacity ≡ 2)
section-Rule_example = section-Rule (sends "b") pair_of pair_of-IsChan

abbrev sender : ℕ → String → Task
sender id v = record { id = id; section = sends v }

abbrev receiver : ℕ → Task
receiver id = record { id = id; section = receives }

-- On one place, the second of two senders sleeps until a receiver makes room.
abbrev rendezvous : List Event
rendezvous =
    arrives (sender 1 "a")
    ∷ arrives (sender 2 "b")
    ∷ arrives (receiver 3)
    ∷ proceeds 2
    ∷ proceeds 1
    ∷ []

second_sleeps : (run_steps rendezvous (idle 1)).asleep ≡ sender 2 "b" ∷ []
unfolding run_steps turn pick send_section
second_sleeps = refl

receive_wakes : (run_steps (rendezvous ++ proceeds 0 ∷ []) (idle 1)).awake ≡ sender 2 "b" ∷ []
unfolding run_steps turn pick send_section recv_section
receive_wakes = refl

run_steps-IsRested_example : IsRested (run_steps rendezvous (idle 1))
run_steps-IsRested_example = run_steps-IsRested 1 rendezvous

run_steps-IsOneSided_example : IsOneSided (run_steps rendezvous (idle 1)).asleep
run_steps-IsOneSided_example = run_steps-IsOneSided 1 rendezvous (omega arith)

abbrev is_second : Task → Bool
is_second t = t.id == 2

abbrev empty : System
empty = record { next = 0; open_ids = []; heap = λ id. shut; signals = [] }

-- Handles 1 and 2, and what becomes of them.
created_answer : (create_sized 2 (create_sized 1 empty).0).1 ≡ ok 2
unfolding create_sized
created_answer = refl

too_wide : (create_sized 5000 empty).1 ≡ err (out_of_range 5000)
unfolding create_sized
too_wide = refl

abbrev two : System
unfolding create_sized
two = (create_sized 2 (create_sized 1 empty).0).0

received : (recv 1 (send 1 "a" two).0).1 ≡ ok (delivers "a")
unfolding recv send lookup_id at recv_section send_section create_sized
received = refl

closed_answers : (send 1 "a" (close_all two)).1 ≡ ok (answers false)
unfolding close_all close_ids close send lookup_id at close_section send_section create_sized
closed_answers = refl

never_minted : (send 3 "a" two).1 ≡ err no_such_channel
unfolding send lookup_id at send_section create_sized
never_minted = refl

-- Task 7 waits on both channels, and task 8 sends on the second one.
abbrev both : List ℕ
both = 1 ∷ 2 ∷ []

abbrev begun : System
unfolding at create_sized
begun = (at 2 (Section.watches 7) (at 1 (Section.watches 7) two).0).0

abbrev woken : System
unfolding at send_section create_sized
woken = (at 2 (sends "x") begun).0

begun-Reaches : Reaches 7 both waiting begun
unfolding await_step at create_sized
begun-Reaches = own (checking 2 []) begun (
    own (checking 1 (2 ∷ [])) begun (
      own (checking 0 both) begun (
        own (watching []) begun
          (own (watching (2 ∷ [])) _ (own (watching both) two (starts two))))))

woken-Reaches : Reaches 7 both waiting woken
unfolding at send_section create_sized
woken-Reaches = others waiting begun 2 (sends "x") begun-Reaches refl

Reaches-wakes_example : (await_step 7 both waiting woken).0 ≡ checking 0 both
unfolding at send_section create_sized
Reaches-wakes_example = Reaches-wakes 7 both woken woken-Reaches refl

Reaches-answers_example : (await_steps 3 7 both waiting woken).0 ≡ answered 1
unfolding at send_section create_sized position_of
Reaches-answers_example = Reaches-answers 7 both woken woken-Reaches refl
