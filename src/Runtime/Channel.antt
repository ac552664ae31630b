-- ===== src/Runtime/Channel.antt =====
-- runtime/channel.go: the bounded channels between tasks.
-- What a builtin does while it holds a channel's mutex is one section, a step of the whole system; a
-- section that waits on the condition leaves the channel as it is and is run again later. The heap
-- keeps a channel after the registry has let its handle go, since a task may still hold it. A handle
-- is a natural number: one below 1 was never minted. `signals` lists the tasks in awaitAny whose
-- one-place wake-up channel is full.
pub mod Fifo
pub mod Sound
pub mod Port
pub mod Monitor
pub mod Await
mod Tests
use fct.Base.{
  ℕ, suc, String, Bool, true, false, not, ◌&&◌, ◌||◌, Option, none, some, List, [], ◌∷◌, ◌++◌, ◌==◌,
  nat_eq, if◌then◌else◌, leb, ltb, length, elem, keep, Result, ok, err,
}

pub record Chan : Type 0 where
  pub queue : List String
  pub closed : Bool
  pub capacity : ℕ
  pub watchers : List ℕ

-- The sections: what is done under a channel's mutex.
pub data Section : Type 0 where
  sends : String → Section
  receives : Section
  tries : String → Section
  closes : Section
  watches unwatches : ℕ → Section

-- What a section answers; `waits` is the wait on the condition.
pub data Answer : Type 0 where
  waits : Answer
  answers : Bool → Answer
  delivers : String → Answer
  fails : Answer

abbrev pub full : Chan → Bool
full c = leb c.capacity (length c.queue)

abbrev pub enqueued : String → Chan → Chan
enqueued v c = record c { queue = c.queue ++ v ∷ [] }

-- The section of send.
unfoldable pub send_section : String → Chan → Chan × Answer
send_section v c =
    if full c && not c.closed
    then (c, waits)
    else if c.closed
    then (c, answers false)
    else (enqueued v c, answers true)

abbrev pub take_first : List String → Chan → Chan × Answer
take_first [] c = (c, waits)
take_first (v ∷ rest) c = (record c { queue = rest }, delivers v)

-- The section of recv.
unfoldable pub recv_section : Chan → Chan × Answer
recv_section c = if c.closed then (c, fails) else take_first c.queue c

-- The section of trySend.
unfoldable pub try_section : String → Chan → Chan × Answer
try_section v c = if c.closed || full c then (c, answers false) else (enqueued v c, answers true)

-- The section of close.
unfoldable pub close_section : Chan → Chan × Answer
close_section c = (record c { closed = true; queue = [] }, answers true)

abbrev pub run_section : Section → Chan → Chan × Answer
run_section (sends v) c = send_section v c
run_section receives c = recv_section c
run_section (tries v) c = try_section v c
run_section closes c = close_section c
run_section (watches w) c =
    (record c { watchers = w ∷ keep (λ x. not (x == w)) c.watchers }, answers true)
run_section (unwatches w) c =
    (record c { watchers = keep (λ x. not (x == w)) c.watchers }, answers true)

-- Whether a section ends by `notify`: a value was queued, or the channel was closed.
abbrev pub notifies : Section → Answer → Bool
notifies (sends v) (answers queued) = queued
notifies (tries v) (answers queued) = queued
notifies closes a = true
notifies (sends v) waits = false
notifies (sends v) (delivers x) = false
notifies (sends v) fails = false
notifies (tries v) waits = false
notifies (tries v) (delivers x) = false
notifies (tries v) fails = false
notifies receives a = false
notifies (watches w) a = false
notifies (unwatches w) a = false

pub record System : Type 0 where
  pub next : ℕ
  pub open_ids : List ℕ
  pub heap : ℕ → Chan
  pub signals : List ℕ

abbrev pub put : ℕ → Chan → (ℕ → Chan) → ℕ → Chan
put id c heap other = if id == other then c else heap other

-- A section on a channel that a task holds, with the wake-ups that it sends.
unfoldable pub at : ℕ → Section → System → System × Answer
unfolding send_section recv_section try_section close_section
at id sec s =
    let r = run_section sec (s.heap id) in
    (
      record s {
        heap = put id r.0 s.heap;
        signals = if notifies sec r.1 then (s.heap id).watchers ++ s.signals else s.signals;
      },
      r.1,
    )

pub data Found : Type 0 where
  held was_closed unknown : Found

-- lookup: a handle that was minted and let go is closed.
unfoldable pub lookup_id : ℕ → System → Found
lookup_id id s =
    if elem id s.open_ids then held else if leb 1 id && leb id s.next then was_closed else unknown

pub data ChannelError : Type 0 where
  no_such_channel is_closed no_channels : ChannelError
  out_of_range : ℕ → ChannelError

abbrev pub max_channel_buffer : ℕ
max_channel_buffer = 4096

-- createSized
unfoldable pub create_sized : ℕ → System → System × Result ChannelError ℕ
create_sized n s = if ltb n 1 || ltb max_channel_buffer n then (s, err (out_of_range n)) else (
  record s {
    next = suc s.next;
    open_ids = suc s.next ∷ s.open_ids;
    heap =
        put (suc s.next) (record { queue = []; closed = false; capacity = n; watchers = [] })
          s.heap;
  },
  ok (suc s.next),
)

-- send, trySend: a closed handle answers false.
abbrev pub on_found :
    Found → Answer → (System → System × Answer) → System → System × Result ChannelError Answer
on_found held closed section s = let r = section s in (r.0, ok r.1)
on_found was_closed closed section s = (s, ok closed)
on_found unknown closed section s = (s, err no_such_channel)

unfoldable pub send : ℕ → String → System → System × Result ChannelError Answer
unfolding at lookup_id
send id v s = on_found (lookup_id id s) (answers false) (at id (sends v)) s

unfoldable pub try_send : ℕ → String → System → System × Result ChannelError Answer
unfolding at lookup_id
try_send id v s = on_found (lookup_id id s) (answers false) (at id (tries v)) s

-- recv: a closed handle fails.
unfoldable pub recv : ℕ → System → System × Result ChannelError Answer
unfolding at lookup_id
recv id s = on_found (lookup_id id s) fails (at id receives) s

-- The registry's part of close, which comes before its section.
abbrev pub let_go : ℕ → System → System
let_go id s = record s { open_ids = keep (λ x. not (x == id)) s.open_ids }

unfoldable pub close : ℕ → System → System × Result ChannelError Answer
unfolding at lookup_id
close id s = on_found (lookup_id id s) (answers false) (λ t. at id closes (let_go id t)) s

-- closeAll, on the handles that were open when it began.
unfoldable pub close_ids : List ℕ → System → System
unfolding close
close_ids [] s = s
close_ids (id ∷ ids) s = close_ids ids (close id s).0

unfoldable pub close_all : System → System
unfolding close_ids
close_all s = close_ids s.open_ids s
