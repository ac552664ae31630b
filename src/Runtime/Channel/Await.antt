-- ===== src/Runtime/Channel/Await.antt =====
-- awaitAny of runtime/channel.go: one task's wait on several channels, with the other tasks' sections
-- in between. The position that a phase stands at is the number of channels it is past.
pub mod Wakes
pub mod Heard
use fct.Base.{
  ℕ, zero, suc, Bool, true, false, not, ◌&&◌, ◌||◌, List, [], ◌∷◌, ◌==◌, nat_eq, if◌then◌else◌,
  elem, keep, ◌≡◌, Result, ok, err,
}
use fct.Runtime.Channel.{
  Chan, Section, sends, receives, tries, closes, watches, unwatches, System, at, Found, held,
  was_closed, unknown, lookup_id, ChannelError, no_such_channel, no_channels,
}

pub data Phase : Type 0 where
  watching : List ℕ → Phase
  checking : ℕ → List ℕ → Phase
  waiting : Phase
  answered : ℕ → Phase
  timed_out : Phase

-- The lookups before the wait: a handle that is closed is answered at once.
unfoldable pub look_up : ℕ → List ℕ → List ℕ → System → Result ChannelError Phase
look_up i ids [] s = ok (watching ids)
look_up i ids (id ∷ rest) s =
    let next = look_up (suc i) ids rest s in
    elim (lookup_id id s) [
      | held ↦ next
      | was_closed ↦ ok (answered i)
      | unknown ↦ err no_such_channel
    ]

unfoldable pub begin_await : List ℕ → System → Result ChannelError Phase
unfolding look_up lookup_id
begin_await [] s = err no_channels
begin_await (id ∷ ids) s = look_up 0 (id ∷ ids) (id ∷ ids) s

abbrev pub is_ready : Chan → Bool
is_ready c = has_value c.queue || c.closed
  where
    has_value : {A : Type 0} → List A → Bool
    has_value [] = false
    has_value (x ∷ xs) = true

-- The next step of the task w that waits on ids.
unfoldable pub await_step : ℕ → List ℕ → Phase → System → Phase × System
unfolding at
await_step w ids (watching []) s = (checking 0 ids, s)
await_step w ids (watching (id ∷ rest)) s = (watching rest, (at id (watches w) s).0)
await_step w ids (checking i []) s = (waiting, s)
await_step w ids (checking i (id ∷ rest)) s =
    if is_ready (s.heap id) then (answered i, s) else (checking (suc i) rest, s)
await_step w ids waiting s =
    if elem w s.signals
    then (checking 0 ids, record s { signals = keep (λ x. not (x == w)) s.signals })
    else (waiting, s)
await_step w ids (answered i) s = (answered i, s)
await_step w ids timed_out s = (timed_out, s)

-- What the other tasks do: they register and withdraw no wake-up channel but their own.
abbrev pub is_other : ℕ → Section → Bool
is_other w (watches x) = not (x == w)
is_other w (unwatches x) = not (x == w)
is_other w (sends v) = true
is_other w receives = true
is_other w (tries v) = true
is_other w closes = true

-- The states that a wait can be in, whatever the other tasks do between its steps.
pub data Reaches (w : ℕ) (ids : List ℕ) : Phase → System → Type 0 where
  starts : (s : System) → Reaches w ids (watching ids) s
  own :
      (p : Phase) (s : System)
      → Reaches w ids p s
      → Reaches w ids (await_step w ids p s).0 (await_step w ids p s).1
  others :
      (p : Phase) (s : System) (id : ℕ) (sec : Section)
      → Reaches w ids p s
      → is_other w sec ≡ true
      → Reaches w ids p (at id sec s).0
  times_out : (s : System) → Reaches w ids waiting s → Reaches w ids timed_out s
