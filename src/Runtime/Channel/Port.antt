-- ===== src/Runtime/Channel/Port.antt =====
-- What a channel promises: a queue of at most n values in the order of their arrival, until it is shut.
use fct.Base.{
  ℕ, ◌<◌, String, ◌≡◌, refl, true, false, List, [], ◌∷◌, ◌++◌, length, arith, if◌then◌else◌,
  Bool-cases, inl, inr,
}
use fct.Runtime.Channel.{
  Chan, Section, sends, receives, tries, closes, watches, unwatches, Answer, waits, answers,
  delivers, fails, run_section,
}
use fct.Runtime.Channel.Sound.{
  Ran, blocked_send, refused_send, queued_send, blocked_recv, failed_recv, took, refused_try,
  queued_try, closed_now, watched, unwatched, section-Ran, IsChan, Ran-IsChan,
}

pub data Port : Type 0 where
  shut : Port
  holding : List String → Port

-- Who watches a channel, and what a closed one held, is not part of the promise.
abbrev pub view : Chan → Port
view c = if c.closed then shut else holding c.queue

pub data Rule (n : ℕ) : Port → Section → Answer → Port → Type 0 where
  send_waits :
      (v : String) (q : List String) → length q ≡ n → Rule n (holding q) (sends v) waits (holding q)
  send_queues :
      (v : String) (q : List String)
      → length q < n
      → Rule n (holding q) (sends v) (answers true) (holding (q ++ v ∷ []))
  send_refused : (v : String) → Rule n shut (sends v) (answers false) shut
  recv_waits : Rule n (holding []) receives waits (holding [])
  recv_takes :
      (v : String) (q : List String) → Rule n (holding (v ∷ q)) receives (delivers v) (holding q)
  recv_fails : Rule n shut receives fails shut
  try_full :
      (v : String) (q : List String)
      → length q ≡ n
      → Rule n (holding q) (tries v) (answers false) (holding q)
  try_queues :
      (v : String) (q : List String)
      → length q < n
      → Rule n (holding q) (tries v) (answers true) (holding (q ++ v ∷ []))
  try_refused : (v : String) → Rule n shut (tries v) (answers false) shut
  shuts : (p : Port) → Rule n p closes (answers true) shut
  watch_added : (w : ℕ) (p : Port) → Rule n p (watches w) (answers true) p
  watch_removed : (w : ℕ) (p : Port) → Rule n p (unwatches w) (answers true) p

Ran-Rule :
    (c : Chan) (sec : Section) (r : Chan × Answer)
    → IsChan c
    → Ran c sec r
    → Rule c.capacity (view c) sec r.1 (view r.0)
Ran-Rule c sec r k (blocked_send v f e) = rw e (send_waits v c.queue (ground (arith, f, k.bounded)))
Ran-Rule c sec r k (refused_send v e) = rw e (send_refused v)
Ran-Rule c sec r k (queued_send v f e) = rw e (send_queues v c.queue (ground (arith, f)))
Ran-Rule c sec r k (blocked_recv q e) = rw (e, q) recv_waits
Ran-Rule c sec r k (failed_recv e) = rw e recv_fails
Ran-Rule c sec r k (took v rest q e) = rw (e, q) (recv_takes v rest)
Ran-Rule c sec r k (refused_try v f) = elim (Bool-cases c.closed) [
  | inl e ↦ rw e (try_refused v)
  | inr e ↦ rw e (try_full v c.queue (ground (arith, e, f, k.bounded)))
]
Ran-Rule c sec r k (queued_try v f e) = rw e (try_queues v c.queue (ground (arith, f)))
Ran-Rule c sec r k closed_now = shuts (view c)
Ran-Rule c sec r k (watched w) = watch_added w (view c)
Ran-Rule c sec r k (unwatched w) = watch_removed w (view c)

pub Ran-capacity :
    (c : Chan) (sec : Section) (r : Chan × Answer) → Ran c sec r → r.0.capacity ≡ c.capacity
Ran-capacity c sec r (blocked_send v f e) = refl
Ran-capacity c sec r (refused_send v e) = refl
Ran-capacity c sec r (queued_send v f e) = refl
Ran-capacity c sec r (blocked_recv q e) = refl
Ran-capacity c sec r (failed_recv e) = refl
Ran-capacity c sec r (took v rest q e) = refl
Ran-capacity c sec r (refused_try v f) = refl
Ran-capacity c sec r (queued_try v f e) = refl
Ran-capacity c sec r closed_now = refl
Ran-capacity c sec r (watched w) = refl
Ran-capacity c sec r (unwatched w) = refl

-- On a channel that holds at most its capacity, and nothing once it is closed, every section is a rule
-- of a bounded queue: a send appends its value where there is room and waits where the queue is
-- exactly full, a receive takes the oldest value and waits where there is none, trySend refuses in
-- place of waiting, and a closed channel refuses all three. The channel stays within its capacity.
pub section-Rule :
    (sec : Section) (c : Chan)
    → IsChan c
    → Rule c.capacity (view c) sec (run_section sec c).1 (view (run_section sec c).0)
      × IsChan (run_section sec c).0
      × ((run_section sec c).0.capacity ≡ c.capacity)
section-Rule sec c k =
    let ran = section-Ran sec c in
    (Ran-Rule c sec _ k ran, Ran-IsChan c sec _ k ran, Ran-capacity c sec _ ran)
