-- ===== src/Runtime/Channel/Sound.antt =====
-- What a section does, case by case, and what every channel keeps.
use fct.Base.{
  ℕ, ◌≤◌, String, ◌≡◌, refl, ap, ◌⊎◌, true, false, not, ◌&&◌, ◌||◌, List, [], ◌∷◌, ◌==◌, nat_eq,
  length, length-append, arith, if_cases, keep,
}
use fct.Runtime.Channel.{
  Chan, Section, sends, receives, tries, closes, watches, unwatches, Answer, waits, answers,
  delivers, fails, run_section, send_section, recv_section, try_section, close_section, take_first,
  full, enqueued,
}

-- The rules of a channel: what a section may do to it, and when it waits.
pub data Ran (c : Chan) : Section → Chan × Answer → Type 0 where
  blocked_send : (v : String) → full c ≡ true → c.closed ≡ false → Ran c (sends v) (c, waits)
  refused_send : (v : String) → c.closed ≡ true → Ran c (sends v) (c, answers false)
  queued_send :
      (v : String)
      → full c ≡ false
      → c.closed ≡ false
      → Ran c (sends v) (enqueued v c, answers true)
  blocked_recv : c.queue ≡ [] → c.closed ≡ false → Ran c receives (c, waits)
  failed_recv : c.closed ≡ true → Ran c receives (c, fails)
  took :
      (v : String) (rest : List String)
      → c.queue ≡ v ∷ rest
      → c.closed ≡ false
      → Ran c receives (record c { queue = rest }, delivers v)
  refused_try :
      (v : String) → (c.closed ≡ true) ⊎ (full c ≡ true) → Ran c (tries v) (c, answers false)
  queued_try :
      (v : String)
      → full c ≡ false
      → c.closed ≡ false
      → Ran c (tries v) (enqueued v c, answers true)
  closed_now : Ran c closes (record c { closed = true; queue = [] }, answers true)
  watched :
      (w : ℕ)
      → Ran c
          (watches w)
          (record c { watchers = w ∷ keep (λ x. not (x == w)) c.watchers }, answers true)
  unwatched :
      (w : ℕ)
      → Ran c
          (unwatches w)
          (record c { watchers = keep (λ x. not (x == w)) c.watchers }, answers true)

send-Ran : (v : String) (c : Chan) → Ran c (sends v) (send_section v c)
unfolding send_section
send-Ran v c =
    if_cases (Ran c (sends v)) (full c && not c.closed) _ _
      (λ e. blocked_send v (ground (arith, e)) (ground (arith, e)))
      λ e.
        if_cases (Ran c (sends v)) c.closed _ _ (λ f. refused_send v f)
          λ f. queued_send v (ground (arith, e, f)) f

try-Ran : (v : String) (c : Chan) → Ran c (tries v) (try_section v c)
unfolding try_section
try-Ran v c =
    if_cases (Ran c (tries v)) (c.closed || full c) _ _ (λ e. refused_try v (ground (arith, e)))
      λ e. queued_try v (ground (arith, e)) (ground (arith, e))

took-Ran :
    (c : Chan) (q : List String) → c.queue ≡ q → c.closed ≡ false → Ran c receives (take_first q c)
took-Ran c [] e f = blocked_recv e f
took-Ran c (v ∷ rest) e f = took v rest e f

recv-Ran : (c : Chan) → Ran c receives (recv_section c)
unfolding recv_section
recv-Ran c =
    if_cases (Ran c receives) c.closed _ _ (λ e. failed_recv e) λ e. took-Ran c c.queue refl e

-- Every section of a channel's builtins is one of the rules: it waits only where the rules say so, a
-- closed channel takes and gives nothing, a full one takes nothing, and a receive gives the oldest
-- value.
pub section-Ran : (sec : Section) (c : Chan) → Ran c sec (run_section sec c)
unfolding close_section
section-Ran (sends v) c = send-Ran v c
section-Ran receives c = recv-Ran c
section-Ran (tries v) c = try-Ran v c
section-Ran closes c = closed_now
section-Ran (watches w) c = watched w
section-Ran (unwatches w) c = unwatched w

-- What every channel keeps: no more values than its capacity, and none once it is closed.
pub record IsChan (c : Chan) : Type 0 where
  pub bounded : length c.queue ≤ c.capacity
  pub emptied : c.closed ≡ true → c.queue ≡ []

enqueued-IsChan :
    (c : Chan) (v : String) → full c ≡ false → c.closed ≡ false → IsChan (enqueued v c)
enqueued-IsChan c v f e = record {
  bounded = rw (length-append c.queue (v ∷ [])) (ground (arith, f));
  emptied = λ g. absurd (cc);
}

pub Ran-IsChan :
    (c : Chan) (sec : Section) (r : Chan × Answer) → IsChan c → Ran c sec r → IsChan r.0
Ran-IsChan c sec r h (blocked_send v f e) = h
Ran-IsChan c sec r h (refused_send v e) = h
Ran-IsChan c sec r h (queued_send v f e) = enqueued-IsChan c v f e
Ran-IsChan c sec r h (blocked_recv q e) = h
Ran-IsChan c sec r h (failed_recv e) = h
Ran-IsChan c sec r h (took v rest q e) = record {
  bounded = omega (arith, h.bounded, ap length q);
  emptied = λ f. absurd (cc);
}
Ran-IsChan c sec r h (refused_try v f) = h
Ran-IsChan c sec r h (queued_try v f e) = enqueued-IsChan c v f e
Ran-IsChan c sec r h closed_now = record { bounded = ground arith; emptied = λ e. refl }
Ran-IsChan c sec r h (watched w) = record { bounded = h.bounded; emptied = h.emptied }
Ran-IsChan c sec r h (unwatched w) = record { bounded = h.bounded; emptied = h.emptied }
