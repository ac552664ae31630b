-- ===== src/Runtime/Channel/Fifo.antt =====
-- What a channel delivers over any sequence of sections, by whichever tasks.
use fct.Base.{
  String, ◌≡◌, ◌≢◌, refl, sym, ap, ◌∙◌, true, false, List, [], ◌∷◌, ◌++◌, append-nil, append_assoc,
}
use fct.Runtime.Channel.Sound.{
  Ran, blocked_send, refused_send, queued_send, blocked_recv, failed_recv, took, refused_try,
  queued_try, closed_now, watched, unwatched, section-Ran,
}
use fct.Runtime.Channel.{
  Chan, Section, sends, tries, Answer, waits, answers, delivers, fails, run_section, send_section,
  recv_section, try_section, close_section,
}

-- The value that a section put into the queue, and the one that it handed out.
abbrev pub accepted_by : Section → Answer → List String
accepted_by (sends v) (answers true) = v ∷ []
accepted_by (tries v) (answers true) = v ∷ []
accepted_by _ _ = []

abbrev pub delivered_by : Answer → List String
delivered_by (delivers v) = v ∷ []
delivered_by waits = []
delivered_by (answers b) = []
delivered_by fails = []

unfoldable pub run_sections : List Section → Chan → Chan
unfolding send_section recv_section try_section close_section
run_sections [] c = c
run_sections (sec ∷ secs) c = run_sections secs (run_section sec c).0

unfoldable pub accepted : List Section → Chan → List String
unfolding send_section recv_section try_section close_section
accepted [] c = []
accepted (sec ∷ secs) c =
    accepted_by sec (run_section sec c).1 ++ accepted secs (run_section sec c).0

unfoldable pub delivered : List Section → Chan → List String
unfolding send_section recv_section try_section close_section
delivered [] c = []
delivered (sec ∷ secs) c =
    delivered_by (run_section sec c).1 ++ delivered secs (run_section sec c).0

-- A section on an open channel that leaves it open: what it takes comes last, what it gives is first.
Ran-fifo :
    (c : Chan) (sec : Section) (r : Chan × Answer)
    → Ran c sec r
    → r.0.closed ≡ false
    → (c.queue ++ accepted_by sec r.1 ≡ delivered_by r.1 ++ r.0.queue) × (c.closed ≡ false)
Ran-fifo c sec r (blocked_send v f e) h = (append-nil c.queue, e)
Ran-fifo c sec r (refused_send v e) h = absurd (cc)
Ran-fifo c sec r (queued_send v f e) h = (refl, e)
Ran-fifo c sec r (blocked_recv q e) h = (append-nil c.queue, e)
Ran-fifo c sec r (failed_recv e) h = absurd (cc)
Ran-fifo c sec r (took v rest q e) h = (append-nil c.queue ∙ q, e)
Ran-fifo c sec r (refused_try v f) h = (append-nil c.queue, h)
Ran-fifo c sec r (queued_try v f e) h = (refl, e)
Ran-fifo c sec r closed_now h = absurd (cc)
Ran-fifo c sec r (watched w) h = (append-nil c.queue, h)
Ran-fifo c sec r (unwatched w) h = (append-nil c.queue, h)

open-before :
    (secs : List Section) (c : Chan) → (run_sections secs c).closed ≡ false → c.closed ≡ false
unfolding run_sections
open-before [] c h = h
open-before (sec ∷ secs) c h =
    (Ran-fifo c sec _ (section-Ran sec c) (open-before secs (run_section sec c).0 h)).1

-- As long as a channel is open, what it has delivered and what it still holds is what it held and has
-- accepted since, in the same order: nothing is lost, doubled or overtaken.
pub sections-fifo :
    (secs : List Section) (c : Chan)
    → (run_sections secs c).closed ≡ false
    → c.queue ++ accepted secs c ≡ delivered secs c ++ (run_sections secs c).queue
unfolding run_sections accepted delivered
sections-fifo [] c h = append-nil c.queue
sections-fifo (sec ∷ secs) c h =
    let r = run_section sec c in
    let here = (Ran-fifo c sec r (section-Ran sec c) (open-before secs r.0 h)).0 in
    sym (append_assoc c.queue (accepted_by sec r.1) (accepted secs r.0))
    ∙ ap (λ q. q ++ accepted secs r.0) here
    ∙ append_assoc (delivered_by r.1) r.0.queue (accepted secs r.0)
    ∙ ap (λ q. delivered_by r.1 ++ q) (sections-fifo secs r.0 h)
    ∙ sym (append_assoc (delivered_by r.1) (delivered secs r.0) (run_sections secs r.0).queue)

-- A closed channel stays closed.
Ran-closed :
    (c : Chan) (sec : Section) (r : Chan × Answer)
    → Ran c sec r
    → c.closed ≡ true
    → (r.0.closed ≡ true) × (accepted_by sec r.1 ≡ []) × (delivered_by r.1 ≡ []) × (r.1 ≢ waits)
Ran-closed c sec r (blocked_send v f e) h = absurd (cc)
Ran-closed c sec r (refused_send v e) h = (h, refl, refl, λ q. cc)
Ran-closed c sec r (queued_send v f e) h = absurd (cc)
Ran-closed c sec r (blocked_recv q e) h = absurd (cc)
Ran-closed c sec r (failed_recv e) h = (h, refl, refl, λ q. cc)
Ran-closed c sec r (took v rest q e) h = absurd (cc)
Ran-closed c sec r (refused_try v f) h = (h, refl, refl, λ q. cc)
Ran-closed c sec r (queued_try v f e) h = absurd (cc)
Ran-closed c sec r closed_now h = (refl, refl, refl, λ q. cc)
Ran-closed c sec r (watched w) h = (h, refl, refl, λ q. cc)
Ran-closed c sec r (unwatched w) h = (h, refl, refl, λ q. cc)

-- Once a channel is closed, whatever follows accepts and delivers nothing, and leaves it closed.
pub closed-sections :
    (secs : List Section) (c : Chan)
    → c.closed ≡ true
    → ((run_sections secs c).closed ≡ true) × (accepted secs c ≡ []) × (delivered secs c ≡ [])
unfolding run_sections accepted delivered
closed-sections [] c h = (h, refl, refl)
closed-sections (sec ∷ secs) c h =
    let here = Ran-closed c sec _ (section-Ran sec c) h in
    let rest = closed-sections secs (run_section sec c).0 here.0 in
    (
      rest.0,
      ap (λ xs. xs ++ accepted secs (run_section sec c).0) here.1 ∙ rest.1,
      ap (λ xs. xs ++ delivered secs (run_section sec c).0) here.2 ∙ rest.2,
    )
