-- ===== src/Runtime/Channel/Monitor/Tally.antt =====
-- No task is lost: each is awake, asleep or has its answer.
use fct.Base.{ℕ, ◌+◌, Bool, Option, none, some, List, [], ◌∷◌, count, if◌then◌else◌}
use fct.Runtime.Channel.Monitor.{Task, Monitor, Event, arrives, proceeds}

abbrev pub arrivals : List Event → List Task
arrivals [] = []
arrivals (arrives t ∷ es) = t ∷ arrivals es
arrivals (proceeds k ∷ es) = arrivals es

module _ (p : Task → Bool) where
  -- The tasks at a monitor that a test accepts, wherever they are.
  abbrev pub present : Monitor → ℕ
  present m = count p m.awake + count p m.asleep + count (λ x. p x.0) m.ended

  abbrev one : Task → ℕ
  one t = if p t then 1 else 0

  -- The task that is picked, if any, and the others.
  abbrev in_pick : Option (Task × List Task) → ℕ → ℕ
  in_pick none n = n
  in_pick (some (t, rest)) n = one t + count p rest
