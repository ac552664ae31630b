-- ===== src/Runtime/Jobs.antt =====
-- The durable jobs: the worker's step of runtime/jobs.go (run, finish, backoff) on the in-memory
-- queue of runtime/memstore.go (EnqueueJob, ClaimJob, FinishJob, PendingJobs, ReserveCron).
-- Times are seconds, and 0 is the zero time. Whether the program declares an action, and how its run
-- ends, are parameters. The arguments of a job are left out: the queue only carries them.
pub mod Backoff
pub mod Queue
pub mod Work
mod Tests
use Prim.Native.String.{◌++◌ as concat}
use fct.Base.{
  ℕ, zero, suc, ◌+◌, ◌*◌, String, Bool, true, false, not, ◌&&◌, Option, none, some, List, [], ◌∷◌,
  ◌++◌, ◌==◌, nat_eq, string_eq, if◌then◌else◌, leb, ltb, Map, lookup, insert,
}

pub record Job : Type 0 where
  pub id : ℕ
  pub queue : String
  pub action : String
  pub run_at : ℕ
  pub attempts : ℕ
  pub max_attempts : ℕ
  pub status : String
  pub last_error : String

pub record Store : Type 0 where
  pub jobs : List Job
  pub next_job : ℕ
  pub crons : Map String ℕ

-- EnqueueJob: the next id, and the status `pending` if none is given.
unfoldable pub enqueue_job : Job → Store → Store
enqueue_job j s =
    let row : Job = record j {
      id = suc s.next_job;
      status = if j.status == "" then "pending" else j.status;
    } in
    record s { next_job = suc s.next_job; jobs = s.jobs ++ row ∷ [] }

abbrev pub is_due : ℕ → Job → Bool
is_due now j = j.status == "pending" && leb j.run_at now

abbrev pub leased : Job → Job
leased j = record j { status = "running" }

unfoldable pub first_due : ℕ → List Job → Option Job
first_due now [] = none
first_due now (j ∷ js) = if is_due now j then some j else first_due now js

unfoldable pub lease_first : ℕ → List Job → List Job
lease_first now [] = []
lease_first now (j ∷ js) = if is_due now j then leased j ∷ js else j ∷ lease_first now js

abbrev pub copy_of : Option Job → Option Job
copy_of none = none
copy_of (some j) = some (leased j)

-- ClaimJob: the first due job, and a copy of it.
unfoldable pub claim_job : ℕ → Store → Store × Option Job
claim_job now s = (record s { jobs = lease_first now s.jobs }, copy_of (first_due now s.jobs))

abbrev pub finished : String → String → ℕ → Job → Job
finished status last_error next_run j =
    if status == "retry"
    then record j {
      status = "pending";
      last_error = last_error;
      run_at = next_run;
      attempts = suc j.attempts;
    }
    else record j { status = status; last_error = last_error; run_at = next_run }

unfoldable pub finish_in : ℕ → String → String → ℕ → List Job → List Job
finish_in id status last_error next_run [] = []
finish_in id status last_error next_run (j ∷ js) =
    if j.id == id
    then finished status last_error next_run j ∷ js
    else j ∷ finish_in id status last_error next_run js

-- FinishJob: the first job with the id.
unfoldable pub finish_job : ℕ → String → String → ℕ → Store → Store
unfolding finish_in
finish_job id status last_error next_run s = record s {
  jobs = finish_in id status last_error next_run s.jobs;
}

unfoldable pub pending_in : List Job → ℕ
pending_in [] = 0
pending_in (j ∷ js) = if j.status == "pending" then suc (pending_in js) else pending_in js

-- PendingJobs
unfoldable pub pending_jobs : Store → ℕ
pending_jobs s = pending_in s.jobs

abbrev reserve_at : String → ℕ → Option ℕ → Store → Store × Bool
reserve_at name next none s = (record s { crons = insert name next s.crons }, true)
reserve_at name next (some due) s =
    if ltb next due then (s, false) else (record s { crons = insert name next s.crons }, true)

-- ReserveCron
unfoldable pub reserve_cron : String → ℕ → Store → Store × Bool
reserve_cron name next s = reserve_at name next (lookup name s.crons) s

abbrev pub backoff_base : ℕ
backoff_base = 5

abbrev pub backoff_cap : ℕ
backoff_cap = 600

-- The loop, for the rounds that are left.
unfoldable pub backoff_loop : ℕ → ℕ → ℕ
backoff_loop zero d = d
backoff_loop (suc n) d =
    let rest = backoff_loop n (d * 2) in if leb backoff_cap (d * 2) then backoff_cap else rest

-- From i = 1 while i < attempt.
unfoldable pub backoff : ℕ → ℕ
unfolding backoff_loop
backoff zero = backoff_base
backoff (suc n) = backoff_loop n backoff_base

-- `finish`, of a job that failed.
unfoldable pub finish : ℕ → Job → String → Store → Store
unfolding finish_job backoff
finish now j msg s =
    if leb j.max_attempts j.attempts
    then finish_job j.id "dead" msg 0 s
    else finish_job j.id "pending" msg (now + backoff j.attempts) s

abbrev pub unknown_action : Job → String
unknown_action j = concat "unknown action " j.action

-- How the run of an action ends.
pub data Outcome : Type 0 where
  succeeded : Outcome
  failed : String → Outcome
  panicked : Outcome

module _ (known : String → Bool) (outcome : Job → Outcome) where
  abbrev run_known : ℕ → Job → Outcome → Store → Store
  run_known now j succeeded s = finish_job j.id "done" "" 0 s
  run_known now j (failed msg) s = finish now j msg s
  run_known now j panicked s = finish now j "panic in action" s

  -- `run`: an action that the program does not have goes to the dead letters at once.
  unfoldable pub run_job : ℕ → Job → Store → Store
  run_job now j s =
      if known j.action
      then run_known now j (outcome j) s
      else finish_job j.id "dead" (unknown_action j) 0 s

  abbrev pub run_claimed : ℕ → Option Job → Store → Store
  run_claimed now none s = s
  run_claimed now (some j) s = run_job now j s

  -- One round of `work`.
  unfoldable pub work : ℕ → Store → Store
  unfolding claim_job
  work now s = run_claimed now (claim_job now s).1 (claim_job now s).0
