-- ===== src/Runtime/Jobs/Tests.antt =====
-- A failing job on the in-memory queue: no attempt is counted, so a limit of 2 is never reached.
use fct.Base.{String, ◌≡◌, Bool, true, refl, List, [], ◌∷◌}
use fct.Runtime.Jobs.{
  Job, Store, Outcome, failed, enqueue_job, work, claim_job, finish_job, finish, finish_in, run_job,
  first_due, lease_first, backoff, backoff_loop,
}
use fct.Runtime.Jobs.Work.{IsValid, Round, work-Round}
use fct.Runtime.Jobs.Queue.{Event, enqueues, rounds, run_event, run_events, run_events-IsValid}

abbrev mail : Job
mail = record {
  id = 0;
  queue = "cron";
  action = "mail";
  run_at = 0;
  attempts = 0;
  max_attempts = 2;
  status = "";
  last_error = "";
}

abbrev none_yet : Store
none_yet = record { jobs = []; next_job = 0; crons = [] }

abbrev one_mail : Store
one_mail = record {
  jobs = record mail { id = 1; status = "pending" } ∷ [];
  next_job = 1;
  crons = [];
}

abbrev all_known : String → Bool
all_known a = true

abbrev fails : Job → Outcome
fails j = failed "down"

abbrev days : List Event
days = enqueues mail ∷ rounds 1 fails ∷ rounds 1000 fails ∷ rounds 2000 fails ∷ []

three_failures :
    (run_events all_known days none_yet).jobs
    ≡ record mail { id = 1; status = "pending"; last_error = "down"; run_at = 2005 } ∷ []
unfolding run_events run_event enqueue_job work claim_job finish_job finish finish_in run_job
    first_due lease_first backoff backoff_loop
three_failures = refl

work-Round_example : Round all_known fails 5 one_mail (work all_known fails 5 one_mail)
work-Round_example = work-Round all_known fails 5 one_mail (tt, tt)

run_events-IsValid_example : IsValid (run_events all_known days none_yet)
run_events-IsValid_example =
    run_events-IsValid all_known days none_yet (record { unique = tt; below = tt })
