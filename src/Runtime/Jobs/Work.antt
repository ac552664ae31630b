-- ===== src/Runtime/Jobs/Work.antt =====
-- One round of a worker settles the first due job and touches no other.
use Prim.Native.String.{◌++◌ as concat}
use fct.Base.{
  ℕ, ◌+◌, ◌≤◌, String, ◌≡◌, ◌≢◌, refl, sym, ap, ◌∙◌, subst, inl, inr, Bool, true, false, Option,
  none, some, List, [], ◌∷◌, ◌==◌, ==_refl, nat_eq, string_eq, if◌then◌else◌, leb, arith, In, All,
  map, Bool-cases,
}
use fct.Runtime.Jobs.{
  Job, Store, is_due, leased, first_due, lease_first, claim_job, copy_of, finish_in, finish_job,
  finish, backoff, Outcome, succeeded, failed, panicked, run_job, run_known, run_claimed, work,
}

-- No two jobs share an id, and the counter is not below any.
abbrev pub IsUnique : List Job → Type 0
IsUnique [] = Unit
IsUnique (j ∷ js) = All (λ k. k.id ≢ j.id) js × IsUnique js

pub record IsValid (s : Store) : Type 0 where
  pub unique : IsUnique s.jobs
  pub below : All (λ j. j.id ≤ s.next_job) s.jobs

-- What becomes of a job that is run at `now`.
abbrev pub retried : ℕ → Job → String → Job
retried now j msg =
    if leb j.max_attempts j.attempts
    then record j { status = "dead"; last_error = msg; run_at = 0 }
    else record j { status = "pending"; last_error = msg; run_at = now + backoff j.attempts }

abbrev pub settled_known : ℕ → Job → Outcome → Job
settled_known now j succeeded = record j { status = "done"; last_error = ""; run_at = 0 }
settled_known now j (failed msg) = retried now j msg
settled_known now j panicked = retried now j "panic in action"

abbrev pub settled : (String → Bool) → (Job → Outcome) → ℕ → Job → Job
settled known outcome now j =
    if known j.action
    then settled_known now j (outcome (leased j))
    else record j { status = "dead"; last_error = concat "unknown action " j.action; run_at = 0 }

-- The table with one job replaced.
abbrev pub with_job : ℕ → Job → List Job → List Job
with_job id k js = map (λ j. if j.id == id then k else j) js

absent-map : (id : ℕ) (k : Job) (js : List Job) → All (λ j. j.id ≢ id) js → with_job id k js ≡ js
absent-map id k [] h = refl
absent-map id k (j ∷ js) h = ground (arith, h.0, absent-map id k js h.1)

first_due-In :
    (now : ℕ) (js : List Job) (j : Job)
    → first_due now js ≡ some j
    → In j js × (is_due now j ≡ true)
unfolding first_due
first_due-In now [] j h = absurd (cc)
first_due-In now (k ∷ js) j h = elim (Bool-cases (is_due now k)) [
  | inl e ↦
      let same : k ≡ j = cc (rw e at h) in (inl (sym same), subst (λ x. is_due now x ≡ true) same e)
  | inr e ↦ let found = first_due-In now js j (rw e at h) in (inr found.0, found.1)
]

other-ids : (k j : Job) (js : List Job) → All (λ x. x.id ≢ k.id) js → In j js → j.id ≢ k.id
other-ids k j [] h i = elim i [ ]
other-ids k j (x ∷ js) h (inl e) = λ q. h.0 (sym (ap (λ y. y.id) e) ∙ q)
other-ids k j (x ∷ js) h (inr i) = other-ids k j js h.1 i

module _ (status msg : String) (next : ℕ) (r : (status == "retry") ≡ false) where
  abbrev closed : Job → Job
  closed j = record j { status = status; last_error = msg; run_at = next }

  finish-head :
      (k : Job) (js : List Job)
      → All (λ x. x.id ≢ k.id) js
      → finish_in k.id status msg next (leased k ∷ js) ≡ with_job k.id (closed k) (k ∷ js)
  unfolding finish_in
  finish-head k js h = rw (==_refl k.id, r, absent-map k.id (closed k) js h) refl

  finish-leased :
      (now : ℕ) (js : List Job) (j : Job)
      → IsUnique js
      → first_due now js ≡ some j
      → finish_in j.id status msg next (lease_first now js) ≡ with_job j.id (closed j) js
  unfolding finish_in lease_first first_due
  finish-leased now [] j u h = absurd (cc)
  finish-leased now (k ∷ js) j u h = elim (Bool-cases (is_due now k)) [
    | inl e ↦
        let same : k ≡ j = cc (rw e at h) in
        rw e (
          subst
            (λ x.
              finish_in x.id status msg next (leased k ∷ js) ≡ with_job x.id (closed x) (k ∷ js))
            same (finish-head k js u.0))
    | inr e ↦
        let here : first_due now js ≡ some j = rw e at h in
        let other = other-ids k j js u.0 (first_due-In now js j here).0 in
        let differ : (k.id == j.id) ≡ false = ground (arith, other) in
        rw (e, differ) (ap (λ xs. k ∷ xs) (finish-leased now js j u.1 here))
  ]

-- What a round does: nothing if no job is due; else it settles one due job and leaves the others.
pub data Round (known : String → Bool) (outcome : Job → Outcome) (now : ℕ) (s : Store)
    : Store → Type 0 where
  idle : All (λ j. is_due now j ≡ false) s.jobs → Round known outcome now s s
  settles :
      (j : Job)
      → In j s.jobs
      → is_due now j ≡ true
      → Round known outcome now s
          (record s { jobs = with_job j.id (settled known outcome now j) s.jobs })

none-due :
    (now : ℕ) (js : List Job)
    → first_due now js ≡ none
    → All (λ j. is_due now j ≡ false) js × (lease_first now js ≡ js)
unfolding first_due lease_first
none-due now [] h = (tt, refl)
none-due now (k ∷ js) h = elim (Bool-cases (is_due now k)) [
  | inl e ↦ absurd (cc (rw e at h))
  | inr e ↦
      let rest = none-due now js (rw e at h) in rw e ((refl, rest.0), ap (λ xs. k ∷ xs) rest.1)
]

module _ (known : String → Bool) (outcome : Job → Outcome) (now : ℕ) (s : Store)
    (v : IsUnique s.jobs) where
  abbrev claimed : Store
  claimed = record s { jobs = lease_first now s.jobs }

  abbrev with_jobs : List Job → Store
  with_jobs js = record s { jobs = js }

  failed-eq :
      (j : Job) (msg : String)
      → first_due now s.jobs ≡ some j
      → finish now (leased j) msg claimed ≡ with_jobs (with_job j.id (retried now j msg) s.jobs)
  unfolding finish finish_job
  failed-eq j msg h = elim (Bool-cases (leb j.max_attempts j.attempts)) [
    | inl e ↦ rw e (ap with_jobs (finish-leased "dead" msg 0 refl now s.jobs j v h))
    | inr e ↦ rw e (
        ap with_jobs (finish-leased "pending" msg (now + backoff j.attempts) refl now s.jobs j v h))
  ]

  known-eq :
      (j : Job) (o : Outcome)
      → first_due now s.jobs ≡ some j
      → run_known known outcome now (leased j) o claimed
        ≡ with_jobs (with_job j.id (settled_known now j o) s.jobs)
  unfolding finish_job
  known-eq j succeeded h = ap with_jobs (finish-leased "done" "" 0 refl now s.jobs j v h)
  known-eq j (failed msg) h = failed-eq j msg h
  known-eq j panicked h = failed-eq j "panic in action" h

  run-eq :
      (j : Job)
      → first_due now s.jobs ≡ some j
      → run_job known outcome now (leased j) claimed
        ≡ with_jobs (with_job j.id (settled known outcome now j) s.jobs)
  unfolding run_job finish_job
  run-eq j h = elim (Bool-cases (known j.action)) [
    | inl e ↦ rw e (known-eq j (outcome (leased j)) h)
    | inr e ↦ rw e (
        ap with_jobs
          (finish-leased "dead" (concat "unknown action " j.action) 0 refl now s.jobs j v h))
  ]

  claimed-Round :
      (o : Option Job)
      → first_due now s.jobs ≡ o
      → Round known outcome now s (run_claimed known outcome now (copy_of o) claimed)
  claimed-Round none h =
      let rest = none-due now s.jobs h in
      subst (λ js. Round known outcome now s (with_jobs js)) (sym rest.1) (idle rest.0)
  claimed-Round (some j) h =
      let found = first_due-In now s.jobs j h in rw (run-eq j h) (settles j found.0 found.1)

-- One round of a worker on a queue whose ids are unique: if no job is pending and due it changes
-- nothing; else it runs one that is and settles it, as done, as dead (an action that is not there, or
-- no attempt left) or as pending again after the backoff, and every other job stays as it is.
pub work-Round :
    (known : String → Bool) (outcome : Job → Outcome) (now : ℕ) (s : Store)
    → IsUnique s.jobs
    → Round known outcome now s (work known outcome now s)
unfolding work claim_job
work-Round known outcome now s v = claimed-Round known outcome now s v (first_due now s.jobs) refl
