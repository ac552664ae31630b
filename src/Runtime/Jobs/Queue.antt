-- ===== src/Runtime/Jobs/Queue.antt =====
-- The queue over any sequence of enqueued jobs and worker rounds.
use fct.Base.{
  ℕ, suc, ◌≤◌, String, ◌≡◌, ◌≢◌, subst, refl, inl, inr, Bool, List, [], ◌∷◌, ◌++◌, ◌==◌, nat_eq,
  if◌then◌else◌, arith, All, All-append, All-map, Bool-cases,
}
use fct.Runtime.Jobs.{Job, Store, Outcome, succeeded, failed, panicked, enqueue_job, work, leased}
use fct.Runtime.Jobs.Work.{
  IsUnique, IsValid, Round, idle, settles, with_job, settled, settled_known, retried, work-Round,
}

-- A job is enqueued, or a worker makes a round at a time, with the outcomes of that moment.
pub data Event : Type 0 where
  enqueues : Job → Event
  rounds : ℕ → (Job → Outcome) → Event

unfoldable pub run_event : (String → Bool) → Event → Store → Store
run_event known (enqueues j) s = enqueue_job j s
run_event known (rounds now outcome) s = work known outcome now s

unfoldable pub run_events : (String → Bool) → List Event → Store → Store
run_events known [] s = s
run_events known (e ∷ es) s = run_events known es (run_event known e s)

retried-id : (now : ℕ) (j : Job) (msg : String) → (retried now j msg).id ≡ j.id
retried-id now j msg = ground arith

settled-id :
    (known : String → Bool) (outcome : Job → Outcome) (now : ℕ) (j : Job)
    → (settled known outcome now j).id ≡ j.id
settled-id known outcome now j = elim (Bool-cases (known j.action)) [
  | inl e ↦ rw e (by_outcome (outcome (leased j)))
  | inr e ↦ rw e refl
]
  where
    by_outcome : (o : Outcome) → (settled_known now j o).id ≡ j.id
    by_outcome succeeded = refl
    by_outcome (failed msg) = retried-id now j msg
    by_outcome panicked = retried-id now j "panic in action"

-- Replacing a job by one of the same id keeps what only the id decides.
with_job-All :
    (P : ℕ → Type 0) (id : ℕ) (k : Job) (js : List Job)
    → k.id ≡ id
    → All (λ x. P x.id) js
    → All (λ x. P x.id) (with_job id k js)
with_job-All P id k [] e h = tt
with_job-All P id k (x ∷ js) e h = (first, with_job-All P id k js e h.1)
  where
    first : P (if x.id == id then k else x).id
    first = elim (Bool-cases (x.id == id)) [
      | inl q ↦ let same : x.id ≡ k.id = ground (arith, q, e) in rw q (subst P same h.0)
      | inr q ↦ rw q h.0
    ]

with_job-IsUnique :
    (id : ℕ) (k : Job) (js : List Job) → k.id ≡ id → IsUnique js → IsUnique (with_job id k js)
with_job-IsUnique id k [] e h = tt
with_job-IsUnique id k (x ∷ js) e h = elim (Bool-cases (x.id == id)) [
  | inl q ↦
      let same : x.id ≡ k.id = ground (arith, q, e) in
      rw q (
        with_job-All (λ i. i ≢ k.id) id k js e (subst (λ i. All (λ y. y.id ≢ i) js) same h.0),
        with_job-IsUnique id k js e h.1,
      )
  | inr q ↦ rw q (with_job-All (λ i. i ≢ x.id) id k js e h.0, with_job-IsUnique id k js e h.1)
]

Round-IsValid :
    (known : String → Bool) (outcome : Job → Outcome) (now : ℕ) (s t : Store)
    → IsValid s
    → Round known outcome now s t
    → IsValid t
Round-IsValid known outcome now s _ v (idle h) = v
Round-IsValid known outcome now s _ v (settles j i d) =
    let e = settled-id known outcome now j in
    record {
      unique = with_job-IsUnique j.id (settled known outcome now j) s.jobs e v.unique;
      below =
          with_job-All (λ i. i ≤ s.next_job) j.id (settled known outcome now j) s.jobs e v.below;
    }

IsUnique-append :
    (j : Job) (js : List Job) → IsUnique js → All (λ k. j.id ≢ k.id) js → IsUnique (js ++ j ∷ [])
IsUnique-append j [] u h = (tt, tt)
IsUnique-append j (k ∷ js) u h =
    (All-append (λ x. x.id ≢ k.id) js (j ∷ []) u.0 (h.0, tt), IsUnique-append j js u.1 h.1)

enqueue-IsValid : (j : Job) (s : Store) → IsValid s → IsValid (enqueue_job j s)
unfolding enqueue_job
enqueue-IsValid j s v = record {
  unique =
      IsUnique-append _ s.jobs v.unique
        (All-map (λ k. k.id ≤ s.next_job) _ s.jobs (λ k h e. omega (arith, h, e)) v.below);
  below =
      All-append _ s.jobs _
        (All-map (λ k. k.id ≤ s.next_job) (λ k. k.id ≤ suc s.next_job) s.jobs
          (λ k h. omega (arith, h)) v.below)
        (omega arith, tt);
}

-- Whatever is enqueued and however the rounds end, no two jobs of the queue ever share an id and none
-- is above the counter, if that holds at the start.
pub run_events-IsValid :
    (known : String → Bool) (es : List Event) (s : Store)
    → IsValid s
    → IsValid (run_events known es s)
unfolding run_events run_event
run_events-IsValid known [] s v = v
run_events-IsValid known (enqueues j ∷ es) s v =
    run_events-IsValid known es (enqueue_job j s) (enqueue-IsValid j s v)
run_events-IsValid known (rounds now outcome ∷ es) s v =
    run_events-IsValid known es (work known outcome now s)
      (Round-IsValid known outcome now s _ v (work-Round known outcome now s v.unique))
