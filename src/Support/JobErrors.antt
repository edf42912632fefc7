-- ===== src/Support/JobErrors.antt =====
-- What a job does with the error of its attempt.
use autonomous_csa.Base.{
  ◌≡◌, ◌≢◌, sym, subst, refl, ◌⊎◌, inl, inr, true, false, [], ◌∷◌, ℕ, ◌&&◌, if◌then◌else◌, any,
  find_first, All, List, ◌==◌, arith, Bool-cases, Option, none, some,
}
use autonomous_csa.Db.{AgentEventType}
use autonomous_csa.Support.Classifier.{
  SerializedError, RetryDisposition, RetryClassification, classify_retryable_error,
}
use autonomous_csa.Support.ClassifierLaws.{IsConsistent, classify_retryable_error-IsConsistent}
use autonomous_csa.Support.Store.{
  Store, OperationalFailure, Answer, returned, thrown, run_next, ◌>>=◌, ◌>>◌, call, return, throw,
  Run, AgentRun, AgentRunStatus,
}
use autonomous_csa.Support.Records.{
  TicketJob, is_event, append_agent_event, append_agent_event_once, find_event, with_event,
  is_open_failure, record_operational_failure,
}
use autonomous_csa.Support.Processor.{
  JobEnv, JobReturn, blocked_by_error, JobError, plain, unrecoverable, has_run_id, update_run,
  change_run, attempt_number,
}
use autonomous_csa.Support.Job.{
  rethrowing, rethrown, has_remaining_attempts, dead_letter, record_failed_run, give_up,
  is_blocking, settle_error, catch_error, failed_run, blocked_run,
}

-- The database answers every call from here on, and the run is there.
abbrev pub IsReady : TicketJob → Store → Type 0
IsReady job s = (s.faults ≡ []) × (any (has_run_id job.run_id) s.runs ≡ true)

-- The run of an identifier has a status.
abbrev pub HasRunStatus : ℕ → AgentRunStatus → Store → Type 0
HasRunStatus id status s =
    All (λ (r : AgentRun). ((r.id == id) ≡ false) ⊎ (r.status ≡ status)) s.runs

pub change_run-All :
    (id : ℕ) (change : AgentRun → AgentRun) (status : AgentRunStatus)
    → ((r : AgentRun) → (change r).status ≡ status)
    → (runs : List AgentRun)
    → All
        (λ (r : AgentRun). ((r.id == id) ≡ false) ⊎ (r.status ≡ status))
        (change_run id change runs)
change_run-All id change status gives [] = tt
change_run-All id change status gives (r ∷ runs) =
    (ground (arith, gives r), change_run-All id change status gives runs)

-- The store after the failed run is recorded.
abbrev pub after_failed_run : JobEnv → TicketJob → SerializedError → Store → Store
after_failed_run env job error s =
    record (if any (is_event job AgentEventType.run_failed) s.events
      then s
      else with_event job AgentEventType.run_failed s) {
        runs = change_run job.run_id (failed_run env.now (attempt_number job) error) s.runs;
      }

record_failed_run-ready :
    (env : JobEnv) (job : TicketJob) (error : SerializedError) (s : Store)
    → IsReady job s
    → record_failed_run env job error s ≡ (returned tt, after_failed_run env job error s)
unfolding record_failed_run append_agent_event_once find_event append_agent_event update_run call
    ◌>>=◌ ◌>>◌ return
record_failed_run-ready env job error s (h, k) = ground (arith, h, k)

block_run-ready :
    (env : JobEnv) (job : TicketJob) (s : Store)
    → IsReady job s
    → update_run env job.run_id (blocked_run env.now (attempt_number job)) s ≡ (
      returned tt,
      record s { runs = change_run job.run_id (blocked_run env.now (attempt_number job)) s.runs },
    )
unfolding update_run call
block_run-ready env job s (h, k) = ground (arith, h, k)

-- One letter, which names an open failure of the job, is added to the dead letters.
abbrev pub AddsLetter : TicketJob → Store → Store → Type 0
AddsLetter job s t =
    (id : ℕ) × ((t.dead_letters
        ≡ record {
          failure_id = id;
          original_job_id = job.id;
          run_id = job.run_id;
          ticket_id = job.ticket_id;
        }
          ∷ s.dead_letters)
      × (t.runs ≡ s.runs))

dead_letter-ready :
    (job : TicketJob) (error : SerializedError) (s : Store)
    → s.faults ≡ []
    → ((dead_letter job error s).0 ≡ returned tt) × AddsLetter job s (dead_letter job error s).1
unfolding dead_letter record_operational_failure call ◌>>=◌
dead_letter-ready job error s h = go (find_first (is_open_failure job) s.failures) refl
  where
    go :
        (o : Option OperationalFailure)
        → find_first (is_open_failure job) s.failures ≡ o
        → ((dead_letter job error s).0 ≡ returned tt) × AddsLetter job s (dead_letter job error s).1
    go none e = (ground (arith, h, e), (s.next_id, (ground (arith, h, e), ground (arith, h, e))))
    go (some f) e = (ground (arith, h, e), (f.id, (ground (arith, h, e), ground (arith, h, e))))

next-rethrown :
    {A B : Type 0} (f : A → Run JobError B) (a : A) (r : Answer SerializedError A × Store)
    → r.0 ≡ returned a
    → run_next f (rethrown r) ≡ f a r.1
next-rethrown f a (returned b, t) e = ground (arith, e)
next-rethrown f a (thrown x, t) e = ground (arith, e)

settle_blocked :
    (env : JobEnv) (job : TicketJob) (error : SerializedError) (c : RetryClassification) (s : Store)
    → IsReady job s
    → is_blocking c.disposition ≡ true
    → settle_error env job error c s ≡ (
      returned blocked_by_error,
      record s { runs = change_run job.run_id (blocked_run env.now (attempt_number job)) s.runs },
    )
unfolding settle_error ◌>>◌ rethrowing return
settle_blocked env job error c s h b = ground (arith, b, block_run-ready env job s h)

settle_failed :
    (env : JobEnv) (job : TicketJob) (error : SerializedError) (c : RetryClassification) (s : Store)
    → IsReady job s
    → is_blocking c.disposition ≡ false
    → settle_error env job error c s ≡ give_up job error c (after_failed_run env job error s)
unfolding settle_error ◌>>◌ rethrowing
settle_failed env job error c s h b = ground (arith, b, record_failed_run-ready env job error s h)

give_up_again :
    (job : TicketJob) (error : SerializedError) (c : RetryClassification) (s : Store)
    → (c.retryable && has_remaining_attempts job) ≡ true
    → give_up job error c s ≡ (thrown (plain error), s)
unfolding give_up throw
give_up_again job error c s b = ground (arith, b)

-- What is thrown when no attempt follows.
abbrev pub last_error : SerializedError → RetryClassification → JobError
last_error error c = if c.use_unrecoverable_error then unrecoverable error.message else plain error

give_up_last :
    (job : TicketJob) (error : SerializedError) (c : RetryClassification) (s : Store)
    → s.faults ≡ []
    → (c.retryable && has_remaining_attempts job) ≡ false
    → c.should_dead_letter ≡ true
    → give_up job error c s ≡ (thrown (last_error error c), (dead_letter job error s).1)
unfolding give_up throw ◌>>◌ rethrowing
give_up_last job error c s h b d = ground (
  arith,
  b,
  d,
  next-rethrown {B = JobReturn} (λ _. throw (last_error error c)) tt (dead_letter job error s)
      (dead_letter-ready job error s h).0,
)

-- The three ends of a job whose attempt threw: the run is blocked; or the run failed, and the error
-- is thrown for the next attempt; or the run failed, one letter that names the failure is added to the dead
-- letters, and what is thrown tells the queue whether to give up.
abbrev pub IsSettled :
    JobEnv
    → TicketJob
    → SerializedError
    → RetryClassification
    → Store
    → Answer JobError JobReturn × Store
    → Type 0
IsSettled env job error c s r =
    ((c.disposition ≡ RetryDisposition.blocked)
      × (r.0 ≡ returned blocked_by_error)
      × (r.1.dead_letters ≡ s.dead_letters)
      × (r.1.runs ≡ change_run job.run_id (blocked_run env.now (attempt_number job)) s.runs)
      × HasRunStatus job.run_id AgentRunStatus.blocked r.1)
    ⊎ (((c.retryable ≡ true)
          × (has_remaining_attempts job ≡ true)
          × (r.0 ≡ thrown (plain error))
          × (r.1.dead_letters ≡ s.dead_letters)
          × (r.1.runs
              ≡ change_run job.run_id (failed_run env.now (attempt_number job) error) s.runs)
          × HasRunStatus job.run_id AgentRunStatus.failed r.1)
        ⊎ (((c.retryable && has_remaining_attempts job) ≡ false)
            × (c.disposition ≢ RetryDisposition.blocked)
            × (r.0 ≡ thrown (last_error error c))
            × AddsLetter job (after_failed_run env job error s) r.1
            × HasRunStatus job.run_id AgentRunStatus.failed r.1))

settle_error-IsSettled :
    (env : JobEnv) (job : TicketJob) (error : SerializedError) (c : RetryClassification) (s : Store)
    → IsReady job s
    → IsConsistent c
    → IsSettled env job error c s (settle_error env job error c s)
settle_error-IsSettled env job error c s h k = elim (Bool-cases (is_blocking c.disposition)) [
  | inl b ↦ subst (IsSettled env job error c s) (sym (settle_blocked env job error c s h b)) (
      inl (
        ground (arith, b),
        refl,
        refl,
        refl,
        change_run-All job.run_id (blocked_run env.now (attempt_number job)) AgentRunStatus.blocked
            (λ r. refl) s.runs,
      ))
  | inr b ↦
      subst (IsSettled env job error c s) (sym (settle_failed env job error c s h b))
        (failed b (Bool-cases (c.retryable && has_remaining_attempts job)))
]
  where
    t : Store
    t = after_failed_run env job error s

    failed_status : HasRunStatus job.run_id AgentRunStatus.failed t
    failed_status =
        change_run-All job.run_id (failed_run env.now (attempt_number job) error)
          AgentRunStatus.failed (λ r. refl) s.runs

    kept : t.dead_letters ≡ s.dead_letters
    kept = ground arith

    faultless : t.faults ≡ []
    faultless = ground (arith, h.0)

    letter : AddsLetter job t (dead_letter job error t).1
    letter = (dead_letter-ready job error t faultless).1

    failed :
        is_blocking c.disposition ≡ false
        → ((c.retryable && has_remaining_attempts job) ≡ true)
          ⊎ ((c.retryable && has_remaining_attempts job) ≡ false)
        → IsSettled env job error c s (give_up job error c t)
    failed b (inl y) =
        subst (IsSettled env job error c s) (sym (give_up_again job error c t y))
          (inr (inl (ground (arith, y), ground (arith, y), refl, kept, refl, failed_status)))
    failed b (inr n) =
        subst (IsSettled env job error c s)
          (sym (give_up_last job error c t faultless n (ground (arith, b, k))))
          (inr (
            inr (n, ground (arith, b), refl, letter, subst (All _) (sym letter.1.1) failed_status)))

-- When the database answers every call from the error on and the run is there, the job ends as the
-- error is classified: BLOCKED makes it return with the run BLOCKED and no letter; a retryable error
-- with an attempt left is thrown with the run FAILED and no letter; any other error makes one call that
-- adds a dead letter, with the run FAILED, and is thrown, as unrecoverable if so classified.
pub catch_error-IsSettled :
    (env : JobEnv) (job : TicketJob) (error : SerializedError) (s : Store)
    → IsReady job s
    → IsSettled env job error (classify_retryable_error error) s (catch_error env job error s)
unfolding catch_error
catch_error-IsSettled env job error s h =
    settle_error-IsSettled env job error (classify_retryable_error error) s h
      (classify_retryable_error-IsConsistent error)
