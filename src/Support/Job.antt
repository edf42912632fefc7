-- ===== src/Support/Job.antt =====
-- apps/worker/src/support.processor.ts: what a job does with an error of its attempt, and the whole
-- job.
use autonomous_csa.Base.{
  ℕ, Bool, true, false, ◌&&◌, ◌∷◌, Option, none, some, ltb, if◌then◌else◌, find_first, or_else,
}
use text.Mathlib.Text.{◌==◌ as str_eq}
use autonomous_csa.Db.{AgentEventType}
use autonomous_csa.Support.Classifier.{
  SerializedError, RetryDisposition, RetryClassification, classify_retryable_error,
}
use autonomous_csa.Support.Store.{
  ◌>>=◌, ◌>>◌, AgentRunStatus, AgentRun, Store, Answer, returned, thrown, Run, call, return, throw,
}
use autonomous_csa.Support.Records.{TicketJob, append_agent_event_once, record_operational_failure}
use autonomous_csa.Support.Processor.{
  JobEnv, JobReturn, hello, ignored, skipped, blocked_by_error, JobError, plain, unrecoverable,
  is_terminal, has_run_id, update_run, attempt_number, run_ticket,
}

-- An error that leaves the job as it is.
abbrev pub rethrown : {A : Type 0} → Answer SerializedError A × Store → Answer JobError A × Store
rethrown (returned a, s) = (returned a, s)
rethrown (thrown e, s) = (thrown (plain e), s)

unfoldable pub rethrowing : {A : Type 0} → Run SerializedError A → Run JobError A
rethrowing m s = rethrown (m s)

abbrev pub blocked_run : ℕ → ℕ → AgentRun → AgentRun
blocked_run now attempt run = record run {
  status = AgentRunStatus.blocked;
  finished_at = some now;
  attempt_count = attempt;
}

abbrev pub failed_run : ℕ → ℕ → SerializedError → AgentRun → AgentRun
failed_run now attempt error run = record run {
  status = AgentRunStatus.failed;
  error_code = some error.error_code;
  last_error_code = some error.error_code;
  last_error_message = some error.message;
  failure_stage = some "support.processor";
  finished_at = some now;
  attempt_count = attempt;
}

-- Whether the queue has an attempt left; without the option the attempt is the last one.
abbrev pub has_remaining_attempts : TicketJob → Bool
has_remaining_attempts job = ltb (attempt_number job) (or_else job.attempts (attempt_number job))

-- `deadLetterQueue.add`, which may fail as a call of the database may.
abbrev pub add_dead_letter : TicketJob → ℕ → Run SerializedError (Unit {0})
add_dead_letter job failure_id = call (λ s. (
  returned tt,
  record s {
    dead_letters =
        record {
          failure_id = failure_id;
          original_job_id = job.id;
          run_id = job.run_id;
          ticket_id = job.ticket_id;
        }
        ∷ s.dead_letters;
  },
))

unfoldable pub dead_letter : TicketJob → SerializedError → Run SerializedError (Unit {0})
dead_letter job error =
    record_operational_failure job error (attempt_number job) >>= λ id. add_dead_letter job id

unfoldable pub record_failed_run :
    JobEnv → TicketJob → SerializedError → Run SerializedError (Unit {0})
record_failed_run env job error =
    append_agent_event_once job AgentEventType.run_failed
    >> update_run env job.run_id (failed_run env.now (attempt_number job) error)

-- After the run is recorded as failed.
unfoldable pub give_up : TicketJob → SerializedError → RetryClassification → Run JobError JobReturn
give_up job error c =
    if c.retryable && has_remaining_attempts job
    then throw (plain error)
    else rethrowing (if c.should_dead_letter then dead_letter job error else return tt)
      >> throw (if c.use_unrecoverable_error then unrecoverable error.message else plain error)

abbrev pub is_blocking : RetryDisposition → Bool
is_blocking RetryDisposition.blocked = true
is_blocking _ = false

-- The `catch`, on the classified error.
unfoldable pub settle_error :
    JobEnv → TicketJob → SerializedError → RetryClassification → Run JobError JobReturn
settle_error env job error c =
    if is_blocking c.disposition
    then rethrowing (update_run env job.run_id (blocked_run env.now (attempt_number job)))
      >> return blocked_by_error
    else rethrowing (record_failed_run env job error) >> give_up job error c

unfoldable pub catch_error : JobEnv → TicketJob → SerializedError → Run JobError JobReturn
catch_error env job error = settle_error env job error (classify_retryable_error error)

abbrev pub caught :
    JobEnv
    → TicketJob
    → Answer SerializedError JobReturn × Store
    → Answer JobError JobReturn × Store
caught env job (returned r, s) = (returned r, s)
caught env job (thrown e, s) = catch_error env job e s

-- The `try` and its `catch`.
unfoldable pub attempt : JobEnv → TicketJob → Run JobError JobReturn
attempt env job s = caught env job (run_ticket env job s)

abbrev pub is_done : Option AgentRun → Bool
is_done none = false
is_done (some run) = is_terminal run.status

unfoldable pub process_ticket_job : JobEnv → TicketJob → Run JobError JobReturn
process_ticket_job env job =
    rethrowing (call (λ s. (returned (find_first (has_run_id job.run_id) s.runs), s)))
    >>= λ existing. if is_done existing then return skipped else attempt env job

-- `process`, by the name of the job.
unfoldable pub process_support_job : JobEnv → TicketJob → Run JobError JobReturn
process_support_job env job =
    if str_eq job.name "ticket.process"
    then process_ticket_job env job
    else if str_eq job.name "hello"
    then return hello
    else return ignored
