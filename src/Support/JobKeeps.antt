-- ===== src/Support/JobKeeps.antt =====
-- The laws of `JobLaws` through the whole job of apps/worker/src/support.processor.ts.
use autonomous_csa.Base.{◌≡◌, refl, Bool, true, List, [], ◌∷◌, Option, none, some, ℕ, Text, arith}
use autonomous_csa.Db.{AgentEventType}
use autonomous_csa.Support.Detectors.{detect_secrets}
use autonomous_csa.Support.Guardrails.{
  GuardrailDecision, GuardrailContext, GuardrailCheckResult, GuardrailRunResult,
  AgentGuardrailCheck, run_all,
}
use autonomous_csa.Support.GuardrailLaws.{allows_iff}
use autonomous_csa.Support.Classifier.{
  SerializedError, RetryClassification, classify_retryable_error,
}
use autonomous_csa.Support.Store.{
  OutboundDraft, OrganizationSettings, Store, Answer, returned, thrown, Run,
}
use autonomous_csa.Support.Records.{TicketJob, append_agent_event}
use autonomous_csa.Support.Processor.{
  PipelineResult, JobEnv, JobReturn, skipped, blocked_by_error, JobError, plain, attempt_number,
  cost_of, guardrail_context, run_guardrails, check_event, report_check, report_checks,
  draft_status, request_approval, follow_up, begin_run, check_draft, keep_draft, end_run,
  run_ticket,
}
use autonomous_csa.Support.Job.{
  add_dead_letter, dead_letter, record_failed_run, give_up, settle_error, catch_error, caught,
  attempt, is_done, process_ticket_job,
}
use autonomous_csa.Support.Keeps.{
  Any, Ends, Keeps, return-Keeps, throw-Keeps, bind-Keeps, then-Keeps, rethrowing-Keeps, if-Keeps,
  call-Keeps,
}
use autonomous_csa.Support.JobLaws.{
  JobLaws, IsCleared, is_repeatable, repeated-Keeps, once-Keeps, draft-Keeps, approval-Keeps,
  failure-Keeps, update-Keeps, settings-Keeps,
}

-- An aggregate that may be reached for a text: with `allow`, no secret was detected in it.
abbrev pub IsChecked : Text → GuardrailRunResult → Type 0
IsChecked body result = result.aggregate ≡ GuardrailDecision.allow → detect_secrets body ≡ []

draft_status-IsCleared :
    (body : Text) (aggregate : GuardrailDecision) (require : Bool)
    → (aggregate ≡ GuardrailDecision.allow → detect_secrets body ≡ [])
    → IsCleared body (draft_status aggregate require)
unfolding draft_status
draft_status-IsCleared body aggregate require h = ground (arith, h)

run_all-IsChecked :
    (ctx : GuardrailContext) (rows : List AgentGuardrailCheck)
    → IsChecked ctx.draft_body (run_all ctx rows).0
run_all-IsChecked ctx rows e = (((allows_iff ctx rows).0 e).1.0).1

check_event-is_repeatable :
    (check : GuardrailCheckResult) (type : AgentEventType)
    → check_event check ≡ some type
    → is_repeatable type ≡ true
check_event-is_repeatable check type e = ground (arith, e)

module _ (I : Store → Type 0) (env : JobEnv) (job : TicketJob) (law : JobLaws I env job) where
  guardrails-Keeps :
      (ctx : GuardrailContext) → Keeps I (IsChecked ctx.draft_body) (run_guardrails ctx)
  unfolding run_guardrails
  guardrails-Keeps ctx = call-Keeps I (IsChecked ctx.draft_body) _ law.faults (λ s i.
      (law.checks s (run_all ctx s.guardrail_checks).1 i, run_all-IsChecked ctx s.guardrail_checks))

  report_check-Keeps :
      (o : Option AgentEventType) (rest : Run SerializedError (Unit {0}))
      → ((type : AgentEventType) → o ≡ some type → is_repeatable type ≡ true)
      → Keeps I Any rest
      → Keeps I Any (report_check job o rest)
  report_check-Keeps none rest e k = k
  report_check-Keeps (some type) rest e k =
      then-Keeps I Any Any (append_agent_event job type) rest
        (repeated-Keeps I env job law type (e type refl)) k

  report-Keeps : (checks : List GuardrailCheckResult) → Keeps I Any (report_checks job checks)
  unfolding report_checks
  report-Keeps [] = return-Keeps I SerializedError Any tt tt
  report-Keeps (check ∷ checks) =
      report_check-Keeps (check_event check) (report_checks job checks)
        (check_event-is_repeatable check) (report-Keeps checks)

  request-Keeps :
      (body : Text) (draft : OutboundDraft) (type : AgentEventType)
      → Keeps I Any (request_approval job body draft type)
  request-Keeps body draft type =
      bind-Keeps I Any Any _ _ (approval-Keeps I env job law draft.id body)
        (λ _ _. once-Keeps I env job law type)

  follow_up-Keeps :
      (body : Text) (aggregate : GuardrailDecision) (require : Bool) (draft : OutboundDraft)
      → Keeps I Any (follow_up job body aggregate require draft)
  unfolding follow_up
  follow_up-Keeps body GuardrailDecision.block require draft =
      once-Keeps I env job law AgentEventType.guardrail_blocked
  follow_up-Keeps body GuardrailDecision.require_approval require draft =
      request-Keeps body draft AgentEventType.guardrail_requires_approval
  follow_up-Keeps body GuardrailDecision.allow require draft =
      if-Keeps I Any require _ _ (request-Keeps body draft AgentEventType.human_approval_created) (
        then-Keeps I Any Any _ _ (once-Keeps I env job law AgentEventType.guardrail_check_passed)
          (once-Keeps I env job law AgentEventType.draft_auto_approved))

  keep_draft-Keeps :
      (body : Text) (aggregate : GuardrailDecision) (require : Bool)
      → (aggregate ≡ GuardrailDecision.allow → detect_secrets body ≡ [])
      → Keeps I Any (keep_draft job body aggregate require)
  unfolding keep_draft
  keep_draft-Keeps body aggregate require h =
      bind-Keeps I Any Any _ _
        (draft-Keeps I env job law body _ (draft_status-IsCleared body aggregate require h))
        (λ draft _.
          then-Keeps I Any Any _ _ (once-Keeps I env job law AgentEventType.draft_created)
            (follow_up-Keeps body aggregate require draft))

  begin-Keeps : Keeps I Any (begin_run env job)
  unfolding begin_run
  begin-Keeps =
      then-Keeps I Any Any _ _
        (then-Keeps I Any Any _ _ (update-Keeps I env job law job.run_id _)
          (once-Keeps I env job law AgentEventType.run_started))
        law.pipeline

  check-Keeps :
      (pipeline : PipelineResult) (settings : OrganizationSettings)
      → Keeps I (IsChecked pipeline.draft_body) (check_draft job pipeline settings)
  unfolding check_draft
  check-Keeps pipeline settings =
      then-Keeps I Any (IsChecked pipeline.draft_body) _ _
        (repeated-Keeps I env job law AgentEventType.guardrail_started refl)
        (guardrails-Keeps (guardrail_context job pipeline settings (cost_of job pipeline)))

  end-Keeps :
      (aggregate : GuardrailDecision) (cost : ℕ) → Keeps I Any (end_run env job aggregate cost)
  unfolding end_run
  end-Keeps aggregate cost =
      then-Keeps I Any Any _ _
        (then-Keeps I Any Any _ _ (once-Keeps I env job law AgentEventType.run_finished)
          (update-Keeps I env job law job.run_id _))
        (return-Keeps I SerializedError Any _ tt)

  run_ticket-Keeps : Keeps I Any (run_ticket env job)
  unfolding run_ticket
  run_ticket-Keeps = bind-Keeps I Any Any _ _ begin-Keeps (λ pipeline _.
      bind-Keeps I Any Any _ _ (settings-Keeps I env job law job.org_id) (λ settings _.
        bind-Keeps I (IsChecked pipeline.draft_body) Any _ _ (check-Keeps pipeline settings)
          (λ result h.
            then-Keeps I Any Any _ _
              (then-Keeps I Any Any _ _ (report-Keeps result.checks) (
                keep_draft-Keeps pipeline.draft_body result.aggregate
                  settings.require_human_approval h))
              (end-Keeps result.aggregate (cost_of job pipeline)))))

  letter-Keeps : (id : ℕ) → Keeps I Any (add_dead_letter job id)
  letter-Keeps id = call-Keeps I Any _ law.faults (λ s i. (law.letters s _ i, tt))

  dead_letter-Keeps : (error : SerializedError) → Keeps I Any (dead_letter job error)
  unfolding dead_letter
  dead_letter-Keeps error =
      bind-Keeps I Any Any _ _ (failure-Keeps I env job law error (attempt_number job))
        (λ id _. letter-Keeps id)

  failed-Keeps : (error : SerializedError) → Keeps I Any (record_failed_run env job error)
  unfolding record_failed_run
  failed-Keeps error =
      then-Keeps I Any Any _ _ (once-Keeps I env job law AgentEventType.run_failed)
        (update-Keeps I env job law job.run_id _)

  give_up-Keeps :
      (error : SerializedError) (c : RetryClassification) → Keeps I Any (give_up job error c)
  unfolding give_up
  give_up-Keeps error c = if-Keeps I Any _ _ _ (throw-Keeps I Any (plain error)) (
      then-Keeps I Any Any _ _
        (rethrowing-Keeps I Any _ (
          if-Keeps I Any c.should_dead_letter _ _ (dead_letter-Keeps error)
            (return-Keeps I SerializedError Any tt tt)))
        (throw-Keeps I Any _))

  settle-Keeps :
      (error : SerializedError) (c : RetryClassification)
      → Keeps I Any (settle_error env job error c)
  unfolding settle_error
  settle-Keeps error c =
      if-Keeps I Any _ _ _
        (then-Keeps I Any Any _ _
          (rethrowing-Keeps I Any _ (update-Keeps I env job law job.run_id _))
          (return-Keeps I JobError Any blocked_by_error tt))
        (then-Keeps I Any Any _ _ (rethrowing-Keeps I Any _ (failed-Keeps error))
          (give_up-Keeps error c))

  caught-Ends :
      (r : Answer SerializedError JobReturn × Store) → Ends I Any r → Ends I Any (caught env job r)
  unfolding catch_error
  caught-Ends (returned r, s) h = h
  caught-Ends (thrown e, s) (i, _) = settle-Keeps e (classify_retryable_error e) s i

  attempt-Keeps : Keeps I Any (attempt env job)
  unfolding attempt
  attempt-Keeps s i = caught-Ends (run_ticket env job s) (run_ticket-Keeps s i)

  pub process-Keeps : Keeps I Any (process_ticket_job env job)
  unfolding process_ticket_job
  process-Keeps =
      bind-Keeps I Any Any _ _
        (rethrowing-Keeps I Any _ (call-Keeps I Any _ law.faults (λ s i. (i, tt))))
        (λ existing _.
          if-Keeps I Any (is_done existing) _ _ (return-Keeps I JobError Any skipped tt)
            attempt-Keeps)
