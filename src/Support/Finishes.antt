-- ===== src/Support/Finishes.antt =====
-- A support job (apps/worker/src/support.processor.ts) on a database that answers every call, and its
-- second delivery.
use autonomous_csa.Base.{
  ◌⊎◌, ◌≡◌, refl, subst, ◌∙◌, Bool, true, false, List, [], ◌∷◌, ℕ, ◌==◌, if◌then◌else◌, any,
  find_first, All, arith,
}
use autonomous_csa.Db.{AgentEventType}
use autonomous_csa.Support.Guardrails.{GuardrailDecision}
use autonomous_csa.Support.Classifier.{SerializedError}
use autonomous_csa.Support.Store.{
  AgentRun, AgentRunStatus, OrganizationSettings, Store, Answer, returned, thrown, ◌>>=◌, call,
  return,
}
use autonomous_csa.Support.Records.{TicketJob}
use autonomous_csa.Support.Processor.{
  PipelineResult, JobEnv, JobReturn, JobError, finished, skipped, is_terminal, has_run_id,
  change_run, update_run, cost_of, final_status, begin_run, check_draft, end_run, run_ticket,
}
use autonomous_csa.Support.Job.{rethrowing, caught, attempt, is_done, process_ticket_job}
use autonomous_csa.Support.JobErrors.{IsReady, HasRunStatus, change_run-All}
use autonomous_csa.Support.Completes.{
  Completed, Completes, Always, bind-Completes, then-Completes, last-Completes, call-Completes,
  once-Completes, append-Completes, guardrails-Completes, settings-Completes, report-Completes,
  keep_draft-Completes,
}

-- The job finished: the run has the terminal status that the job returned.
abbrev pub HasFinished : TicketJob → JobReturn → Store → Type 0
HasFinished job r s =
    (status : AgentRunStatus) × (r ≡ finished status)
    × (is_terminal status ≡ true)
    × HasRunStatus job.run_id status s

change_run-any :
    (id : ℕ) (change : AgentRun → AgentRun) (runs : List AgentRun)
    → ((r : AgentRun) → (change r).id ≡ r.id)
    → any (has_run_id id) (change_run id change runs) ≡ any (has_run_id id) runs
change_run-any id change [] h = refl
change_run-any id change (r ∷ runs) h = ground (arith, h r, change_run-any id change runs h)

final_status-is_terminal : (d : GuardrailDecision) → is_terminal (final_status d) ≡ true
unfolding final_status
final_status-is_terminal d = ground arith

module _ (env : JobEnv) (job : TicketJob) where
  update-Completes :
      (P : Store → Type 0) (change : AgentRun → AgentRun)
      → ((r : AgentRun) → (change r).id ≡ r.id)
      → ((s : Store) → P (record s { runs = change_run job.run_id change s.runs }))
      → Completes job (λ a. P) (update_run env job.run_id change)
  unfolding update_run
  update-Completes P change same h =
      call-Completes job (λ a. P) _ (λ s r. found s (any (has_run_id job.run_id) s.runs) r.1 r)
    where
      found :
          (s : Store) (b : Bool)
          → b ≡ true
          → IsReady job s
          → Completed job
              (λ a. P)
              (if b
                then (returned tt, record s { runs = change_run job.run_id change s.runs })
                else (thrown env.record_not_found, s))
      found s true e r = ((r.0, change_run-any job.run_id change s.runs same ∙ r.1), h s)
      found s false e r = ground (arith, e)

  begin-Completes :
      Completes job Always (env.run_pipeline job) → Completes job Always (begin_run env job)
  unfolding begin_run
  begin-Completes h =
      then-Completes job Always _ _
        (then-Completes job Always _ _ (update-Completes (λ s. Unit) _ (λ r. refl) (λ s. tt))
          (once-Completes job AgentEventType.run_started))
        h

  check-Completes :
      (pipeline : PipelineResult) (settings : OrganizationSettings)
      → Completes job Always (check_draft job pipeline settings)
  unfolding check_draft
  check-Completes pipeline settings =
      then-Completes job Always _ _ (append-Completes job AgentEventType.guardrail_started)
        (guardrails-Completes job _)

  end-Completes :
      (aggregate : GuardrailDecision) (cost : ℕ)
      → Completes job (HasFinished job) (end_run env job aggregate cost)
  unfolding end_run
  end-Completes aggregate cost =
      last-Completes job (HasRunStatus job.run_id (final_status aggregate)) (HasFinished job) _ _
        (then-Completes job (λ a. HasRunStatus job.run_id (final_status aggregate)) _ _
          (once-Completes job AgentEventType.run_finished)
          (update-Completes (HasRunStatus job.run_id (final_status aggregate)) _ (λ r. refl)
            (λ s. change_run-All job.run_id _ (final_status aggregate) (λ r. refl) s.runs)))
        (λ s h. (final_status aggregate, refl, final_status-is_terminal aggregate, h))

  run_ticket-Completes :
      Completes job Always (env.run_pipeline job)
      → Completes job (HasFinished job) (run_ticket env job)
  unfolding run_ticket
  run_ticket-Completes h = bind-Completes job (HasFinished job) _ _ (begin-Completes h) (λ pipeline.
      bind-Completes job (HasFinished job) _ _ (settings-Completes job job.org_id) (λ settings.
        bind-Completes job (HasFinished job) _ _ (check-Completes pipeline settings) (λ result.
          then-Completes job (HasFinished job) _ _
            (then-Completes job Always _ _ (report-Completes job result.checks) (
              keep_draft-Completes job pipeline.draft_body result.aggregate
                settings.require_human_approval))
            (end-Completes result.aggregate (cost_of job pipeline)))))

  caught-Completed :
      (r : Answer SerializedError JobReturn × Store)
      → Completed job (HasFinished job) r
      → Completed job (HasFinished job) (caught env job r)
  caught-Completed (returned r, s) h = h
  caught-Completed (thrown e, s) h = absurd h

  attempt-Completes :
      Completes job Always (env.run_pipeline job)
      → Completes job (HasFinished job) (attempt env job)
  unfolding attempt
  attempt-Completes h s r = caught-Completed (run_ticket env job s) (run_ticket-Completes h s r)

  -- The job from the answer to its first query on.
  process_ticket_job-eq_attempt :
      (s : Store)
      → IsReady job s
      → is_done (find_first (has_run_id job.run_id) s.runs) ≡ false
      → attempt env job s ≡ process_ticket_job env job s
  unfolding process_ticket_job ◌>>=◌ rethrowing call
  process_ticket_job-eq_attempt s r d = ground (arith, r.0, d)

  process_ticket_job-eq_skip :
      (s : Store)
      → IsReady job s
      → is_done (find_first (has_run_id job.run_id) s.runs) ≡ true
      → process_ticket_job env job s ≡ (returned skipped, s)
  unfolding process_ticket_job ◌>>=◌ rethrowing call return
  process_ticket_job-eq_skip s r d = ground (arith, r.0, d)

HasRunStatus-is_done :
    (id : ℕ) (status : AgentRunStatus) (runs : List AgentRun)
    → is_terminal status ≡ true
    → any (has_run_id id) runs ≡ true
    → All (λ (r : AgentRun). ((r.id == id) ≡ false) ⊎ (r.status ≡ status)) runs
    → is_done (find_first (has_run_id id) runs) ≡ true
HasRunStatus-is_done id status [] t e h = ground (arith, e)
HasRunStatus-is_done id status (r ∷ runs) t e (h, hs) =
    ground (arith, t, e, h, HasRunStatus-is_done id status runs t)

-- When the database answers every call, the run of the job is there and not at its end, and the
-- pipeline of the agents returns and leaves the database answering and the run there, then the job
-- returns, with a status that is SUCCEEDED or BLOCKED and that the run has afterwards.
pub process_ticket_job-HasFinished :
    (env : JobEnv) (job : TicketJob) (s : Store)
    → Completes job Always (env.run_pipeline job)
    → IsReady job s
    → is_done (find_first (has_run_id job.run_id) s.runs) ≡ false
    → Completed job (HasFinished job) (process_ticket_job env job s)
process_ticket_job-HasFinished env job s h r d =
    subst (Completed job (HasFinished job)) (process_ticket_job-eq_attempt env job s r d)
      (attempt-Completes env job h s r)

finished-skips :
    (env : JobEnv) (job : TicketJob) (r : Answer JobError JobReturn × Store)
    → Completed job (HasFinished job) r
    → process_ticket_job env job r.1 ≡ (returned skipped, r.1)
finished-skips env job (returned r, s) (ready, (status, e, t, h)) =
    process_ticket_job-eq_skip env job s ready
      (HasRunStatus-is_done job.run_id status s.runs t ready.1 h)
finished-skips env job (thrown e, s) h = absurd h

-- When the database answers every call, the run of the job is there and not at its end, and the
-- pipeline of the agents returns and leaves the database answering and the run there, then a second
-- delivery of the job after the first one is skipped, and changes nothing.
pub process_ticket_job_twice :
    (env : JobEnv) (job : TicketJob) (s : Store)
    → Completes job Always (env.run_pipeline job)
    → IsReady job s
    → is_done (find_first (has_run_id job.run_id) s.runs) ≡ false
    → process_ticket_job env job (process_ticket_job env job s).1
      ≡ (returned skipped, (process_ticket_job env job s).1)
process_ticket_job_twice env job s h r d =
    finished-skips env job (process_ticket_job env job s)
      (process_ticket_job-HasFinished env job s h r d)
