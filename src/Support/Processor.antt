-- ===== src/Support/Processor.antt =====
-- apps/worker/src/support.processor.ts: a job of the support queue. An attempt marks the run, lets
-- the agents write a draft, checks it, and keeps the draft, with an approval to give where one is
-- wanted. An error on the way is classified, recorded, and perhaps dead-lettered. Metrics, log
-- lines, durations and the correlation identifier are left out. The pipeline of the agents
-- (agent-runtime/) asks a language model, and is a field of the environment.
use autonomous_csa.Base.{
  ℕ, ◌+◌, ◌/◌, Bool, true, false, List, [], ◌∷◌, Option, none, some, Text, ltb, ◌==◌, if◌then◌else◌,
  length, any, find_first, or_else,
}
use autonomous_csa.Db.{AgentEventType}
use autonomous_csa.Support.Guardrails.{
  GuardrailDecision, GuardrailType, SafetyVerdict, GuardrailContext, GuardrailCheckResult,
  GuardrailRunResult, run_all,
}
use autonomous_csa.Support.Classifier.{SerializedError}
use autonomous_csa.Support.Store.{
  ◌>>=◌, ◌>>◌, AgentRunStatus, DraftStatus, AgentRun, OutboundDraft, OrganizationSettings, Store,
  Answer, returned, thrown, Run, call, return,
}
use autonomous_csa.Support.Records.{
  TicketJob, append_agent_event, append_agent_event_once, ensure_run_draft, ensure_approval,
}

-- What the agents hand over. Scores between 0 and 1 are numbers of ten-thousandths.
pub record PipelineResult : Type 0 where
  pub draft_body : Text
  pub resolver_confidence : ℕ
  pub used_knowledge_article_ids : List ℕ
  pub critic_passed : Bool
  pub critic_safety_verdict : SafetyVerdict
  pub critic_completeness_score : ℕ
  pub estimated_cost_cents : Option ℕ

-- The clock, the error of an update that finds no row, and the pipeline.
pub record JobEnv : Type 0 where
  pub now : ℕ
  pub record_not_found : SerializedError
  pub run_pipeline : TicketJob → Run SerializedError PipelineResult

pub data JobReturn : Type 0 where
  hello : JobReturn
  ignored : JobReturn
  skipped : JobReturn
  finished : AgentRunStatus → JobReturn
  blocked_by_error : JobReturn

-- What a job throws: an error, or an `UnrecoverableError` with its message.
pub data JobError : Type 0 where
  plain : SerializedError → JobError
  unrecoverable : Text → JobError

abbrev pub is_terminal : AgentRunStatus → Bool
is_terminal AgentRunStatus.succeeded = true
is_terminal AgentRunStatus.blocked = true
is_terminal _ = false

abbrev pub has_run_id : ℕ → AgentRun → Bool
has_run_id id run = run.id == id

abbrev pub change_run : ℕ → (AgentRun → AgentRun) → List AgentRun → List AgentRun
change_run id change [] = []
change_run id change (run ∷ runs) =
    (if run.id == id then change run else run) ∷ change_run id change runs

-- `agentRun.update({ where: { id }, data })`.
unfoldable pub update_run : JobEnv → ℕ → (AgentRun → AgentRun) → Run SerializedError (Unit {0})
update_run env id change = call (λ s.
    if any (has_run_id id) s.runs
    then (returned tt, record s { runs = change_run id change s.runs })
    else (thrown env.record_not_found, s))

abbrev pub attempt_number : TicketJob → ℕ
attempt_number job = job.attempts_made + 1

abbrev pub started_run : ℕ → ℕ → AgentRun → AgentRun
started_run now attempt run = record run {
  status = AgentRunStatus.running;
  started_at = some now;
  attempt_count = attempt;
  failure_stage = none;
  last_error_code = none;
  last_error_message = none;
}

abbrev pub default_settings : ℕ → OrganizationSettings
default_settings org_id = record {
  org_id = org_id;
  require_human_approval = true;
  max_auto_send_cost_cents = 25;
  require_approval_for_low_confidence = true;
  block_on_pii_detection = true;
  min_critic_completeness_score = 70;
}

abbrev pub has_org_id : ℕ → OrganizationSettings → Bool
has_org_id org_id settings = settings.org_id == org_id

abbrev pub settings_in :
    ℕ → Option OrganizationSettings → Store → Answer SerializedError OrganizationSettings × Store
settings_in org_id (some found) s = (returned found, s)
settings_in org_id none s = (
  returned (default_settings org_id),
  record s { settings = default_settings org_id ∷ s.settings },
)

-- `organizationSettings.upsert` that updates nothing.
unfoldable pub upsert_settings : ℕ → Run SerializedError OrganizationSettings
upsert_settings org_id =
    call (λ s. settings_in org_id (find_first (has_org_id org_id) s.settings) s)

-- `estimateCostCents`: half a hundredth of a cent for a code unit, rounded up.
unfoldable pub estimate_cost_cents : Text → Text → ℕ
estimate_cost_cents subject draft_body = (length subject + length draft_body + 199) / 200

unfoldable pub cost_of : TicketJob → PipelineResult → ℕ
unfolding estimate_cost_cents
cost_of job pipeline =
    let cost = or_else pipeline.estimated_cost_cents 0 in
    if ltb 0 cost then cost else estimate_cost_cents job.subject pipeline.draft_body

abbrev pub guardrail_context :
    TicketJob → PipelineResult → OrganizationSettings → ℕ → GuardrailContext
guardrail_context job pipeline settings cost = record {
  org_id = job.org_id;
  ticket_id = job.ticket_id;
  agent_run_id = job.run_id;
  draft_body = pipeline.draft_body;
  resolver_confidence = pipeline.resolver_confidence;
  used_knowledge_article_ids = pipeline.used_knowledge_article_ids;
  critic_passed = pipeline.critic_passed;
  critic_safety_verdict = pipeline.critic_safety_verdict;
  critic_completeness_score = pipeline.critic_completeness_score;
  estimated_cost_cents = cost;
  settings = record {
    max_auto_send_cost_cents = settings.max_auto_send_cost_cents;
    require_approval_for_low_confidence = settings.require_approval_for_low_confidence;
    block_on_pii_detection = settings.block_on_pii_detection;
    min_critic_completeness_score = settings.min_critic_completeness_score;
  };
}

-- The transaction that keeps the checks is one call.
unfoldable pub run_guardrails : GuardrailContext → Run SerializedError GuardrailRunResult
run_guardrails ctx = call (λ s.
    let result = run_all ctx s.guardrail_checks in
    (returned result.0, record s { guardrail_checks = result.1 }))

-- The event of a check that did not allow the draft.
abbrev pub check_event : GuardrailCheckResult → Option AgentEventType
check_event check = elim check.decision [
  | GuardrailDecision.allow ↦ none
  | _ ↦ elim check.guardrail_type [
    | GuardrailType.pii_detection ↦ some AgentEventType.guardrail_pii_detected
    | GuardrailType.secret_detection ↦ some AgentEventType.guardrail_secret_detected
    | GuardrailType.cost_limit ↦ some AgentEventType.guardrail_cost_limit_exceeded
    | GuardrailType.knowledge_grounding ↦ some AgentEventType.guardrail_knowledge_grounding_failed
    | _ ↦ none
  ]
]

abbrev pub report_check :
    TicketJob
    → Option AgentEventType
    → Run SerializedError (Unit {0})
    → Run SerializedError (Unit {0})
report_check job none rest = rest
report_check job (some type) rest = append_agent_event job type >> rest

-- The loop over the checks.
unfoldable pub report_checks :
    TicketJob → List GuardrailCheckResult → Run SerializedError (Unit {0})
report_checks job [] = return tt
report_checks job (check ∷ checks) =
    let rest = report_checks job checks in report_check job (check_event check) rest

unfoldable pub draft_status : GuardrailDecision → Bool → DraftStatus
draft_status GuardrailDecision.block require_human_approval = DraftStatus.draft
draft_status GuardrailDecision.require_approval require_human_approval =
    DraftStatus.pending_approval
draft_status GuardrailDecision.allow require_human_approval =
    if require_human_approval then DraftStatus.pending_approval else DraftStatus.approved

abbrev pub request_approval :
    TicketJob → Text → OutboundDraft → AgentEventType → Run SerializedError (Unit {0})
request_approval job body draft type =
    ensure_approval job draft.id body >>= λ _. append_agent_event_once job type

-- What follows the draft, by the decision on it.
unfoldable pub follow_up :
    TicketJob → Text → GuardrailDecision → Bool → OutboundDraft → Run SerializedError (Unit {0})
follow_up job body GuardrailDecision.block require_human_approval draft =
    append_agent_event_once job AgentEventType.guardrail_blocked
follow_up job body GuardrailDecision.require_approval require_human_approval draft =
    request_approval job body draft AgentEventType.guardrail_requires_approval
follow_up job body GuardrailDecision.allow require_human_approval draft =
    if require_human_approval
    then request_approval job body draft AgentEventType.human_approval_created
    else append_agent_event_once job AgentEventType.guardrail_check_passed
      >> append_agent_event_once job AgentEventType.draft_auto_approved

unfoldable pub final_status : GuardrailDecision → AgentRunStatus
final_status GuardrailDecision.block = AgentRunStatus.blocked
final_status _ = AgentRunStatus.succeeded

abbrev pub finished_run : ℕ → ℕ → AgentRunStatus → ℕ → AgentRun → AgentRun
finished_run now attempt status cost run = record run {
  status = status;
  finished_at = some now;
  total_cost_cents = cost;
  attempt_count = attempt;
}

-- The attempt up to the draft's checks.
unfoldable pub begin_run : JobEnv → TicketJob → Run SerializedError PipelineResult
begin_run env job =
    update_run env job.run_id (started_run env.now (attempt_number job))
    >> append_agent_event_once job AgentEventType.run_started
    >> env.run_pipeline job

unfoldable pub check_draft :
    TicketJob → PipelineResult → OrganizationSettings → Run SerializedError GuardrailRunResult
check_draft job pipeline settings =
    append_agent_event job AgentEventType.guardrail_started
    >> run_guardrails (guardrail_context job pipeline settings (cost_of job pipeline))

unfoldable pub keep_draft :
    TicketJob → Text → GuardrailDecision → Bool → Run SerializedError (Unit {0})
keep_draft job body aggregate require_human_approval =
    ensure_run_draft job body (draft_status aggregate require_human_approval) >>= λ draft.
    append_agent_event_once job AgentEventType.draft_created
    >> follow_up job body aggregate require_human_approval draft

unfoldable pub end_run : JobEnv → TicketJob → GuardrailDecision → ℕ → Run SerializedError JobReturn
end_run env job aggregate cost =
    append_agent_event_once job AgentEventType.run_finished
    >> update_run env job.run_id
        (finished_run env.now (attempt_number job) (final_status aggregate) cost)
    >> return (finished (final_status aggregate))

-- The body of the `try`.
unfoldable pub run_ticket : JobEnv → TicketJob → Run SerializedError JobReturn
run_ticket env job = begin_run env job >>= λ pipeline. upsert_settings job.org_id >>= λ settings.
    check_draft job pipeline settings >>= λ result.
    report_checks job result.checks
    >> keep_draft job pipeline.draft_body result.aggregate settings.require_human_approval
    >> end_run env job result.aggregate (cost_of job pipeline)
