-- ===== src/Support/Tests.antt =====
-- Runs of the support job on small stores, and the theorems at them.
use autonomous_csa.Base.{
  inl, inr, ◌+◌, ◌≤◌, ◌<◌, ◌≡◌, ◌≢◌, ◌↔◌, ◌⊎◌, refl, true, false, List, [], ◌∷◌, ◌++◌, Option, none,
  some, Text, codes, count, arith,
}
use autonomous_csa.Db.{AgentEventType, AgentEventType-discrete}
use autonomous_csa.Db.Sequence.{IsGapless, count_events, append_timeline_event-IsGapless}
use autonomous_csa.Db.{next_event_sequence, append_timeline_event}
use autonomous_csa.Support.Detectors.{
  detect_pii, detect_secrets, ssn, credit_card, passport_number, openai_key, aws_access_key,
  github_pat, slack_token, private_key,
}
use autonomous_csa.Support.Regex.{test}
use autonomous_csa.Support.DetectorLaws.{IsKey, is_aws, detect_secrets-IsKey}
use autonomous_csa.Support.Guardrails.{
  allow, block, SafetyVerdict, GuardrailContext, is_blocked_verdict, completeness_percent, run_all,
  checks_of, aggregate_from,
}
use autonomous_csa.Support.GuardrailLaws.{blocks_iff, allows_iff, blocks-IsKey}
use autonomous_csa.Support.Classifier.{
  SerializedError, classify_retryable_error, get_haystack, blocked_patterns, configuration_patterns,
  validation_patterns,
}
use autonomous_csa.Support.ClassifierLaws.{
  ContainsAny, IsConsistent, not_retryable_iff, classify_retryable_error-IsConsistent,
}
use autonomous_csa.Support.Store.{
  AgentRun, AgentRunStatus, Store, returned, Run, OutboundDraft, DraftStatus, ActorType,
  OrganizationSettings, call, return, ◌>>=◌, ◌>>◌,
}
use autonomous_csa.Support.Records.{
  TicketJob, ensure_run_draft, append_agent_event_once, append_agent_event, find_event,
}
use autonomous_csa.Support.Processor.{
  PipelineResult, JobEnv, skipped, default_settings, run_ticket, begin_run, check_draft,
  run_guardrails, report_checks, keep_draft, follow_up, end_run, update_run, upsert_settings,
  cost_of, draft_status,
}
use autonomous_csa.Support.Job.{process_ticket_job, catch_error, attempt, rethrowing}
use autonomous_csa.Support.JobInvariants.{
  is_agent_approved, HasSafeDrafts, process_ticket_job-HasSafeDrafts, HasGaplessTimeline,
  process_ticket_job-HasGaplessTimeline,
}
use autonomous_csa.Support.JobOnce.{IsSingle, process_ticket_job-IsSingle}
use autonomous_csa.Support.Completes.{Completed}
use autonomous_csa.Support.Finishes.{
  HasFinished, process_ticket_job-HasFinished, process_ticket_job_twice,
}
use autonomous_csa.Support.JobErrors.{IsSettled, catch_error-IsSettled}

append_timeline_event-IsGapless_example :
    (next_event_sequence 1 2 [] ≡ count_events 1 2 [] + 1)
    × IsGapless (append_timeline_event 1 2 AgentEventType.run_started none [])
append_timeline_event-IsGapless_example =
    append_timeline_event-IsGapless 1 2 AgentEventType.run_started none [] tt

abbrev aws_tail : Text
aws_tail = codes "ABCDEFGHIJKLMNOP"

aws-IsKey : IsKey (codes "AKIA" ++ aws_tail)
aws-IsKey = is_aws aws_tail (ground arith) refl

abbrev leaking_body : Text
leaking_body = codes "Use " ++ ((codes "AKIA" ++ aws_tail) ++ codes " to sign in.")

detect_secrets-IsKey_example : detect_secrets leaking_body ≢ []
detect_secrets-IsKey_example = detect_secrets-IsKey (codes "Use ") (codes " to sign in.") aws-IsKey

abbrev context_with : Text → GuardrailContext
context_with body = record {
  org_id = 1;
  ticket_id = 2;
  agent_run_id = 3;
  draft_body = body;
  resolver_confidence = 9000;
  used_knowledge_article_ids = 8 ∷ [];
  critic_passed = true;
  critic_safety_verdict = SafetyVerdict.safe;
  critic_completeness_score = 9000;
  estimated_cost_cents = 3;
  settings = record {
    max_auto_send_cost_cents = 25;
    require_approval_for_low_confidence = true;
    block_on_pii_detection = true;
    min_critic_completeness_score = 70;
  };
}

blocks-IsKey_example : ((run_all (context_with leaking_body) []).0).aggregate ≡ block
blocks-IsKey_example =
    blocks-IsKey (context_with leaking_body) [] (codes "Use ") (codes " to sign in.") aws-IsKey refl

blocks_iff_example : (((run_all (context_with leaking_body) []).0).aggregate ≡ block) ↔ (
    ((is_blocked_verdict SafetyVerdict.safe ≡ true)
      ⊎ ((true ≡ false) × (completeness_percent 9000 < 70)))
    ⊎ (((detect_pii leaking_body ≢ []) × (true ≡ true)) ⊎ (detect_secrets leaking_body ≢ [])))
blocks_iff_example = blocks_iff (context_with leaking_body) []

allows_iff_example : (((run_all (context_with (codes "Hello")) []).0).aggregate ≡ allow) ↔ (
    (((is_blocked_verdict SafetyVerdict.safe ≡ false) × (true ≡ true))
      × ((3 ≤ 25) × (((context_with (codes "Hello")).used_knowledge_article_ids) ≢ [])))
    × (((detect_pii (codes "Hello") ≡ []) × (detect_secrets (codes "Hello") ≡ []))
        × ((true ≡ false) ⊎ (7000 ≤ 9000))))
allows_iff_example = allows_iff (context_with (codes "Hello")) []

abbrev timeout_error : SerializedError
timeout_error = record {
  error_code = codes "ETIMEDOUT";
  error_name = codes "Error";
  message = codes "Request timed out";
}

not_retryable_iff_example : ((classify_retryable_error timeout_error).retryable ≡ false) ↔ (
    ContainsAny (get_haystack timeout_error) blocked_patterns
    ⊎ (ContainsAny (get_haystack timeout_error) configuration_patterns
        ⊎ ContainsAny (get_haystack timeout_error) validation_patterns))
not_retryable_iff_example = not_retryable_iff timeout_error

classify_retryable_error-IsConsistent_example :
    IsConsistent (classify_retryable_error timeout_error)
classify_retryable_error-IsConsistent_example = classify_retryable_error-IsConsistent timeout_error

abbrev result_0 : PipelineResult
result_0 = record {
  draft_body = codes "Hello";
  resolver_confidence = 9000;
  used_knowledge_article_ids = 8 ∷ [];
  critic_passed = true;
  critic_safety_verdict = SafetyVerdict.safe;
  critic_completeness_score = 9000;
  estimated_cost_cents = some 3;
}

-- A pipeline that writes nothing.
abbrev answers : PipelineResult → TicketJob → Run SerializedError PipelineResult
answers result job s = (returned result, s)

abbrev env_0 : JobEnv
env_0 = record { now = 1000; record_not_found = timeout_error; run_pipeline = answers result_0 }

abbrev job_0 : TicketJob
job_0 = record {
  id = 11;
  name = "ticket.process";
  queue_name = "support";
  attempts_made = 0;
  attempts = some 3;
  org_id = 1;
  ticket_id = 2;
  run_id = 3;
  subject = codes "Help";
  body = codes "Please help";
}

abbrev run_0 : AgentRun
run_0 = record {
  id = 3;
  status = AgentRunStatus.queued;
  started_at = none;
  finished_at = none;
  attempt_count = 0;
  total_cost_cents = 0;
  error_code = none;
  last_error_code = none;
  last_error_message = none;
  failure_stage = none;
}

-- The third call of the database fails.
abbrev store_with : List (Option SerializedError) → Store
store_with faults = record {
  runs = run_0 ∷ [];
  events = [];
  guardrail_checks = [];
  drafts = [];
  approvals = [];
  failures = [];
  settings = [];
  dead_letters = [];
  next_id = 100;
  faults = faults;
}

abbrev store_0 : Store
store_0 = store_with (none ∷ none ∷ some timeout_error ∷ [])

-- A draft of another ticket, which the agents wrote and a person approved, with a key in it.
abbrev approved_by_person : OutboundDraft
approved_by_person = record {
  id = 50;
  org_id = 1;
  ticket_id = 9;
  agent_run_id = some 8;
  body = leaking_body;
  status = DraftStatus.approved;
  created_by_type = ActorType.agent;
  approved_by_type = some ActorType.user;
}

-- An organization whose drafts want no approval.
abbrev trusting : OrganizationSettings
trusting = record (default_settings 1) { require_human_approval = false }

abbrev store_1 : Store
store_1 = record (store_with []) { drafts = approved_by_person ∷ []; settings = trusting ∷ [] }

-- The job approves a draft.
approves_one : count is_agent_approved (process_ticket_job env_0 job_0 store_1).1.drafts ≡ 1
unfolding process_ticket_job attempt run_ticket begin_run check_draft run_guardrails report_checks
    keep_draft end_run ensure_run_draft append_agent_event_once append_agent_event find_event
    update_run upsert_settings cost_of call return ◌>>=◌ ◌>>◌ rethrowing draft_status run_all
    detect_secrets detect_pii AgentEventType-discrete checks_of test ssn credit_card passport_number
    openai_key aws_access_key github_pat slack_token private_key append_timeline_event follow_up
    aggregate_from
approves_one = refl

process_ticket_job-HasSafeDrafts_example : HasSafeDrafts (process_ticket_job env_0 job_0 store_1).1
process_ticket_job-HasSafeDrafts_example =
    process_ticket_job-HasSafeDrafts env_0 job_0 store_1 (λ s i. (i, tt)) (inl refl, tt)

process_ticket_job-HasGaplessTimeline_example :
    HasGaplessTimeline (process_ticket_job env_0 job_0 store_0).1
process_ticket_job-HasGaplessTimeline_example =
    process_ticket_job-HasGaplessTimeline env_0 job_0 store_0 (λ s i. (i, tt)) tt

store_0-IsSingle : IsSingle job_0 store_0
store_0-IsSingle = ((λ type. inr (omega arith)), omega arith, (λ id. omega arith), omega arith)

process_ticket_job-IsSingle_example : IsSingle job_0 (process_ticket_job env_0 job_0 store_0).1
process_ticket_job-IsSingle_example =
    process_ticket_job-IsSingle env_0 job_0 store_0 (λ s i. (i, tt)) store_0-IsSingle

catch_error-IsSettled_example :
    IsSettled env_0 job_0 timeout_error
      (classify_retryable_error timeout_error)
      (store_with [])
      (catch_error env_0 job_0 timeout_error (store_with []))
catch_error-IsSettled_example =
    catch_error-IsSettled env_0 job_0 timeout_error (store_with []) (refl, refl)

process_ticket_job-HasFinished_example :
    Completed job_0 (HasFinished job_0) (process_ticket_job env_0 job_0 (store_with []))
process_ticket_job-HasFinished_example =
    process_ticket_job-HasFinished env_0 job_0 (store_with []) (λ s r. (r, tt)) (refl, refl) refl

process_ticket_job_twice_example :
    process_ticket_job env_0 job_0 (process_ticket_job env_0 job_0 (store_with [])).1
    ≡ (returned skipped, (process_ticket_job env_0 job_0 (store_with [])).1)
process_ticket_job_twice_example =
    process_ticket_job_twice env_0 job_0 (store_with []) (λ s r. (r, tt)) (refl, refl) refl
