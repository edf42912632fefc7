-- ===== src/Support/Guardrails.antt =====
-- apps/worker/src/guardrails/guardrail.service.ts: six checks of a draft, and their strongest
-- decision. The reasons and the metadata of the checks are texts for people, and left out. A score
-- between 0 and 1 is a number of ten-thousandths.
use autonomous_csa.Base.{
  ℕ, ◌+◌, ◌/◌, Bool, true, false, ◌&&◌, not, List, [], ◌∷◌, Text, ltb, if◌then◌else◌,
}
use autonomous_csa.Support.Detectors.{detect_pii, detect_secrets}

pub data GuardrailDecision : Type 0 where
  allow require_approval block : GuardrailDecision

pub data GuardrailType : Type 0 where
  cost_limit safety_policy knowledge_grounding pii_detection : GuardrailType
  secret_detection auto_send_policy : GuardrailType

pub data SafetyVerdict : Type 0 where
  safe needs_review blocked : SafetyVerdict

pub record GuardrailPolicySettings : Type 0 where
  pub max_auto_send_cost_cents : ℕ
  pub require_approval_for_low_confidence : Bool
  pub block_on_pii_detection : Bool
  pub min_critic_completeness_score : ℕ

pub record GuardrailContext : Type 0 where
  pub org_id : ℕ
  pub ticket_id : ℕ
  pub agent_run_id : ℕ
  pub draft_body : Text
  pub resolver_confidence : ℕ
  pub used_knowledge_article_ids : List ℕ
  pub critic_passed : Bool
  pub critic_safety_verdict : SafetyVerdict
  pub critic_completeness_score : ℕ
  pub estimated_cost_cents : ℕ
  pub settings : GuardrailPolicySettings

pub record GuardrailCheckResult : Type 0 where
  pub guardrail_type : GuardrailType
  pub decision : GuardrailDecision

-- A row of the table of checks.
pub record AgentGuardrailCheck : Type 0 where
  pub org_id : ℕ
  pub ticket_id : ℕ
  pub agent_run_id : ℕ
  pub guardrail_type : GuardrailType
  pub decision : GuardrailDecision

pub record GuardrailRunResult : Type 0 where
  pub checks : List GuardrailCheckResult
  pub aggregate : GuardrailDecision

-- `DECISION_RANK`.
abbrev pub decision_rank : GuardrailDecision → ℕ
decision_rank allow = 0
decision_rank require_approval = 1
decision_rank block = 2

abbrev pub is_blocked_verdict : SafetyVerdict → Bool
is_blocked_verdict blocked = true
is_blocked_verdict _ = false

-- `Math.round(score * 100)` of ten-thousandths, exactly; the product of doubles may fall just below a half
-- that the score stands for.
abbrev pub completeness_percent : ℕ → ℕ
completeness_percent score = (score + 50) / 100

abbrev pub check_result : GuardrailType → GuardrailDecision → GuardrailCheckResult
check_result type decision = record { guardrail_type = type; decision = decision }

unfoldable pub check_safety_policy : GuardrailContext → GuardrailCheckResult
check_safety_policy ctx =
    if is_blocked_verdict ctx.critic_safety_verdict
    then check_result safety_policy block
    else if not ctx.critic_passed
        && ltb (completeness_percent ctx.critic_completeness_score)
            ctx.settings.min_critic_completeness_score
    then check_result safety_policy block
    else if not ctx.critic_passed
    then check_result safety_policy require_approval
    else check_result safety_policy allow

unfoldable pub check_cost_limit : GuardrailContext → GuardrailCheckResult
check_cost_limit ctx =
    if ltb ctx.settings.max_auto_send_cost_cents ctx.estimated_cost_cents
    then check_result cost_limit require_approval
    else check_result cost_limit allow

abbrev pub is_empty {ℓ} : {A : Type ℓ} → List A → Bool
is_empty [] = true
is_empty (_ ∷ _) = false

unfoldable pub check_knowledge_grounding : GuardrailContext → GuardrailCheckResult
check_knowledge_grounding ctx =
    if is_empty ctx.used_knowledge_article_ids
    then check_result knowledge_grounding require_approval
    else check_result knowledge_grounding allow

unfoldable pub check_pii_detection : GuardrailContext → GuardrailCheckResult
check_pii_detection ctx =
    if not (is_empty (detect_pii ctx.draft_body))
    then check_result pii_detection
        (if ctx.settings.block_on_pii_detection then block else require_approval)
    else check_result pii_detection allow

unfoldable pub check_secret_detection : GuardrailContext → GuardrailCheckResult
check_secret_detection ctx =
    if not (is_empty (detect_secrets ctx.draft_body))
    then check_result secret_detection block
    else check_result secret_detection allow

-- The confidence is compared with 0.7.
unfoldable pub check_auto_send_policy : GuardrailContext → GuardrailCheckResult
check_auto_send_policy ctx =
    if ctx.settings.require_approval_for_low_confidence && ltb ctx.resolver_confidence 7000
    then check_result auto_send_policy require_approval
    else check_result auto_send_policy allow

unfoldable pub checks_of : GuardrailContext → List GuardrailCheckResult
unfolding check_safety_policy check_cost_limit check_knowledge_grounding check_pii_detection
    check_secret_detection check_auto_send_policy
checks_of ctx =
    check_safety_policy ctx
    ∷ check_cost_limit ctx
    ∷ check_knowledge_grounding ctx
    ∷ check_pii_detection ctx
    ∷ check_secret_detection ctx
    ∷ check_auto_send_policy ctx
    ∷ []

-- The loop over the checks.
unfoldable pub aggregate_from : GuardrailDecision → List GuardrailCheckResult → GuardrailDecision
aggregate_from aggregate [] = aggregate
aggregate_from aggregate (check ∷ checks) =
    aggregate_from
      (if ltb (decision_rank aggregate) (decision_rank check.decision)
        then check.decision
        else aggregate)
      checks

-- `persistChecks`: a row per check, after those of the table.
unfoldable pub persist_checks :
    GuardrailContext
    → List GuardrailCheckResult
    → List AgentGuardrailCheck
    → List AgentGuardrailCheck
persist_checks ctx [] rows = rows
persist_checks ctx (check ∷ checks) rows = persist_checks ctx checks (
    record {
      org_id = ctx.org_id;
      ticket_id = ctx.ticket_id;
      agent_run_id = ctx.agent_run_id;
      guardrail_type = check.guardrail_type;
      decision = check.decision;
    }
    ∷ rows)

unfoldable pub run_all :
    GuardrailContext → List AgentGuardrailCheck → GuardrailRunResult × List AgentGuardrailCheck
unfolding persist_checks
run_all ctx rows =
    let checks = checks_of ctx in
    (
      record { checks = checks; aggregate = aggregate_from allow checks },
      persist_checks ctx checks rows,
    )
