-- ===== src/Support/GuardrailLaws.antt =====
-- What the guardrails let through.
use autonomous_csa.Base.{
  ℕ, ◌≤◌, ◌<◌, ◌≡◌, ◌≢◌, ◌⊎◌, ◌↔◌, inr, true, false, List, [], ◌∷◌, ◌++◌, Text, arith, max, subst,
  sym, All,
}
use autonomous_csa.Support.Detectors.{detect_pii, detect_secrets}
use autonomous_csa.Support.DetectorLaws.{IsKey, detect_secrets-IsKey}
use autonomous_csa.Support.Guardrails.{
  GuardrailDecision, allow, block, GuardrailContext, GuardrailCheckResult, decision_rank,
  is_blocked_verdict, completeness_percent, AgentGuardrailCheck, is_empty, check_safety_policy,
  check_cost_limit, check_knowledge_grounding, check_pii_detection, check_secret_detection,
  check_auto_send_policy, checks_of, aggregate_from, run_all,
}

-- The rank of the strongest decision.
abbrev pub top_rank : List GuardrailCheckResult → ℕ
top_rank [] = 0
top_rank (check ∷ checks) = max (decision_rank check.decision) (top_rank checks)

aggregate_from-top_rank :
    (start : GuardrailDecision) (checks : List GuardrailCheckResult)
    → decision_rank (aggregate_from start checks) ≡ max (decision_rank start) (top_rank checks)
unfolding aggregate_from
aggregate_from-top_rank start [] = omega arith
aggregate_from-top_rank start (check ∷ checks) =
    ground
      (arith, aggregate_from-top_rank start checks, aggregate_from-top_rank check.decision checks)

-- The decisions of the checks are summed up by the first of the strongest ones.
pub aggregate-top_rank :
    (ctx : GuardrailContext) (rows : List AgentGuardrailCheck)
    → decision_rank ((run_all ctx rows).0).aggregate ≡ top_rank ((run_all ctx rows).0).checks
unfolding run_all
aggregate-top_rank ctx rows = ground (arith, aggregate_from-top_rank allow (checks_of ctx))

is_empty_iff {ℓ} : {A : Type ℓ} (xs : List A) → (is_empty xs ≡ true) ↔ (xs ≡ [])
is_empty_iff xs = ground arith

-- The run of the guardrails blocks a draft exactly when the critic blocked it, or it did not pass
-- the critic and is less complete than the settings demand, or it has personal data that the
-- settings block, or a secret was detected in it.
pub blocks_iff :
    (ctx : GuardrailContext) (rows : List AgentGuardrailCheck)
    → (((run_all ctx rows).0).aggregate ≡ block) ↔ (
        ((is_blocked_verdict ctx.critic_safety_verdict ≡ true)
          ⊎ ((ctx.critic_passed ≡ false)
              × (completeness_percent ctx.critic_completeness_score
                  < ctx.settings.min_critic_completeness_score)))
        ⊎ (((detect_pii ctx.draft_body ≢ []) × (ctx.settings.block_on_pii_detection ≡ true))
            ⊎ (detect_secrets ctx.draft_body ≢ [])))
unfolding run_all checks_of aggregate_from check_safety_policy check_cost_limit
    check_knowledge_grounding check_pii_detection check_secret_detection check_auto_send_policy
blocks_iff ctx rows = ground arith

safety-allow :
    (ctx : GuardrailContext)
    → ((check_safety_policy ctx).decision ≡ allow)
      ↔ ((is_blocked_verdict ctx.critic_safety_verdict ≡ false) × (ctx.critic_passed ≡ true))
unfolding check_safety_policy
safety-allow ctx = ground arith

cost-allow :
    (ctx : GuardrailContext)
    → ((check_cost_limit ctx).decision ≡ allow)
      ↔ (ctx.estimated_cost_cents ≤ ctx.settings.max_auto_send_cost_cents)
unfolding check_cost_limit
cost-allow ctx = ground arith

grounding-allow :
    (ctx : GuardrailContext)
    → ((check_knowledge_grounding ctx).decision ≡ allow) ↔ (ctx.used_knowledge_article_ids ≢ [])
unfolding check_knowledge_grounding
grounding-allow ctx = ground arith

pii-allow :
    (ctx : GuardrailContext)
    → ((check_pii_detection ctx).decision ≡ allow) ↔ (detect_pii ctx.draft_body ≡ [])
unfolding check_pii_detection
pii-allow ctx = ground arith

secret-allow :
    (ctx : GuardrailContext)
    → ((check_secret_detection ctx).decision ≡ allow) ↔ (detect_secrets ctx.draft_body ≡ [])
unfolding check_secret_detection
secret-allow ctx = ground arith

auto_send-allow :
    (ctx : GuardrailContext)
    → ((check_auto_send_policy ctx).decision ≡ allow) ↔ (
        (ctx.settings.require_approval_for_low_confidence ≡ false)
        ⊎ (7000 ≤ ctx.resolver_confidence))
unfolding check_auto_send_policy
auto_send-allow ctx = ground arith

aggregate_from-allow :
    (start : GuardrailDecision) (checks : List GuardrailCheckResult)
    → (aggregate_from start checks ≡ allow)
      ↔ ((start ≡ allow) × All (λ check. check.decision ≡ allow) checks)
unfolding aggregate_from
aggregate_from-allow start [] = ground arith
aggregate_from-allow start (check ∷ checks) =
    ground (arith, aggregate_from-allow start checks, aggregate_from-allow check.decision checks)

all-allow :
    (ctx : GuardrailContext) (rows : List AgentGuardrailCheck)
    → (((run_all ctx rows).0).aggregate ≡ allow) ↔ (
        (((check_safety_policy ctx).decision ≡ allow)
          × (((check_cost_limit ctx).decision ≡ allow)
              × ((check_knowledge_grounding ctx).decision ≡ allow)))
        × (((check_pii_detection ctx).decision ≡ allow)
            × (((check_secret_detection ctx).decision ≡ allow)
                × ((check_auto_send_policy ctx).decision ≡ allow))))
unfolding run_all checks_of
all-allow ctx rows = ground (arith, aggregate_from-allow allow (checks_of ctx))

-- The run of the guardrails allows a draft exactly when the critic passed it and did not block it,
-- its cost is within the limit, it uses some article, no personal data and no secret is detected in
-- it, and the resolver is confident where the settings ask for that.
pub allows_iff :
    (ctx : GuardrailContext) (rows : List AgentGuardrailCheck)
    → (((run_all ctx rows).0).aggregate ≡ allow) ↔ (
        (((is_blocked_verdict ctx.critic_safety_verdict ≡ false) × (ctx.critic_passed ≡ true))
          × ((ctx.estimated_cost_cents ≤ ctx.settings.max_auto_send_cost_cents)
              × (ctx.used_knowledge_article_ids ≢ [])))
        × (((detect_pii ctx.draft_body ≡ []) × (detect_secrets ctx.draft_body ≡ []))
            × ((ctx.settings.require_approval_for_low_confidence ≡ false)
                ⊎ (7000 ≤ ctx.resolver_confidence))))
allows_iff ctx rows = ground (
  arith,
  all-allow ctx rows,
  safety-allow ctx,
  cost-allow ctx,
  grounding-allow ctx,
  pii-allow ctx,
  secret-allow ctx,
  auto_send-allow ctx,
)

-- A draft with an API key of OpenAI, AWS or GitHub anywhere in it is blocked, whatever the critic,
-- the settings and the rest of the draft say.
pub blocks-IsKey :
    (ctx : GuardrailContext) (rows : List AgentGuardrailCheck) {key : Text} (pre post : Text)
    → IsKey key
    → ctx.draft_body ≡ pre ++ (key ++ post)
    → ((run_all ctx rows).0).aggregate ≡ block
blocks-IsKey ctx rows {key} pre post h e =
    ((blocks_iff ctx rows).1) (
      inr
        (inr (subst (λ body. detect_secrets body ≢ []) (sym e) (detect_secrets-IsKey pre post h))))
