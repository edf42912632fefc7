-- ===== src/Llm/PricingLaws.antt =====
-- What a cost is in terms of the tokens and the rates.
use autonomous_csa.Base.{ℕ, ◌+◌, ◌*◌, ◌≤◌, ◌<◌, ◌≡◌, ◌↔◌, false, some, codes, text_eq, arith}
use autonomous_csa.Llm.Pricing.{
  PricingRate, LlmPricingConfig, LlmUsage, ceil_divide, cost_microunits, calculate_llm_cost,
}

-- The tokens at their rates, in thousandths of a microunit.
abbrev pub exact_cost : PricingRate → LlmUsage → ℕ
exact_cost rate usage =
    usage.input_tokens * rate.input_microunits_per_1k_tokens
    + usage.output_tokens * rate.output_microunits_per_1k_tokens

ceil_divide_1000_bounds :
    (n : ℕ) → (n ≤ 1000 * ceil_divide n 1000) × (1000 * ceil_divide n 1000 < n + 1000)
unfolding ceil_divide
ceil_divide_1000_bounds n = (omega arith, omega arith)

-- The two sides of the estimate: no less than the exact cost, and less than two microunits more.
abbrev pub Covers : PricingRate → LlmUsage → ℕ → Type 0
Covers rate usage micro =
    (exact_cost rate usage ≤ 1000 * micro) × (1000 * micro < exact_cost rate usage + 2000)

cost_microunits-Covers :
    (rate : PricingRate) (usage : LlmUsage) → Covers rate usage (cost_microunits rate usage)
unfolding cost_microunits
cost_microunits-Covers rate usage =
    let input =
      ceil_divide_1000_bounds (usage.input_tokens * rate.input_microunits_per_1k_tokens) in
    let output =
      ceil_divide_1000_bounds (usage.output_tokens * rate.output_microunits_per_1k_tokens) in
    (omega (arith, input, output), omega (arith, input, output))

-- The estimate in microunits of a call to a priced model other than the deterministic provider's
-- covers the exact cost of the tokens and exceeds it by less than two microunits, and the estimate
-- in cents is the least number of cents that covers those microunits.
pub calculate_llm_cost_lem :
    (pricing : LlmPricingConfig) (usage : LlmUsage) (rate : PricingRate)
    → text_eq usage.provider (codes "deterministic") ≡ false
    → pricing usage.provider usage.model ≡ some rate
    → (micro : ℕ) × (cents : ℕ) × (calculate_llm_cost pricing usage
        ≡ record { estimated_cost_microunits = some micro; estimated_cost_cents = some cents })
      × Covers rate usage micro
      × ((n : ℕ) → (micro ≤ 10000 * n) ↔ (cents ≤ n))
unfolding calculate_llm_cost ceil_divide
calculate_llm_cost_lem pricing usage rate other priced = (
  cost_microunits rate usage,
  ceil_divide (cost_microunits rate usage) 10000,
  ground (arith, other, priced),
  cost_microunits-Covers rate usage,
  λ n. ((λ h. omega arith), λ h. omega arith),
)
