-- ===== src/Llm/Tests.antt =====
-- The cost of a small call.
use autonomous_csa.Base.{ℕ, ◌*◌, ◌≤◌, ◌≡◌, ◌↔◌, refl, some, codes, text_eq}
use autonomous_csa.Llm.Pricing.{PricingRate, LlmPricingConfig, LlmUsage, calculate_llm_cost}
use autonomous_csa.Llm.PricingLaws.{Covers, calculate_llm_cost_lem}

-- The rate of gpt-4o-mini, for every model.
abbrev rate_0 : PricingRate
rate_0 = record { input_microunits_per_1k_tokens = 150; output_microunits_per_1k_tokens = 600 }

abbrev pricing_0 : LlmPricingConfig
pricing_0 provider model = some rate_0

abbrev usage_0 : LlmUsage
usage_0 = record {
  provider = codes "openai";
  model = codes "gpt-4o-mini";
  input_tokens = 1234;
  output_tokens = 321;
}

calculate_llm_cost_lem_example :
    (micro : ℕ) × (cents : ℕ) × (calculate_llm_cost pricing_0 usage_0
      ≡ record { estimated_cost_microunits = some micro; estimated_cost_cents = some cents })
    × Covers rate_0 usage_0 micro
    × ((n : ℕ) → (micro ≤ 10000 * n) ↔ (cents ≤ n))
unfolding text_eq
calculate_llm_cost_lem_example = calculate_llm_cost_lem pricing_0 usage_0 rate_0 refl refl
