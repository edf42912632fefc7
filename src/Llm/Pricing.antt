-- ===== src/Llm/Pricing.antt =====
-- apps/worker/src/llm/pricing.ts: the cost of a call of a language model. Rates and costs are whole
-- numbers, exact as they are below 2^53. The reading of the rates from JSON is left out.
use autonomous_csa.Base.{
  ℕ, ◌+◌, ◌-◌, ◌*◌, ◌/◌, List, [], ◌∷◌, Option, none, some, Text, codes, text_eq, if◌then◌else◌,
}

pub record PricingRate : Type 0 where
  pub input_microunits_per_1k_tokens : ℕ
  pub output_microunits_per_1k_tokens : ℕ

-- `pricing[provider]?.[model]`.
abbrev pub LlmPricingConfig : Type 0
LlmPricingConfig = Text → Text → Option PricingRate

pub record LlmCostResult : Type 0 where
  pub estimated_cost_microunits : Option ℕ
  pub estimated_cost_cents : Option ℕ

pub record LlmUsage : Type 0 where
  pub provider : Text
  pub model : Text
  pub input_tokens : ℕ
  pub output_tokens : ℕ

unfoldable pub ceil_divide : ℕ → ℕ → ℕ
ceil_divide numerator denominator = (numerator + denominator - 1) / denominator

unfoldable pub cost_microunits : PricingRate → LlmUsage → ℕ
unfolding ceil_divide
cost_microunits rate usage =
    ceil_divide (usage.input_tokens * rate.input_microunits_per_1k_tokens) 1000
    + ceil_divide (usage.output_tokens * rate.output_microunits_per_1k_tokens) 1000

abbrev pub cost_at : Option PricingRate → LlmUsage → LlmCostResult
cost_at none usage = record { estimated_cost_microunits = none; estimated_cost_cents = none }
cost_at (some rate) usage = record {
  estimated_cost_microunits = some (cost_microunits rate usage);
  estimated_cost_cents = some (ceil_divide (cost_microunits rate usage) 10000);
}

unfoldable pub calculate_llm_cost : LlmPricingConfig → LlmUsage → LlmCostResult
unfolding text_eq
calculate_llm_cost pricing usage =
    if text_eq usage.provider (codes "deterministic")
    then record { estimated_cost_microunits = some 0; estimated_cost_cents = some 0 }
    else cost_at (pricing usage.provider usage.model) usage

-- `sumEstimatedCostCents`: null where a value is null.
unfoldable pub sum_from : ℕ → List (Option ℕ) → Option ℕ
sum_from total [] = some total
sum_from total (none ∷ values) = none
sum_from total (some value ∷ values) = sum_from (total + value) values

abbrev pub sum_estimated_cost_cents : List (Option ℕ) → Option ℕ
sum_estimated_cost_cents values = sum_from 0 values
