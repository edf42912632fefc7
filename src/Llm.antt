-- ===== src/Llm.antt =====
-- The worker's use of language models (apps/worker/src/llm): `Pricing` computes what a call costs.
pub mod Pricing
pub mod PricingLaws
mod Tests
