-- ===== src/Support.antt =====
-- The worker's support job (apps/worker/src): `Detectors` and `Guardrails` judge a draft, `Classifier`
-- an error, and `Job` runs a ticket through `Processor` and settles its errors, on the tables of
-- `Store`; `Regex` is the matcher of the detectors. The other children hold proofs.
pub mod Regex
pub mod RegexLaws
pub mod Detectors
pub mod DetectorLaws
pub mod Guardrails
pub mod GuardrailLaws
pub mod Classifier
pub mod ClassifierLaws
pub mod Store
pub mod Records
pub mod Processor
pub mod Job
pub mod Keeps
pub mod JobLaws
pub mod JobKeeps
pub mod JobInvariants
pub mod JobOnce
pub mod JobErrors
mod Tests
pub mod Completes
pub mod Finishes
