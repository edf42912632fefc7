-- ===== src/Delivery.antt =====
-- Outbound channel messages: the rows that the delivery worker (apps/worker/src/channels) and the
-- channel service of the API (apps/api/src/channels) share, and the database that they change.
-- `Provider` sends, `Backoff` times the retries, `Processor` is the worker's job with the parts
-- `Claim` and `Settle`, `Control` and `Callback` are the API's side, `Reconciler` finds forgotten
-- messages; the other children hold proofs.
pub mod Defs
pub mod Provider
pub mod Backoff
pub mod Claim
pub mod Settle
pub mod Processor
pub mod Control
pub mod Callback
pub mod Reconciler
pub mod BackoffBounds
pub mod Exclusion
pub mod SettleCases
pub mod Outcome
pub mod Budget
pub mod CallbackLaws
pub mod LateCallback
pub mod ControlLaws
pub mod Resend
pub mod Steps
pub mod Pickup
mod Tests
