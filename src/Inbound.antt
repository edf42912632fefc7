-- ===== src/Inbound.antt =====
-- Inbound channel messages (apps/api/src/channels/channels.service.ts): `Defs` has the tables, `Customers`,
-- `Threads` and `Tickets` are the steps of a message, `Ingest` is the webhook and `Dispatch` hands the
-- runs to the worker's queue; the other children hold proofs.
pub mod Defs
pub mod Customers
pub mod Sanitizer
pub mod Threads
pub mod Tickets
pub mod Ingest
pub mod Dispatch
pub mod Once
pub mod Loss
mod Tests
pub mod DispatchLaws
pub mod DispatchRows
pub mod DispatchWork
pub mod DispatchOutcome
pub mod Outcome
