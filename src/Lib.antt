-- ===== src/Lib.antt =====
-- Verification of Autonomous-CSA, an autonomous customer support agent: a worker that answers
-- tickets with the help of agents and delivers approved answers to external channels, and an API
-- that people and channels call. Both keep their state in one database, and hand each other work by
-- queues. A table is a list of rows or a function from identifiers, and an operation takes the
-- tables and returns them.
--
-- The parts and the code that they model:
--
-- - Base: what the other modules share. `Tests` and `Lists` hold Boolean tests and lists over the
--   native numbers, `Texts` the strings as lists of code units, with `trim`, `includes` and
--   `Number.parseInt`.
-- - Http: the exceptions of the API's services as values.
-- - Db (packages/db/src/event-sequence.ts, packages/db/prisma/schema.prisma): the timeline of a
--   ticket, `next_event_sequence` is `nextEventSequence`.
-- - Delivery: outbound messages.
--   `Processor`, `Claim`, `Settle`, `Backoff` (apps/worker/src/channels/channel-delivery.processor.ts):
--     `send_outbound_message` is `sendOutboundMessage`, cut where others may act in between: the
--     conditional update that claims (`claim_delivery`), the row of the attempt (`start_attempt`),
--     the send (`attempt_send`) and the transaction that settles it (`settle`).
--   `Provider` (apps/worker/src/channels/mock-email.provider.ts): `send_message`, `classify_error`.
--   `Reconciler` (apps/worker/src/channels/outbound-delivery-reconciler.service.ts): `reconcile`.
--   `Control`, `Callback` (apps/api/src/channels/channels.service.ts): `replay_outbound_message`,
--     `cancel_outbound_message`, `enqueue_delivery`, `process_delivery_callback`.
--   `Steps` puts these parties together, with new messages: any of them may act at any time, on rows
--     that it read at any earlier time. `Pickup` follows a message through a run of the reconciler.
-- - Support: the job that answers a ticket.
--   `Guardrails`, `Detectors` (apps/worker/src/guardrails): `run_all` is `runAll`. The patterns of
--     the detectors are regular expressions with an executable matcher (`Regex`), next to the
--     relation of matching (`RegexLaws`).
--   `Classifier` (apps/worker/src/queue/retry-classifier.ts): `classify_retryable_error`.
--   `Store`, `Records`, `Processor`, `Job` (apps/worker/src/support.processor.ts):
--     `process_ticket_job` is `processTicketJob`, in a monad of computations on the store that
--     return or throw. The store says which of the coming calls of the database fail, and with what
--     error, so that what holds for all stores holds for a failure at any point.
--   `Keeps` and `JobLaws` are the interface between the job and its invariants: `JobLaws` is the
--     record of what an invariant owes to each write, and `JobKeeps` takes it through the whole
--     job. `JobInvariants` and `JobOnce` fill the record. `Completes` and `Finishes` are about
--     a database that answers every call.
-- - Llm (apps/worker/src/llm/pricing.ts): `calculate_llm_cost` is `calculateLlmCost`, over the rates as
--   a function.
--
-- - Auth (apps/api/src/auth): who may do what.
--   `Slug`, `Sessions`, `Accounts` (auth.service.ts): `register`, `login`, `logout`, `get_me`,
--     `resolve_tenant_membership`, and `refresh`, which is cut where other requests may act in between,
--     into what it reads (`check_refresh`) and its transaction (`rotate` in `commit_refresh`).
--     `SessionLaws` has the step relation of the requests, `SessionSet` the abstract set of
--     open sessions, and what each request asks of it.
--   `Tokens` (token.service.ts): `sign_token` is `signToken`, `verify_token` is `verifyToken`.
--   `Access` (jwt-access.guard.ts, tenant-context.guard.ts, roles.guard.ts): the guards of a route.
-- - Limit (apps/api/src/rate-limit/rate-limit.service.ts): `consume` runs `rate_limit_script` on a
--   server whose commands are parameters; `Window` is the counter that it is.
--
-- - Inbound (apps/api/src/channels/channels.service.ts, channel-sanitizer.ts): messages that come in.
--   `Ingest`: `ingest_webhook` is `ingestWebhook`, cut into `ingest_checked`, `ingest_parsed` and
--     `ingest_event`; its transaction runs `process_inbound_message` or the callback of `Delivery`, and
--     gives nothing where a unique constraint is violated. `Customers`, `Threads` and `Tickets` are
--     `upsertExternalCustomer`, `findOrCreateConversation` and `ensureTicketAndRun`.
--   `Dispatch`: `dispatch_pending_inbound` is `dispatchPendingInbound`; `DispatchOutcome` follows each
--     dispatch through a round.
--   Identifiers that the database makes come from a counter.
--
-- - Review: people who review drafts. `Drafts` (apps/api/src/support/support.service.ts): `edit_draft` is
--   `editDraft`, and `send_draft` is `sendDraft`, with its transaction as `send_read`. `Approvals`
--   (apps/api/src/approvals/approvals.controller.ts): `update_approval` is `updateApproval`.
--   `Outbound` (apps/api/src/channels/channels.service.ts): `createOutboundForApprovedDraft`. `Sends` has
--   the step relation of the requests, `Balance` its invariant.
--
-- Bounds. Numbers are exact; identifiers, instants in milliseconds and counts are natural numbers,
-- which the code keeps far below 2^53. Scores between 0 and 1 are whole ten-thousandths. Nothing
-- runs on fuel: every loop is over a list, or over the retries that the limit of a message allows.
--
-- Arguments that stand for code outside of the repository: the HMAC and the lower case of the
-- provider, the texts of Prisma's errors, whether the queue takes a job. The pipeline of the agents,
-- which asks a language model, is a field of the job's environment; theorems that need it to keep an
-- invariant say so. The commands of Redis, base64, UTF-8, JSON, HMAC, SHA-256 and argon2 are arguments
-- of the parts that use them, with the documented behaviour as hypotheses where a theorem needs it.
--
-- Not modelled: the web application, the agents and the providers of language models,
-- organizations and the connections of channels; JSON payloads of rows, metrics,
-- log lines and correlation identifiers; a commit whose answer is lost. A queue is the list of the calls
-- of its `add`: that BullMQ ignores a call with the identifier of a job that it still has is left to it.
-- The product of a score and 100 is exact, where that of doubles may fall just below a half.
pub mod Review
pub mod Auth
pub mod Base
pub mod Inbound
pub mod Limit
pub mod Http
pub mod Db
pub mod Delivery
pub mod Llm
pub mod Support
