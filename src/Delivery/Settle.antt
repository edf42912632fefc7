-- ===== src/Delivery/Settle.antt =====
-- apps/worker/src/channels/channel-delivery.processor.ts, the second half of a job: the send, and the
-- transaction that settles the attempt after a success or a failure.
use autonomous_csa.Base.{
  ℕ, ◌+◌, ◌-◌, Bool, true, false, ◌&&◌, not, List, [], ◌∷◌, Option, none, some, Text, codes, ltb,
  ◌==◌, text_eq, any, length, or_else, if◌then◌else◌,
}
use autonomous_csa.Db.{
  channel_message_sent, channel_message_delivered, channel_delivery_retry_scheduled,
  channel_message_dead_lettered,
}
use autonomous_csa.Delivery.Defs.{
  OutboundMessageStatus, sent, delivered, retry_scheduled, dead_letter, succeeded,
  retryable_failure, permanent_failure, active, mock_email, ChannelConnectionStatus,
  ChannelProvider, Outbound, DeliveryAttempt, ExternalMessage, DeliveryDb, put_outbound, log_event,
}
use autonomous_csa.Delivery.Provider.{
  connection_disabled, configuration_error, category_code, ThrownError, DeliveryStatus,
  status_delivered, ChannelSendResult, SendOutcome, accepted, threw, thrown, send_message,
  classify_error, ChannelDeliveryError,
}
use autonomous_csa.Delivery.Backoff.{backoff_delay_ms}
use autonomous_csa.Delivery.Claim.{WorkerEnv, Instants, InFlight, is_attempt}

pub data JobResult : Type 0 where
  ignored missing_outbound_message delayed already_claimed duplicate_attempt : JobResult
  skipped : OutboundMessageStatus → JobResult
  sent_with : DeliveryStatus → JobResult
  failed_with : OutboundMessageStatus → Bool → JobResult

abbrev is_active : ChannelConnectionStatus → Bool
is_active active = true
is_active _ = false

abbrev is_mock_email : ChannelProvider → Bool
is_mock_email mock_email = true
is_mock_email _ = false

-- The checks of the connection as it was read, and the call of the provider.
unfoldable pub attempt_send : WorkerEnv → ℕ → InFlight → SendOutcome
attempt_send env accepted_at w =
    if not (is_active w.connection.status)
    then thrown (codes "Channel connection is disabled") connection_disabled false none
    else if not (is_mock_email w.connection.provider)
    then thrown (codes "Unsupported channel provider") configuration_error false none
    else send_message env.hmac_hex env.to_lower_case w.connection.failure_mode
        w.outbound.idempotency_key accepted_at

-- `deliveryAttempt.update` of the attempt that this run created.
abbrev pub settle_attempt :
    ℕ → ℕ → (DeliveryAttempt → DeliveryAttempt) → List DeliveryAttempt → List DeliveryAttempt
settle_attempt id number f [] = []
settle_attempt id number f (a ∷ as_) =
    (if is_attempt id number a then f a else a) ∷ settle_attempt id number f as_

-- `outboundMessage.update` of the row as it is now.
abbrev pub update_outbound : ℕ → (Outbound → Outbound) → (ℕ → Option Outbound) → ℕ → Option Outbound
update_outbound id f table = elim (table id) [
  | none ↦ table
  | some row ↦ put_outbound (f row) table
]

abbrev pub is_external : ℕ → Text → ExternalMessage → Bool
is_external connection_id provider_message_id m =
    m.channel_connection_id == connection_id && text_eq m.provider_message_id provider_message_id

abbrev is_delivered : DeliveryStatus → Bool
is_delivered status_delivered = true
is_delivered _ = false

abbrev pub succeeded_attempt : ℕ → DeliveryAttempt → DeliveryAttempt
succeeded_attempt completed_at a = record a {
  outcome = succeeded;
  completed_at = some completed_at;
  retryable = false;
}

abbrev pub sent_row : ChannelSendResult → ℕ → Outbound → Outbound
sent_row result external_message_id row = record row {
  external_message_id = some external_message_id;
  provider_message_id = some result.provider_message_id;
  status = if is_delivered result.delivery_status then delivered else sent;
  sent_at = some result.accepted_at;
  delivered_at = if is_delivered result.delivery_status then some result.accepted_at else none;
  lease_owner = none;
  lease_expires_at = none;
  next_attempt_at = none;
  last_error_code = none;
  last_error_redacted = none;
}

-- The transaction of an accepted message; `none` if the unique pair of connection and provider
-- message of the table of external messages is violated, which rolls all of it back. The new row's
-- identifier is one that the table does not have.
unfoldable pub commit_sent : ChannelSendResult → ℕ → InFlight → DeliveryDb → Option DeliveryDb
unfolding text_eq
commit_sent result completed_at w db =
    if any (is_external w.outbound.channel_connection_id result.provider_message_id)
      db.external_messages
    then none
    else some (record db {
      external_messages =
          record {
            id = length db.external_messages;
            organization_id = w.outbound.organization_id;
            conversation_id = w.outbound.conversation_id;
            channel_connection_id = w.outbound.channel_connection_id;
            provider_message_id = result.provider_message_id;
            sent_at = result.accepted_at;
          }
          ∷ db.external_messages;
      outbound =
          update_outbound w.outbound.id (sent_row result (length db.external_messages)) db.outbound;
      attempts =
          settle_attempt w.outbound.id w.attempt_number (succeeded_attempt completed_at)
            db.attempts;
    })

-- The timeline events of an accepted message.
abbrev pub log_sent : ChannelSendResult → InFlight → DeliveryDb → DeliveryDb
log_sent result w db =
    let logged =
      log_event w.outbound.organization_id w.outbound.ticket_id channel_message_sent db in
    if is_delivered result.delivery_status
    then log_event w.outbound.organization_id w.outbound.ticket_id channel_message_delivered logged
    else logged

-- A retry wants a retryable error and an attempt that is left.
abbrev pub can_retry : InFlight → ChannelDeliveryError → Bool
can_retry w classified = classified.retryable && ltb w.attempt_number w.outbound.max_attempts

abbrev pub failed_attempt : Bool → ℕ → ChannelDeliveryError → DeliveryAttempt → DeliveryAttempt
failed_attempt retry completed_at classified a = record a {
  outcome = if retry then retryable_failure else permanent_failure;
  completed_at = some completed_at;
  provider_status_code = classified.provider_status_code;
  provider_error_code =
      some (or_else classified.provider_error_code (category_code classified.category));
  retryable = retry;
  error_redacted = some classified.message;
}

abbrev pub failed_row : ℕ → Bool → Option ℕ → ChannelDeliveryError → Outbound → Outbound
failed_row completed_at retry next_attempt_at classified row = record row {
  status = if retry then retry_scheduled else dead_letter;
  failed_at = if retry then none else some completed_at;
  next_attempt_at = next_attempt_at;
  lease_owner = none;
  lease_expires_at = none;
  last_error_code = some (category_code classified.category);
  last_error_redacted = some classified.message;
}

-- `enqueue`; the job's name carries the instant.
abbrev pub enqueue : ℕ → ℕ → ℕ → DeliveryDb → DeliveryDb
enqueue id delay_ms now db = record db {
  queue =
      record {
        job_id = record { outbound_message_id = id; suffix = now };
        outbound_message_id = id;
        delay = delay_ms;
      }
      ∷ db.queue;
}

-- The `catch` block: the transaction, the timeline event and the job of a retry. A truncated
-- subtraction is the delay that `Math.max(…, 0)` leaves.
unfoldable pub settle_failure :
    WorkerEnv → Instants → InFlight → ChannelDeliveryError → DeliveryDb → DeliveryDb × JobResult
settle_failure env t w classified db =
    let next = t.retry_from + backoff_delay_ms env.retry_base_delay_ms w.attempt_number in
    let settled : DeliveryDb = record db {
      attempts =
          settle_attempt w.outbound.id w.attempt_number
            (failed_attempt (can_retry w classified) t.completed_at classified) db.attempts;
      outbound =
          update_outbound w.outbound.id
            (failed_row t.completed_at (can_retry w classified)
              (if can_retry w classified then some next else none) classified)
            db.outbound;
      failures =
          if can_retry w classified
          then db.failures
          else record {
            organization_id = w.outbound.organization_id;
            job_id = w.job;
            ticket_id = w.outbound.ticket_id;
            error_code = category_code classified.category;
            safe_error_message = classified.message;
            attempt_count = w.attempt_number;
          }
            ∷ db.failures;
    } in
    let logged =
      log_event w.outbound.organization_id w.outbound.ticket_id
        (if can_retry w classified
          then channel_delivery_retry_scheduled
          else channel_message_dead_lettered)
        settled in
    (
      if can_retry w classified
          then enqueue w.outbound.id (next - t.enqueued_at) t.enqueued_at logged
          else logged,
      failed_with (if can_retry w classified then retry_scheduled else dead_letter)
          (can_retry w classified),
    )

-- What a violated unique constraint throws has none of the properties that `classifyError` reads
-- but its message.
abbrev pub unique_violation : WorkerEnv → ThrownError
unique_violation env = record {
  category = none;
  retryable = none;
  message = some env.unique_message;
  provider_status_code = none;
  provider_error_code = none;
}

-- The `try` block from the send on, and its `catch`.
unfoldable pub settle :
    WorkerEnv → Instants → InFlight → SendOutcome → DeliveryDb → DeliveryDb × JobResult
settle env t w (threw error) db = settle_failure env t w (classify_error error) db
settle env t w (accepted result) db = elim (commit_sent result t.completed_at w db) [
  | none ↦ settle_failure env t w (classify_error (unique_violation env)) db
  | some db' ↦ (log_sent result w db', sent_with result.delivery_status)
]
