-- ===== src/Delivery/Defs.antt =====
-- The rows of an outbound message, its attempts and its failures (packages/db/prisma/schema.prisma),
-- and the state that the delivery code reads and writes.
use autonomous_csa.Base.{
  ℕ, Bool, List, [], ◌∷◌, Option, none, some, String, Text, ◌==◌, if◌then◌else◌,
}
use autonomous_csa.Db.{AgentEvent, AgentEventType, append_timeline_event}

pub data OutboundMessageStatus : Type 0 where
  pending processing sent delivered retry_scheduled failed : OutboundMessageStatus
  dead_letter cancelled : OutboundMessageStatus

pub data DeliveryAttemptOutcome : Type 0 where
  succeeded retryable_failure permanent_failure unknown : DeliveryAttemptOutcome

pub data ChannelConnectionStatus : Type 0 where
  active disabled error : ChannelConnectionStatus

pub data ChannelProvider : Type 0 where
  mock_email generic_email : ChannelProvider

pub record Recipient : Type 0 where
  pub email : Option String
  pub name : Option String
  pub external_id : Option String

-- The name of a queue job: `channel-delivery-${outboundMessageId}-${suffix}`.
pub record JobId : Type 0 where
  pub outbound_message_id : ℕ
  pub suffix : ℕ

-- What `deliveryQueue.add` was called with. BullMQ ignores a call with the identifier of a job that it still
-- has, so that a list of calls may have more entries than the queue has jobs.
pub record QueuedDelivery : Type 0 where
  pub job_id : JobId
  pub outbound_message_id : ℕ
  pub delay : ℕ

-- The text that `draft:${draft.id}:channel-send:v1` is for a draft.
pub record IdempotencyKey : Type 0 where
  pub draft_id : ℕ

-- Instants are milliseconds.
pub record Outbound : Type 0 where
  pub id : ℕ
  pub organization_id : ℕ
  pub conversation_id : ℕ
  pub channel_connection_id : ℕ
  pub ticket_id : ℕ
  pub draft_id : ℕ
  pub external_message_id : Option ℕ
  pub idempotency_key : IdempotencyKey
  pub status : OutboundMessageStatus
  pub subject : Option String
  pub text_body : String
  pub html_body : Option String
  pub recipients : List Recipient
  pub provider_message_id : Option Text
  pub approved_by_user_id : Option ℕ
  pub approved_at : Option ℕ
  pub processing_started_at : Option ℕ
  pub sent_at : Option ℕ
  pub delivered_at : Option ℕ
  pub failed_at : Option ℕ
  pub next_attempt_at : Option ℕ
  pub attempt_count : ℕ
  pub max_attempts : ℕ
  pub lease_owner : Option JobId
  pub lease_expires_at : Option ℕ
  pub last_error_code : Option Text
  pub last_error_redacted : Option Text

pub record ChannelConnection : Type 0 where
  pub id : ℕ
  pub organization_id : ℕ
  pub provider : ChannelProvider
  pub status : ChannelConnectionStatus
  pub failure_mode : Option Text

pub record DeliveryAttempt : Type 0 where
  pub organization_id : ℕ
  pub outbound_message_id : ℕ
  pub attempt_number : ℕ
  pub outcome : DeliveryAttemptOutcome
  pub completed_at : Option ℕ
  pub provider_status_code : Option ℕ
  pub provider_error_code : Option Text
  pub retryable : Bool
  pub error_redacted : Option Text

pub record ExternalMessage : Type 0 where
  pub id : ℕ
  pub organization_id : ℕ
  pub conversation_id : ℕ
  pub channel_connection_id : ℕ
  pub provider_message_id : Text
  pub sent_at : ℕ

pub record OperationalFailure : Type 0 where
  pub organization_id : ℕ
  pub job_id : JobId
  pub ticket_id : ℕ
  pub error_code : Text
  pub safe_error_message : Text
  pub attempt_count : ℕ

pub record ChannelAuditEvent : Type 0 where
  pub organization_id : ℕ
  pub actor_user_id : ℕ
  pub action : String
  pub target_id : ℕ

-- The tables, with the identifiers of the messages in the order of their creation, and the calls
-- made on the delivery queue, the latest first. A foreign key makes the
-- look-up of a message's connection and thread total.
pub record DeliveryDb : Type 0 where
  pub outbound_ids : List ℕ
  pub outbound : ℕ → Option Outbound
  pub connection : ℕ → ChannelConnection
  pub external_thread_id : ℕ → Option Text
  pub attempts : List DeliveryAttempt
  pub external_messages : List ExternalMessage
  pub failures : List OperationalFailure
  pub events : List AgentEvent
  pub audit : List ChannelAuditEvent
  pub queue : List QueuedDelivery

-- `outboundMessage.update({ where: { id }, data })`: the row with that identifier is replaced.
abbrev pub put_outbound : Outbound → (ℕ → Option Outbound) → ℕ → Option Outbound
put_outbound row table id = if id == row.id then some row else table id

-- `appendTimelineEvent`, in a transaction of its own or in the caller's; it names no run.
abbrev pub log_event : ℕ → ℕ → AgentEventType → DeliveryDb → DeliveryDb
log_event org_id ticket_id type db = record db {
  events = append_timeline_event org_id ticket_id type none db.events;
}

-- The rows of the table of messages, as a query scans them.
unfoldable pub scan : List ℕ → (ℕ → Option Outbound) → List Outbound
scan [] table = []
scan (id ∷ ids) table =
    let rest = scan ids table in elim (table id) [ none ↦ rest | some row ↦ row ∷ rest ]
