-- ===== src/Inbound/Defs.antt =====
-- The tables that an inbound channel message is written to (packages/db/prisma/schema.prisma), and the
-- events that a provider hands over (apps/api/src/channels/channel-provider.interface.ts).
use autonomous_csa.Base.{
  ℕ, Bool, false, List, [], ◌∷◌, Option, none, some, Text, text_eq, if◌then◌else◌,
}
use autonomous_csa.Db.{AgentEvent, AgentEventType, append_timeline_event}
use autonomous_csa.Delivery.Defs.{ChannelProvider, ChannelConnectionStatus}

pub record ExternalCustomer : Type 0 where
  pub id : ℕ
  pub organization_id : ℕ
  pub channel_connection_id : ℕ
  pub external_customer_id : Option Text
  pub email : Option Text
  pub normalized_email : Option Text
  pub display_name : Option Text

pub data ConversationStatus : Type 0 where
  open_conversation closed_conversation archived : ConversationStatus

pub record Conversation : Type 0 where
  pub id : ℕ
  pub organization_id : ℕ
  pub channel_connection_id : ℕ
  pub external_customer_id : Option ℕ
  pub ticket_id : Option ℕ
  pub external_thread_id : Option Text
  pub subject : Option Text
  pub status : ConversationStatus
  pub last_message_at : Option ℕ

pub record InboundMessage : Type 0 where
  pub id : ℕ
  pub organization_id : ℕ
  pub conversation_id : ℕ
  pub channel_connection_id : ℕ
  pub provider_message_id : Option Text
  pub provider_event_id : Option Text
  pub subject : Option Text
  pub text_body : Option Text
  pub html_body : Option Text
  pub in_reply_to : Option Text
  pub references : List Text
  pub received_at : ℕ

pub record AttachmentMetadata : Type 0 where
  pub provider_attachment_id : Option Text
  pub filename : Text
  pub mime_type : Text
  pub size_bytes : ℕ

pub record MessageAttachment : Type 0 where
  pub id : ℕ
  pub organization_id : ℕ
  pub external_message_id : ℕ
  pub attachment : AttachmentMetadata

pub data TicketStatus : Type 0 where
  open_ticket pending_ticket waiting_customer resolved closed_ticket : TicketStatus

pub data TicketPriority : Type 0 where
  low normal high urgent : TicketPriority

pub record Ticket : Type 0 where
  pub id : ℕ
  pub org_id : ℕ
  pub subject : Text
  pub status : TicketStatus
  pub priority : TicketPriority
  pub customer_email : Text
  pub customer_name : Option Text

-- A row of direction INBOUND.
pub record TicketMessage : Type 0 where
  pub org_id : ℕ
  pub ticket_id : ℕ
  pub body : Text

-- An `AgentRun` as it is created, QUEUED.
pub record QueuedRun : Type 0 where
  pub id : ℕ
  pub org_id : ℕ
  pub ticket_id : ℕ
  pub queued_at : ℕ

pub data WebhookReceiptStatus : Type 0 where
  received verified processing processed duplicate rejected failed : WebhookReceiptStatus

pub record WebhookReceipt : Type 0 where
  pub id : ℕ
  pub organization_id : ℕ
  pub channel_connection_id : ℕ
  pub provider_event_id : Text
  pub event_type : Text
  pub signature_verified : Bool
  pub status : WebhookReceiptStatus
  pub failure_code : Option Text
  pub retry_count : ℕ

pub data InboundDispatchStatus : Type 0 where
  pending processing completed failed : InboundDispatchStatus

pub record DispatchPayload : Type 0 where
  pub org_id : ℕ
  pub run_id : ℕ
  pub ticket_id : ℕ
  pub subject : Text
  pub body : Text
  pub customer_email : Text

-- Its idempotency key, `inbound-run:${run.id}:support:v1`, is the identifier of its run.
pub record InboundDispatch : Type 0 where
  pub id : ℕ
  pub organization_id : ℕ
  pub ticket_id : ℕ
  pub run_id : ℕ
  pub webhook_receipt_id : ℕ
  pub status : InboundDispatchStatus
  pub available_at : ℕ
  pub claimed_at : Option ℕ
  pub completed_at : Option ℕ
  pub attempt_count : ℕ
  pub lock_expires_at : Option ℕ
  pub last_error_code : Option Text
  pub payload : DispatchPayload

pub record InboundConnection : Type 0 where
  pub id : ℕ
  pub organization_id : ℕ
  pub provider : ChannelProvider

-- The health of a connection, by its identifier.
pub record ConnectionHealth : Type 0 where
  pub status : ChannelConnectionStatus
  pub last_successful_event_at : Option ℕ
  pub last_error_at : Option ℕ
  pub last_error_code : Option Text

-- The tables, the newest row first, and the next identifier that the database gives. The queue holds
-- the payloads that `supportQueue.add` took.
pub record InboundDb : Type 0 where
  pub next_id : ℕ
  pub health : ℕ → ConnectionHealth
  pub receipts : List WebhookReceipt
  pub customers : List ExternalCustomer
  pub conversations : List Conversation
  pub messages : List InboundMessage
  pub attachments : List MessageAttachment
  pub tickets : List Ticket
  pub ticket_messages : List TicketMessage
  pub runs : List QueuedRun
  pub dispatches : List InboundDispatch
  pub events : List AgentEvent
  pub queue : List DispatchPayload

pub record ChannelAddress : Type 0 where
  pub email : Option Text
  pub name : Option Text
  pub external_id : Option Text

pub record ParsedInboundEvent : Type 0 where
  pub provider_event_id : Text
  pub event_type : Text
  pub provider_message_id : Option Text
  pub provider_thread_id : Option Text
  pub sender : ChannelAddress
  pub subject : Option Text
  pub text_body : Option Text
  pub html_body : Option Text
  pub in_reply_to : Option Text
  pub references : List Text
  pub received_at : ℕ
  pub attachments : List AttachmentMetadata

-- A text where JavaScript takes the value for true.
abbrev pub truthy : Option Text → Option Text
truthy none = none
truthy (some []) = none
truthy (some (c ∷ s)) = some (c ∷ s)

-- Two values of a column in a unique index: NULL is equal to nothing.
abbrev pub same_key : Option Text → Option Text → Bool
same_key none b = false
same_key (some a) none = false
same_key (some a) (some b) = text_eq a b

abbrev pub log_run_event : ℕ → ℕ → AgentEventType → Option ℕ → InboundDb → InboundDb
log_run_event org_id ticket_id type run_id db = record db {
  events = append_timeline_event org_id ticket_id type run_id db.events;
}

-- Rows with one of them replaced, by a test.
unfoldable pub replace_where {ℓ} : {A : Type ℓ} → (A → Bool) → (A → A) → List A → List A
replace_where test f [] = []
replace_where test f (x ∷ xs) = (if test x then f x else x) ∷ replace_where test f xs
