-- ===== src/Review/Defs.antt =====
-- The tables that a review reads and writes (packages/db/prisma/schema.prisma).
use autonomous_csa.Base.{ℕ, Bool, List, Option, some, Text, ◌==◌, if◌then◌else◌}
use autonomous_csa.Db.{AgentEvent, AgentEventType, append_timeline_event}
use autonomous_csa.Support.Store.{DraftStatus, ApprovalStatus, ActorType}
use autonomous_csa.Inbound.Defs.{Ticket, ConversationStatus}

pub record ReviewDraft : Type 0 where
  pub id : ℕ
  pub org_id : ℕ
  pub ticket_id : ℕ
  pub agent_run_id : Option ℕ
  pub body : Text
  pub status : DraftStatus
  pub created_by_type : ActorType
  pub created_by_user_id : Option ℕ
  pub approved_by_type : Option ActorType
  pub approved_by_user_id : Option ℕ
  pub sent_at : Option ℕ
  pub sent_by_user_id : Option ℕ
  pub rejected_reason : Option Text

pub record Approval : Type 0 where
  pub id : ℕ
  pub org_id : ℕ
  pub ticket_id : ℕ
  pub agent_run_id : Option ℕ
  pub outbound_draft_id : Option ℕ
  pub reviewed_by_user_id : Option ℕ
  pub status : ApprovalStatus
  pub proposed_response : Option Text
  pub reviewer_note : Option Text

-- A `TicketMessage` of direction OUTBOUND.
pub record SentMessage : Type 0 where
  pub id : ℕ
  pub org_id : ℕ
  pub ticket_id : ℕ
  pub body : Text

-- The payload of an event OUTBOUND_MESSAGE_CREATED.
pub record SendRecord : Type 0 where
  pub draft_id : ℕ
  pub message_id : ℕ

-- An `OutboundMessage` as an approval creates it, PENDING. `draft_id` is its idempotency key, too.
pub record QueuedOutbound : Type 0 where
  pub id : ℕ
  pub organization_id : ℕ
  pub conversation_id : ℕ
  pub channel_connection_id : ℕ
  pub ticket_id : ℕ
  pub draft_id : ℕ
  pub subject : Option Text
  pub text_body : Text
  pub recipient_email : Text
  pub approved_by_user_id : ℕ
  pub approved_at : ℕ
  pub max_attempts : ℕ

-- A conversation with its customer and its connection, the oldest first.
pub record ConversationView : Type 0 where
  pub id : ℕ
  pub organization_id : ℕ
  pub ticket_id : Option ℕ
  pub status : ConversationStatus
  pub connection_is_active : Bool
  pub channel_connection_id : ℕ
  pub subject : Option Text
  pub has_customer : Bool
  pub customer_email : Option Text

pub record ReviewDb : Type 0 where
  pub next_id : ℕ
  pub tickets : List Ticket
  pub run_is_blocked : ℕ → Bool
  pub run_ticket : ℕ → Option (ℕ × ℕ)
  pub requires_approval : ℕ → Bool
  pub drafts : ℕ → Option ReviewDraft
  pub approvals : List Approval
  pub conversations : List ConversationView
  pub messages : List SentMessage
  pub sends : List SendRecord
  pub outbound : List QueuedOutbound
  pub events : List AgentEvent

abbrev pub put_draft : ReviewDraft → ReviewDb → ReviewDb
put_draft row db = record db { drafts = λ id. if id == row.id then some row else db.drafts id }

abbrev pub log_review : ℕ → ℕ → AgentEventType → Option ℕ → ReviewDb → ReviewDb
log_review org_id ticket_id type run_id db = record db {
  events = append_timeline_event org_id ticket_id type run_id db.events;
}
