-- ===== src/Db.antt =====
-- packages/db: the enumerations of prisma/schema.prisma that several parts share, the timeline
-- table `AgentEvent` and the numbering of its rows (src/event-sequence.ts). A table of the
-- database is state that the operations pass on: a list of rows, or a function from identifiers.
-- Identifiers are opaque in the program, and natural numbers here. JSON payloads are left out.
pub mod Sequence
use autonomous_csa.Base.{
  ℕ, ◌+◌, max, Bool, ◌&&◌, List, [], ◌∷◌, Option, none, some, ◌==◌, if◌then◌else◌, or_else,
}

pub data AgentEventType : Type 0 where
  run_queued run_started router_started router_decision retriever_started : AgentEventType
  retriever_results knowledge_used knowledge_not_found resolver_started : AgentEventType
  resolver_drafted critic_started critic_reviewed critic_blocked : AgentEventType
  draft_created draft_edited draft_approved draft_rejected draft_auto_approved : AgentEventType
  draft_sent outbound_message_created human_approval_created agent_step_failed : AgentEventType
  ticket_status_changed ticket_priority_changed run_finished run_failed : AgentEventType
  guardrail_started guardrail_check_passed guardrail_requires_approval : AgentEventType
  guardrail_blocked guardrail_pii_detected guardrail_secret_detected : AgentEventType
  guardrail_cost_limit_exceeded guardrail_knowledge_grounding_failed : AgentEventType
  llm_call_started llm_call_succeeded llm_call_failed llm_fallback_used : AgentEventType
  llm_usage_recorded channel_connection_created channel_connection_updated : AgentEventType
  channel_connection_disabled channel_connection_enabled : AgentEventType
  channel_connection_tested channel_webhook_received channel_webhook_duplicate : AgentEventType
  channel_webhook_rejected channel_customer_matched channel_conversation_created : AgentEventType
  channel_message_received channel_ticket_created channel_attachment_recorded : AgentEventType
  channel_draft_approved_for_delivery channel_outbound_queued : AgentEventType
  channel_delivery_attempt_started channel_delivery_retry_scheduled : AgentEventType
  channel_message_sent channel_message_delivered channel_message_failed : AgentEventType
  channel_message_dead_lettered channel_message_replayed channel_outbound_cancelled : AgentEventType

unfoldable pub AgentEventType-discrete : Discrete AgentEventType
AgentEventType-discrete = hlevel

pub record AgentEvent : Type 0 where
  pub org_id : ℕ
  pub ticket_id : ℕ
  pub run_id : Option ℕ
  pub type : AgentEventType
  pub sequence : ℕ

-- The rows that the aggregate of `nextEventSequence` ranges over.
abbrev pub is_of_ticket : ℕ → ℕ → AgentEvent → Bool
is_of_ticket org_id ticket_id e = e.org_id == org_id && e.ticket_id == ticket_id

-- `_max.sequence`, null where there is no row.
max_sequence : ℕ → ℕ → List AgentEvent → Option ℕ
max_sequence org_id ticket_id [] = none
max_sequence org_id ticket_id (e ∷ es) =
    let rest = max_sequence org_id ticket_id es in
    if is_of_ticket org_id ticket_id e then some (max e.sequence (or_else rest 0)) else rest

unfoldable pub next_event_sequence : ℕ → ℕ → List AgentEvent → ℕ
unfolding max_sequence
next_event_sequence org_id ticket_id events = or_else (max_sequence org_id ticket_id events) 0 + 1

-- The rows of the timeline, the newest first.
unfoldable pub append_timeline_event :
    ℕ → ℕ → AgentEventType → Option ℕ → List AgentEvent → List AgentEvent
append_timeline_event org_id ticket_id type run_id events =
    record {
      org_id = org_id;
      ticket_id = ticket_id;
      run_id = run_id;
      type = type;
      sequence = next_event_sequence org_id ticket_id events;
    }
    ∷ events
