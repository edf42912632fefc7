-- ===== src/Review/Outbound.antt =====
-- `createOutboundForApprovedDraft` of apps/api/src/channels/channels.service.ts.
use autonomous_csa.Base.{
  ℕ, ◌+◌, Bool, true, false, ◌&&◌, ◌∷◌, Option, none, some, Text, ◌==◌, find_first,
}
use autonomous_csa.Http.{bad_request, Response, refuse, reply}
use autonomous_csa.Db.{channel_draft_approved_for_delivery, channel_outbound_queued}
use autonomous_csa.Inbound.Defs.{ConversationStatus, open_conversation}
use autonomous_csa.Inbound.Customers.{normalize_email}
use autonomous_csa.Review.Defs.{ReviewDraft, QueuedOutbound, ConversationView, ReviewDb, log_review}
use autonomous_csa.Review.Drafts.{draft_of, is_approved}

abbrev is_open : ConversationStatus → Bool
is_open open_conversation = true
is_open _ = false

abbrev is_some_id : ℕ → Option ℕ → Bool
is_some_id id none = false
is_some_id id (some i) = i == id

abbrev pub is_deliverable : ℕ → ReviewDraft → ConversationView → Bool
is_deliverable org_id draft c =
    c.organization_id == org_id
    && is_some_id draft.ticket_id c.ticket_id
    && is_open c.status
    && c.connection_is_active

abbrev pub blocked_run : ReviewDraft → ReviewDb → Bool
blocked_run draft db = elim draft.agent_run_id [ none ↦ false | some id ↦ db.run_is_blocked id ]

abbrev pub new_outbound :
    (id org_id actor now max_attempts : ℕ) → ReviewDraft → ConversationView → Text → QueuedOutbound
new_outbound id org_id actor now max_attempts draft c email = record {
  id = id;
  organization_id = org_id;
  conversation_id = c.id;
  channel_connection_id = c.channel_connection_id;
  ticket_id = draft.ticket_id;
  draft_id = draft.id;
  subject = c.subject;
  text_body = draft.body;
  recipient_email = email;
  approved_by_user_id = actor;
  approved_at = now;
  max_attempts = max_attempts;
}

-- The upsert by the key of the draft, which leaves a row that is there.
abbrev pub upsert_found : QueuedOutbound → ReviewDb → Option QueuedOutbound → ReviewDb × ℕ
upsert_found row db (some o) = (db, o.id)
upsert_found row db none =
    (record db { next_id = db.next_id + 1; outbound = row ∷ db.outbound }, row.id)

abbrev pub upsert_outbound : QueuedOutbound → ReviewDb → ReviewDb × ℕ
upsert_outbound row db =
    upsert_found row db (find_first (λ o. o.draft_id == row.draft_id) db.outbound)

abbrev pub queue_outbound : (org_id : ℕ) → ReviewDraft → QueuedOutbound → ReviewDb → ReviewDb × ℕ
queue_outbound org_id draft row db =
    let made = upsert_outbound row db in
    (
      log_review org_id draft.ticket_id channel_outbound_queued draft.agent_run_id (
          log_review org_id draft.ticket_id channel_draft_approved_for_delivery draft.agent_run_id
            made.0),
      made.1,
    )

-- What a request to create a message brings along. `max_attempts` is CHANNEL_DELIVERY_MAX_ATTEMPTS.
pub record OutboundRequest : Type 0 where
  pub to_lower_case : Text → Text
  pub org_id : ℕ
  pub actor : ℕ
  pub now : ℕ
  pub max_attempts : ℕ

-- The steps, the last one first; the answer is the identifier of the message, if there is one to send.
abbrev pub to_address :
    OutboundRequest
    → ReviewDraft
    → ConversationView
    → ReviewDb
    → Option Text
    → Response (ReviewDb × Option ℕ)
to_address r draft c db none = refuse (bad_request "Conversation has no verified recipient email")
to_address r draft c db (some email) =
    let queued =
      queue_outbound r.org_id draft
        (new_outbound db.next_id r.org_id r.actor r.now r.max_attempts draft c email) db in
    reply (queued.0, some queued.1)

abbrev pub to_customer :
    OutboundRequest
    → ReviewDraft
    → ConversationView
    → ReviewDb
    → (has_customer : Bool) → Response (ReviewDb × Option ℕ)
to_customer r draft c db false = reply (db, none)
to_customer r draft c db true =
    to_address r draft c db (normalize_email r.to_lower_case c.customer_email)

abbrev pub to_conversation :
    OutboundRequest
    → ReviewDraft
    → ReviewDb
    → Option ConversationView
    → Response (ReviewDb × Option ℕ)
to_conversation r draft db none = reply (db, none)
to_conversation r draft db (some c) = to_customer r draft c db c.has_customer

abbrev pub of_run :
    OutboundRequest → ReviewDraft → ReviewDb → (blocked : Bool) → Response (ReviewDb × Option ℕ)
of_run r draft db true = refuse (bad_request "Blocked agent run drafts cannot send")
of_run r draft db false =
    to_conversation r draft db (find_first (is_deliverable r.org_id draft) db.conversations)

abbrev pub of_status :
    OutboundRequest → ReviewDraft → ReviewDb → (approved : Bool) → Response (ReviewDb × Option ℕ)
of_status r draft db false = reply (db, none)
of_status r draft db true = of_run r draft db (blocked_run draft db)

abbrev pub of_draft :
    OutboundRequest → ReviewDb → Option ReviewDraft → Response (ReviewDb × Option ℕ)
of_draft r db none = reply (db, none)
of_draft r db (some draft) = of_status r draft db (is_approved draft.status)

unfoldable pub create_outbound_for_approved_draft :
    OutboundRequest → (draft_id : ℕ) → ReviewDb → Response (ReviewDb × Option ℕ)
unfolding normalize_email
create_outbound_for_approved_draft r draft_id db = of_draft r db (draft_of draft_id r.org_id db)
