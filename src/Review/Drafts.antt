-- ===== src/Review/Drafts.antt =====
-- The writing methods of apps/api/src/support/support.service.ts.
use autonomous_csa.Base.{
  ℕ, ◌+◌, Bool, true, false, not, ◌&&◌, ◌∷◌, Option, none, some, Text, ◌==◌, find_first,
  if◌then◌else◌,
}
use autonomous_csa.Http.{bad_request, not_found, Response, reply, on_found, throw_if}
use autonomous_csa.Db.{
  ticket_status_changed, ticket_priority_changed, draft_created, draft_edited, draft_sent,
  outbound_message_created,
}
use autonomous_csa.Support.Store.{DraftStatus, ActorType}
use autonomous_csa.Inbound.Defs.{
  Ticket, TicketStatus, TicketPriority, waiting_customer, replace_where,
}
use autonomous_csa.Review.Defs.{ReviewDraft, ReviewDb, put_draft, log_review}

abbrev pub is_ticket_of : ℕ → ℕ → Ticket → Bool
is_ticket_of ticket_id org_id t = t.id == ticket_id && t.org_id == org_id

-- `assertTicketAccess`.
abbrev pub ticket_of : ℕ → ℕ → ReviewDb → Option Ticket
ticket_of ticket_id org_id db = find_first (is_ticket_of ticket_id org_id) db.tickets

abbrev set_ticket : ℕ → (Ticket → Ticket) → ReviewDb → ReviewDb
set_ticket ticket_id f db = record db {
  tickets = replace_where (λ t. t.id == ticket_id) f db.tickets;
}

unfoldable pub update_ticket_status :
    (ticket_id org_id : ℕ) → TicketStatus → ReviewDb → ReviewDb × Response (Unit {0})
unfolding replace_where
update_ticket_status ticket_id org_id status db =
    on_found db (not_found "Ticket not found") (ticket_of ticket_id org_id db) λ _. (
      log_review org_id ticket_id ticket_status_changed none
          (set_ticket ticket_id (λ t. record t { status = status }) db),
      reply tt,
    )

unfoldable pub update_ticket_priority :
    (ticket_id org_id : ℕ) → TicketPriority → ReviewDb → ReviewDb × Response (Unit {0})
unfolding replace_where
update_ticket_priority ticket_id org_id priority db =
    on_found db (not_found "Ticket not found") (ticket_of ticket_id org_id db) λ _. (
      log_review org_id ticket_id ticket_priority_changed none
          (set_ticket ticket_id (λ t. record t { priority = priority }) db),
      reply tt,
    )

-- `getDraftOrThrow`.
abbrev pub draft_of : ℕ → ℕ → ReviewDb → Option ReviewDraft
draft_of draft_id org_id db = elim (db.drafts draft_id) [
  | none ↦ none
  | some draft ↦ if draft.org_id == org_id then some draft else none
]

abbrev manual_draft : (id ticket_id org_id : ℕ) → Text → ℕ → ReviewDraft
manual_draft id ticket_id org_id body actor = record {
  id = id;
  org_id = org_id;
  ticket_id = ticket_id;
  agent_run_id = none;
  body = body;
  status = DraftStatus.draft;
  created_by_type = ActorType.user;
  created_by_user_id = some actor;
  approved_by_type = none;
  approved_by_user_id = none;
  sent_at = none;
  sent_by_user_id = none;
  rejected_reason = none;
}

unfoldable pub create_manual_draft :
    (ticket_id org_id : ℕ) → Text → (actor : ℕ) → ReviewDb → ReviewDb × Response ℕ
create_manual_draft ticket_id org_id body actor db =
    on_found db (not_found "Ticket not found") (ticket_of ticket_id org_id db) λ _. (
      log_review org_id ticket_id draft_created none (
          put_draft (manual_draft db.next_id ticket_id org_id body actor)
            (record db { next_id = db.next_id + 1 })),
      reply db.next_id,
    )

abbrev pub is_sent : DraftStatus → Bool
is_sent DraftStatus.sent = true
is_sent _ = false

abbrev pub is_approved : DraftStatus → Bool
is_approved DraftStatus.approved = true
is_approved _ = false

unfoldable pub edit_draft : (draft_id org_id : ℕ) → Text → ReviewDb → ReviewDb × Response (Unit {0})
edit_draft draft_id org_id body db =
    on_found db (not_found "Draft not found") (draft_of draft_id org_id db) λ draft.
      throw_if db (is_sent draft.status) (bad_request "Sent drafts cannot be edited") (
        log_review org_id draft.ticket_id draft_edited draft.agent_run_id
            (put_draft (record draft { id = draft_id; body = body }) db),
        reply tt,
      )

abbrev sent_draft : ℕ → ℕ → ReviewDraft → ReviewDraft
sent_draft now actor draft = record draft {
  status = DraftStatus.sent;
  sent_at = some now;
  sent_by_user_id = some actor;
}

-- The transaction of `sendDraft` on the row as it is found, and what it writes of the draft that was
-- read before.
abbrev pub commit_send :
    (draft_id org_id now actor : ℕ) → ReviewDraft → ReviewDraft → ReviewDb → ReviewDb
commit_send draft_id org_id now actor draft row db =
    log_review org_id draft.ticket_id draft_sent draft.agent_run_id (
      log_review org_id draft.ticket_id outbound_message_created draft.agent_run_id (
        set_ticket draft.ticket_id (λ t. record t { status = waiting_customer })
          (put_draft (record (sent_draft now actor row) { id = draft_id })
            (record db {
              next_id = db.next_id + 1;
              messages =
                  record {
                    id = db.next_id;
                    org_id = org_id;
                    ticket_id = draft.ticket_id;
                    body = draft.body;
                  }
                  ∷ db.messages;
              sends = record { draft_id = draft_id; message_id = db.next_id } ∷ db.sends;
            }))))

-- The conditional update; `draft` was read before, and may be old.
unfoldable pub send_read :
    (draft_id org_id now actor : ℕ) → ReviewDraft → ReviewDb → ReviewDb × Response ℕ
send_read draft_id org_id now actor draft db =
    on_found db (bad_request "Draft already sent") (draft_of draft_id org_id db) λ row.
      throw_if db (is_sent row.status) (bad_request "Draft already sent")
        (commit_send draft_id org_id now actor draft row db, reply db.next_id)

unfoldable pub send_draft : (draft_id org_id now actor : ℕ) → ReviewDb → ReviewDb × Response ℕ
unfolding send_read
send_draft draft_id org_id now actor db =
    on_found db (not_found "Draft not found") (draft_of draft_id org_id db) λ draft.
      throw_if db (is_sent draft.status) (bad_request "Draft already sent") (
        throw_if db (db.requires_approval org_id && not (is_approved draft.status))
          (bad_request "Draft must be approved before sending")
          (send_read draft_id org_id now actor draft db))
