-- ===== src/Review/Approvals.antt =====
-- apps/api/src/approvals/approvals.controller.ts.
use autonomous_csa.Base.{
  ℕ, ◌+◌, Bool, true, false, not, ◌&&◌, ◌∷◌, Option, none, some, or_else, Text, ◌==◌, count,
  find_first,
}
use autonomous_csa.Http.{bad_request, not_found, Response, reply, on_found, on_reply, throw_if}
use autonomous_csa.Db.{draft_approved, draft_rejected}
use autonomous_csa.Support.Store.{DraftStatus, ApprovalStatus, ActorType}
use autonomous_csa.Inbound.Defs.{replace_where}
use autonomous_csa.Review.Defs.{ReviewDraft, Approval, ReviewDb, put_draft, log_review}
use autonomous_csa.Review.Drafts.{ticket_of}
use autonomous_csa.Review.Outbound.{OutboundRequest, create_outbound_for_approved_draft}

pub record CreateApprovalDto : Type 0 where
  pub ticket_id : ℕ
  pub agent_run_id : Option ℕ
  pub proposed_response : Option Text

abbrev is_run_of : ℕ → ℕ → Option (ℕ × ℕ) → Bool
is_run_of org_id ticket_id none = false
is_run_of org_id ticket_id (some (org, ticket)) = org == org_id && ticket == ticket_id

abbrev is_foreign_run : ℕ → CreateApprovalDto → ReviewDb → Bool
is_foreign_run org_id dto db = elim dto.agent_run_id [
  | none ↦ false
  | some id ↦ not (is_run_of org_id dto.ticket_id (db.run_ticket id))
]

unfoldable pub create_approval : (org_id : ℕ) → CreateApprovalDto → ReviewDb → ReviewDb × Response ℕ
create_approval org_id dto db =
    on_found db (not_found "Ticket not found") (ticket_of dto.ticket_id org_id db) λ _.
      throw_if db (is_foreign_run org_id dto db)
        (bad_request "agentRunId does not belong to this ticket")
        (
          record db {
            next_id = db.next_id + 1;
            approvals =
                record {
                  id = db.next_id;
                  org_id = org_id;
                  ticket_id = dto.ticket_id;
                  agent_run_id = dto.agent_run_id;
                  outbound_draft_id = none;
                  reviewed_by_user_id = none;
                  status = ApprovalStatus.pending;
                  proposed_response = dto.proposed_response;
                  reviewer_note = none;
                }
                ∷ db.approvals;
          },
          reply db.next_id,
        )

-- A decision is to approve or to reject.
pub data Decision : Type 0 where
  approve reject : Decision

abbrev pub is_pending : ApprovalStatus → Bool
is_pending ApprovalStatus.pending = true
is_pending _ = false

abbrev pub decided_status : Decision → ApprovalStatus
decided_status approve = ApprovalStatus.approved
decided_status reject = ApprovalStatus.rejected

abbrev pub is_undecided : ℕ → Approval → Bool
is_undecided id a = a.id == id && is_pending a.status

abbrev pub decided_approval : Decision → Option Text → ℕ → Approval → Approval
decided_approval decision remark actor a = record a {
  status = decided_status decision;
  reviewer_note = elim remark [ none ↦ a.reviewer_note | some x ↦ some x ];
  reviewed_by_user_id = some actor;
}

abbrev pub decided_draft : Decision → Option Text → ℕ → Approval → ReviewDraft → ReviewDraft
decided_draft approve remark actor approval draft = record draft {
  status = DraftStatus.approved;
  approved_by_type = some ActorType.user;
  approved_by_user_id = some actor;
  rejected_reason = none;
  body = or_else approval.proposed_response draft.body;
}
decided_draft reject remark actor approval draft = record draft {
  status = DraftStatus.rejected;
  rejected_reason = remark;
}

abbrev log_decision : ℕ → Decision → Approval → ReviewDb → ReviewDb
log_decision org_id approve approval =
    log_review org_id approval.ticket_id draft_approved approval.agent_run_id
log_decision org_id reject approval =
    log_review org_id approval.ticket_id draft_rejected approval.agent_run_id

-- The update of the draft and its event; a foreign key makes the look-up of the draft total.
abbrev pub settle_draft :
    ℕ → Decision → Option Text → ℕ → Approval → Option ReviewDraft → ℕ → ReviewDb → ReviewDb
settle_draft org_id decision remark actor approval none draft_id db = db
settle_draft org_id decision remark actor approval (some draft) draft_id db =
    log_decision org_id decision approval
      (put_draft (record (decided_draft decision remark actor approval draft) { id = draft_id }) db)

abbrev pub decided_db : Decision → Option Text → (actor approval_id : ℕ) → ReviewDb → ReviewDb
decided_db decision remark actor approval_id db = record db {
  approvals =
      replace_where (is_undecided approval_id) (decided_approval decision remark actor)
        db.approvals;
}

-- The rest of the transaction, for an approval with a draft; an error undoes all of it.
abbrev pub follow_decision :
    OutboundRequest
    → Decision
    → Option Text
    → Approval
    → Option ℕ
    → ReviewDb
    → Response (ReviewDb × Option ℕ)
follow_decision r decision remark approval none db = reply (db, none)
follow_decision r approve remark approval (some draft_id) db =
    create_outbound_for_approved_draft r draft_id
      (settle_draft r.org_id approve remark r.actor approval (db.drafts draft_id) draft_id db)
follow_decision r reject remark approval (some draft_id) db =
    reply
      (settle_draft r.org_id reject remark r.actor approval (db.drafts draft_id) draft_id db, none)

-- The answer is the message that is to be enqueued, if any.
unfoldable pub update_approval :
    OutboundRequest
    → (approval_id : ℕ) → Decision
    → Option Text
    → ReviewDb
    → ReviewDb × Response (Option ℕ)
unfolding create_outbound_for_approved_draft replace_where
update_approval r approval_id decision remark db =
    on_found db (not_found "Approval not found")
      (find_first (λ a. a.id == approval_id && a.org_id == r.org_id) db.approvals)
      λ approval.
        throw_if db (not (count (is_undecided approval_id) db.approvals == 1))
          (bad_request "Approval has already been decided")
          (on_reply db
            (follow_decision r decision remark approval approval.outbound_draft_id
              (decided_db decision remark r.actor approval_id db))
            λ done. (done.0, reply done.1))
