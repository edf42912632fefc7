-- ===== src/Review/Tests.antt =====
-- The review on concrete rows.
use autonomous_csa.Base.{◌+◌, ◌≤◌, refl, false, [], ◌∷◌, none, some, ◌==◌, if◌then◌else◌, arith}
use autonomous_csa.Support.Store.{DraftStatus, ApprovalStatus, ActorType}
use autonomous_csa.Review.Defs.{ReviewDraft, Approval, ReviewDb}
use autonomous_csa.Review.Drafts.{send_read}
use autonomous_csa.Review.Outbound.{OutboundRequest}
use autonomous_csa.Review.Approvals.{approve, update_approval}
use autonomous_csa.Review.Rows.{decisions}
use autonomous_csa.Review.Sends.{sendings, IsKeyed, sends, decides, Reach, here, next}
use autonomous_csa.Review.Balance.{sends_bound}

abbrev reviewed_draft : ReviewDraft
reviewed_draft = record {
  id = 7;
  org_id = 1;
  ticket_id = 3;
  agent_run_id = none;
  body = [];
  status = DraftStatus.pending_approval;
  created_by_type = ActorType.user;
  created_by_user_id = none;
  approved_by_type = none;
  approved_by_user_id = none;
  sent_at = none;
  sent_by_user_id = none;
  rejected_reason = none;
}

abbrev open_approval : Approval
open_approval = record {
  id = 5;
  org_id = 1;
  ticket_id = 3;
  agent_run_id = none;
  outbound_draft_id = some 7;
  reviewed_by_user_id = none;
  status = ApprovalStatus.pending;
  proposed_response = none;
  reviewer_note = none;
}

abbrev review_db : ReviewDb
review_db = record {
  next_id = 20;
  tickets = [];
  run_is_blocked = λ _. false;
  run_ticket = λ _. none;
  requires_approval = λ _. false;
  drafts = λ d. if d == 7 then some reviewed_draft else none;
  approvals = open_approval ∷ [];
  conversations = [];
  messages = [];
  sends = [];
  outbound = [];
  events = [];
}

abbrev review_request : OutboundRequest
review_request = record {
  to_lower_case = λ x. x;
  org_id = 1;
  actor = 2;
  now = 100;
  max_attempts = 3;
}

-- The draft is sent, approved after that, and sent again.
abbrev sent_once : ReviewDb
sent_once = (send_read 7 1 50 2 reviewed_draft review_db).0

abbrev sent_and_approved : ReviewDb
sent_and_approved = (update_approval review_request 5 approve none sent_once).0

abbrev sent_twice : ReviewDb
sent_twice = (send_read 7 1 120 2 reviewed_draft sent_and_approved).0

sent_twice-Reach : Reach review_db sent_twice
sent_twice-Reach =
    next
      (next (next here (sends 7 1 50 2 reviewed_draft refl))
        (decides review_request 5 approve none refl))
      (sends 7 1 120 2 reviewed_draft refl)

one_approval-IsKeyed : IsKeyed review_db.approvals
one_approval-IsKeyed id = ground arith

sends_bound_example : sendings 7 sent_twice.sends ≤ 1 + decisions 7 sent_twice.approvals
sends_bound_example = sends_bound 7 review_db sent_twice one_approval-IsKeyed refl sent_twice-Reach
