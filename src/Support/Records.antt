-- ===== src/Support/Records.antt =====
-- apps/worker/src/support.processor.ts: the private methods of the processor that write the
-- timeline, the draft of a run, its approval and the record of a failure.
use autonomous_csa.Base.{
  ℕ, ◌+◌, Bool, true, false, ◌&&◌, not, List, [], ◌∷◌, Option, none, some, String, Text, ◌==◌,
  if◌then◌else◌, any, find_first, is_some,
}
use text.Mathlib.Text.{◌==◌ as str_eq}
use autonomous_csa.Db.{AgentEvent, AgentEventType, AgentEventType-discrete, append_timeline_event}
use autonomous_csa.Support.Classifier.{SerializedError}
use autonomous_csa.Support.Store.{
  ◌>>=◌, DraftStatus, ApprovalStatus, ActorType, OutboundDraft, HumanApproval, OperationalFailure,
  Store, returned, Run, call, return,
}

-- The data of a job `ticket.process`, with what the queue says of it.
pub record TicketJob : Type 0 where
  pub id : ℕ
  pub name : String
  pub queue_name : String
  pub attempts_made : ℕ
  pub attempts : Option ℕ
  pub org_id : ℕ
  pub ticket_id : ℕ
  pub run_id : ℕ
  pub subject : Text
  pub body : Text

abbrev pub is_run : ℕ → Option ℕ → Bool
is_run run_id none = false
is_run run_id (some id) = id == run_id

abbrev pub decided {ℓ} : {A : Type ℓ} → Dec A → Bool
decided (yes _) = true
decided (no _) = false

abbrev pub same_type : AgentEventType → AgentEventType → Bool
same_type a b = decided (AgentEventType-discrete a b)

-- The `where` of `appendAgentEventOnce`.
abbrev pub is_event : TicketJob → AgentEventType → AgentEvent → Bool
is_event job type e =
    (e.org_id == job.org_id && e.ticket_id == job.ticket_id)
    && (is_run job.run_id e.run_id && same_type e.type type)

-- The row that `appendAgentEvent` adds.
abbrev pub with_event : TicketJob → AgentEventType → Store → Store
with_event job type s = record s {
  events = append_timeline_event job.org_id job.ticket_id type (some job.run_id) s.events;
}

unfoldable pub append_agent_event : TicketJob → AgentEventType → Run SerializedError (Unit {0})
append_agent_event job type = call (λ s. (returned tt, with_event job type s))

-- `findFirst`: whether there is such an event.
unfoldable pub find_event : TicketJob → AgentEventType → Run SerializedError Bool
find_event job type = call (λ s. (returned (any (is_event job type) s.events), s))

unfoldable pub append_agent_event_once : TicketJob → AgentEventType → Run SerializedError (Unit {0})
append_agent_event_once job type =
    find_event job type >>= λ existing. if existing then return tt else append_agent_event job type

abbrev pub is_agent : ActorType → Bool
is_agent ActorType.agent = true
is_agent _ = false

abbrev pub is_approved : DraftStatus → Bool
is_approved DraftStatus.approved = true
is_approved _ = false

-- The `where` of `ensureRunDraft`.
abbrev pub is_run_draft : TicketJob → OutboundDraft → Bool
is_run_draft job d =
    (d.org_id == job.org_id && d.ticket_id == job.ticket_id)
    && (is_run job.run_id d.agent_run_id && is_agent d.created_by_type)

abbrev pub approver : DraftStatus → Option ActorType
approver status = if is_approved status then some ActorType.agent else none

abbrev pub rewritten : Text → DraftStatus → OutboundDraft → OutboundDraft
rewritten body status d = record d {
  body = body;
  status = status;
  approved_by_type = approver status;
}

-- `update({ where: { id } })`.
abbrev pub rewrite_draft : ℕ → Text → DraftStatus → List OutboundDraft → List OutboundDraft
rewrite_draft id body status [] = []
rewrite_draft id body status (d ∷ ds) =
    (if d.id == id then rewritten body status d else d) ∷ rewrite_draft id body status ds

-- The oldest row of a query, the newest row being the first of the table.
abbrev pub find_last : {A : Type 0} → (A → Bool) → List A → Option A
find_last p [] = none
find_last p (x ∷ xs) =
    let rest = find_last p xs in if is_some rest then rest else if p x then some x else none

abbrev pub new_draft : TicketJob → Text → DraftStatus → Store → OutboundDraft
new_draft job body status s = record {
  id = s.next_id;
  org_id = job.org_id;
  ticket_id = job.ticket_id;
  agent_run_id = some job.run_id;
  body = body;
  status = status;
  created_by_type = ActorType.agent;
  approved_by_type = approver status;
}

-- The row that is found is rewritten; without one, a row is created.
abbrev pub save_draft :
    TicketJob → Text → DraftStatus → Option OutboundDraft → Run SerializedError OutboundDraft
save_draft job body status (some d) = call (λ s. (
  returned (rewritten body status d),
  record s { drafts = rewrite_draft d.id body status s.drafts },
))
save_draft job body status none = call (λ s. (
  returned (new_draft job body status s),
  record s { drafts = new_draft job body status s ∷ s.drafts; next_id = s.next_id + 1 },
))

unfoldable pub ensure_run_draft : TicketJob → Text → DraftStatus → Run SerializedError OutboundDraft
ensure_run_draft job body status =
    call (λ s. (returned (find_last (is_run_draft job) s.drafts), s)) >>= save_draft job body status

-- The `where` of `ensureApproval`.
abbrev pub is_run_approval : TicketJob → ℕ → HumanApproval → Bool
is_run_approval job draft_id a =
    (a.org_id == job.org_id && a.ticket_id == job.ticket_id)
    && (is_run job.run_id a.agent_run_id && is_run draft_id a.outbound_draft_id)

abbrev pub new_approval : TicketJob → ℕ → Text → ℕ → HumanApproval
new_approval job draft_id proposed id = record {
  id = id;
  org_id = job.org_id;
  ticket_id = job.ticket_id;
  agent_run_id = some job.run_id;
  outbound_draft_id = some draft_id;
  status = ApprovalStatus.pending;
  proposed_response = proposed;
}

abbrev pub save_approval :
    TicketJob → ℕ → Text → Option HumanApproval → Run SerializedError HumanApproval
save_approval job draft_id proposed (some a) = return a
save_approval job draft_id proposed none = call (λ s. (
  returned (new_approval job draft_id proposed s.next_id),
  record s {
    approvals = new_approval job draft_id proposed s.next_id ∷ s.approvals;
    next_id = s.next_id + 1;
  },
))

unfoldable pub ensure_approval : TicketJob → ℕ → Text → Run SerializedError HumanApproval
ensure_approval job draft_id proposed =
    call (λ s. (returned (find_first (is_run_approval job draft_id) s.approvals), s))
    >>= save_approval job draft_id proposed

-- The `where` of `recordOperationalFailure`.
abbrev pub is_open_failure : TicketJob → OperationalFailure → Bool
is_open_failure job f =
    (f.run_id == job.run_id && str_eq f.queue_name job.queue_name)
    && (str_eq f.job_name job.name && not f.resolved)

abbrev pub refreshed : TicketJob → SerializedError → ℕ → OperationalFailure → OperationalFailure
refreshed job error attempt_count f = record f {
  job_id = job.id;
  error_code = error.error_code;
  safe_error_message = error.message;
  attempt_count = attempt_count;
}

abbrev pub refresh_failure :
    TicketJob → SerializedError → ℕ → ℕ → List OperationalFailure → List OperationalFailure
refresh_failure job error attempt_count id [] = []
refresh_failure job error attempt_count id (f ∷ fs) =
    (if f.id == id then refreshed job error attempt_count f else f)
    ∷ refresh_failure job error attempt_count id fs

abbrev pub new_failure : TicketJob → SerializedError → ℕ → ℕ → OperationalFailure
new_failure job error attempt_count id = record {
  id = id;
  organization_id = job.org_id;
  queue_name = job.queue_name;
  job_name = job.name;
  job_id = job.id;
  ticket_id = job.ticket_id;
  run_id = job.run_id;
  error_code = error.error_code;
  safe_error_message = error.message;
  attempt_count = attempt_count;
  resolved = false;
}

abbrev pub save_failure :
    TicketJob → SerializedError → ℕ → Option OperationalFailure → Run SerializedError ℕ
save_failure job error attempt_count (some f) = call (λ s. (
  returned f.id,
  record s { failures = refresh_failure job error attempt_count f.id s.failures },
))
save_failure job error attempt_count none = call (λ s. (
  returned s.next_id,
  record s {
    failures = new_failure job error attempt_count s.next_id ∷ s.failures;
    next_id = s.next_id + 1;
  },
))

unfoldable pub record_operational_failure : TicketJob → SerializedError → ℕ → Run SerializedError ℕ
record_operational_failure job error attempt_count =
    call (λ s. (returned (find_first (is_open_failure job) s.failures), s))
    >>= save_failure job error attempt_count
