-- ===== src/Review/Sends.antt =====
-- How often a draft is sent (apps/api/src/support/support.service.ts,
-- apps/api/src/approvals/approvals.controller.ts): requests in any order, where a sending may have read
-- its draft at any time before.
use autonomous_csa.Base.{
  ℕ, ◌+◌, ◌≤◌, ◌≡◌, refl, ap, ◌∙◌, Bool, true, false, Bool-cases, Option-cases, inl, inr, List,
  Option, none, some, Text, ◌==◌, ==_iff, count, find_first, if◌then◌else◌, arith,
}
use autonomous_csa.Http.{Response, refuse, reply, on_found_keeps, throw_if_keeps}
use autonomous_csa.Review.Defs.{
  ReviewDraft, Approval, SendRecord, QueuedOutbound, ConversationView, ReviewDb,
}
use autonomous_csa.Review.Drafts.{
  draft_of, is_sent, is_approved, edit_draft, commit_send, send_read,
}
use autonomous_csa.Review.Outbound.{
  OutboundRequest, new_outbound, upsert_found, is_deliverable, blocked_run, to_address, to_customer,
  to_conversation, of_run, of_status, of_draft, create_outbound_for_approved_draft,
}
use autonomous_csa.Inbound.Customers.{normalize_email}
use autonomous_csa.Review.Approvals.{Decision, update_approval}
use autonomous_csa.Review.Rows.{decisions}

-- The sendings of a draft.
abbrev pub sendings : ℕ → List SendRecord → ℕ
sendings d = count (λ s. s.draft_id == d)

-- Whether the draft may be sent once more as it is.
abbrev pub ready : Option ReviewDraft → ℕ
ready none = 1
ready (some draft) = if is_sent draft.status then 0 else 1

abbrev pub IsKeyed : List Approval → Type 0
IsKeyed rows = (id : ℕ) → count (λ a. a.id == id) rows ≤ 1

pub data Step (db : ReviewDb) : ReviewDb → Type 0 where
  sends :
      {db' : ReviewDb} (draft_id org_id now actor : ℕ) (draft : ReviewDraft)
      → (send_read draft_id org_id now actor draft db).0 ≡ db'
      → Step db db'
  edits :
      {db' : ReviewDb} (draft_id org_id : ℕ) (body : Text)
      → (edit_draft draft_id org_id body db).0 ≡ db'
      → Step db db'
  decides :
      {db' : ReviewDb} (r : OutboundRequest) (approval_id : ℕ) (decision : Decision)
      (remark : Option Text)
      → (update_approval r approval_id decision remark db).0 ≡ db'
      → Step db db'

pub data Reach (db : ReviewDb) : ReviewDb → Type 0 where
  here : Reach db db
  next : {db' db'' : ReviewDb} → Reach db db' → Step db' db'' → Reach db db''

-- The balance of a draft.
unfoldable pub Balanced : ℕ → ReviewDb → Type 0
Balanced d db = sendings d db.sends + ready (db.drafts d) ≤ 1 + decisions d db.approvals

draft_of_lem :
    (draft_id org_id : ℕ) (db : ReviewDb) (row : ReviewDraft)
    → draft_of draft_id org_id db ≡ some row
    → db.drafts draft_id ≡ some row
draft_of_lem draft_id org_id db row e = elim (Option-cases (db.drafts draft_id)) [
  | inl missing ↦ ground (arith, e, missing)
  | inr (draft, found) ↦ found ∙ ground (arith, e, found)
]

commit_send-Balanced :
    (d draft_id org_id now actor : ℕ) (draft row : ReviewDraft) (db : ReviewDb)
    → db.drafts draft_id ≡ some row
    → is_sent row.status ≡ false
    → Balanced d db
    → Balanced d (commit_send draft_id org_id now actor draft row db)
unfolding Balanced
commit_send-Balanced d draft_id org_id now actor draft row db found fresh h =
    elim (Bool-cases (d == draft_id)) [
      | inl e ↦
          let same = (==_iff d draft_id).0 e in
          ground (arith, h, e, same, found, fresh, ap db.drafts same)
      | inr e ↦ ground (arith, h, e)
    ]

-- A row of the same status in its place.
edit-Balanced :
    (d draft_id : ℕ) (row row' : ReviewDraft) (drafts : ℕ → Option ReviewDraft) (n m : ℕ)
    → drafts draft_id ≡ some row
    → row'.status ≡ row.status
    → n + ready (drafts d) ≤ m
    → n + ready (if d == draft_id then some row' else drafts d) ≤ m
edit-Balanced d draft_id row row' drafts n m found same h = elim (Bool-cases (d == draft_id)) [
  | inl e ↦ ground (arith, h, e, found, same, ap drafts ((==_iff d draft_id).0 e))
  | inr e ↦ ground (arith, h, e)
]

pub edit_draft-Balanced :
    (d draft_id org_id : ℕ) (body : Text) (db : ReviewDb)
    → Balanced d db
    → Balanced d (edit_draft draft_id org_id body db).0
unfolding edit_draft Balanced
edit_draft-Balanced d draft_id org_id body db h =
    on_found_keeps db (Balanced d) _ _ _ h λ row found. throw_if_keeps db (Balanced d) _ _ _ h λ _.
      edit-Balanced d draft_id row (record row { id = draft_id; body = body }) db.drafts
        (sendings d db.sends) (1 + decisions d db.approvals)
        (draft_of_lem draft_id org_id db row found) refl h

pub send_read-Balanced :
    (d draft_id org_id now actor : ℕ) (draft : ReviewDraft) (db : ReviewDb)
    → Balanced d db
    → Balanced d (send_read draft_id org_id now actor draft db).0
unfolding send_read
send_read-Balanced d draft_id org_id now actor draft db h =
    on_found_keeps db (Balanced d) _ _ _ h λ row found.
      throw_if_keeps db (Balanced d) _ _ _ h λ fresh.
        commit_send-Balanced d draft_id org_id now actor draft row db
          (draft_of_lem draft_id org_id db row found) fresh h

-- The message to a channel leaves drafts, approvals and sendings.
unfoldable pub Keeps : ReviewDb → Response (ReviewDb × Option ℕ) → Type 0
Keeps db (refuse error) = Unit
Keeps db (reply done) =
    (done.0.drafts ≡ db.drafts) × (done.0.approvals ≡ db.approvals) × (done.0.sends ≡ db.sends)

module _ (r : OutboundRequest) (db : ReviewDb) where
  unchanged-Keeps : Keeps db (reply (db, none))
  unfolding Keeps
  unchanged-Keeps = (refl, refl, refl)

  to_address-Keeps :
      (draft : ReviewDraft) (c : ConversationView) (o : Option Text)
      → Keeps db (to_address r draft c db o)
  unfolding Keeps
  to_address-Keeps draft c none = tt
  to_address-Keeps draft c (some email) =
      upsert-Keeps (find_first (λ o. o.draft_id == draft.id) db.outbound)
    where
      upsert-Keeps :
          (o : Option QueuedOutbound)
          → ((upsert_found
                (new_outbound db.next_id r.org_id r.actor r.now r.max_attempts draft c email)
                db
                o).0.drafts
              ≡ db.drafts)
            × ((upsert_found
                  (new_outbound db.next_id r.org_id r.actor r.now r.max_attempts draft c email)
                  db
                  o).0.approvals
                ≡ db.approvals)
            × ((upsert_found
                  (new_outbound db.next_id r.org_id r.actor r.now r.max_attempts draft c email)
                  db
                  o).0.sends
                ≡ db.sends)
      upsert-Keeps none = (refl, refl, refl)
      upsert-Keeps (some o) = (refl, refl, refl)

  to_customer-Keeps :
      (draft : ReviewDraft) (c : ConversationView) (b : Bool)
      → Keeps db (to_customer r draft c db b)
  to_customer-Keeps draft c false = unchanged-Keeps
  to_customer-Keeps draft c true =
      to_address-Keeps draft c (normalize_email r.to_lower_case c.customer_email)

  to_conversation-Keeps :
      (draft : ReviewDraft) (o : Option ConversationView) → Keeps db (to_conversation r draft db o)
  to_conversation-Keeps draft none = unchanged-Keeps
  to_conversation-Keeps draft (some c) = to_customer-Keeps draft c c.has_customer

  of_run-Keeps : (draft : ReviewDraft) (b : Bool) → Keeps db (of_run r draft db b)
  unfolding Keeps
  of_run-Keeps draft true = tt
  of_run-Keeps draft false =
      to_conversation-Keeps draft (find_first (is_deliverable r.org_id draft) db.conversations)

  of_status-Keeps : (draft : ReviewDraft) (b : Bool) → Keeps db (of_status r draft db b)
  of_status-Keeps draft false = unchanged-Keeps
  of_status-Keeps draft true = of_run-Keeps draft (blocked_run draft db)

  of_draft-Keeps : (o : Option ReviewDraft) → Keeps db (of_draft r db o)
  of_draft-Keeps none = unchanged-Keeps
  of_draft-Keeps (some draft) = of_status-Keeps draft (is_approved draft.status)

  pub create_outbound-Keeps :
      (draft_id : ℕ) → Keeps db (create_outbound_for_approved_draft r draft_id db)
  unfolding create_outbound_for_approved_draft
  create_outbound-Keeps draft_id = of_draft-Keeps (draft_of draft_id r.org_id db)
