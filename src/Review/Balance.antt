-- ===== src/Review/Balance.antt =====
-- The sendings and the decisions of a draft balance in every reachable database.
use autonomous_csa.Base.{
  ℕ, ◌+◌, ◌≤◌, ◌≡◌, refl, sym, subst, ◌∙◌, false, not, ◌&&◌, Bool-cases, inl, inr, List, Option,
  none, some, Text, ◌==◌, ==_iff, count, find_first, if◌then◌else◌, arith,
}
use autonomous_csa.Http.{Response, refuse, reply, on_found_keeps, on_reply_keeps, throw_if_keeps}
use autonomous_csa.Inbound.Defs.{replace_where}
use autonomous_csa.Review.Defs.{ReviewDraft, Approval, ReviewDb}
use autonomous_csa.Review.Drafts.{edit_draft, send_read}
use autonomous_csa.Review.Outbound.{OutboundRequest}
use autonomous_csa.Review.Approvals.{
  Decision, approve, reject, is_undecided, settle_draft, decided_db, follow_decision,
  update_approval,
}
use autonomous_csa.Review.Rows.{decisions, decided_rows, more_decisions, count_replaced}
use autonomous_csa.Review.Sends.{
  sendings, ready, IsKeyed, Step, sends, edits, decides, Reach, here, next, Balanced,
  edit_draft-Balanced, send_read-Balanced, Keeps, create_outbound-Keeps,
}

-- One for the draft that an approval names.
abbrev named : ℕ → Option ℕ → ℕ
named d o = if (elim o [ none ↦ false | some i ↦ i == d ]) then 1 else 0

ready_few : (o : Option ReviewDraft) → ready o ≤ 1
ready_few none = omega arith
ready_few (some draft) = ground arith

-- What the rest of the transaction does to the draft.
Follows : ℕ → Option ℕ → ReviewDb → Response (ReviewDb × Option ℕ) → Type 0
Follows d o db (refuse error) = Unit
Follows d o db (reply done) =
    (ready (done.0.drafts d) ≤ ready (db.drafts d) + named d o)
    × (done.0.approvals ≡ db.approvals)
    × (done.0.sends ≡ db.sends)

put_ready :
    (d draft_id : ℕ) (row : ReviewDraft) (drafts : ℕ → Option ReviewDraft)
    → ready (if d == draft_id then some row else drafts d)
      ≤ ready (drafts d) + named d (some draft_id)
put_ready d draft_id row drafts = elim (Bool-cases (d == draft_id)) [
  | inl e ↦
      ground (arith, e, (==_iff draft_id d).1 (sym ((==_iff d draft_id).0 e)), ready_few (some row))
  | inr e ↦ ground (arith, e)
]

settle-Follows :
    (d org_id : ℕ) (decision : Decision) (remark : Option Text) (actor : ℕ) (approval : Approval)
    (o : Option ReviewDraft) (draft_id : ℕ) (db : ReviewDb)
    → Follows d
        (some draft_id)
        db
        (reply (settle_draft org_id decision remark actor approval o draft_id db, none))
unfolding Follows
settle-Follows d org_id decision remark actor approval none draft_id db = (omega arith, refl, refl)
settle-Follows d org_id approve remark actor approval (some draft) draft_id db =
    (put_ready d draft_id _ db.drafts, refl, refl)
settle-Follows d org_id reject remark actor approval (some draft) draft_id db =
    (put_ready d draft_id _ db.drafts, refl, refl)

kept-Follows :
    (d : ℕ) (o : Option ℕ) (db db' : ReviewDb) (response : Response (ReviewDb × Option ℕ))
    → Follows d o db (reply (db', none))
    → Keeps db' response
    → Follows d o db response
unfolding Follows Keeps
kept-Follows d o db db' (refuse error) h kept = tt
kept-Follows d o db db' (reply done) h kept = (
  subst (λ x. ready (x d) ≤ ready (db.drafts d) + named d o) (sym kept.0) h.0,
  kept.1 ∙ h.1,
  kept.2 ∙ h.2,
)

unchanged-Follows : (d : ℕ) (db : ReviewDb) → Follows d none db (reply (db, none))
unfolding Follows
unchanged-Follows d db = (omega arith, refl, refl)

follow_decision-Follows :
    (d : ℕ) (r : OutboundRequest) (decision : Decision) (remark : Option Text) (approval : Approval)
    (o : Option ℕ) (db : ReviewDb)
    → Follows d o db (follow_decision r decision remark approval o db)
follow_decision-Follows d r decision remark approval none db = unchanged-Follows d db
follow_decision-Follows d r approve remark approval (some draft_id) db =
    kept-Follows d (some draft_id) db
      (settle_draft r.org_id approve remark r.actor approval (db.drafts draft_id) draft_id db) _
      (settle-Follows d r.org_id approve remark r.actor approval (db.drafts draft_id) draft_id db)
      (create_outbound-Keeps r
        (settle_draft r.org_id approve remark r.actor approval (db.drafts draft_id) draft_id db)
        draft_id)
follow_decision-Follows d r reject remark approval (some draft_id) db =
    settle-Follows d r.org_id reject remark r.actor approval (db.drafts draft_id) draft_id db

-- The two invariants in one.
IsSound : ℕ → ReviewDb → Type 0
IsSound d db = IsKeyed db.approvals × Balanced d db

followed-IsSound :
    (d : ℕ) (decision : Decision) (remark : Option Text) (actor approval_id org_id : ℕ)
    (approval : Approval) (db : ReviewDb) (done : ReviewDb × Option ℕ)
    → find_first (λ a. a.id == approval_id && a.org_id == org_id) db.approvals ≡ some approval
    → count (is_undecided approval_id) db.approvals ≡ 1
    → IsSound d db
    → Follows d approval.outbound_draft_id
        (decided_db decision remark actor approval_id db)
        (reply done)
    → IsSound d done.0
unfolding IsSound Balanced Follows decided_rows replace_where
followed-IsSound d decision remark actor approval_id org_id approval db done found one h follows = (
  λ id.
      subst (λ rows. count (λ a. a.id == id) rows ≤ 1) (sym follows.1)
        (subst (λ n. n ≤ 1) (sym (count_replaced decision remark actor approval_id id db.approvals))
          (h.0 id)),
  subst (λ rows. sendings d done.0.sends + ready (done.0.drafts d) ≤ 1 + decisions d rows)
      (sym follows.1)
      (subst (λ n. sendings d done.0.sends + ready (done.0.drafts d) ≤ 1 + n)
        (sym (
          more_decisions decision remark actor approval_id org_id d db.approvals approval
            (h.0 approval_id) found one))
        (subst
          (λ s.
            sendings d s + ready (done.0.drafts d)
            ≤ 1 + (decisions d db.approvals + named d approval.outbound_draft_id))
          (sym follows.2)
          (sum_lem (sendings d db.sends) (ready (db.drafts d)) (ready (done.0.drafts d))
            (named d approval.outbound_draft_id) (decisions d db.approvals) h.1 follows.0))),
)
  where
    sum_lem : (s b b' k n : ℕ) → s + b ≤ 1 + n → b' ≤ b + k → s + b' ≤ 1 + (n + k)
    sum_lem s b b' k n h1 h2 = omega arith

decision_holds :
    (approval_id : ℕ) (rows : List Approval)
    → not (count (is_undecided approval_id) rows == 1) ≡ false
    → count (is_undecided approval_id) rows ≡ 1
decision_holds approval_id rows e = elim (Bool-cases (count (is_undecided approval_id) rows == 1)) [
  | inl same ↦ (==_iff (count (is_undecided approval_id) rows) 1).0 same
  | inr other ↦ ground (arith, e, other)
]

update_approval-IsSound :
    (d : ℕ) (r : OutboundRequest) (approval_id : ℕ) (decision : Decision) (remark : Option Text)
    (db : ReviewDb)
    → IsSound d db
    → IsSound d (update_approval r approval_id decision remark db).0
unfolding update_approval
update_approval-IsSound d r approval_id decision remark db h =
    on_found_keeps db (IsSound d) _ _ _ h λ approval found.
      throw_if_keeps db (IsSound d) _ _ _ h λ one.
        on_reply_keeps db (IsSound d) _ _ h λ done replied.
          followed-IsSound d decision remark r.actor approval_id r.org_id approval db done found
            (decision_holds approval_id db.approvals one) h
            (subst
              (Follows d approval.outbound_draft_id
                (decided_db decision remark r.actor approval_id db))
              replied
              (follow_decision-Follows d r decision remark approval approval.outbound_draft_id
                (decided_db decision remark r.actor approval_id db)))

send_read_approvals :
    (draft_id org_id now actor : ℕ) (draft : ReviewDraft) (db : ReviewDb)
    → (send_read draft_id org_id now actor draft db).0.approvals ≡ db.approvals
unfolding send_read
send_read_approvals draft_id org_id now actor draft db =
    on_found_keeps db (λ x. x.approvals ≡ db.approvals) _ _ _ refl
      λ row found. throw_if_keeps db (λ x. x.approvals ≡ db.approvals) _ _ _ refl λ fresh. refl

edit_draft_approvals :
    (draft_id org_id : ℕ) (body : Text) (db : ReviewDb)
    → (edit_draft draft_id org_id body db).0.approvals ≡ db.approvals
unfolding edit_draft
edit_draft_approvals draft_id org_id body db =
    on_found_keeps db (λ x. x.approvals ≡ db.approvals) _ _ _ refl
      λ row found. throw_if_keeps db (λ x. x.approvals ≡ db.approvals) _ _ _ refl λ _. refl

step-IsSound : (d : ℕ) (db db' : ReviewDb) → IsSound d db → Step db db' → IsSound d db'
unfolding IsSound
step-IsSound d db db' h (sends draft_id org_id now actor draft e) = subst (IsSound d) e (
  subst IsKeyed (sym (send_read_approvals draft_id org_id now actor draft db)) h.0,
  send_read-Balanced d draft_id org_id now actor draft db h.1,
)
step-IsSound d db db' h (edits draft_id org_id body e) = subst (IsSound d) e (
  subst IsKeyed (sym (edit_draft_approvals draft_id org_id body db)) h.0,
  edit_draft-Balanced d draft_id org_id body db h.1,
)
step-IsSound d db db' h (decides r approval_id decision remark e) =
    subst (IsSound d) e (update_approval-IsSound d r approval_id decision remark db h)

Reach-IsSound : (d : ℕ) (db db' : ReviewDb) → IsSound d db → Reach db db' → IsSound d db'
Reach-IsSound d db db' h here = h
Reach-IsSound d db db'' h (next {db'} reached step) =
    step-IsSound d db' db'' (Reach-IsSound d db db' h reached) step

start_lem : (d : ℕ) (db : ReviewDb) → IsKeyed db.approvals → sendings d db.sends ≡ 0 → IsSound d db
unfolding IsSound Balanced
start_lem d db keyed none_sent = (keyed, ground (arith, none_sent, ready_few (db.drafts d)))

end_lem :
    (d : ℕ) (db : ReviewDb) → IsSound d db → sendings d db.sends ≤ 1 + decisions d db.approvals
unfolding IsSound Balanced
end_lem d db h =
    bound_lem (sendings d db.sends) (ready (db.drafts d)) (1 + decisions d db.approvals) h.1
  where
    bound_lem : (s b n : ℕ) → s + b ≤ n → s ≤ n
    bound_lem s b n h = omega arith

-- Start from a database in which no two approvals have one identifier and a draft was not sent yet.
-- Whatever sendings, edits and decisions on approvals then follow, in any order, where a sending may go on
-- from any draft it has read: the draft is sent at most once more often than approvals of it were
-- decided (those counted that are in the database, decided before or since).
pub sends_bound :
    (d : ℕ) (db db' : ReviewDb)
    → IsKeyed db.approvals
    → sendings d db.sends ≡ 0
    → Reach db db'
    → sendings d db'.sends ≤ 1 + decisions d db'.approvals
sends_bound d db db' keyed none_sent reached =
    end_lem d db' (Reach-IsSound d db db' (start_lem d db keyed none_sent) reached)
