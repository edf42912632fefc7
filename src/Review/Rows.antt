-- ===== src/Review/Rows.antt =====
-- The decisions that the approvals of a draft hold (apps/api/src/approvals/approvals.controller.ts).
use autonomous_csa.Base.{
  ℕ, ◌+◌, ◌≤◌, ◌≡◌, refl, ap, Bool, true, false, not, ◌&&◌, Bool-cases, inl, inr, List, [], ◌∷◌,
  Option, none, some, or_else, Text, ◌==◌, count, find_first, if◌then◌else◌, arith,
}
use autonomous_csa.Inbound.Defs.{replace_where}
use autonomous_csa.Review.Defs.{Approval}
use autonomous_csa.Review.Approvals.{
  Decision, approve, reject, is_pending, is_undecided, decided_status, decided_approval,
}

abbrev pub is_for : ℕ → Approval → Bool
is_for d a = elim a.outbound_draft_id [ none ↦ false | some i ↦ i == d ]

-- The decisions on a draft, and its sendings.
abbrev pub decisions : ℕ → List Approval → ℕ
decisions d = count (λ a. is_for d a && not (is_pending a.status))

-- The rows after a decision: where the approval that was read is for a draft, the draft has one
-- decision more.
unfoldable pub decided_rows : Decision → Option Text → ℕ → ℕ → List Approval → List Approval
unfolding replace_where
decided_rows decision remark actor id =
    replace_where (is_undecided id) (decided_approval decision remark actor)

unchanged_decisions :
    (decision : Decision) (remark : Option Text) (actor id d : ℕ) (rows : List Approval)
    → count (λ a. a.id == id) rows ≡ 0
    → decisions d (decided_rows decision remark actor id rows) ≡ decisions d rows
unfolding decided_rows
unchanged_decisions decision remark actor id d [] h = refl
unchanged_decisions decision remark actor id d (a ∷ rows) h =
    ground (arith, h, unchanged_decisions decision remark actor id d rows)

decided_is_decided : (decision : Decision) → is_pending (decided_status decision) ≡ false
decided_is_decided approve = refl
decided_is_decided reject = refl

undecided_few :
    (id : ℕ) (rows : List Approval) → count (is_undecided id) rows ≤ count (λ a. a.id == id) rows
undecided_few id [] = omega arith
undecided_few id (a ∷ rows) = ground (arith, undecided_few id rows)

alone_lem :
    (id : ℕ) (a : Approval) (rows : List Approval)
    → (a.id == id) ≡ true
    → count (λ x. x.id == id) (a ∷ rows) ≤ 1
    → count (λ x. x.id == id) rows ≡ 0
alone_lem id a rows e keyed = ground (arith, keyed, e)

pending_lem :
    (id : ℕ) (a : Approval) (rows : List Approval)
    → (a.id == id) ≡ true
    → count (λ x. x.id == id) rows ≡ 0
    → count (is_undecided id) (a ∷ rows) ≡ 1
    → is_pending a.status ≡ true
pending_lem id a rows e alone one = ground (arith, e, alone, one, undecided_few id rows)

find_none :
    (id org_id : ℕ) (rows : List Approval)
    → count (λ x. x.id == id) rows ≡ 0
    → find_first (λ x. x.id == id && x.org_id == org_id) rows ≡ none
find_none id org_id [] h = refl
find_none id org_id (a ∷ rows) h = ground (arith, h, find_none id org_id rows)

first_lem :
    (id org_id : ℕ) (a : Approval) (rows : List Approval) (approval : Approval)
    → (a.id == id) ≡ true
    → count (λ x. x.id == id) rows ≡ 0
    → find_first (λ x. x.id == id && x.org_id == org_id) (a ∷ rows) ≡ some approval
    → a ≡ approval
first_lem id org_id a rows approval e alone found = elim (Bool-cases (a.org_id == org_id)) [
  | inl o ↦ ground (arith, e, o, found, ap (λ x. or_else x a) found)
  | inr o ↦ ground (arith, e, o, found, find_none id org_id rows alone)
]

pub more_decisions :
    (decision : Decision) (remark : Option Text) (actor id org_id d : ℕ) (rows : List Approval)
    (approval : Approval)
    → count (λ a. a.id == id) rows ≤ 1
    → find_first (λ a. a.id == id && a.org_id == org_id) rows ≡ some approval
    → count (is_undecided id) rows ≡ 1
    → decisions d (decided_rows decision remark actor id rows)
      ≡ decisions d rows + (if is_for d approval then 1 else 0)
unfolding decided_rows
more_decisions decision remark actor id org_id d [] approval keyed found one = ground (arith, one)
more_decisions decision remark actor id org_id d (a ∷ rows) approval keyed found one =
    elim (Bool-cases (a.id == id)) [
      | inl e ↦
          let alone = alone_lem id a rows e keyed in
          let pend = pending_lem id a rows e alone one in
          let same = first_lem id org_id a rows approval e alone found in
          ground (
            arith,
            e,
            pend,
            ap (is_for d) same,
            decided_is_decided decision,
            unchanged_decisions decision remark actor id d rows alone,
          )
      | inr e ↦ ground (
        arith,
        keyed,
        found,
        one,
        e,
        more_decisions decision remark actor id org_id d rows approval,
      )
    ]

pub count_replaced :
    (decision : Decision) (remark : Option Text) (actor id k : ℕ) (rows : List Approval)
    → count (λ a. a.id == k) (decided_rows decision remark actor id rows)
      ≡ count (λ a. a.id == k) rows
unfolding decided_rows
count_replaced decision remark actor id k [] = refl
count_replaced decision remark actor id k (a ∷ rows) =
    ground (arith, count_replaced decision remark actor id k rows)
