-- ===== src/Db/Sequence.antt =====
-- The numbering of a ticket's timeline.
use autonomous_csa.Base.{
  ℕ, suc, ◌+◌, ◌≡◌, refl, List, [], ◌∷◌, Option, arith, if◌then◌else◌, or_else,
}
use autonomous_csa.Db.{
  AgentEvent, AgentEventType, is_of_ticket, max_sequence, next_event_sequence,
  append_timeline_event,
}

-- How many rows a ticket has.
abbrev pub count_events : ℕ → ℕ → List AgentEvent → ℕ
count_events org_id ticket_id [] = 0
count_events org_id ticket_id (e ∷ es) =
    let rest = count_events org_id ticket_id es in
    if is_of_ticket org_id ticket_id e then suc rest else rest

-- Each row's number is one more than the count of its ticket's older rows.
abbrev pub IsGapless : List AgentEvent → Type 0
IsGapless [] = Unit
IsGapless (e ∷ es) = (e.sequence ≡ count_events e.org_id e.ticket_id es + 1) × IsGapless es

max_sequence-count :
    (org_id ticket_id : ℕ) (es : List AgentEvent)
    → IsGapless es
    → or_else (max_sequence org_id ticket_id es) 0 ≡ count_events org_id ticket_id es
unfolding max_sequence
max_sequence-count org_id ticket_id [] g = refl
max_sequence-count org_id ticket_id (e ∷ es) (h, g) =
    ground (arith, max_sequence-count org_id ticket_id es g)

-- On a timeline whose tickets are numbered without gaps, the next number is the count of the
-- ticket's rows plus one, and the appended row keeps every ticket's numbering free of gaps.
pub append_timeline_event-IsGapless :
    (org_id ticket_id : ℕ) (type : AgentEventType) (run_id : Option ℕ) (es : List AgentEvent)
    → IsGapless es
    → (next_event_sequence org_id ticket_id es ≡ count_events org_id ticket_id es + 1)
      × IsGapless (append_timeline_event org_id ticket_id type run_id es)
unfolding append_timeline_event next_event_sequence
append_timeline_event-IsGapless org_id ticket_id type run_id es g =
    let e = max_sequence-count org_id ticket_id es g in (omega (arith, e), (omega (arith, e), g))
