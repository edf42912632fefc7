-- ===== src/Inbound/DispatchRows.antt =====
-- Rows of the table of dispatches (apps/api/src/channels/channels.service.ts): which one an identifier
-- finds, before and after an update.
use autonomous_csa.Base.{
  ℕ, ◌≤◌, ◌≡◌, refl, sym, ap, subst, ◌∙◌, Bool, true, false, ◌&&◌, Bool-cases, inl, inr, List, [],
  ◌∷◌, Option, none, some, ◌==◌, ==_iff, count, find_first, if◌then◌else◌, arith,
}
use autonomous_csa.Inbound.Defs.{InboundDispatch, replace_where}
use autonomous_csa.Inbound.Dispatch.{is_available, with_dispatch_id}

pub find_replace :
    (id : ℕ) (test : InboundDispatch → Bool) (f : InboundDispatch → InboundDispatch)
    → ((d : InboundDispatch) → (f d).id ≡ d.id)
    → (ds : List InboundDispatch) (r : InboundDispatch)
    → find_first (with_dispatch_id id) ds ≡ some r
    → find_first (with_dispatch_id id) (replace_where test f ds) ≡ some (if test r then f r else r)
unfolding replace_where
find_replace id test f same [] r e = ground (arith, e)
find_replace id test f same (d ∷ ds) r e = elim (Bool-cases (d.id == id)) [
  | inl at ↦
      let found : some d ≡ some r = ground (arith, at, e) in
      subst
        (λ o.
          find_first (with_dispatch_id id) ((if test d then f d else d) ∷ replace_where test f ds)
          ≡ o)
        (ap (λ o. elim o [ none ↦ none | some x ↦ some (if test x then f x else x) ]) found)
        (ground (arith, at, same d))
  | inr off ↦ ground (arith, off, e, same d, find_replace id test f same ds r)
]

pub found_id :
    (id : ℕ) (ds : List InboundDispatch) (r : InboundDispatch)
    → find_first (with_dispatch_id id) ds ≡ some r
    → r.id ≡ id
found_id id [] r e = ground (arith, e)
found_id id (d ∷ ds) r e = elim (Bool-cases (d.id == id)) [
  | inl at ↦
      let found : some d ≡ some r = ground (arith, at, e) in
      ap (λ o. elim o [ none ↦ id | some x ↦ x.id ]) (sym found) ∙ (==_iff d.id id).0 at
  | inr off ↦ found_id id ds r (ground (arith, off, e))
]

pub found_count :
    (id : ℕ) (ds : List InboundDispatch) (r : InboundDispatch)
    → find_first (with_dispatch_id id) ds ≡ some r
    → 1 ≤ count (with_dispatch_id id) ds
found_count id [] r e = ground (arith, e)
found_count id (d ∷ ds) r e = ground (arith, e, found_count id ds r)

pub few_available :
    (id now : ℕ) (ds : List InboundDispatch)
    → count (with_dispatch_id id) ds ≡ 0
    → count (λ d. with_dispatch_id id d && is_available now d) ds ≡ 0
few_available id now [] h = refl
few_available id now (d ∷ ds) h = ground (arith, h, few_available id now ds)

-- How many rows a claim of a dispatch finds, by whether its row is available.
pub available_count :
    (id now : ℕ) (ds : List InboundDispatch) (r : InboundDispatch)
    → count (with_dispatch_id id) ds ≤ 1
    → find_first (with_dispatch_id id) ds ≡ some r
    → count (λ d. with_dispatch_id id d && is_available now d) ds
      ≡ (if is_available now r then 1 else 0)
available_count id now [] r keyed e = ground (arith, e)
available_count id now (d ∷ ds) r keyed e = elim (Bool-cases (d.id == id)) [
  | inl at ↦
      let found : some d ≡ some r = ground (arith, at, e) in
      let none_left = few_available id now ds (ground (arith, keyed, at)) in
      subst
        (λ o.
          count (λ x. with_dispatch_id id x && is_available now x) (d ∷ ds)
          ≡ (elim o [ none ↦ 0 | some x ↦ if is_available now x then 1 else 0 ]))
        found (ground (arith, at, none_left))
  | inr off ↦ ground (arith, off, e, keyed, available_count id now ds r)
]

pub settled_found :
    (test : InboundDispatch → Bool) (f : InboundDispatch → InboundDispatch) (r : InboundDispatch)
    (o : Option InboundDispatch)
    → test r ≡ true
    → o ≡ some (if test r then f r else r)
    → o ≡ some (f r)
settled_found test f r o moves e = ground (arith, moves, e)

pub unmoved_found :
    (test : InboundDispatch → Bool) (f : InboundDispatch → InboundDispatch) (r : InboundDispatch)
    (o : Option InboundDispatch)
    → test r ≡ false
    → o ≡ some (if test r then f r else r)
    → o ≡ some r
unmoved_found test f r o not_it e = ground (arith, not_it, e)
