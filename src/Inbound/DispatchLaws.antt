-- ===== src/Inbound/DispatchLaws.antt =====
-- A round of `dispatchPendingInbound` (apps/api/src/channels/channels.service.ts).
use autonomous_csa.Base.{
  ℕ, ◌≤◌, ◌<◌, ◌≡◌, refl, sym, ap, subst, ◌∙◌, Bool, true, false, not, ◌&&◌, Bool-cases, inl, inr,
  List, [], ◌∷◌, Option, none, some, ◌==◌, ==_iff, any, count, filter, find_first, take,
  if◌then◌else◌, arith,
}
use autonomous_csa.Inbound.Defs.{InboundDispatch, InboundDb, replace_where}
use autonomous_csa.Inbound.Dispatch.{
  DispatchEnv, is_available, claimed_dispatch, with_dispatch_id, claim_dispatch, settled_dispatch,
  enqueue_dispatch, enqueue_found, enqueue_claimed, dispatch_one, dispatch_all,
  dispatch_pending_inbound,
}

-- A dispatch that is available and not among these.
abbrev pub is_left_out : ℕ → List InboundDispatch → InboundDispatch → Bool
is_left_out now cs d = is_available now d && not (any (λ c. c.id == d.id) cs)

-- One row for each identifier.
abbrev pub IsKeyed : List InboundDispatch → Type 0
IsKeyed ds = (id : ℕ) → count (with_dispatch_id id) ds ≤ 1

module _ (env : DispatchEnv) (now : ℕ) (postpones : 0 < env.retry_delay_ms)
    (settles : (d : InboundDispatch) → now ≤ env.settled_at d) where
  settled_unavailable :
      (current d : InboundDispatch) → is_available now (settled_dispatch env current d) ≡ false
  unfolding is_available
  settled_unavailable current d = ground (arith, postpones, settles current)

  settled_row :
      (current c : InboundDispatch) (cs : List InboundDispatch) (d : InboundDispatch)
      → current.id ≡ c.id
      → is_left_out now (c ∷ cs) d ≡ false
      → let claimed =
          if with_dispatch_id c.id d && is_available now d then claimed_dispatch env now d else d in
        is_left_out now cs (
          if with_dispatch_id current.id claimed
          then settled_dispatch env current claimed
          else claimed)
        ≡ false
  settled_row current c cs d same h = ground (
    arith,
    h,
    same,
    settled_unavailable current (claimed_dispatch env now d),
    settled_unavailable current d,
  )

  count_replace :
      (id : ℕ) (test : InboundDispatch → Bool) (f : InboundDispatch → InboundDispatch)
      → ((d : InboundDispatch) → (f d).id ≡ d.id)
      → (ds : List InboundDispatch)
      → count (with_dispatch_id id) (replace_where test f ds) ≡ count (with_dispatch_id id) ds
  unfolding replace_where
  count_replace id test f same [] = refl
  count_replace id test f same (d ∷ ds) = ground (arith, same d, count_replace id test f same ds)

  pub settled_id : (current d : InboundDispatch) → (settled_dispatch env current d).id ≡ d.id
  settled_id current d = ground arith

  settled_rows :
      (current c : InboundDispatch) (cs ds : List InboundDispatch)
      → current.id ≡ c.id
      → any (is_left_out now (c ∷ cs)) ds ≡ false
      → any (is_left_out now cs) (
          replace_where (with_dispatch_id current.id) (settled_dispatch env current) (
            replace_where
              (λ d. with_dispatch_id c.id d && is_available now d)
              (claimed_dispatch env now)
              ds))
        ≡ false
  unfolding replace_where
  settled_rows current c cs [] same h = refl
  settled_rows current c cs (d ∷ ds) same h =
      ground (arith, h, settled_rows current c cs ds same, settled_row current c cs d same)

  -- Where no row is claimed.
  skipped_rows :
      (c : InboundDispatch) (cs ds : List InboundDispatch)
      → count (λ d. with_dispatch_id c.id d && is_available now d) ds ≡ 0
      → any (is_left_out now (c ∷ cs)) ds ≡ false
      → any (is_left_out now cs) ds ≡ false
  skipped_rows c cs [] none_there h = refl
  skipped_rows c cs (d ∷ ds) none_there h = ground (arith, none_there, h, skipped_rows c cs ds)

  count_available :
      (id : ℕ) (ds : List InboundDispatch)
      → count (λ d. with_dispatch_id id d && is_available now d) ds ≤ count (with_dispatch_id id) ds
  count_available id [] = omega arith
  count_available id (d ∷ ds) = ground (arith, count_available id ds)

  row_id :
      (c d : InboundDispatch)
      → (if with_dispatch_id c.id d && is_available now d then claimed_dispatch env now d else d).id
        ≡ d.id
  row_id c d = ground arith

  found_current :
      (c : InboundDispatch) (ds : List InboundDispatch)
      → count (λ d. with_dispatch_id c.id d && is_available now d) ds ≡ 1
      → (current : InboundDispatch) × (find_first (with_dispatch_id c.id) (
            replace_where
              (λ d. with_dispatch_id c.id d && is_available now d)
              (claimed_dispatch env now)
              ds)
          ≡ some current)
        × (current.id ≡ c.id)
  unfolding replace_where
  found_current c [] one = ground (arith, one)
  found_current c (d ∷ ds) one = elim (Bool-cases (with_dispatch_id c.id d)) [
    | inl e ↦
        let row =
          if with_dispatch_id c.id d && is_available now d then claimed_dispatch env now d else d in
        let same = row_id c d in
        (row, rw (ap (λ i. i == c.id) same ∙ e) refl, same ∙ (==_iff d.id c.id).0 e)
    | inr e ↦
        let (current, found, same) = found_current c ds (ground (arith, one, e)) in
        (current, ground (arith, e, found), same)
  ]

  unfoldable pub claimed_rows : InboundDispatch → List InboundDispatch → List InboundDispatch
  unfolding replace_where
  claimed_rows c =
      replace_where (λ d. with_dispatch_id c.id d && is_available now d) (claimed_dispatch env now)

  pub claim_lem :
      (c : InboundDispatch) (ds : List InboundDispatch)
      → (count (λ d. with_dispatch_id c.id d && is_available now d) ds == 1) ≡ true
      → claim_dispatch env now c.id ds ≡ some (claimed_rows c ds)
  unfolding claim_dispatch claimed_rows
  claim_lem c ds one = rw (one) refl

  pub skip_lem :
      (c : InboundDispatch) (ds : List InboundDispatch)
      → (count (λ d. with_dispatch_id c.id d && is_available now d) ds == 1) ≡ false
      → claim_dispatch env now c.id ds ≡ none
  unfolding claim_dispatch
  skip_lem c ds other = rw (other) refl

  -- What the body of the loop has to establish.
  unfoldable pub Cares : List InboundDispatch → InboundDb → Type 0
  Cares cs db = (any (is_left_out now cs) db.dispatches ≡ false) × IsKeyed db.dispatches

  enqueue_dispatch-Cares :
      (c current : InboundDispatch) (cs : List InboundDispatch) (db : InboundDb)
      → current.id ≡ c.id
      → Cares (c ∷ cs) db
      → Cares cs
          (enqueue_dispatch env current (record db { dispatches = claimed_rows c db.dispatches }))
  unfolding enqueue_dispatch Cares claimed_rows
  enqueue_dispatch-Cares c current cs db same h = (
    settled_rows current c cs db.dispatches same h.0,
    λ id.
        subst (λ n. n ≤ 1)
          (sym (
            count_replace id (with_dispatch_id current.id) (settled_dispatch env current)
              (settled_id current) (claimed_rows c db.dispatches)
            ∙ count_replace id (λ d. with_dispatch_id c.id d && is_available now d)
                (claimed_dispatch env now) (λ d. refl) db.dispatches))
          (h.1 id),
  )

  found_in :
      (c : InboundDispatch) (ds : List InboundDispatch) (current : InboundDispatch)
      → find_first (with_dispatch_id c.id) (
          replace_where
            (λ d. with_dispatch_id c.id d && is_available now d)
            (claimed_dispatch env now)
            ds)
        ≡ some current
      → find_first (with_dispatch_id c.id) (claimed_rows c ds) ≡ some current
  unfolding claimed_rows
  found_in c ds current e = e

  skip-Cares :
      (c : InboundDispatch) (cs : List InboundDispatch) (db : InboundDb)
      → (count (λ d. with_dispatch_id c.id d && is_available now d) db.dispatches == 1) ≡ false
      → Cares (c ∷ cs) db
      → Cares cs db
  unfolding Cares
  skip-Cares c cs db other h =
      let few = count_available c.id db.dispatches in
      (skipped_rows c cs db.dispatches (ground (arith, other, few, h.1 c.id)) h.0, h.1)

  -- The body of the loop takes care of its dispatch.
  pub dispatch_one-Cares :
      (c : InboundDispatch) (cs : List InboundDispatch) (db : InboundDb)
      → Cares (c ∷ cs) db
      → Cares cs (dispatch_one env now c db)
  unfolding dispatch_one
  dispatch_one-Cares c cs db h =
      elim (Bool-cases
        (count (λ d. with_dispatch_id c.id d && is_available now d) db.dispatches == 1)) [
          | inl one ↦
              let (current, found, same) = found_current c db.dispatches (
                (==_iff (count (λ d. with_dispatch_id c.id d && is_available now d) db.dispatches)
                    1).0
                  one) in
              subst (Cares cs)
                (sym (
                  ap (λ o. enqueue_claimed env c.id o db) (claim_lem c db.dispatches one)
                  ∙ ap
                      (λ o.
                        enqueue_found env o
                          (record db { dispatches = claimed_rows c db.dispatches }))
                      (found_in c db.dispatches current found)))
                (enqueue_dispatch-Cares c current cs db same h)
          | inr other ↦
              subst (Cares cs)
                (sym (ap (λ o. enqueue_claimed env c.id o db) (skip_lem c db.dispatches other)))
                (skip-Cares c cs db other h)
        ]

  pub dispatch_all-Cares :
      (cs : List InboundDispatch) (db : InboundDb)
      → Cares cs db
      → Cares [] (dispatch_all env now cs db)
  unfolding dispatch_all
  dispatch_all-Cares [] db h = h
  dispatch_all-Cares (c ∷ cs) db h =
      dispatch_all-Cares cs (dispatch_one env now c db) (dispatch_one-Cares c cs db h)

  pub no_one_left :
      (ds : List InboundDispatch)
      → any (is_left_out now []) ds ≡ false
      → any (is_available now) ds ≡ false
  no_one_left [] h = refl
  no_one_left (d ∷ ds) h = ground (arith, h, no_one_left ds)

found_receipts :
    (env : DispatchEnv) (o : Option InboundDispatch) (db : InboundDb)
    → (enqueue_found env o db).receipts ≡ db.receipts
unfolding enqueue_dispatch
found_receipts env none db = refl
found_receipts env (some current) db = refl

claimed_receipts :
    (env : DispatchEnv) (id : ℕ) (o : Option (List InboundDispatch)) (db : InboundDb)
    → (enqueue_claimed env id o db).receipts ≡ db.receipts
claimed_receipts env id none db = refl
claimed_receipts env id (some ds) db =
    found_receipts env (find_first (with_dispatch_id id) ds) (record db { dispatches = ds })

dispatch_all_receipts :
    (env : DispatchEnv) (now : ℕ) (cs : List InboundDispatch) (db : InboundDb)
    → (dispatch_all env now cs db).receipts ≡ db.receipts
unfolding dispatch_all dispatch_one
dispatch_all_receipts env now [] db = refl
dispatch_all_receipts env now (c ∷ cs) db =
    dispatch_all_receipts env now cs (dispatch_one env now c db)
    ∙ claimed_receipts env c.id (claim_dispatch env now c.id db.dispatches) db

pub dispatch_pending_inbound_receipts :
    (env : DispatchEnv) (limit now : ℕ) (db : InboundDb)
    → (dispatch_pending_inbound env limit now db).receipts ≡ db.receipts
unfolding dispatch_pending_inbound
dispatch_pending_inbound_receipts env limit now db =
    dispatch_all_receipts env now (take limit (env.order (filter (is_available now) db.dispatches)))
      db
