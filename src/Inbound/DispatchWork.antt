-- ===== src/Inbound/DispatchWork.antt =====
-- What the body of the loop of `dispatchPendingInbound` (apps/api/src/channels/channels.service.ts) does
-- with each dispatch.
use autonomous_csa.Base.{
  ℕ, ◌+◌, ◌≤◌, ◌<◌, ◌≡◌, ◌≢◌, ◌⊎◌, refl, sym, ap, subst, ◌∙◌, Bool, true, false, ◌&&◌, Bool-cases,
  Option-cases, count_of_find_first, inl, inr, List, [], ◌∷◌, ◌++◌, none, some, codes, ◌==◌, ==_iff,
  ==_refl, find_first, if◌then◌else◌, arith,
}
use autonomous_csa.Inbound.Defs.{InboundDispatch, DispatchPayload, pending, completed, InboundDb}
use autonomous_csa.Inbound.Dispatch.{
  EnqueueOutcome, added, refused, added_late, DispatchEnv, is_available, claimed_dispatch,
  with_dispatch_id, settled_dispatch, enqueue_dispatch, enqueue_found, enqueue_claimed,
  dispatch_one,
}
use autonomous_csa.Inbound.DispatchLaws.{IsKeyed, claimed_rows, claim_lem, skip_lem}
use autonomous_csa.Inbound.DispatchRows.{
  find_replace, found_id, few_available, available_count, settled_found, unmoved_found,
}

-- The queue took the payload.
abbrev pub IsQueued : DispatchPayload → List DispatchPayload → Type 0
IsQueued p queue =
    (before : List DispatchPayload) × (after : List DispatchPayload) × (queue ≡ before ++ p ∷ after)

-- The row that is left of an available dispatch `d`: it is completed and its payload was queued, if the
-- queue added the job in time, and otherwise pending again, for later, with the error.
abbrev pub IsWorkedOff :
    DispatchEnv → ℕ → InboundDispatch → InboundDispatch → List DispatchPayload → Type 0
IsWorkedOff env now d row queue =
    ((env.outcome (claimed_dispatch env now d) ≡ added)
      × (row.status ≡ completed)
      × IsQueued d.payload queue)
    ⊎ ((env.outcome (claimed_dispatch env now d) ≢ added)
        × (row.status ≡ pending)
        × (row.available_at ≡ env.settled_at (claimed_dispatch env now d) + env.retry_delay_ms)
        × (row.last_error_code ≡ some (codes "QUEUE_ENQUEUE_FAILED")))

-- The dispatch has a row that it was worked off to.
abbrev pub IsDone : DispatchEnv → ℕ → InboundDb → InboundDispatch → Type 0
IsDone env now db d =
    (row : InboundDispatch) × (find_first (with_dispatch_id d.id) db.dispatches ≡ some row)
    × IsWorkedOff env now d row db.queue

unfoldable pub Waits : InboundDispatch → InboundDb → Type 0
Waits d db = find_first (with_dispatch_id d.id) db.dispatches ≡ some d

grown :
    (q p : DispatchPayload) (queue : List DispatchPayload)
    → IsQueued p queue
    → IsQueued p (q ∷ queue)
grown q p queue (before, after, e) = (q ∷ before, after, ap (λ t. q ∷ t) e)

module _ (env : DispatchEnv) (now : ℕ) (postpones : 0 < env.retry_delay_ms)
    (settles : (d : InboundDispatch) → now ≤ env.settled_at d) where
  -- The database after an available dispatch `r` was claimed, and after it was enqueued.
  after_claim : InboundDispatch → InboundDb → InboundDb
  after_claim c db = record db {
    dispatches = claimed_rows env now postpones settles c db.dispatches;
  }

  worked_db : InboundDispatch → InboundDispatch → InboundDb → InboundDb
  unfolding enqueue_dispatch
  worked_db c r db = enqueue_dispatch env (claimed_dispatch env now r) (after_claim c db)

  claimed_found :
      (c d r : InboundDispatch) (ds : List InboundDispatch)
      → find_first (with_dispatch_id d.id) ds ≡ some r
      → find_first (with_dispatch_id d.id) (claimed_rows env now postpones settles c ds)
        ≡ some (
            if with_dispatch_id c.id r && is_available now r then claimed_dispatch env now r else r)
  unfolding claimed_rows
  claimed_found c d r ds e =
      find_replace d.id (λ x. with_dispatch_id c.id x && is_available now x)
        (claimed_dispatch env now) (λ x. refl) ds r e

  -- The body of the loop on a row that is there and available.
  dispatch_one-hit :
      (c r : InboundDispatch) (db : InboundDb)
      → IsKeyed db.dispatches
      → find_first (with_dispatch_id c.id) db.dispatches ≡ some r
      → is_available now r ≡ true
      → dispatch_one env now c db ≡ worked_db c r db
  unfolding dispatch_one worked_db after_claim
  dispatch_one-hit c r db keyed e avail =
      let n = available_count c.id now db.dispatches r (keyed c.id) e in
      let at : with_dispatch_id c.id r ≡ true =
        (==_iff r.id c.id).1 (found_id c.id db.dispatches r e) in
      let found =
        settled_found (λ x. with_dispatch_id c.id x && is_available now x)
          (claimed_dispatch env now) r _ (ground (arith, at, avail))
          (claimed_found c c r db.dispatches e) in
      ap (λ o. enqueue_claimed env c.id o db)
        (claim_lem env now postpones settles c db.dispatches (ground (arith, n, avail)))
      ∙ ap
          (λ o.
            enqueue_found env o
              (record db { dispatches = claimed_rows env now postpones settles c db.dispatches }))
          found

  -- On a row that is not available.
  dispatch_one-skip :
      (c r : InboundDispatch) (db : InboundDb)
      → IsKeyed db.dispatches
      → find_first (with_dispatch_id c.id) db.dispatches ≡ some r
      → is_available now r ≡ false
      → dispatch_one env now c db ≡ db
  unfolding dispatch_one
  dispatch_one-skip c r db keyed e gone =
      let n = available_count c.id now db.dispatches r (keyed c.id) e in
      ap (λ o. enqueue_claimed env c.id o db)
        (skip_lem env now postpones settles c db.dispatches (ground (arith, n, gone)))

  worked-IsDone :
      (c d : InboundDispatch) (db : InboundDb)
      → c.id ≡ d.id
      → Waits d db
      → is_available now d ≡ true
      → IsDone env now (worked_db c d db) d
  unfolding worked_db after_claim enqueue_dispatch Waits
  worked-IsDone c d db same waits avail =
      let at : with_dispatch_id c.id d ≡ true = (==_iff d.id c.id).1 (sym same) in
      let found =
        settled_found (λ x. with_dispatch_id c.id x && is_available now x)
          (claimed_dispatch env now) d _ (ground (arith, at, avail))
          (claimed_found c d d db.dispatches waits) in
      let settled =
        settled_found (with_dispatch_id d.id) (settled_dispatch env (claimed_dispatch env now d))
          (claimed_dispatch env now d) _ (==_refl d.id)
          (find_replace d.id (with_dispatch_id d.id)
            (settled_dispatch env (claimed_dispatch env now d)) (λ x. ground arith)
            (claimed_rows env now postpones settles c db.dispatches) (claimed_dispatch env now d)
            found) in
      (
        settled_dispatch env (claimed_dispatch env now d) (claimed_dispatch env now d),
        settled,
        by_outcome (env.outcome (claimed_dispatch env now d)) refl,
      )
    where
      by_outcome :
          (o : EnqueueOutcome)
          → env.outcome (claimed_dispatch env now d) ≡ o
          → IsWorkedOff env now d
              (settled_dispatch env (claimed_dispatch env now d) (claimed_dispatch env now d))
              (worked_db c d db).queue
      by_outcome added e = inl (e, ground (arith, e), ([], db.queue, ground (arith, e)))
      by_outcome refused e =
          inr (ground (arith, e), ground (arith, e), ground (arith, e), ground (arith, e))
      by_outcome added_late e =
          inr (ground (arith, e), ground (arith, e), ground (arith, e), ground (arith, e))

  -- A row of another identifier, and the queue.
  worked-unmoved :
      (c r d row : InboundDispatch) (db : InboundDb)
      → r.id ≡ c.id
      → (c.id == d.id) ≡ false
      → find_first (with_dispatch_id d.id) db.dispatches ≡ some row
      → find_first (with_dispatch_id d.id) (worked_db c r db).dispatches ≡ some row
  unfolding worked_db after_claim enqueue_dispatch
  worked-unmoved c r d row db same other e =
      let its_id = found_id d.id db.dispatches row e in
      let apart : with_dispatch_id c.id row ≡ false = ground (arith, its_id, other) in
      let apart' : with_dispatch_id r.id row ≡ false = ground (arith, its_id, other, same) in
      let found =
        unmoved_found (λ x. with_dispatch_id c.id x && is_available now x)
          (claimed_dispatch env now) row _ (ground (arith, apart))
          (claimed_found c d row db.dispatches e) in
      unmoved_found (with_dispatch_id r.id) (settled_dispatch env (claimed_dispatch env now r)) row
        _ apart'
        (find_replace d.id (with_dispatch_id r.id)
          (settled_dispatch env (claimed_dispatch env now r)) (λ x. ground arith)
          (claimed_rows env now postpones settles c db.dispatches) row found)

  worked_queue :
      (c r : InboundDispatch) (p : DispatchPayload) (db : InboundDb)
      → IsQueued p db.queue
      → IsQueued p (worked_db c r db).queue
  unfolding worked_db after_claim enqueue_dispatch
  worked_queue c r p db h = by_outcome (env.outcome (claimed_dispatch env now r))
    where
      by_outcome :
          (o : EnqueueOutcome)
          → IsQueued p (elim o [ refused ↦ db.queue | _ ↦ r.payload ∷ db.queue ])
      by_outcome refused = h
      by_outcome added = grown r.payload p db.queue h
      by_outcome added_late = grown r.payload p db.queue h

  -- A row that was worked off is not available at the start of the round.
  done_unavailable :
      (d row : InboundDispatch) (queue : List DispatchPayload)
      → IsWorkedOff env now d row queue
      → is_available now row ≡ false
  unfolding is_available
  done_unavailable d row queue (inl h) = ground (arith, h.1)
  done_unavailable d row queue (inr h) =
      ground (arith, h.1, h.2, postpones, settles (claimed_dispatch env now d))

  keeps_worked :
      (c r d row : InboundDispatch) (db : InboundDb)
      → IsWorkedOff env now d row db.queue
      → IsWorkedOff env now d row (worked_db c r db).queue
  keeps_worked c r d row db (inl (o, e, queued)) = inl (o, e, worked_queue c r d.payload db queued)
  keeps_worked c r d row db (inr h) = inr h

  dispatch_one_cases :
      (P : InboundDb → Type 0) (c : InboundDispatch) (db : InboundDb)
      → IsKeyed db.dispatches
      → P db
      → ((r : InboundDispatch)
          → find_first (with_dispatch_id c.id) db.dispatches ≡ some r
          → is_available now r ≡ true
          → P (worked_db c r db))
      → P (dispatch_one env now c db)
  unfolding dispatch_one
  dispatch_one_cases P c db keyed stays works =
      elim (Option-cases (find_first (with_dispatch_id c.id) db.dispatches)) [
        | inl missing ↦
            let n =
              few_available c.id now db.dispatches
                (count_of_find_first (with_dispatch_id c.id) db.dispatches missing) in
            subst P
              (sym (
                ap (λ o. enqueue_claimed env c.id o db)
                  (skip_lem env now postpones settles c db.dispatches (ground (arith, n)))))
              stays
        | inr (r, found) ↦ elim (Bool-cases (is_available now r)) [
          | inl avail ↦
              subst P (sym (dispatch_one-hit c r db keyed found avail)) (works r found avail)
          | inr gone ↦ subst P (sym (dispatch_one-skip c r db keyed found gone)) stays
        ]
      ]

  pub dispatch_one-IsDone :
      (c d : InboundDispatch) (db : InboundDb)
      → IsKeyed db.dispatches
      → IsDone env now db d
      → IsDone env now (dispatch_one env now c db) d
  dispatch_one-IsDone c d db keyed (row, found, worked) =
      dispatch_one_cases (λ x. IsDone env now x d) c db keyed (row, found, worked)
        λ r its avail. elim (Bool-cases (c.id == d.id)) [
          | inl at ↦
              let same : some r ≡ some row =
                sym its
                ∙ ap (λ i. find_first (with_dispatch_id i) db.dispatches) ((==_iff c.id d.id).0 at)
                ∙ found in
              let gone = done_unavailable d row db.queue worked in
              ground (
                arith,
                avail,
                gone,
                ap {B = Bool} (λ o. elim o [ none ↦ false | some x ↦ is_available now x ]) same,
              )
          | inr off ↦ (
            row,
            worked-unmoved c r d row db (found_id c.id db.dispatches r its) off found,
            keeps_worked c r d row db worked,
          )
        ]

  pub dispatch_one-Waits :
      (c d : InboundDispatch) (db : InboundDb)
      → IsKeyed db.dispatches
      → (c.id == d.id) ≡ false
      → Waits d db
      → Waits d (dispatch_one env now c db)
  unfolding Waits
  dispatch_one-Waits c d db keyed off waits =
      dispatch_one_cases (Waits d) c db keyed waits
        λ r its avail. worked-unmoved c r d d db (found_id c.id db.dispatches r its) off waits

  pub dispatch_one-works :
      (c d : InboundDispatch) (db : InboundDb)
      → IsKeyed db.dispatches
      → (c.id == d.id) ≡ true
      → is_available now d ≡ true
      → Waits d db
      → IsDone env now (dispatch_one env now c db) d
  unfolding Waits
  dispatch_one-works c d db keyed at avail waits =
      let same = (==_iff c.id d.id).0 at in
      subst (λ x. IsDone env now x d)
        (sym (
          dispatch_one-hit c d db keyed
            (ap (λ i. find_first (with_dispatch_id i) db.dispatches) same ∙ waits) avail))
        (worked-IsDone c d db same waits avail)
