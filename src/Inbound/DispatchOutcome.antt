-- ===== src/Inbound/DispatchOutcome.antt =====
-- What becomes of each dispatch that a round of `dispatchPendingInbound`
-- (apps/api/src/channels/channels.service.ts) finds.
use autonomous_csa.Base.{
  ℕ, ◌≤◌, ◌<◌, ◌≡◌, refl, true, false, Bool-cases, inl, inr, List, [], ◌∷◌, some, ◌==◌, ==_refl,
  any, filter, find_first, take, All, arith,
}
use autonomous_csa.Inbound.Defs.{InboundDispatch, InboundDb}
use autonomous_csa.Inbound.Dispatch.{
  DispatchEnv, is_available, with_dispatch_id, dispatch_one, dispatch_all, dispatch_pending_inbound,
}
use autonomous_csa.Inbound.DispatchLaws.{
  is_left_out, IsKeyed, Cares, dispatch_one-Cares, dispatch_all-Cares, no_one_left,
}
use autonomous_csa.Inbound.DispatchRows.{found_count}
use autonomous_csa.Inbound.DispatchWork.{
  Waits, IsDone, dispatch_one-IsDone, dispatch_one-Waits, dispatch_one-works,
}

module _ (env : DispatchEnv) (now : ℕ) (postpones : 0 < env.retry_delay_ms)
    (settles : (d : InboundDispatch) → now ≤ env.settled_at d) where
  -- The database after an available dispatch `r` was claimed, and after it was enqueued.
  one_row_each :
      (cs : List InboundDispatch) (db : InboundDb)
      → Cares env now postpones settles cs db
      → IsKeyed db.dispatches
  unfolding Cares
  one_row_each cs db h = h.1

  IsDone-dispatch_all :
      (d : InboundDispatch) (cs : List InboundDispatch) (db : InboundDb)
      → Cares env now postpones settles cs db
      → IsDone env now db d
      → IsDone env now (dispatch_all env now cs db) d
  unfolding dispatch_all
  IsDone-dispatch_all d [] db h done = done
  IsDone-dispatch_all d (c ∷ cs) db h done =
      IsDone-dispatch_all d cs (dispatch_one env now c db)
        (dispatch_one-Cares env now postpones settles c cs db h)
        (dispatch_one-IsDone env now postpones settles c d db (one_row_each (c ∷ cs) db h) done)

  Waits-dispatch_all :
      (d : InboundDispatch) (cs : List InboundDispatch) (db : InboundDb)
      → Cares env now postpones settles cs db
      → is_available now d ≡ true
      → any (λ c. c.id == d.id) cs ≡ true
      → Waits d db
      → IsDone env now (dispatch_all env now cs db) d
  unfolding dispatch_all
  Waits-dispatch_all d [] db h avail there waits = ground (arith, there)
  Waits-dispatch_all d (c ∷ cs) db h avail there waits = elim (Bool-cases (c.id == d.id)) [
    | inl at ↦
        IsDone-dispatch_all d cs (dispatch_one env now c db)
          (dispatch_one-Cares env now postpones settles c cs db h)
          (dispatch_one-works env now postpones settles c d db (one_row_each (c ∷ cs) db h) at avail
            waits)
    | inr off ↦
        Waits-dispatch_all d cs (dispatch_one env now c db)
          (dispatch_one-Cares env now postpones settles c cs db h) avail
          (ground (arith, there, off))
          (dispatch_one-Waits env now postpones settles c d db (one_row_each (c ∷ cs) db h) off
            waits)
  ]

  -- Each row of a keyed table is the one that its identifier finds.
  found_after :
      (x : InboundDispatch) (xs ys : List InboundDispatch)
      → IsKeyed (x ∷ xs)
      → All (λ d. find_first (with_dispatch_id d.id) xs ≡ some d) ys
      → All (λ d. find_first (with_dispatch_id d.id) (x ∷ xs) ≡ some d) ys
  found_after x xs [] keyed h = tt
  found_after x xs (d ∷ ys) keyed h =
      (ground (arith, keyed d.id, found_count d.id xs d h.0, h.0), found_after x xs ys keyed h.1)

  finds_each :
      (ds : List InboundDispatch)
      → IsKeyed ds
      → All (λ d. find_first (with_dispatch_id d.id) ds ≡ some d) ds
  finds_each [] keyed = tt
  finds_each (x ∷ xs) keyed = (
    rw (==_refl x.id) refl,
    found_after x xs xs keyed (finds_each xs (λ id. ground (arith, keyed id))),
  )

  works_each :
      (cs ds : List InboundDispatch) (db : InboundDb)
      → Cares env now postpones settles cs db
      → All (λ d. Waits d db) ds
      → any (is_left_out now cs) ds ≡ false
      → All (IsDone env now (dispatch_all env now cs db)) (filter (is_available now) ds)
  works_each cs [] db h waits none_out = tt
  works_each cs (d ∷ ds) db h waits none_out = elim (Bool-cases (is_available now d)) [
    | inl avail ↦ rw (avail) (
      Waits-dispatch_all d cs db h avail (ground (arith, none_out, avail)) waits.0,
      works_each cs ds db h waits.1 (ground (arith, none_out)),
    )
    | inr gone ↦ rw (gone) (works_each cs ds db h waits.1 (ground (arith, none_out)))
  ]

  waiting_rows :
      (db : InboundDb) (ds : List InboundDispatch)
      → All (λ d. find_first (with_dispatch_id d.id) db.dispatches ≡ some d) ds
      → All (λ d. Waits d db) ds
  unfolding Waits
  waiting_rows db ds h = h

  start-Cares :
      (cs : List InboundDispatch) (db : InboundDb)
      → IsKeyed db.dispatches
      → any (is_left_out now cs) db.dispatches ≡ false
      → Cares env now postpones settles cs db
  unfolding Cares
  start-Cares cs db keyed h = (h, keyed)

  end_unavailable :
      (cs : List InboundDispatch) (db : InboundDb)
      → Cares env now postpones settles cs db
      → any (is_available now) (dispatch_all env now cs db).dispatches ≡ false
  unfolding Cares
  end_unavailable cs db h =
      no_one_left env now postpones settles (dispatch_all env now cs db).dispatches
        (dispatch_all-Cares env now postpones settles cs db h).0

  -- A round that finds every available dispatch, because its limit is large enough, leaves none that is
  -- available at the time of its start, and each that was has been worked off: if the queue added its job
  -- in time, its row is completed and its payload in the queue; otherwise its row is pending again, with the
  -- error, and available only after the delay of a retry. This is of a table with one row for each dispatch,
  -- and of clocks that do not go back.
  pub dispatch_pending_inbound_lem :
      (limit : ℕ) (db : InboundDb)
      → IsKeyed db.dispatches
      → any
          (is_left_out now (take limit (env.order (filter (is_available now) db.dispatches))))
          db.dispatches
        ≡ false
      → (any (is_available now) (dispatch_pending_inbound env limit now db).dispatches ≡ false)
        × All
            (IsDone env now (dispatch_pending_inbound env limit now db))
            (filter (is_available now) db.dispatches)
  unfolding dispatch_pending_inbound
  dispatch_pending_inbound_lem limit db keyed h =
      let cs = take limit (env.order (filter (is_available now) db.dispatches)) in
      let start = start-Cares cs db keyed h in
      (
        end_unavailable cs db start,
        works_each cs db.dispatches db start
            (waiting_rows db db.dispatches (finds_each db.dispatches keyed)) h,
      )
