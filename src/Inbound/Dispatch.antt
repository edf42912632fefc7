-- ===== src/Inbound/Dispatch.antt =====
-- `dispatchPendingInbound` of apps/api/src/channels/channels.service.ts.
use autonomous_csa.Base.{
  ℕ, ◌+◌, Bool, true, false, ◌&&◌, ◌||◌, List, [], ◌∷◌, Option, none, some, codes, ◌==◌, leb, ltb,
  count, filter, find_first, take, if◌then◌else◌,
}
use autonomous_csa.Inbound.Defs.{
  InboundDispatch, InboundDispatchStatus, pending, processing, completed, failed, InboundDb,
  replace_where,
}

-- What becomes of `supportQueue.add` within its time limit: the job is added, it is not, or it is added
-- after the limit, so that the caller sees an error.
pub data EnqueueOutcome : Type 0 where
  added refused added_late : EnqueueOutcome

-- A run of the dispatch: the clock at its start, the outcome and the clock at the end of each enqueueing,
-- and the order that the query asks of the database. `lease_ms` is INBOUND_DISPATCH_LEASE_MS and
-- `retry_delay_ms` is INBOUND_DISPATCH_RETRY_DELAY_MS.
pub record DispatchEnv : Type 0 where
  pub lease_ms : ℕ
  pub retry_delay_ms : ℕ
  pub outcome : InboundDispatch → EnqueueOutcome
  pub settled_at : InboundDispatch → ℕ
  pub order : List InboundDispatch → List InboundDispatch

abbrev is_waiting : InboundDispatchStatus → Bool
is_waiting pending = true
is_waiting failed = true
is_waiting _ = false

abbrev is_locked : InboundDispatchStatus → Bool
is_locked processing = true
is_locked _ = false

abbrev is_expired : ℕ → Option ℕ → Bool
is_expired now none = false
is_expired now (some t) = ltb t now

-- The condition of the search, and again of the claim.
unfoldable pub is_available : ℕ → InboundDispatch → Bool
is_available now d =
    (is_waiting d.status && leb d.available_at now)
    || (is_locked d.status && is_expired now d.lock_expires_at)

abbrev pub claimed_dispatch : DispatchEnv → ℕ → InboundDispatch → InboundDispatch
claimed_dispatch env now d = record d {
  status = processing;
  claimed_at = some now;
  lock_expires_at = some (now + env.lease_ms);
  attempt_count = d.attempt_count + 1;
  last_error_code = none;
}

abbrev pub with_dispatch_id : ℕ → InboundDispatch → Bool
with_dispatch_id id d = d.id == id

-- The claim; `none` where it does not change one row.
unfoldable pub claim_dispatch :
    DispatchEnv → ℕ → ℕ → List InboundDispatch → Option (List InboundDispatch)
unfolding is_available replace_where
claim_dispatch env now id ds =
    if count (λ d. with_dispatch_id id d && is_available now d) ds == 1
    then some (
        replace_where (λ d. with_dispatch_id id d && is_available now d) (claimed_dispatch env now)
          ds)
    else none

abbrev pub completed_dispatch : ℕ → InboundDispatch → InboundDispatch
completed_dispatch at d = record d {
  status = completed;
  completed_at = some at;
  lock_expires_at = none;
  last_error_code = none;
}

abbrev pub postponed_dispatch : DispatchEnv → ℕ → InboundDispatch → InboundDispatch
postponed_dispatch env at d = record d {
  status = pending;
  available_at = at + env.retry_delay_ms;
  lock_expires_at = none;
  last_error_code = some (codes "QUEUE_ENQUEUE_FAILED");
}

abbrev pub settled_dispatch : DispatchEnv → InboundDispatch → InboundDispatch → InboundDispatch
settled_dispatch env current d = elim (env.outcome current) [
  | added ↦ completed_dispatch (env.settled_at current) d
  | _ ↦ postponed_dispatch env (env.settled_at current) d
]

-- The enqueueing of a claimed row, and the update that settles it.
unfoldable pub enqueue_dispatch : DispatchEnv → InboundDispatch → InboundDb → InboundDb
unfolding replace_where
enqueue_dispatch env current db = record db {
  queue = elim (env.outcome current) [ refused ↦ db.queue | _ ↦ current.payload ∷ db.queue ];
  dispatches =
      replace_where (with_dispatch_id current.id) (settled_dispatch env current) db.dispatches;
}

abbrev pub enqueue_found : DispatchEnv → Option InboundDispatch → InboundDb → InboundDb
enqueue_found env none db = db
enqueue_found env (some current) db = enqueue_dispatch env current db

abbrev pub enqueue_claimed : DispatchEnv → ℕ → Option (List InboundDispatch) → InboundDb → InboundDb
enqueue_claimed env id none db = db
enqueue_claimed env id (some ds) db =
    enqueue_found env (find_first (with_dispatch_id id) ds) (record db { dispatches = ds })

-- The body of the loop, and the loop.
unfoldable pub dispatch_one : DispatchEnv → ℕ → InboundDispatch → InboundDb → InboundDb
unfolding claim_dispatch enqueue_dispatch
dispatch_one env now d db = enqueue_claimed env d.id (claim_dispatch env now d.id db.dispatches) db

unfoldable pub dispatch_all : DispatchEnv → ℕ → List InboundDispatch → InboundDb → InboundDb
unfolding dispatch_one
dispatch_all env now [] db = db
dispatch_all env now (d ∷ ds) db = dispatch_all env now ds (dispatch_one env now d db)

-- `limit` is 25 after a webhook.
unfoldable pub dispatch_pending_inbound : DispatchEnv → (limit now : ℕ) → InboundDb → InboundDb
unfolding dispatch_all is_available
dispatch_pending_inbound env limit now db =
    dispatch_all env now (take limit (env.order (filter (is_available now) db.dispatches))) db
