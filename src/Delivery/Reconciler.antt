-- ===== src/Delivery/Reconciler.antt =====
-- apps/worker/src/channels/outbound-delivery-reconciler.service.ts: the periodic search for messages
-- that no job is working on. The flag that keeps two searches of one process apart is an argument.
use autonomous_csa.Base.{
  ℕ, ◌+◌, Bool, true, false, ◌&&◌, ◌||◌, List, [], ◌∷◌, Option, none, some, leb, ltb, take,
  if◌then◌else◌,
}
use autonomous_csa.Delivery.Defs.{
  OutboundMessageStatus, pending, processing, retry_scheduled, failed, Outbound, DeliveryDb,
  QueuedDelivery, scan,
}

abbrev pub is_waiting_status : OutboundMessageStatus → Bool
is_waiting_status pending = true
is_waiting_status failed = true
is_waiting_status retry_scheduled = true
is_waiting_status _ = false

abbrev is_in_progress : OutboundMessageStatus → Bool
is_in_progress processing = true
is_in_progress _ = false

abbrev pub is_due : ℕ → Option ℕ → Bool
is_due now none = true
is_due now (some t) = leb t now

-- A comparison with null is not true.
abbrev pub is_expired : ℕ → Option ℕ → Bool
is_expired now none = false
is_expired now (some t) = ltb t now

-- The `where` of the search.
unfoldable pub is_candidate : ℕ → Outbound → Bool
is_candidate now row =
    (is_waiting_status row.status && is_due now row.next_attempt_at)
    || (is_in_progress row.status && is_expired now row.lease_expires_at)

unfoldable pub candidates : ℕ → List Outbound → List Outbound
unfolding is_candidate
candidates now [] = []
candidates now (row ∷ rows) =
    let rest = candidates now rows in if is_candidate now row then row ∷ rest else rest

-- The ascending order of `nextAttemptAt`, null last.
abbrev pub is_not_after : Option ℕ → Option ℕ → Bool
is_not_after none none = true
is_not_after none (some _) = false
is_not_after (some _) none = true
is_not_after (some a) (some b) = leb a b

-- Rows with equal keys stay in the order of their creation.
unfoldable pub insert_by_due : Outbound → List Outbound → List Outbound
insert_by_due row [] = row ∷ []
insert_by_due row (r ∷ rows) =
    let later = r ∷ insert_by_due row rows in
    if is_not_after row.next_attempt_at r.next_attempt_at then row ∷ r ∷ rows else later

unfoldable pub order_by_due : List Outbound → List Outbound
unfolding insert_by_due
order_by_due [] = []
order_by_due (row ∷ rows) = insert_by_due row (order_by_due rows)

-- One call of the queue per candidate; `accepts` says which calls the queue takes.
unfoldable pub enqueue_all :
    (ℕ → Bool) → List Outbound → List QueuedDelivery → List QueuedDelivery × ℕ
enqueue_all accepts [] queue = (queue, 0)
enqueue_all accepts (row ∷ rows) queue =
    let job : QueuedDelivery = record {
      job_id = record { outbound_message_id = row.id; suffix = row.attempt_count };
      outbound_message_id = row.id;
      delay = 0;
    } in
    let (queue', enqueued) =
      enqueue_all accepts rows (if accepts row.id then job ∷ queue else queue) in
    (queue', if accepts row.id then enqueued + 1 else enqueued)

pub record ReconcileResult : Type 0 where
  pub enqueued : ℕ
  pub skipped : Bool

unfoldable pub reconcile : Bool → (ℕ → Bool) → ℕ → ℕ → DeliveryDb → DeliveryDb × ReconcileResult
unfolding candidates order_by_due enqueue_all
reconcile running accepts now limit db =
    if running
    then (db, record { enqueued = 0; skipped = true })
    else (let (queue', enqueued) =
          enqueue_all accepts
            (take limit (order_by_due (candidates now (scan db.outbound_ids db.outbound))))
            db.queue in
        (record db { queue = queue' }, record { enqueued = enqueued; skipped = false }))
