-- ===== src/Delivery/Processor.antt =====
-- apps/worker/src/channels/channel-delivery.processor.ts: a job of the delivery queue. The job reads
-- the message, claims it (`Claim`), records an attempt, sends, and settles the attempt in one
-- transaction (`Settle`). Each of these is a definition of its own, so that other parties can act in
-- between. A database call that fails for another reason than a unique constraint is left out, and
-- so are the log lines and the correlation context.
use autonomous_csa.Base.{
  ℕ, ◌+◌, ◌-◌, Bool, false, Option, none, some, String, ltb, or_else, if◌then◌else◌,
}
use text.Mathlib.Text.{◌==◌ as str_eq}
use autonomous_csa.Delivery.Defs.{JobId, Outbound, DeliveryDb}
use autonomous_csa.Delivery.Backoff.{delivery_lease_ms}
use autonomous_csa.Delivery.Claim.{
  WorkerEnv, Instants, InFlight, is_terminal, claim_delivery, start_attempt,
}
use autonomous_csa.Delivery.Settle.{
  JobResult, ignored, missing_outbound_message, delayed, already_claimed, duplicate_attempt,
  skipped, attempt_send, settle, enqueue,
}

pub record DeliveryJob : Type 0 where
  pub name : String
  pub id : JobId
  pub outbound_message_id : ℕ

abbrev pub is_future : ℕ → Option ℕ → Bool
is_future now none = false
is_future now (some t) = ltb now t

-- A claimed message is tried.
unfoldable pub run_attempt : WorkerEnv → Instants → InFlight → DeliveryDb → DeliveryDb × JobResult
run_attempt env t w db = elim (start_attempt w db) [
  | none ↦ (db, duplicate_attempt)
  | some started ↦ settle env t w (attempt_send env t.accepted_at w) started
]

abbrev pub in_flight : JobId → Outbound → DeliveryDb → InFlight
in_flight job outbound db = record {
  job = job;
  outbound = outbound;
  connection = db.connection outbound.channel_connection_id;
  attempt_number = outbound.attempt_count + 1;
}

unfoldable pub send_found :
    WorkerEnv → Instants → JobId → Outbound → DeliveryDb → DeliveryDb × JobResult
send_found env t job outbound db =
    if is_terminal outbound.status
    then (db, skipped outbound.status)
    else if is_future t.now outbound.next_attempt_at
    then (
      enqueue outbound.id (or_else outbound.next_attempt_at 0 - t.now) t.enqueued_at db,
      delayed,
    )
    else elim (claim_delivery t.now (delivery_lease_ms env.lease_ms) job outbound db) [
      | none ↦ (db, already_claimed)
      | some claimed ↦ run_attempt env t (in_flight job outbound db) claimed
    ]

unfoldable pub send_outbound_message :
    WorkerEnv → Instants → DeliveryJob → DeliveryDb → DeliveryDb × JobResult
send_outbound_message env t job db = elim (db.outbound job.outbound_message_id) [
  | none ↦ (db, missing_outbound_message)
  | some outbound ↦ send_found env t job.id outbound db
]

-- `process`; other jobs of the queue are ignored.
unfoldable pub process : WorkerEnv → Instants → DeliveryJob → DeliveryDb → DeliveryDb × JobResult
process env t job db =
    if str_eq job.name "send-outbound-message"
    then send_outbound_message env t job db
    else (db, ignored)
