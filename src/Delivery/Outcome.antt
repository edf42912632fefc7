-- ===== src/Delivery/Outcome.antt =====
-- What one attempt leaves behind, whatever the provider answers.
use autonomous_csa.Base.{
  ◌+◌, ◌<◌, ◌≡◌, refl, ◌⊎◌, Bool, true, false, Option, none, some, is_some, arith, subst, length,
  any, if◌then◌else◌,
}
use autonomous_csa.Delivery.Defs.{
  OutboundMessageStatus, sent, delivered, retry_scheduled, dead_letter, Outbound, DeliveryDb,
}
use autonomous_csa.Delivery.Provider.{ChannelDeliveryError, SendOutcome, ChannelSendResult}
use autonomous_csa.Delivery.SettleCases.{settle_cases}
use autonomous_csa.Delivery.Claim.{WorkerEnv, Instants, InFlight, is_attempt}
use autonomous_csa.Delivery.Settle.{
  JobResult, commit_sent, settle_failure, settle, log_sent, sent_with,
}
use autonomous_csa.Delivery.Claim.{
  is_claimable, claim_delivery, start_attempt, is_terminal, claimed_row, claimed_db, recorded_db,
}
use autonomous_csa.Delivery.Settle.{attempt_send}
use autonomous_csa.Delivery.Processor.{
  DeliveryJob, in_flight, is_future, run_attempt, send_found, send_outbound_message,
}
use autonomous_csa.Delivery.Backoff.{delivery_lease_ms}

-- A property of the row that a look-up finds; a missing row has none.
abbrev pub HasRow : (Outbound → Type 0) → Option Outbound → Type 0
HasRow P none = ⊥
HasRow P (some row) = P row

abbrev pub is_retry : OutboundMessageStatus → Bool
is_retry retry_scheduled = true
is_retry _ = false

abbrev pub is_dead : OutboundMessageStatus → Bool
is_dead dead_letter = true
is_dead _ = false

abbrev pub is_out : OutboundMessageStatus → Bool
is_out sent = true
is_out delivered = true
is_out _ = false

-- The states in which an attempt may leave a message: out, waiting for a retry that its number of
-- attempts allows, or dead.
pub record IsSettled (w : InFlight) (before after : Outbound) : Type 0 where
  pub status :
      (is_out after.status ≡ true) ⊎ (after.status ≡ retry_scheduled) ⊎ (after.status ≡ dead_letter)
  pub retry_allowed : after.status ≡ retry_scheduled → w.attempt_number < w.outbound.max_attempts
  pub retry_planned : is_retry after.status ≡ is_some after.next_attempt_at
  pub released : (after.lease_owner ≡ none) × (after.lease_expires_at ≡ none)
  pub counted : after.attempt_count ≡ before.attempt_count
  pub same_limit : after.max_attempts ≡ before.max_attempts
  pub same_id : after.id ≡ before.id

-- What the tables gain: a failure with a dead message, a job with a planned retry, and an external
-- message with one that is out.
abbrev pub Accounts : DeliveryDb → DeliveryDb → Outbound → Type 0
Accounts db db' after =
    (length db'.failures ≡ length db.failures + (if is_dead after.status then 1 else 0))
    × (length db'.queue ≡ length db.queue + (if is_retry after.status then 1 else 0))
    × (length db'.external_messages
        ≡ length db.external_messages + (if is_out after.status then 1 else 0))

-- The run of a job leaves the message of `w` settled, and the tables account for it.
abbrev pub Leaves : InFlight → Outbound → DeliveryDb → DeliveryDb × JobResult → Type 0
Leaves w before db (db', result) =
    HasRow (λ after. IsSettled w before after × Accounts db db' after) (db'.outbound w.outbound.id)

module _ (env : WorkerEnv) (t : Instants) (w : InFlight) (db : DeliveryDb) (row : Outbound) where
  settle_failure-Leaves :
      (e : ChannelDeliveryError)
      → db.outbound w.outbound.id ≡ some row
      → row.id ≡ w.outbound.id
      → Leaves w row db (settle_failure env t w e db)
  unfolding settle_failure
  settle_failure-Leaves e found same = ground arith

  commit_sent-Leaves :
      (result : ChannelSendResult) (db' : DeliveryDb)
      → db.outbound w.outbound.id ≡ some row
      → row.id ≡ w.outbound.id
      → commit_sent result t.completed_at w db ≡ some db'
      → Leaves w row db (log_sent result w db', sent_with result.delivery_status)
  unfolding commit_sent
  commit_sent-Leaves result db' found same done = ground arith

  pub settle-Leaves :
      (outcome : SendOutcome)
      → db.outbound w.outbound.id ≡ some row
      → row.id ≡ w.outbound.id
      → Leaves w row db (settle env t w outcome db)
  settle-Leaves outcome found same =
      settle_cases env t w db (Leaves w row db) (λ e. settle_failure-Leaves e found same)
        (λ result db' done. commit_sent-Leaves result db' found same done) outcome

module _ (env : WorkerEnv) (t : Instants) (job : DeliveryJob) (db : DeliveryDb)
    (row : Outbound) where
  -- The database when the message is sent: claimed, with the attempt recorded.
  abbrev pub started_db : DeliveryDb
  started_db =
      recorded_db (in_flight job.id row db)
        (claimed_db t.now (delivery_lease_ms env.lease_ms) job.id row row db)

  pub settle-eq-send_outbound_message :
      db.outbound job.outbound_message_id ≡ some row
      → row.id ≡ job.outbound_message_id
      → is_terminal row.status ≡ false
      → is_future t.now row.next_attempt_at ≡ false
      → is_claimable t.now row ≡ true
      → any (is_attempt row.id (row.attempt_count + 1)) db.attempts ≡ false
      → settle env t
          (in_flight job.id row db)
          (attempt_send env t.accepted_at (in_flight job.id row db))
          started_db
        ≡ send_outbound_message env t job db
  unfolding send_outbound_message send_found run_attempt claim_delivery start_attempt
  settle-eq-send_outbound_message found same live due claimable fresh = ground arith

  -- A job that finds its message due, claimable and without a record of the next attempt leaves the
  -- message out, waiting for a retry that its limit allows, or dead. The lease is released, the
  -- count of attempts has grown by one, a retry has its time and one job more, a dead message has
  -- one operational failure more, and a message that is out has one external message more.
  pub send_outbound_message-Leaves :
      db.outbound job.outbound_message_id ≡ some row
      → row.id ≡ job.outbound_message_id
      → is_terminal row.status ≡ false
      → is_future t.now row.next_attempt_at ≡ false
      → is_claimable t.now row ≡ true
      → any (is_attempt row.id (row.attempt_count + 1)) db.attempts ≡ false
      → Leaves
          (in_flight job.id row db)
          (claimed_row t.now (delivery_lease_ms env.lease_ms) job.id (row.attempt_count + 1) row)
          db
          (send_outbound_message env t job db)
  send_outbound_message-Leaves found same live due claimable fresh =
      subst (Leaves _ _ db) (settle-eq-send_outbound_message found same live due claimable fresh) (
        settle-Leaves env t (in_flight job.id row db) started_db
          (claimed_row t.now (delivery_lease_ms env.lease_ms) job.id (row.attempt_count + 1) row)
          (attempt_send env t.accepted_at (in_flight job.id row db)) (ground arith) refl)
