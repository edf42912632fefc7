-- ===== src/Delivery/Resend.antt =====
-- What becomes of a message that goes to the provider a second time.
use autonomous_csa.Base.{
  ℕ, ◌+◌, ◌≡◌, refl, sym, subst, ◌++◌, true, false, some, Text, codes, take, any, arith,
}
use autonomous_csa.Delivery.Defs.{failed, dead_letter, IdempotencyKey, Outbound, DeliveryDb}
use autonomous_csa.Delivery.Provider.{
  accepted, ChannelSendResult, send_message, classify_error, unknown_error, category_code,
}
use autonomous_csa.Delivery.Claim.{
  WorkerEnv, Instants, InFlight, is_claimable, is_attempt, claimed_row,
}
use autonomous_csa.Delivery.Backoff.{delivery_lease_ms}
use autonomous_csa.Delivery.Settle.{
  JobResult, failed_with, is_external, attempt_send, commit_sent, settle, settle_failure,
}
use autonomous_csa.Delivery.Processor.{DeliveryJob, in_flight, is_future, send_outbound_message}
use autonomous_csa.Delivery.Outcome.{HasRow, started_db, settle-eq-send_outbound_message}

-- The identifier that the provider gives to the message of a key.
abbrev pub provider_id : WorkerEnv → IdempotencyKey → Text
provider_id env key = codes "mock-out-" ++ take 24 (env.hmac_hex key)

-- The job reports a dead message, and the row says so, with the code of an unknown error.
abbrev pub IsDead : ℕ → DeliveryDb × JobResult → Type 0
IsDead id (db, result) =
    (result ≡ failed_with dead_letter false)
    × HasRow
        (λ row.
          (row.status ≡ dead_letter) × (row.last_error_code ≡ some (category_code unknown_error)))
        (db.outbound id)

attempt_send-provider_id :
    (env : WorkerEnv) (at : ℕ) (w : InFlight) (result : ChannelSendResult)
    → attempt_send env at w ≡ accepted result
    → result.provider_message_id ≡ provider_id env w.outbound.idempotency_key
unfolding attempt_send send_message
attempt_send-provider_id env at w result e = ground arith

-- A success whose external message is there already is a failure that no retry follows.
settle_again :
    (env : WorkerEnv) (t : Instants) (w : InFlight) (db : DeliveryDb) (result : ChannelSendResult)
    (row : Outbound)
    → any
        (is_external w.outbound.channel_connection_id result.provider_message_id)
        db.external_messages
      ≡ true
    → db.outbound w.outbound.id ≡ some row
    → row.id ≡ w.outbound.id
    → IsDead w.outbound.id (settle env t w (accepted result) db)
unfolding settle settle_failure commit_sent classify_error
settle_again env t w db result row there found same = ground arith

failed_is_claimable : (now : ℕ) (row : Outbound) → row.status ≡ failed → is_claimable now row ≡ true
unfolding is_claimable
failed_is_claimable now row f = ground arith

-- A failed message, such as one that bounced after it was sent, whose external message is recorded:
-- when the next job's send is accepted once more, the message ends up dead with an unknown error.
pub resend_after_bounce-IsDead :
    (env : WorkerEnv) (t : Instants) (job : DeliveryJob) (db : DeliveryDb) (row : Outbound)
    (result : ChannelSendResult)
    → db.outbound job.outbound_message_id ≡ some row
    → row.id ≡ job.outbound_message_id
    → row.status ≡ failed
    → is_future t.now row.next_attempt_at ≡ false
    → any (is_attempt row.id (row.attempt_count + 1)) db.attempts ≡ false
    → any
        (is_external row.channel_connection_id (provider_id env row.idempotency_key))
        db.external_messages
      ≡ true
    → attempt_send env t.accepted_at (in_flight job.id row db) ≡ accepted result
    → IsDead job.outbound_message_id (send_outbound_message env t job db)
resend_after_bounce-IsDead env t job db row result found same f due fresh there sends =
    subst (IsDead job.outbound_message_id)
      (settle-eq-send_outbound_message env t job db row found same (ground arith) due
        (failed_is_claimable t.now row f) fresh)
      (subst (λ o. IsDead job.outbound_message_id (settle env t w o started)) (sym sends)
        (subst (λ i. IsDead i (settle env t w (accepted result) started)) same
          (settle_again env t w started result
            (claimed_row t.now (delivery_lease_ms env.lease_ms) job.id (row.attempt_count + 1) row)
            (subst (λ p. any (is_external row.channel_connection_id p) db.external_messages ≡ true)
              (sym (attempt_send-provider_id env t.accepted_at w result sends)) there)
            (ground arith) refl)))
  where
    w : InFlight
    w = in_flight job.id row db

    started : DeliveryDb
    started = started_db env t job db row
