-- ===== src/Delivery/SettleCases.antt =====
-- The two ways in which an attempt is settled: what holds after a failure and after a committed
-- success holds after every outcome of the send.
use autonomous_csa.Base.{◌≡◌, none, some, inl, inr, subst, arith, Option-cases}
use autonomous_csa.Delivery.Defs.{DeliveryDb}
use autonomous_csa.Delivery.Provider.{
  ChannelDeliveryError, SendOutcome, accepted, threw, ChannelSendResult, classify_error,
}
use autonomous_csa.Delivery.Claim.{WorkerEnv, Instants, InFlight}
use autonomous_csa.Delivery.Settle.{
  JobResult, commit_sent, log_sent, sent_with, settle_failure, settle, unique_violation,
}

module _ (env : WorkerEnv) (t : Instants) (w : InFlight) (db : DeliveryDb) where
  settle_refused :
      (result : ChannelSendResult)
      → commit_sent result t.completed_at w db ≡ none
      → settle_failure env t w (classify_error (unique_violation env)) db
        ≡ settle env t w (accepted result) db
  unfolding settle
  settle_refused result refused = ground arith

  settle_done :
      (result : ChannelSendResult) (db' : DeliveryDb)
      → commit_sent result t.completed_at w db ≡ some db'
      → ◌≡◌ {A = DeliveryDb × JobResult}
          (log_sent result w db', sent_with result.delivery_status)
          (settle env t w (accepted result) db)
  unfolding settle
  settle_done result db' done = ground arith

  pub settle_cases :
      (P : DeliveryDb × JobResult → Type 0)
      → ((e : ChannelDeliveryError) → P (settle_failure env t w e db))
      → ((result : ChannelSendResult) (db' : DeliveryDb)
          → commit_sent result t.completed_at w db ≡ some db'
          → P (log_sent result w db', sent_with result.delivery_status))
      → (outcome : SendOutcome) → P (settle env t w outcome db)
  unfolding settle
  settle_cases P fails succeeds (threw e) = fails (classify_error e)
  settle_cases P fails succeeds (accepted result) =
      elim (Option-cases (commit_sent result t.completed_at w db)) [
        | inl refused ↦
            subst P (settle_refused result refused) (fails (classify_error (unique_violation env)))
        | inr (db', done) ↦ subst P (settle_done result db' done) (succeeds result db' done)
      ]
