-- ===== src/Delivery/Budget.antt =====
-- The jobs of a message one after the other (apps/worker/src/channels/channel-delivery.processor.ts)
-- and the limit of its attempts.
use autonomous_csa.Base.{
  ℕ, suc, ◌+◌, ◌≤◌, ◌<◌, ◌≡◌, refl, ap, ◌∙◌, sym, ◌⊎◌, inl, inr, true, false, List, [], ◌∷◌, Option,
  none, some, any, subst, String, arith,
}
use autonomous_csa.Delivery.Defs.{retry_scheduled, JobId, Outbound, DeliveryAttempt, DeliveryDb}
use autonomous_csa.Delivery.Provider.{ChannelDeliveryError, SendOutcome, ChannelSendResult}
use autonomous_csa.Delivery.Claim.{
  WorkerEnv, Instants, InFlight, is_attempt, is_terminal, is_claimable, claimed_row,
}
use autonomous_csa.Delivery.SettleCases.{settle_cases}
use autonomous_csa.Delivery.Backoff.{delivery_lease_ms}
use autonomous_csa.Delivery.Settle.{
  commit_sent, settle_failure, settle, settle_attempt, attempt_send, log_sent, JobResult,
  failed_attempt, can_retry, succeeded_attempt,
}
use autonomous_csa.Delivery.Processor.{
  DeliveryJob, in_flight, is_future, send_found, send_outbound_message,
}
use autonomous_csa.Delivery.Reconciler.{is_waiting_status}
use autonomous_csa.Delivery.Outcome.{
  HasRow, IsSettled, settle-eq-send_outbound_message, send_outbound_message-Leaves, started_db,
  is_out, Accounts,
}

any-settle_attempt :
    (id number k : ℕ) (f : DeliveryAttempt → DeliveryAttempt)
    → ((a : DeliveryAttempt) → is_attempt id k (f a) ≡ is_attempt id k a)
    → (as_ : List DeliveryAttempt)
    → any (is_attempt id k) (settle_attempt id number f as_) ≡ any (is_attempt id k) as_
any-settle_attempt id number k f same [] = refl
any-settle_attempt id number k f same (a ∷ as_) =
    ground (arith, same a, any-settle_attempt id number k f same as_)

module _ (env : WorkerEnv) (t : Instants) (w : InFlight) (db : DeliveryDb) (k : ℕ) where
  -- A settled attempt keeps its message and its number.
  settle_failure-any_attempt :
      (e : ChannelDeliveryError)
      → any (is_attempt w.outbound.id k) (settle_failure env t w e db).0.attempts
        ≡ any (is_attempt w.outbound.id k) db.attempts
  unfolding settle_failure
  settle_failure-any_attempt e =
      let kept =
        any-settle_attempt w.outbound.id w.attempt_number k
          (failed_attempt (can_retry w e) t.completed_at e) (λ a. refl) db.attempts in
      ground (arith, kept)

  commit_sent-any_attempt :
      (result : ChannelSendResult) (at : ℕ) {db' : DeliveryDb}
      → commit_sent result at w db ≡ some db'
      → any (is_attempt w.outbound.id k) (log_sent result w db').attempts
        ≡ any (is_attempt w.outbound.id k) db.attempts
  unfolding commit_sent
  commit_sent-any_attempt result at done =
      let kept =
        any-settle_attempt w.outbound.id w.attempt_number k (succeeded_attempt at) (λ a. refl)
          db.attempts in
      ground (arith, kept)

  abbrev Kept : DeliveryDb × JobResult → Type 0
  Kept (db', result) =
      any (is_attempt w.outbound.id k) db'.attempts ≡ any (is_attempt w.outbound.id k) db.attempts

  settle-any_attempt : (outcome : SendOutcome) → Kept (settle env t w outcome db)
  settle-any_attempt outcome =
      settle_cases env t w db Kept settle_failure-any_attempt
        (λ result db' done. commit_sent-any_attempt result t.completed_at done) outcome

-- A message that waits for a job, and no record of an attempt beyond its count.
pub record IsWaiting (id : ℕ) (db : DeliveryDb) (row : Outbound) : Type 0 where
  pub found : db.outbound id ≡ some row
  pub same : row.id ≡ id
  pub waits : is_waiting_status row.status ≡ true
  pub numbered : (k : ℕ) → row.attempt_count < k → any (is_attempt id k) db.attempts ≡ false

-- Nothing is done for a message that is done.
abbrev pub IsDone : ℕ → DeliveryDb → Type 0
IsDone id db = HasRow (λ row. is_terminal row.status ≡ true) (db.outbound id)

pub send_outbound_message-IsDone :
    (env : WorkerEnv) (t : Instants) (job : DeliveryJob) (db : DeliveryDb)
    → IsDone job.outbound_message_id db
    → (send_outbound_message env t job db).0 ≡ db
unfolding send_outbound_message send_found
send_outbound_message-IsDone env t job db done = ground arith

-- One job on a waiting message that is due: the message is done, or it waits again with one more
-- attempt counted, below its limit.
module _ (env : WorkerEnv) (t : Instants) (job : DeliveryJob) (db : DeliveryDb)
    (row : Outbound) where
  abbrev w : InFlight
  w = in_flight job.id row db

  abbrev after : DeliveryDb
  after = (send_outbound_message env t job db).0

  waiting_is_live : is_waiting_status row.status ≡ true → is_terminal row.status ≡ false
  waiting_is_live h = ground arith

  waiting_is_claimable : is_waiting_status row.status ≡ true → is_claimable t.now row ≡ true
  unfolding is_claimable
  waiting_is_claimable h = ground arith

  send_outbound_message-eq_settle :
      IsWaiting job.outbound_message_id db row
      → is_future t.now row.next_attempt_at ≡ false
      → settle env t w (attempt_send env t.accepted_at w) (started_db env t job db row)
        ≡ send_outbound_message env t job db
  send_outbound_message-eq_settle h due =
      settle-eq-send_outbound_message env t job db row h.found h.same (waiting_is_live h.waits) due
        (waiting_is_claimable h.waits)
        (rw h.same (h.numbered (row.attempt_count + 1) (omega arith)))

  -- The attempts stay numbered up to the count.
  numbered_after :
      IsWaiting job.outbound_message_id db row
      → is_future t.now row.next_attempt_at ≡ false
      → (k : ℕ) → row.attempt_count + 1 < k
      → any (is_attempt job.outbound_message_id k) after.attempts ≡ false
  numbered_after h due k lt =
      let kept =
        settle-any_attempt env t w (started_db env t job db row) k
          (attempt_send env t.accepted_at w) in
      let eq =
        ap (λ (p : DeliveryDb × JobResult). any (is_attempt row.id k) p.0.attempts)
          (send_outbound_message-eq_settle h due) in
      let old = h.numbered k (omega arith) in ground (arith, kept, eq, old)

  out_is_terminal : (r : Outbound) → is_out r.status ≡ true → is_terminal r.status ≡ true
  out_is_terminal r h = ground arith

  split_leaves :
      IsWaiting job.outbound_message_id db row
      → is_future t.now row.next_attempt_at ≡ false
      → (row' : Outbound) → after.outbound job.outbound_message_id ≡ some row'
      → IsSettled w
          (claimed_row t.now (delivery_lease_ms env.lease_ms) job.id (row.attempt_count + 1) row)
          row'
      → IsDone job.outbound_message_id after
        ⊎ ((row' : Outbound) × IsWaiting job.outbound_message_id after row'
            × (row'.attempt_count ≡ row.attempt_count + 1)
            × (row'.max_attempts ≡ row.max_attempts)
            × (row'.attempt_count < row'.max_attempts))
  split_leaves h due row' found s = elim s.status [
    | inl out ↦ inl (subst (HasRow _) (sym found) (out_is_terminal row' out))
    | inr (inl retry) ↦ inr (row', waits_again retry, s.counted, s.same_limit, in_budget retry)
    | inr (inr dead) ↦ inl (subst (HasRow _) (sym found) (ground arith))
  ]
    where
      in_budget : row'.status ≡ retry_scheduled → row'.attempt_count < row'.max_attempts
      in_budget retry = let room = s.retry_allowed retry in ground arith

      waits_again : row'.status ≡ retry_scheduled → IsWaiting job.outbound_message_id after row'
      waits_again retry = record {
        found = found;
        same = s.same_id ∙ h.same;
        waits = ground arith;
        numbered = λ k lt. numbered_after h due k (omega (arith, s.counted));
      }

  send_outbound_message-IsWaiting :
      IsWaiting job.outbound_message_id db row
      → is_future t.now row.next_attempt_at ≡ false
      → IsDone job.outbound_message_id (send_outbound_message env t job db).0
        ⊎ ((row' : Outbound) × IsWaiting job.outbound_message_id
              (send_outbound_message env t job db).0
              row'
            × (row'.attempt_count ≡ row.attempt_count + 1)
            × (row'.max_attempts ≡ row.max_attempts)
            × (row'.attempt_count < row'.max_attempts))
  send_outbound_message-IsWaiting h due = go (after.outbound job.outbound_message_id) refl (
      subst Settled h.same (
        send_outbound_message-Leaves env t job db row h.found h.same (waiting_is_live h.waits) due
          (waiting_is_claimable h.waits)
          (rw h.same (h.numbered (row.attempt_count + 1) (omega arith)))))
    where
      Settled : ℕ → Type 0
      Settled id =
          HasRow
            (λ r.
              IsSettled w
                (claimed_row t.now (delivery_lease_ms env.lease_ms) job.id (row.attempt_count + 1)
                  row)
                r
              × Accounts db after r)
            (after.outbound id)

      go :
          (o : Option Outbound)
          → after.outbound job.outbound_message_id ≡ o
          → HasRow
              (λ r.
                IsSettled w
                  (claimed_row t.now
                    (delivery_lease_ms env.lease_ms)
                    job.id
                    (row.attempt_count + 1)
                    row)
                  r
                × Accounts db after r)
              o
          → IsDone job.outbound_message_id after
            ⊎ ((row' : Outbound) × IsWaiting job.outbound_message_id after row'
                × (row'.attempt_count ≡ row.attempt_count + 1)
                × (row'.max_attempts ≡ row.max_attempts)
                × (row'.attempt_count < row'.max_attempts))
      go none found l = absurd l
      go (some row') found l = split_leaves h due row' found l.0

-- Runs of jobs for a message, each at a time when the message is due.
pub data DueRuns (env : WorkerEnv) (id : ℕ) : ℕ → DeliveryDb → DeliveryDb → Type 0 where
  stop : {db : DeliveryDb} → DueRuns env id 0 db db
  run :
      {n : ℕ} {db db' : DeliveryDb} (t : Instants) (name : String) (job_id : JobId)
      → HasRow (λ row. is_future t.now row.next_attempt_at ≡ false) (db.outbound id)
      → DueRuns env id n
          (send_outbound_message env t
            (record { name = name; id = job_id; outbound_message_id = id })
            db).0
          db'
      → DueRuns env id (suc n) db db'

DueRuns-IsDone :
    {env : WorkerEnv} {id n : ℕ} {db db' : DeliveryDb}
    → DueRuns env id n db db'
    → IsDone id db
    → IsDone id db'
DueRuns-IsDone stop done = done
DueRuns-IsDone {env} {id} {db} (run t name job_id due rest) done = DueRuns-IsDone rest (
    subst (IsDone id)
      (sym (
        send_outbound_message-IsDone env t
          (record { name = name; id = job_id; outbound_message_id = id }) db done))
      done)

-- A waiting message is done after as many due jobs as its limit leaves it, and after one where the
-- limit leaves it none.
pub DueRuns-finish :
    {env : WorkerEnv} {id n : ℕ} {db db' : DeliveryDb} (row : Outbound)
    → IsWaiting id db row
    → DueRuns env id n db db'
    → row.max_attempts ≤ row.attempt_count + n
    → 1 ≤ n
    → IsDone id db'
DueRuns-finish row h stop enough some_run = absurd (omega arith)
DueRuns-finish {env} {id} {db} row h (run t name job_id due rest) enough some_run =
    elim (send_outbound_message-IsWaiting env t
      (record { name = name; id = job_id; outbound_message_id = id }) db row h
      (subst (HasRow _) h.found due)) [
        | inl done ↦ DueRuns-IsDone rest done
        | inr (row', again, count, limit, room) ↦
            DueRuns-finish row' again rest (omega arith) (omega arith)
      ]
