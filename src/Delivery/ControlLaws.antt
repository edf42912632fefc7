-- ===== src/Delivery/ControlLaws.antt =====
-- What cancelling and replaying achieve, and what a job that was under way does to it.
use autonomous_csa.Base.{ℕ, ◌≡◌, ◌⊎◌, ◌≢◌, true, false, Option, none, some, arith}
use autonomous_csa.Http.{refuse, reply, bad_request, not_found}
use autonomous_csa.Delivery.Defs.{cancelled, Outbound, DeliveryDb}
use autonomous_csa.Delivery.Provider.{SendOutcome}
use autonomous_csa.Delivery.Claim.{WorkerEnv, Instants, InFlight}
use autonomous_csa.Delivery.Settle.{settle}
use autonomous_csa.Delivery.Processor.{DeliveryJob, send_found, send_outbound_message}
use autonomous_csa.Delivery.Outcome.{HasRow, settle-Leaves, IsSettled, Accounts}
use autonomous_csa.Delivery.Control.{is_cancel_blocked, cancel_outbound_message, commit_cancel}

-- A request cancels a message exactly if the message is of its organization and is not out or dead:
-- then the message is cancelled and without a lease, and each later job leaves the tables alone. A
-- message of another organization is not found.
pub cancel_outbound_message_lem :
    (org_id id actor now : ℕ) (db : DeliveryDb) (row : Outbound) (env : WorkerEnv) (t : Instants)
    (job : DeliveryJob)
    → db.outbound id ≡ some row
    → row.id ≡ id
    → job.outbound_message_id ≡ id
    → (row.organization_id ≡ org_id)
        × (is_cancel_blocked row.status ≡ false)
        × (cancel_outbound_message org_id id actor now db
            ≡ reply (commit_cancel org_id actor now row db))
        × HasRow
            (λ r. (r.status ≡ cancelled) × (r.lease_owner ≡ none) × (r.lease_expires_at ≡ none))
            ((commit_cancel org_id actor now row db).outbound id)
        × ((send_outbound_message env t job (commit_cancel org_id actor now row db)).0
            ≡ commit_cancel org_id actor now row db)
      ⊎ (row.organization_id ≡ org_id)
        × (is_cancel_blocked row.status ≡ true)
        × (cancel_outbound_message org_id id actor now db
            ≡ refuse (bad_request "Terminal outbound message cannot be cancelled"))
      ⊎ (row.organization_id ≢ org_id)
        × (cancel_outbound_message org_id id actor now db
            ≡ refuse (not_found "Outbound message not found"))
unfolding cancel_outbound_message commit_cancel send_outbound_message send_found
cancel_outbound_message_lem org_id id actor now db row env t job found same for_it = ground arith

-- A job that was sending when its message was cancelled takes the message out of `cancelled`,
-- whatever the provider answers: the settling update does not ask for the status or the lease.
pub cancelled_in_flight_revived :
    (env : WorkerEnv) (t : Instants) (w : InFlight) (db : DeliveryDb) (row : Outbound)
    (outcome : SendOutcome)
    → db.outbound w.outbound.id ≡ some row
    → row.id ≡ w.outbound.id
    → row.status ≡ cancelled
    → HasRow
        (λ after. after.status ≢ cancelled)
        ((settle env t w outcome db).0.outbound w.outbound.id)
cancelled_in_flight_revived env t w db row outcome found same c =
    weaken _ (settle-Leaves env t w db row outcome found same)
  where
    weaken :
        (o : Option Outbound)
        → HasRow
            (λ after. IsSettled w row after × Accounts db (settle env t w outcome db).0 after)
            o
        → HasRow (λ after. after.status ≢ cancelled) o
    weaken none l = l
    weaken (some after) l = let s = l.0.status in λ e. ground arith
