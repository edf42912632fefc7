-- ===== src/Delivery/Steps.antt =====
-- The parties that write outbound messages, in any order: workers claim, record and settle, the API
-- creates, replays, cancels and takes callbacks, the reconciler queues. A worker may settle at any time after
-- its claim, whatever happened in between.
use autonomous_csa.Base.{
  ◌&&◌, ◌||◌, List, [], ◌∷◌, ◌++◌, any, ◌==◌, ==_refl, ℕ, ◌<◌, ◌≡◌, subst, Bool, true, false,
  Option, none, some, is_some, Text, arith, max, or_else,
}
use autonomous_csa.Delivery.Defs.{
  pending, processing, JobId, Outbound, ChannelConnection, DeliveryDb,
}
use autonomous_csa.Delivery.Provider.{ChannelDeliveryError, SendOutcome, ChannelSendResult}
use autonomous_csa.Delivery.Claim.{
  WorkerEnv, Instants, InFlight, is_terminal, is_claimable, claim_delivery, start_attempt,
}
use autonomous_csa.Delivery.Settle.{commit_sent, log_sent, settle_failure, settle}
use autonomous_csa.Delivery.SettleCases.{settle_cases}
use autonomous_csa.Delivery.Processor.{is_future}
use autonomous_csa.Delivery.Control.{
  commit_replay, commit_cancel, enqueue_delivery, create_outbound,
}
use autonomous_csa.Delivery.Callback.{DeliveryCallback, apply_callback, process_delivery_callback}
use autonomous_csa.Delivery.CallbackLaws.{process_delivery_callback_cases}
use autonomous_csa.Delivery.Reconciler.{is_candidate, reconcile, is_waiting_status}

pub data Step (env : WorkerEnv) (db : DeliveryDb) : DeliveryDb → Type 0 where
  claims :
      {db' : DeliveryDb} (now lease_ms : ℕ) (job : JobId) (outbound : Outbound)
      → claim_delivery now lease_ms job outbound db ≡ some db'
      → Step env db db'
  starts : {db' : DeliveryDb} (w : InFlight) → start_attempt w db ≡ some db' → Step env db db'
  settles :
      {db' : DeliveryDb} (t : Instants) (w : InFlight) (outcome : SendOutcome)
      → (settle env t w outcome db).0 ≡ db'
      → Step env db db'
  replays :
      {db' : DeliveryDb} (org_id actor now : ℕ) (outbound : Outbound)
      → commit_replay org_id actor now outbound db ≡ db'
      → Step env db db'
  cancels :
      {db' : DeliveryDb} (org_id actor now : ℕ) (outbound : Outbound)
      → commit_cancel org_id actor now outbound db ≡ db'
      → Step env db db'
  enqueues :
      {db' : DeliveryDb} (queue_error : Option Text) (id : ℕ)
      → enqueue_delivery queue_error id db ≡ db'
      → Step env db db'
  calls_back :
      {db' : DeliveryDb} (connection : ChannelConnection) (callback : DeliveryCallback)
      → (process_delivery_callback connection callback db).0 ≡ db'
      → Step env db db'
  creates :
      {db' : DeliveryDb} (row : Outbound)
      → db.outbound row.id ≡ none
      → row.status ≡ pending
      → create_outbound row db ≡ db'
      → Step env db db'
  reconciles :
      {db' : DeliveryDb} (running : Bool) (accepts : ℕ → Bool) (now limit : ℕ)
      → (reconcile running accepts now limit db).0 ≡ db'
      → Step env db db'

pub data Reach (env : WorkerEnv) (db : DeliveryDb) : DeliveryDb → Type 0 where
  here : Reach env db db
  next : {db' db'' : DeliveryDb} → Reach env db db' → Step env db' db'' → Reach env db db''

-- A row under its identifier, which the table lists, with an end of its lease if it is processed.
abbrev pub IsLeased : List ℕ → ℕ → Option Outbound → Type 0
IsLeased ids id none = Unit
IsLeased ids id (some row) =
    (row.id ≡ id)
    × (row.status ≡ processing → is_some row.lease_expires_at ≡ true)
    × (any (λ i. i == id) ids ≡ true)

abbrev pub AllLeased : DeliveryDb → Type 0
AllLeased db = (id : ℕ) → IsLeased db.outbound_ids id (db.outbound id)

claim_delivery-AllLeased :
    (now lease_ms : ℕ) (job : JobId) (outbound : Outbound) (db : DeliveryDb) {db' : DeliveryDb}
    → claim_delivery now lease_ms job outbound db ≡ some db'
    → AllLeased db
    → AllLeased db'
unfolding claim_delivery
claim_delivery-AllLeased now lease_ms job outbound db e h id = ground (arith, h id, h outbound.id)

settle_failure-AllLeased :
    (env : WorkerEnv) (t : Instants) (w : InFlight) (e : ChannelDeliveryError) (db : DeliveryDb)
    → AllLeased db
    → AllLeased (settle_failure env t w e db).0
unfolding settle_failure
settle_failure-AllLeased env t w e db h id = ground (arith, h id, h w.outbound.id)

commit_sent-AllLeased :
    (result : ChannelSendResult) (at : ℕ) (w : InFlight) (db : DeliveryDb) {db' : DeliveryDb}
    → commit_sent result at w db ≡ some db'
    → AllLeased db
    → AllLeased (log_sent result w db')
unfolding commit_sent
commit_sent-AllLeased result at w db e h id = ground (arith, h id, h w.outbound.id)

settle-AllLeased :
    (env : WorkerEnv) (t : Instants) (w : InFlight) (outcome : SendOutcome) (db : DeliveryDb)
    → AllLeased db
    → AllLeased (settle env t w outcome db).0
settle-AllLeased env t w outcome db h =
    settle_cases env t w db (λ p. AllLeased p.0) (λ e. settle_failure-AllLeased env t w e db h)
      (λ result db' done. commit_sent-AllLeased result t.completed_at w db done h) outcome

commit_replay-AllLeased :
    (org_id actor now : ℕ) (outbound : Outbound) (db : DeliveryDb)
    → AllLeased db
    → AllLeased (commit_replay org_id actor now outbound db)
unfolding commit_replay
commit_replay-AllLeased org_id actor now outbound db h id = ground (arith, h id, h outbound.id)

commit_cancel-AllLeased :
    (org_id actor now : ℕ) (outbound : Outbound) (db : DeliveryDb)
    → AllLeased db
    → AllLeased (commit_cancel org_id actor now outbound db)
unfolding commit_cancel
commit_cancel-AllLeased org_id actor now outbound db h id = ground (arith, h id, h outbound.id)

enqueue_delivery-AllLeased :
    (queue_error : Option Text) (j : ℕ) (db : DeliveryDb)
    → AllLeased db
    → AllLeased (enqueue_delivery queue_error j db)
unfolding enqueue_delivery
enqueue_delivery-AllLeased queue_error j db h id = ground (arith, h id, h j)

apply_callback-AllLeased :
    (connection : ChannelConnection) (callback : DeliveryCallback) (outbound : Outbound)
    (db : DeliveryDb)
    → AllLeased db
    → AllLeased (apply_callback connection callback outbound db).0
unfolding apply_callback
apply_callback-AllLeased connection callback outbound db h id = ground (arith, h id, h outbound.id)

process_delivery_callback-AllLeased :
    (connection : ChannelConnection) (callback : DeliveryCallback) (db : DeliveryDb)
    → AllLeased db
    → AllLeased (process_delivery_callback connection callback db).0
process_delivery_callback-AllLeased connection callback db h =
    process_delivery_callback_cases connection callback db (λ p. AllLeased p.0) h
      (λ outbound _. apply_callback-AllLeased connection callback outbound db h)

reconcile-AllLeased :
    (running : Bool) (accepts : ℕ → Bool) (now limit : ℕ) (db : DeliveryDb)
    → AllLeased db
    → AllLeased (reconcile running accepts now limit db).0
unfolding reconcile
reconcile-AllLeased true accepts now limit db h = h
reconcile-AllLeased false accepts now limit db h = h

any-append :
    (id new : ℕ) (ids : List ℕ)
    → any (λ i. i == id) (ids ++ new ∷ []) ≡ (any (λ i. i == id) ids || new == id)
any-append id new [] = ground arith
any-append id new (i ∷ ids) = ground (arith, any-append id new ids)

create_outbound-AllLeased :
    (row : Outbound) (db : DeliveryDb)
    → row.status ≡ pending
    → AllLeased db
    → AllLeased (create_outbound row db)
create_outbound-AllLeased row db new h id =
    ground (arith, new, h id, any-append id row.id db.outbound_ids, ==_refl id)

start_attempt-AllLeased :
    (w : InFlight) (db : DeliveryDb) {db' : DeliveryDb}
    → start_attempt w db ≡ some db'
    → AllLeased db
    → AllLeased db'
unfolding start_attempt
start_attempt-AllLeased w db e h id = ground (arith, h id)

Step-AllLeased :
    {env : WorkerEnv} {db db' : DeliveryDb} → Step env db db' → AllLeased db → AllLeased db'
Step-AllLeased {db} (claims now lease_ms job outbound e) h =
    claim_delivery-AllLeased now lease_ms job outbound db e h
Step-AllLeased {db} (starts w e) h = start_attempt-AllLeased w db e h
Step-AllLeased {env} {db} (settles t w outcome e) h =
    subst AllLeased e (settle-AllLeased env t w outcome db h)
Step-AllLeased {db} (replays org_id actor now outbound e) h =
    subst AllLeased e (commit_replay-AllLeased org_id actor now outbound db h)
Step-AllLeased {db} (cancels org_id actor now outbound e) h =
    subst AllLeased e (commit_cancel-AllLeased org_id actor now outbound db h)
Step-AllLeased {db} (enqueues queue_error id e) h =
    subst AllLeased e (enqueue_delivery-AllLeased queue_error id db h)
Step-AllLeased {db} (calls_back connection callback e) h =
    subst AllLeased e (process_delivery_callback-AllLeased connection callback db h)
Step-AllLeased {db} (creates row free new e) h =
    subst AllLeased e (create_outbound-AllLeased row db new h)
Step-AllLeased {db} (reconciles running accepts now limit e) h =
    subst AllLeased e (reconcile-AllLeased running accepts now limit db h)

Reach-AllLeased :
    {env : WorkerEnv} {db db' : DeliveryDb} → Reach env db db' → AllLeased db → AllLeased db'
Reach-AllLeased here h = h
Reach-AllLeased (next r s) h = Step-AllLeased s (Reach-AllLeased r h)

-- From when on the reconciler takes a message for forgotten: after its next attempt is due and its
-- lease is over.
abbrev pub forgotten_after : Outbound → ℕ
forgotten_after row = max (or_else row.next_attempt_at 0) (or_else row.lease_expires_at 0)

is_candidate_of_IsLeased :
    (ids : List ℕ) (id now : ℕ) (row : Outbound)
    → IsLeased ids id (some row)
    → is_terminal row.status ≡ false
    → forgotten_after row < now
    → is_candidate now row ≡ true
unfolding is_candidate
is_candidate_of_IsLeased ids id now row h live late = ground arith

-- In every interleaving, a message that is not done is a candidate of the search once it is forgotten.
pub Reach-is_candidate :
    {env : WorkerEnv} {db db' : DeliveryDb} (id now : ℕ) (row : Outbound)
    → AllLeased db
    → Reach env db db'
    → db'.outbound id ≡ some row
    → is_terminal row.status ≡ false
    → forgotten_after row < now
    → (row.id ≡ id) × (is_candidate now row ≡ true) × (any (λ i. i == id) db'.outbound_ids ≡ true)
Reach-is_candidate {env} {db} {db'} id now row h r found live late =
    let leased = subst (IsLeased db'.outbound_ids id) found (Reach-AllLeased r h id) in
    (leased.0, is_candidate_of_IsLeased db'.outbound_ids id now row leased live late, leased.2)

-- What the reconciler picks up, a job may claim at the same instant: it is not done, the condition
-- of the claim holds, and it is not one that waits for an attempt in the future.
pub is_candidate-is_claimable :
    (now : ℕ) (row : Outbound)
    → is_candidate now row ≡ true
    → (is_terminal row.status ≡ false)
      × (is_claimable now row ≡ true)
      × ((is_waiting_status row.status && is_future now row.next_attempt_at) ≡ false)
unfolding is_candidate is_claimable
is_candidate-is_claimable now row h = ground arith
