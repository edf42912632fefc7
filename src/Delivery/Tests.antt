-- ===== src/Delivery/Tests.antt =====
-- Runs of the delivery code on small tables, and the theorems at them.
use autonomous_csa.Base.{
  ◌&&◌, ℕ, ◌+◌, ◌≤◌, ◌≡◌, refl, inl, true, false, [], ◌∷◌, Option, none, some, is_some, Text, codes,
  arith, ltb, ◌==◌, if◌then◌else◌, ◌≢◌, ◌⊎◌, text_eq,
}
use autonomous_csa.Http.{refuse, reply, bad_request, not_found}
use autonomous_csa.Delivery.Defs.{
  pending, sent, delivered, failed, cancelled, active, mock_email, JobId, Outbound,
  ChannelConnection, ExternalMessage, DeliveryDb, OutboundMessageStatus, scan,
}
use autonomous_csa.Delivery.Backoff.{backoff_delay_ms, delivery_lease_ms, parse_int_env}
use autonomous_csa.Delivery.BackoffBounds.{backoff_delay_ms_bounds, backoff_delay_ms_mono}
use autonomous_csa.Delivery.Provider.{
  accepted, status_sent, ChannelSendResult, send_message, classify_error,
}
use autonomous_csa.Delivery.Claim.{
  WorkerEnv, Instants, InFlight, is_terminal, is_claimable, claim_delivery, claimed_row, claimed_db,
  start_attempt,
}
use autonomous_csa.Delivery.Settle.{attempt_send, settle, settle_failure, commit_sent}
use autonomous_csa.Delivery.Processor.{
  DeliveryJob, is_future, in_flight, send_outbound_message, send_found, run_attempt, process,
}
use autonomous_csa.Delivery.Outcome.{HasRow, Leaves, send_outbound_message-Leaves}
use autonomous_csa.Delivery.Budget.{IsWaiting, IsDone, DueRuns, stop, run, DueRuns-finish}
use autonomous_csa.Delivery.Exclusion.{claim_again_iff_expired}
use autonomous_csa.Delivery.Callback.{
  DeliveryCallback, is_sent, is_bounced, process_delivery_callback,
}
use autonomous_csa.Delivery.CallbackLaws.{delivered_absorbs_callbacks, process_callbacks}
use autonomous_csa.Delivery.LateCallback.{late_callback_revives}
use autonomous_csa.Delivery.Control.{cancel_outbound_message, commit_cancel, is_cancel_blocked}
use autonomous_csa.Delivery.ControlLaws.{cancel_outbound_message_lem, cancelled_in_flight_revived}
use autonomous_csa.Delivery.Resend.{resend_after_bounce-IsDead, IsDead}
use autonomous_csa.Delivery.Reconciler.{is_candidate, is_waiting_status}
use autonomous_csa.Delivery.Steps.{is_candidate-is_claimable}

abbrev env_0 : WorkerEnv
env_0 = record {
  hmac_hex = λ key. codes "abc";
  to_lower_case = λ text. text;
  unique_message = codes "Unique constraint failed";
  retry_base_delay_ms = none;
  lease_ms = none;
}

abbrev at_time : ℕ → Instants
at_time now = record {
  now = now;
  accepted_at = now + 1;
  completed_at = now + 2;
  retry_from = now + 3;
  enqueued_at = now + 4;
}

abbrev row_in : OutboundMessageStatus → Outbound
row_in status = record {
  id = 1;
  organization_id = 7;
  conversation_id = 2;
  channel_connection_id = 3;
  ticket_id = 4;
  draft_id = 5;
  external_message_id = none;
  idempotency_key = record { draft_id = 5 };
  status = status;
  subject = none;
  text_body = "Hello";
  html_body = none;
  recipients = [];
  provider_message_id = none;
  approved_by_user_id = none;
  approved_at = none;
  processing_started_at = none;
  sent_at = none;
  delivered_at = none;
  failed_at = none;
  next_attempt_at = none;
  attempt_count = 0;
  max_attempts = 2;
  lease_owner = none;
  lease_expires_at = none;
  last_error_code = none;
  last_error_redacted = none;
}

abbrev connection_with : Option Text → ChannelConnection
connection_with mode = record {
  id = 3;
  organization_id = 7;
  provider = mock_email;
  status = active;
  failure_mode = mode;
}

abbrev db_of : Option Text → Outbound → DeliveryDb
db_of mode row = record {
  outbound_ids = 1 ∷ [];
  outbound = λ id. if id == 1 then some row else none;
  connection = λ id. connection_with mode;
  external_thread_id = λ id. none;
  attempts = [];
  external_messages = [];
  failures = [];
  events = [];
  audit = [];
  queue = [];
}

abbrev job_id_0 : JobId
job_id_0 = record { outbound_message_id = 1; suffix = 0 }

abbrev job_0 : DeliveryJob
job_0 = record { name = "send-outbound-message"; id = job_id_0; outbound_message_id = 1 }

abbrev row_0 : Outbound
row_0 = row_in pending

abbrev db_0 : DeliveryDb
db_0 = db_of none row_0

-- A message that the provider takes is sent.
sends : HasRow (λ row. row.status ≡ sent) ((process env_0 (at_time 1000) job_0 db_0).0.outbound 1)
unfolding process send_outbound_message send_found run_attempt claim_delivery start_attempt
    attempt_send send_message settle commit_sent
sends = refl

backoff_delay_ms_mono_example :
    backoff_delay_ms (some (codes "500")) 1 ≤ backoff_delay_ms (some (codes "500")) 4
backoff_delay_ms_mono_example = backoff_delay_ms_mono (some (codes "500")) 1 4 (omega arith)

backoff_delay_ms_bounds_example :
    (120 ≤ backoff_delay_ms (some (codes "500")) 3)
    × (backoff_delay_ms (some (codes "500")) 3 ≤ 72000)
backoff_delay_ms_bounds_example = backoff_delay_ms_bounds (some (codes "500")) 3

claim_again_iff_expired_example :
    is_some (
      claim_delivery 2000 100
        (record { outbound_message_id = 1; suffix = 1 })
        row_0
        (claimed_db 1000 100 job_id_0 row_0 row_0 db_0))
    ≡ ltb (1000 + 100) 2000
unfolding claim_delivery
claim_again_iff_expired_example =
    claim_again_iff_expired 1000 100 2000 100 job_id_0
      (record { outbound_message_id = 1; suffix = 1 }) row_0 row_0 db_0
      (claimed_db 1000 100 job_id_0 row_0 row_0 db_0) row_0 refl refl refl refl

send_outbound_message-Leaves_example :
    Leaves
      (in_flight job_id_0 row_0 db_0)
      (claimed_row 1000 (delivery_lease_ms none) job_id_0 1 row_0)
      db_0
      (send_outbound_message env_0 (at_time 1000) job_0 db_0)
unfolding is_claimable
send_outbound_message-Leaves_example =
    send_outbound_message-Leaves env_0 (at_time 1000) job_0 db_0 row_0 refl refl refl refl refl refl

-- The provider times out.
abbrev db_1 : DeliveryDb
db_1 = db_of (some (codes "timeout")) row_0

row_0-IsWaiting : IsWaiting 1 db_1 row_0
row_0-IsWaiting = record { found = refl; same = refl; waits = refl; numbered = λ k h. refl }

abbrev db_2 : DeliveryDb
db_2 = (send_outbound_message env_0 (at_time 1000) job_0 db_1).0

abbrev db_3 : DeliveryDb
db_3 = (send_outbound_message env_0 (at_time 90000) job_0 db_2).0

two_runs : DueRuns env_0 1 2 db_1 db_3
unfolding send_outbound_message send_found run_attempt claim_delivery start_attempt attempt_send
    send_message settle settle_failure backoff_delay_ms parse_int_env text_eq classify_error
two_runs =
    run (at_time 1000) "send-outbound-message" job_id_0 refl
      (run (at_time 90000) "send-outbound-message" job_id_0 refl stop)

DueRuns-finish_example : IsDone 1 db_3
DueRuns-finish_example = DueRuns-finish row_0 row_0-IsWaiting two_runs (omega arith) (omega arith)

-- A message whose attempt the provider took, and one that bounced after that.
abbrev flight_0 : InFlight
flight_0 = in_flight job_id_0 row_0 db_0

abbrev sent_0 : ChannelSendResult
sent_0 = record {
  provider_message_id = codes "mock-out-abc";
  accepted_at = 1001;
  delivery_status = status_sent;
}

abbrev row_in_conversation : ℕ → ExternalMessage
row_in_conversation id = record {
  id = id;
  organization_id = 7;
  conversation_id = 2;
  channel_connection_id = 3;
  provider_message_id = codes "mock-out-abc";
  sent_at = 500;
}

abbrev bounced_db : DeliveryDb
bounced_db = record (db_of none (row_in failed)) { external_messages = row_in_conversation 0 ∷ [] }

resend_after_bounce-IsDead_example :
    IsDead 1 (send_outbound_message env_0 (at_time 1000) job_0 bounced_db)
unfolding attempt_send send_message text_eq
resend_after_bounce-IsDead_example =
    resend_after_bounce-IsDead env_0 (at_time 1000) job_0 bounced_db (row_in failed) sent_0 refl
      refl refl refl refl refl refl

cancelled_in_flight_revived_example :
    HasRow
      (λ after. after.status ≢ cancelled)
      ((settle env_0
          (at_time 1000)
          flight_0
          (accepted sent_0)
          (db_of none (row_in cancelled))).0.outbound
        1)
cancelled_in_flight_revived_example =
    cancelled_in_flight_revived env_0 (at_time 1000) flight_0 (db_of none (row_in cancelled))
      (row_in cancelled) (accepted sent_0) refl refl refl

abbrev callback_0 : DeliveryCallback
callback_0 = record {
  provider_message_id = codes "mock-out-abc";
  status = is_sent;
  occurred_at = 2000;
}

abbrev taken_row : Outbound
taken_row = record (row_in failed) { provider_message_id = some (codes "mock-out-abc") }

taken_keyed :
    (id : ℕ) (row : Outbound) → (db_of none taken_row).outbound id ≡ some row → row.id ≡ id
taken_keyed id row e = ground (arith, e)

abbrev taken_cancelled : DeliveryDb
taken_cancelled = commit_cancel 7 9 1000 taken_row (db_of none taken_row)

late_callback_revives_example :
    (cancel_outbound_message 7 1 9 1000 (db_of none taken_row) ≡ reply taken_cancelled)
    × HasRow
        (λ r. r.status ≡ sent)
        ((process_delivery_callback (connection_with none) callback_0 taken_cancelled).0.outbound 1)
    × (cancel_outbound_message 7 1 9 3000
          (process_delivery_callback (connection_with none) callback_0 taken_cancelled).0
        ≡ refuse (bad_request "Terminal outbound message cannot be cancelled"))
unfolding text_eq scan
late_callback_revives_example =
    late_callback_revives 7 9 1000 3000 (connection_with none) callback_0 taken_row
      (db_of none taken_row) taken_keyed refl refl refl refl (inl refl)

abbrev delivered_row : Outbound
delivered_row = record (row_in delivered) { provider_message_id = some (codes "mock-out-abc") }

keyed_0 :
    (id : ℕ) (row : Outbound) → (db_of none delivered_row).outbound id ≡ some row → row.id ≡ id
keyed_0 id row e = ground (arith, e)

abbrev bounce_0 : DeliveryCallback
bounce_0 = record callback_0 { status = is_bounced }

delivered_absorbs_callbacks_example :
    (process_callbacks
        ((connection_with none, callback_0) ∷ (connection_with none, bounce_0) ∷ [])
        (db_of none delivered_row)).outbound
      1
    ≡ some delivered_row
delivered_absorbs_callbacks_example =
    delivered_absorbs_callbacks
      ((connection_with none, callback_0) ∷ (connection_with none, bounce_0) ∷ [])
      (db_of none delivered_row) 1 delivered_row keyed_0 refl refl

cancel_outbound_message_lem_example :
    (row_0.organization_id ≡ 7)
      × (is_cancel_blocked pending ≡ false)
      × (cancel_outbound_message 7 1 9 1000 db_0 ≡ reply (commit_cancel 7 9 1000 row_0 db_0))
      × HasRow
          (λ r. (r.status ≡ cancelled) × (r.lease_owner ≡ none) × (r.lease_expires_at ≡ none))
          ((commit_cancel 7 9 1000 row_0 db_0).outbound 1)
      × ((send_outbound_message env_0 (at_time 1000) job_0 (commit_cancel 7 9 1000 row_0 db_0)).0
          ≡ commit_cancel 7 9 1000 row_0 db_0)
    ⊎ (row_0.organization_id ≡ 7)
      × (is_cancel_blocked pending ≡ true)
      × (cancel_outbound_message 7 1 9 1000 db_0
          ≡ refuse (bad_request "Terminal outbound message cannot be cancelled"))
    ⊎ (row_0.organization_id ≢ 7)
      × (cancel_outbound_message 7 1 9 1000 db_0 ≡ refuse (not_found "Outbound message not found"))
cancel_outbound_message_lem_example =
    cancel_outbound_message_lem 7 1 9 1000 db_0 row_0 env_0 (at_time 1000) job_0 refl refl refl

-- A worker claims a message and is not heard of again.
abbrev claimed_0 : DeliveryDb
claimed_0 = claimed_db 1000 (delivery_lease_ms none) job_id_0 row_0 row_0 db_0

is_candidate-is_claimable_example :
    (is_terminal pending ≡ false)
    × (is_claimable 1000 row_0 ≡ true)
    × ((is_waiting_status pending && is_future 1000 none) ≡ false)
unfolding is_candidate
is_candidate-is_claimable_example = is_candidate-is_claimable 1000 row_0 refl
