-- ===== src/Delivery/Claim.antt =====
-- apps/worker/src/channels/channel-delivery.processor.ts, the first half of a job: the claim of a
-- message by a conditional update, and the row of its attempt.
use autonomous_csa.Base.{
  ℕ, ◌+◌, Bool, true, false, ◌&&◌, ◌||◌, not, ◌∷◌, Option, none, some, Text, ltb, ◌==◌, any,
  if◌then◌else◌,
}
use autonomous_csa.Db.{channel_delivery_attempt_started}
use autonomous_csa.Delivery.Defs.{
  OutboundMessageStatus, pending, processing, sent, delivered, retry_scheduled, failed, dead_letter,
  cancelled, unknown, IdempotencyKey, JobId, Outbound, ChannelConnection, DeliveryAttempt,
  DeliveryDb, put_outbound, log_event,
}

-- What the job takes from outside src: the HMAC, `toLowerCase`, the message of Prisma's unique
-- constraint error, and two variables of the environment.
pub record WorkerEnv : Type 0 where
  pub hmac_hex : IdempotencyKey → Text
  pub to_lower_case : Text → Text
  pub unique_message : Text
  pub retry_base_delay_ms : Option Text
  pub lease_ms : Option Text

-- The readings of the clock in one run, in the order of the code: `now`, the provider's
-- `acceptedAt`, the completion of the attempt, and the two of a retry.
pub record Instants : Type 0 where
  pub now : ℕ
  pub accepted_at : ℕ
  pub completed_at : ℕ
  pub retry_from : ℕ
  pub enqueued_at : ℕ

-- A claimed message: the rows as the job read them, and the number of its attempt.
pub record InFlight : Type 0 where
  pub job : JobId
  pub outbound : Outbound
  pub connection : ChannelConnection
  pub attempt_number : ℕ

-- `TERMINAL_STATUSES`.
abbrev pub is_terminal : OutboundMessageStatus → Bool
is_terminal sent = true
is_terminal delivered = true
is_terminal cancelled = true
is_terminal dead_letter = true
is_terminal _ = false

abbrev pub is_claimable_status : OutboundMessageStatus → Bool
is_claimable_status pending = true
is_claimable_status retry_scheduled = true
is_claimable_status failed = true
is_claimable_status processing = true
is_claimable_status _ = false

abbrev pub is_processing : OutboundMessageStatus → Bool
is_processing processing = true
is_processing _ = false

-- `leaseExpiresAt` is null or before `now`.
abbrev pub is_lease_over : ℕ → Option ℕ → Bool
is_lease_over now none = true
is_lease_over now (some t) = ltb t now

-- The condition of the claiming `updateMany`.
unfoldable pub is_claimable : ℕ → Outbound → Bool
is_claimable now row =
    is_claimable_status row.status
    && (is_lease_over now row.lease_expires_at || not (is_processing row.status))

abbrev pub claimed_row : ℕ → ℕ → JobId → ℕ → Outbound → Outbound
claimed_row now lease_ms job attempt_number row = record row {
  status = processing;
  processing_started_at = some now;
  lease_owner = some job;
  lease_expires_at = some (now + lease_ms);
  attempt_count = attempt_number;
}

-- The data of the claim, written to a row as it is now.
abbrev pub claimed_db : ℕ → ℕ → JobId → Outbound → Outbound → DeliveryDb → DeliveryDb
claimed_db now lease_ms job outbound row db = record db {
  outbound =
      put_outbound (claimed_row now lease_ms job (outbound.attempt_count + 1) row) db.outbound;
}

-- The claim, on the row as it is now; `none` if the count of updated rows is not 1.
unfoldable pub claim_delivery : ℕ → ℕ → JobId → Outbound → DeliveryDb → Option DeliveryDb
unfolding is_claimable
claim_delivery now lease_ms job outbound db = elim (db.outbound outbound.id) [
  | none ↦ none
  | some row ↦
      if is_claimable now row then some (claimed_db now lease_ms job outbound row db) else none
]

abbrev pub is_attempt : ℕ → ℕ → DeliveryAttempt → Bool
is_attempt id number a = a.outbound_message_id == id && a.attempt_number == number

-- The row of a new attempt, and its event.
abbrev pub recorded_db : InFlight → DeliveryDb → DeliveryDb
recorded_db w db =
    log_event w.outbound.organization_id w.outbound.ticket_id channel_delivery_attempt_started
      (record db {
        attempts =
            record {
              organization_id = w.outbound.organization_id;
              outbound_message_id = w.outbound.id;
              attempt_number = w.attempt_number;
              outcome = unknown;
              completed_at = none;
              provider_status_code = none;
              provider_error_code = none;
              retryable = false;
              error_redacted = none;
            }
            ∷ db.attempts;
      })

-- `deliveryAttempt.create` under the unique pair of message and number; `none` is its violation.
unfoldable pub start_attempt : InFlight → DeliveryDb → Option DeliveryDb
start_attempt w db =
    if any (is_attempt w.outbound.id w.attempt_number) db.attempts
    then none
    else some (recorded_db w db)
