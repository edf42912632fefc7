-- ===== src/Delivery/Control.antt =====
-- The API's side of outbound messages, in apps/api/src/channels/channels.service.ts: replay, cancel,
-- the callbacks of the provider, and the job for the worker. Metrics are left out.
use autonomous_csa.Base.{
  ℕ, Bool, true, false, [], ◌∷◌, Option, none, some, String, Text, codes, ◌==◌, trim, take, or_else,
  ◌++◌, if◌then◌else◌,
}
use autonomous_csa.Http.{Response, refuse, reply, bad_request, not_found, ◌>>=◌, refuse_if}
use autonomous_csa.Db.{channel_message_replayed, channel_outbound_cancelled}
use autonomous_csa.Delivery.Defs.{
  OutboundMessageStatus, pending, sent, delivered, dead_letter, cancelled, Outbound, DeliveryDb,
  put_outbound, log_event,
}
use autonomous_csa.Delivery.Settle.{update_outbound}

-- `REPLAY_BLOCKED_STATUSES`.
abbrev pub is_replay_blocked : OutboundMessageStatus → Bool
is_replay_blocked sent = true
is_replay_blocked delivered = true
is_replay_blocked cancelled = true
is_replay_blocked _ = false

-- `CANCEL_BLOCKED_STATUSES`.
abbrev pub is_cancel_blocked : OutboundMessageStatus → Bool
is_cancel_blocked sent = true
is_cancel_blocked delivered = true
is_cancel_blocked dead_letter = true
is_cancel_blocked _ = false

remove_nul : Text → Text
remove_nul [] = []
remove_nul (c ∷ s) = let rest = remove_nul s in if c == 0 then rest else c ∷ rest

-- `truncateText`; null where the text is empty. A slice of a short text is the text.
unfoldable pub truncate_text : Text → ℕ → Option Text
unfolding remove_nul trim
truncate_text [] max = none
truncate_text (c ∷ s) max = some (take max (trim (remove_nul (c ∷ s))))

-- `redactedMessage`, of the error's message.
unfoldable pub redacted_message : Text → Text
unfolding truncate_text
redacted_message message = or_else (truncate_text message 500) (codes "Unknown channel error")

-- `getOutboundMessage`, without the list of attempts that it returns too.
unfoldable pub get_outbound_message : ℕ → ℕ → DeliveryDb → Response Outbound
get_outbound_message org_id id db = elim (db.outbound id) [
  | none ↦ refuse (not_found "Outbound message not found")
  | some row ↦
      if row.organization_id == org_id
      then reply row
      else refuse (not_found "Outbound message not found")
]

-- `enqueueDelivery`. The queue answers with an error message where the call fails or takes longer
-- than its timeout.
unfoldable pub enqueue_delivery : Option Text → ℕ → DeliveryDb → DeliveryDb
enqueue_delivery queue_error id db = elim (db.outbound id) [
  | none ↦ db
  | some row ↦ elim queue_error [
    | none ↦ record db {
      queue =
          record {
            job_id = record { outbound_message_id = id; suffix = row.attempt_count };
            outbound_message_id = id;
            delay = 0;
          }
          ∷ db.queue;
    }
    | some message ↦ record db {
      outbound =
          put_outbound
            (record row {
              last_error_code = some (codes "QUEUE_ENQUEUE_FAILED");
              last_error_redacted = some (redacted_message message);
            })
            db.outbound;
    }
  ]
]

-- The row that `createOutboundForApprovedDraft` creates. Its upsert leaves a row that is there.
abbrev pub create_outbound : Outbound → DeliveryDb → DeliveryDb
create_outbound row db = record db {
  outbound_ids = db.outbound_ids ++ row.id ∷ [];
  outbound = put_outbound row db.outbound;
}

abbrev audit_event : ℕ → ℕ → String → ℕ → DeliveryDb → DeliveryDb
audit_event org_id actor_user_id action target_id db = record db {
  audit =
      record {
        organization_id = org_id;
        actor_user_id = actor_user_id;
        action = action;
        target_id = target_id;
      }
      ∷ db.audit;
}

abbrev pub replayed_row : ℕ → Outbound → Outbound
replayed_row now row = record row {
  status = pending;
  next_attempt_at = some now;
  lease_owner = none;
  lease_expires_at = none;
  last_error_code = none;
  last_error_redacted = none;
}

-- The transaction of `replayOutboundMessage`, on the rows as they are when it runs.
unfoldable pub commit_replay : ℕ → ℕ → ℕ → Outbound → DeliveryDb → DeliveryDb
commit_replay org_id actor_user_id now outbound db =
    audit_event org_id actor_user_id "outbound_message.replayed" outbound.id (
      log_event org_id outbound.ticket_id channel_message_replayed
        (record db { outbound = update_outbound outbound.id (replayed_row now) db.outbound }))

unfoldable pub replay_outbound_message :
    ℕ → ℕ → ℕ → ℕ → Option Text → DeliveryDb → Response (DeliveryDb × Outbound)
unfolding get_outbound_message enqueue_delivery
replay_outbound_message org_id id actor_user_id now queue_error db =
    get_outbound_message org_id id db >>= λ outbound.
    refuse_if (is_replay_blocked outbound.status)
      (bad_request "Terminal outbound message cannot be replayed")
      (let queued =
          enqueue_delivery queue_error outbound.id
            (commit_replay org_id actor_user_id now outbound db) in
        get_outbound_message org_id outbound.id queued >>= λ row. reply (queued, row))

abbrev pub cancelled_row : ℕ → Outbound → Outbound
cancelled_row now row = record row {
  status = cancelled;
  failed_at = some now;
  lease_owner = none;
  lease_expires_at = none;
}

-- The transaction of `cancelOutboundMessage`.
unfoldable pub commit_cancel : ℕ → ℕ → ℕ → Outbound → DeliveryDb → DeliveryDb
commit_cancel org_id actor_user_id now outbound db =
    audit_event org_id actor_user_id "outbound_message.cancelled" outbound.id (
      log_event org_id outbound.ticket_id channel_outbound_cancelled
        (record db { outbound = update_outbound outbound.id (cancelled_row now) db.outbound }))

unfoldable pub cancel_outbound_message : ℕ → ℕ → ℕ → ℕ → DeliveryDb → Response DeliveryDb
unfolding get_outbound_message
cancel_outbound_message org_id id actor_user_id now db =
    get_outbound_message org_id id db >>= λ outbound.
    refuse_if (is_cancel_blocked outbound.status)
      (bad_request "Terminal outbound message cannot be cancelled")
      (reply (commit_cancel org_id actor_user_id now outbound db))
