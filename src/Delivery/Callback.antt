-- ===== src/Delivery/Callback.antt =====
-- `processDeliveryCallback` of apps/api/src/channels/channels.service.ts: what the provider reports
-- of a message that it accepted. The update of the webhook's receipt is left out, as is its row.
use autonomous_csa.Base.{
  ℕ, Bool, true, false, ◌&&◌, ◌||◌, Option, none, some, Text, codes, ◌==◌, text_eq, ◌++◌,
  find_first, if◌then◌else◌,
}
use autonomous_csa.Db.{channel_message_delivered, channel_message_failed, channel_message_sent}
use autonomous_csa.Delivery.Defs.{
  OutboundMessageStatus, sent, delivered, failed, Outbound, ChannelConnection, DeliveryDb,
  log_event, scan,
}
use autonomous_csa.Delivery.Settle.{update_outbound}

pub data CallbackStatus : Type 0 where
  is_accepted is_sent is_delivered is_bounced is_rejected is_failed : CallbackStatus

pub record DeliveryCallback : Type 0 where
  pub provider_message_id : Text
  pub status : CallbackStatus
  pub occurred_at : ℕ

pub data CallbackResponse : Type 0 where
  unknown_provider_message : CallbackResponse
  terminal_or_duplicate_callback : ℕ → OutboundMessageStatus → CallbackResponse
  updated : ℕ → OutboundMessageStatus → CallbackResponse

abbrev pub reports_delivery : CallbackStatus → Bool
reports_delivery is_delivered = true
reports_delivery _ = false

abbrev pub reports_failure : CallbackStatus → Bool
reports_failure is_bounced = true
reports_failure is_rejected = true
reports_failure is_failed = true
reports_failure _ = false

-- The status, and in capitals, as the code of the error.
abbrev pub callback_text : CallbackStatus → Text
callback_text is_accepted = codes "accepted"
callback_text is_sent = codes "sent"
callback_text is_delivered = codes "delivered"
callback_text is_bounced = codes "bounced"
callback_text is_rejected = codes "rejected"
callback_text is_failed = codes "failed"

abbrev pub callback_code : CallbackStatus → Text
callback_code is_accepted = codes "ACCEPTED"
callback_code is_sent = codes "SENT"
callback_code is_delivered = codes "DELIVERED"
callback_code is_bounced = codes "BOUNCED"
callback_code is_rejected = codes "REJECTED"
callback_code is_failed = codes "FAILED"

abbrev pub callback_next_status : CallbackStatus → OutboundMessageStatus
callback_next_status status =
    if reports_delivery status then delivered else if reports_failure status then failed else sent

abbrev pub callback_row : DeliveryCallback → Outbound → Outbound → Outbound
callback_row callback outbound row = record row {
  status = callback_next_status callback.status;
  delivered_at =
      if reports_delivery callback.status then some callback.occurred_at else outbound.delivered_at;
  failed_at =
      if reports_failure callback.status then some callback.occurred_at else outbound.failed_at;
  last_error_code =
      if reports_failure callback.status then some (callback_code callback.status) else none;
  last_error_redacted =
      if reports_failure callback.status
      then some (codes "Provider callback: " ++ callback_text callback.status)
      else none;
}

abbrev is_delivered_status : OutboundMessageStatus → Bool
is_delivered_status delivered = true
is_delivered_status _ = false

abbrev is_sent_status : OutboundMessageStatus → Bool
is_sent_status sent = true
is_sent_status _ = false

-- A callback for a delivered message, or a second one for a message that stays sent.
abbrev pub is_stale : OutboundMessageStatus → CallbackStatus → Bool
is_stale current status =
    is_delivered_status current
    || (is_sent_status current && is_sent_status (callback_next_status status))

abbrev pub text_is : Option Text → Text → Bool
text_is none t = false
text_is (some s) t = text_eq s t

abbrev pub has_provider_id : ℕ → Text → Outbound → Bool
has_provider_id connection_id provider_message_id row =
    row.channel_connection_id == connection_id
    && text_is row.provider_message_id provider_message_id

-- The branch of a message that was found.
unfoldable pub apply_callback :
    ChannelConnection → DeliveryCallback → Outbound → DeliveryDb → DeliveryDb × CallbackResponse
apply_callback connection callback outbound db =
    if is_stale outbound.status callback.status
    then (db, terminal_or_duplicate_callback outbound.id outbound.status)
    else (
      log_event connection.organization_id outbound.ticket_id
          (if reports_delivery callback.status
            then channel_message_delivered
            else if reports_failure callback.status
            then channel_message_failed
            else channel_message_sent)
          (record db {
            outbound = update_outbound outbound.id (callback_row callback outbound) db.outbound;
          }),
      updated outbound.id (callback_next_status callback.status),
    )

unfoldable pub process_delivery_callback :
    ChannelConnection → DeliveryCallback → DeliveryDb → DeliveryDb × CallbackResponse
process_delivery_callback connection callback db =
    elim (find_first (has_provider_id connection.id callback.provider_message_id)
      (scan db.outbound_ids db.outbound)) [
        | none ↦ (db, unknown_provider_message)
        | some outbound ↦ apply_callback connection callback outbound db
      ]
