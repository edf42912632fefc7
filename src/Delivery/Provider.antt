-- ===== src/Delivery/Provider.antt =====
-- apps/worker/src/channels/mock-email.provider.ts: the provider that sends, or fails as its
-- connection's `failureMode` says, and the reading of whatever it throws. The HMAC of
-- `node:crypto` and `toLowerCase` are arguments.
use autonomous_csa.Base.{
  ℕ, Bool, true, false, ◌||◌, Option, none, some, ◌++◌, String, Text, codes, text_eq, trim, take,
  or_else, if◌then◌else◌,
}
use autonomous_csa.Delivery.Defs.{IdempotencyKey}

pub data ErrorCategory : Type 0 where
  authentication rate_limit provider_unavailable timeout invalid_recipient : ErrorCategory
  invalid_content connection_disabled configuration_error malformed_response : ErrorCategory
  unknown_error : ErrorCategory

abbrev pub category_code : ErrorCategory → Text
category_code authentication = codes "AUTHENTICATION"
category_code rate_limit = codes "RATE_LIMIT"
category_code provider_unavailable = codes "PROVIDER_UNAVAILABLE"
category_code timeout = codes "TIMEOUT"
category_code invalid_recipient = codes "INVALID_RECIPIENT"
category_code invalid_content = codes "INVALID_CONTENT"
category_code connection_disabled = codes "CONNECTION_DISABLED"
category_code configuration_error = codes "CONFIGURATION_ERROR"
category_code malformed_response = codes "MALFORMED_RESPONSE"
category_code unknown_error = codes "UNKNOWN"

-- The properties that `classifyError` looks for on a thrown value.
pub record ThrownError : Type 0 where
  pub category : Option ErrorCategory
  pub retryable : Option Bool
  pub message : Option Text
  pub provider_status_code : Option ℕ
  pub provider_error_code : Option Text

pub record ChannelDeliveryError : Type 0 where
  pub category : ErrorCategory
  pub retryable : Bool
  pub message : Text
  pub provider_status_code : Option ℕ
  pub provider_error_code : Option Text

pub data DeliveryStatus : Type 0 where
  status_sent status_delivered status_accepted : DeliveryStatus

pub record ChannelSendResult : Type 0 where
  pub provider_message_id : Text
  pub accepted_at : ℕ
  pub delivery_status : DeliveryStatus

pub data SendOutcome : Type 0 where
  accepted : ChannelSendResult → SendOutcome
  threw : ThrownError → SendOutcome

-- `Object.assign(new Error(message), { category, retryable })`, with a status code if one is set.
abbrev pub thrown : Text → ErrorCategory → Bool → Option ℕ → SendOutcome
thrown message category retryable status_code = threw (record {
  category = some category;
  retryable = some retryable;
  message = some message;
  provider_status_code = status_code;
  provider_error_code = none;
})

module _ (hmac_hex : IdempotencyKey → Text) (to_lower_case : Text → Text) where
  -- `mode === text`, where `mode` is undefined for a connection that sets none.
  mode_is : Option Text → String → Bool
  mode_is none text = false
  mode_is (some m) text = text_eq (to_lower_case (trim m)) (codes text)

  unfoldable pub send_message : Option Text → IdempotencyKey → ℕ → SendOutcome
  unfolding mode_is
  send_message mode key now =
      if mode_is mode "timeout"
      then thrown (codes "Mock provider timeout") timeout true none
      else if mode_is mode "retryable" || (mode_is mode "429" || mode_is mode "503")
      then thrown (codes "Mock provider temporary failure")
          (if mode_is mode "429" then rate_limit else provider_unavailable) true
          (some (if mode_is mode "429" then 429 else 503))
      else if mode_is mode "permanent" || mode_is mode "invalid_recipient"
      then thrown (codes "Mock provider permanent failure") invalid_recipient false (some 400)
      else if mode_is mode "malformed"
      then thrown (codes "Mock provider malformed response") malformed_response false none
      else accepted (record {
        provider_message_id = codes "mock-out-" ++ take 24 (hmac_hex key);
        accepted_at = now;
        delivery_status = if mode_is mode "delivered" then status_delivered else status_sent;
      })

unfoldable pub classify_error : ThrownError → ChannelDeliveryError
classify_error error = record {
  category = or_else error.category unknown_error;
  retryable = or_else error.retryable false;
  message = take 500 (or_else error.message (codes "Unknown provider error"));
  provider_status_code = error.provider_status_code;
  provider_error_code = error.provider_error_code;
}
