-- ===== src/Support/Classifier.antt =====
-- apps/worker/src/queue/retry-classifier.ts: what is done with the error that ended an attempt,
-- read off the words of the error. The error comes as `serializeError` returns it.
use autonomous_csa.Base.{
  ℕ, ◌+◌, String, Bool, true, false, ◌&&◌, ◌||◌, List, [], ◌∷◌, ◌++◌, Text, codes, includes, leb,
  ◌==◌, if◌then◌else◌,
}

pub record SerializedError : Type 0 where
  pub error_code : Text
  pub error_name : Text
  pub message : Text

pub data RetryDisposition : Type 0 where
  retryable non_retryable blocked configuration_error : RetryDisposition

pub data MetricOutcome : Type 0 where
  blocked configuration_error provider_error rate_limited : MetricOutcome
  timeout unknown validation_error : MetricOutcome

pub record RetryClassification : Type 0 where
  pub disposition : RetryDisposition
  pub metric_outcome : MetricOutcome
  pub retryable : Bool
  pub should_dead_letter : Bool
  pub use_unrecoverable_error : Bool
  pub serialized : SerializedError

unfoldable pub includes_any : Text → List String → Bool
unfolding includes
includes_any message [] = false
includes_any message (pattern ∷ patterns) =
    includes message (codes pattern) || includes_any message patterns

-- `toLowerCase` of a code unit. Of the code units beyond ASCII, the two that become an ASCII letter
-- are written out, and the others stay as they are, which no ASCII pattern can tell.
abbrev pub lower_code : ℕ → Text
lower_code c =
    if leb b'A' c && leb c b'Z'
    then (c + 32) ∷ []
    else if c == 8490
    then b'k' ∷ []
    else if c == 304
    then b'i' ∷ 775 ∷ []
    else c ∷ []

unfoldable pub to_lower_case : Text → Text
to_lower_case [] = []
to_lower_case (c ∷ s) = lower_code c ++ to_lower_case s

unfoldable pub get_haystack : SerializedError → Text
unfolding to_lower_case
get_haystack error =
    to_lower_case
      (error.error_code ++ (codes " " ++ (error.error_name ++ (codes " " ++ error.message))))

abbrev pub blocked_patterns : List String
blocked_patterns =
    "guardrail block" ∷ "guardrail_block" ∷ "critic block" ∷ "critic_block" ∷ "policy rejection"
    ∷ "policy_rejection" ∷ []

abbrev pub configuration_patterns : List String
configuration_patterns =
    "configuration_error" ∷ "invalid ai_provider" ∷ "invalid provider configuration"
    ∷ "invalid llm_pricing_json" ∷ "invalid_api_key" ∷ "invalid api key" ∷ "incorrect api key"
    ∷ "unauthorized" ∷ "authentication failed" ∷ "missing production secret" ∷ "missing ai_api_key"
    ∷ "malformed required env" ∷ "unsupported provider" ∷ []

abbrev pub validation_patterns : List String
validation_patterns =
    "badrequest" ∷ "validation" ∷ "schema" ∷ "missing ticket" ∷ "ticket not found"
    ∷ "tenant mismatch" ∷ "invalid organization" ∷ "malformed persisted data"
    ∷ "unsupported payload" ∷ "notfound" ∷ "conflict" ∷ []

abbrev pub rate_limit_patterns : List String
rate_limit_patterns = "429" ∷ "rate limit" ∷ "too many requests" ∷ []

abbrev pub timeout_patterns : List String
timeout_patterns =
    "timeout" ∷ "timed out" ∷ "econnreset" ∷ "econnrefused" ∷ "enotfound" ∷ "socket hang up"
    ∷ "temporary network failure" ∷ "temporary provider outage" ∷ "postgres" ∷ "redis" ∷ "502"
    ∷ "503" ∷ "504" ∷ []

abbrev pub provider_patterns : List String
provider_patterns = "openai api error" ∷ "anthropic api error" ∷ []

abbrev classification :
    SerializedError → RetryDisposition → MetricOutcome → Bool → Bool → Bool → RetryClassification
classification serialized disposition outcome again dead_letter unrecoverable = record {
  disposition = disposition;
  metric_outcome = outcome;
  retryable = again;
  should_dead_letter = dead_letter;
  use_unrecoverable_error = unrecoverable;
  serialized = serialized;
}

-- The chain of the tests, on their outcomes.
unfoldable pub classification_of :
    SerializedError → Bool → Bool → Bool → Bool → Bool → Bool → RetryClassification
classification_of error blocking configuration validation rate_limit transient provider =
    if blocking
    then classification error RetryDisposition.blocked MetricOutcome.blocked false false false
    else if configuration
    then classification error RetryDisposition.configuration_error MetricOutcome.configuration_error
        false true true
    else if validation
    then classification error RetryDisposition.non_retryable MetricOutcome.validation_error false
        true true
    else if rate_limit
    then classification error RetryDisposition.retryable MetricOutcome.rate_limited true true false
    else if transient
    then classification error RetryDisposition.retryable MetricOutcome.timeout true true false
    else if provider
    then classification error RetryDisposition.retryable MetricOutcome.provider_error true true
        false
    else classification error RetryDisposition.retryable MetricOutcome.unknown true true false

unfoldable pub classify_retryable_error : SerializedError → RetryClassification
unfolding includes_any get_haystack classification_of
classify_retryable_error error =
    let haystack = get_haystack error in
    classification_of error (includes_any haystack blocked_patterns)
      (includes_any haystack configuration_patterns) (includes_any haystack validation_patterns)
      (includes_any haystack rate_limit_patterns) (includes_any haystack timeout_patterns)
      (includes_any haystack provider_patterns)
