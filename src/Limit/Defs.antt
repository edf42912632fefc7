-- ===== src/Limit/Defs.antt =====
-- apps/api/src/rate-limit/rate-limit.service.ts. A request passes on the state `S` of the Redis server;
-- `now` is the clock of the server.
use autonomous_csa.Base.{
  ℕ, zero, suc, ◌-◌, Bool, true, false, not, ◌&&◌, ◌||◌, List, [], ◌∷◌, ◌++◌, map, filter, take,
  any, length, Option, or_else, Text, codes, starts_with, trim, split_on, leb, ◌==◌, ℤ, pos, negsuc,
  if◌then◌else◌,
}
use autonomous_csa.Http.{Response, refuse, reply, too_many_requests, service_unavailable, ◌>>=◌}

-- `INCR`, `PEXPIRE` and `PTTL`, each at an instant in milliseconds.
pub record RedisCommands (S : Type 0) : Type 0 where
  pub incr : Text → ℕ → S → S × ℕ
  pub pexpire : Text → ℕ → ℕ → S → S
  pub pttl : Text → ℕ → S → ℤ

module _ {S : Type 0} (redis : RedisCommands S) where
  -- `RATE_LIMIT_SCRIPT`, which the server runs as one command.
  unfoldable pub rate_limit_script : (key : Text) (window_ms now : ℕ) → S → S × ℕ × ℤ
  rate_limit_script key window_ms now s =
      let counted = redis.incr key now s in
      let s' = if counted.1 == 1 then redis.pexpire key window_ms now counted.0 else counted.0 in
      (s', counted.1, redis.pttl key now s')

pub data FailMode : Type 0 where
  fail_open fail_closed : FailMode

pub record LimitConfig : Type 0 where
  pub limit : ℕ
  pub window_ms : ℕ
  pub fail_mode : FailMode

pub record RateLimitResult : Type 0 where
  pub allowed : Bool
  pub remaining : ℕ
  pub reset_after_ms : ℕ
  pub degraded : Bool

-- What becomes of the call of the script: it is answered, it runs and its answer is lost, or it does not
-- run.
pub data Link : Type 0 where
  up lost down : Link

abbrev positive_or : ℕ → ℤ → ℕ
positive_or d (pos zero) = d
positive_or d (pos (suc n)) = suc n
positive_or d (negsuc n) = d

-- The answer of the script, read.
abbrev pub counted_result : LimitConfig → ℕ × ℤ → RateLimitResult
counted_result config (hits, ttl) = record {
  allowed = leb hits config.limit;
  remaining = config.limit - hits;
  reset_after_ms = positive_or config.window_ms ttl;
  degraded = false;
}

-- The `catch` of `consume`.
unfoldable pub unavailable : LimitConfig → Response RateLimitResult
unavailable config = elim config.fail_mode [
  | fail_open ↦ reply (record {
    allowed = true;
    remaining = config.limit;
    reset_after_ms = config.window_ms;
    degraded = true;
  })
  | fail_closed ↦ refuse (service_unavailable "Rate limiting is temporarily unavailable")
]

abbrev join_bars : List Text → Text
join_bars [] = []
join_bars (s ∷ []) = s
join_bars (s ∷ t ∷ ts) = s ++ b'|' ∷ join_bars (t ∷ ts)

-- `digest` is the hexadecimal SHA-256.
abbrev pub build_key : (Text → Text) → Text → List Text → Text
build_key digest namespace segments =
    codes "rate-limit:" ++ namespace ++ b':' ∷ digest (join_bars segments)

module _ {S : Type 0} (redis : RedisCommands S) where
  unfoldable pub consume :
      LimitConfig → Link → (key : Text) (now : ℕ) → S → S × Response RateLimitResult
  unfolding rate_limit_script unavailable
  consume config up key now s =
      let ran = rate_limit_script redis key config.window_ms now s in
      (ran.0, reply (counted_result config (ran.1, ran.2)))
  consume config lost key now s =
      ((rate_limit_script redis key config.window_ms now s).0, unavailable config)
  consume config down key now s = (s, unavailable config)

-- `assertLoginAllowed`, behind its key.
abbrev login_answer : RateLimitResult → Response (Unit {0})
login_answer result =
    if result.allowed
    then reply tt
    else refuse (too_many_requests "Too many login attempts. Please try again later.")

module _ {S : Type 0} (redis : RedisCommands S) (digest to_lower_case : Text → Text) where
  unfoldable pub assert_login_allowed :
      LimitConfig
      → Link
      → (email : Text) (ip_address : Option Text) (now : ℕ) → S
      → S × Response (Unit {0})
  unfolding consume trim
  assert_login_allowed config link email ip_address now s =
      let segments = to_lower_case (trim email) ∷ or_else ip_address (codes "unknown") ∷ [] in
      let consumed = consume redis config link (build_key digest (codes "auth") segments) now s in
      (consumed.0, consumed.1 >>= login_answer)

-- `shouldSkipGeneralLimit`.
unfoldable pub should_skip_general_limit : Text → Bool
unfolding starts_with
should_skip_general_limit path =
    any (starts_with path) (codes "/health" ∷ codes "/metrics" ∷ codes "/docs" ∷ codes "/auth" ∷ [])

-- `/^[0-9a-f-]{8,}$/i`.
abbrev is_id_unit : ℕ → Bool
is_id_unit c =
    (leb b'0' c && leb c b'9')
    || (leb b'a' c && leb c b'f')
    || (leb b'A' c && leb c b'F')
    || c == b'-'

abbrev looks_like_id : Text → Bool
looks_like_id s = leb 8 (length s) && not (any (λ c. not (is_id_unit c)) s)

abbrev has_text : Text → Bool
has_text [] = false
has_text (c ∷ s) = true

abbrev join_slashes : List Text → Text
join_slashes [] = []
join_slashes (s ∷ []) = s
join_slashes (s ∷ t ∷ ts) = s ++ b'/' ∷ join_slashes (t ∷ ts)

abbrev root_or_joined : List Text → Text
root_or_joined [] = codes "root"
root_or_joined (s ∷ ss) = join_slashes (s ∷ ss)

unfoldable pub to_route_bucket : (Text → Text) → Text → Text
unfolding split_on
to_route_bucket to_lower_case path = root_or_joined (
    map (λ s. if looks_like_id s then codes ":id" else to_lower_case s)
      (take 2 (filter has_text (split_on b'/' path))))

-- What `applyApiRateLimit` does with a request: it passes it on, with the headers of the limit if it
-- counted, answers that there are too many, or passes on an error.
pub data Applied : Type 0 where
  next : Applied
  next_limited : (limit : ℕ) → RateLimitResult → Applied
  too_many : (limit : ℕ) → RateLimitResult → Applied
  next_error : Applied

pub record ApiRequest : Type 0 where
  pub path : Text
  pub method : Text
  pub ip : Option Text
  pub organization_id : Option Text

abbrev pub applied_result : ℕ → Response RateLimitResult → Applied
applied_result limit (refuse error) = next_error
applied_result limit (reply result) =
    if result.allowed then next_limited limit result else too_many limit result

module _ {S : Type 0} (redis : RedisCommands S)
    (digest to_lower_case to_upper_case : Text → Text) where
  unfoldable pub apply_api_rate_limit :
      LimitConfig → Link → ApiRequest → (now : ℕ) → S → S × Applied
  unfolding consume should_skip_general_limit to_route_bucket
  apply_api_rate_limit config link request now s =
      let segments =
        to_route_bucket to_lower_case request.path
        ∷ to_upper_case request.method
        ∷ or_else request.ip (codes "unknown")
        ∷ or_else request.organization_id (codes "anonymous")
        ∷ [] in
      let consumed = consume redis config link (build_key digest (codes "api") segments) now s in
      if should_skip_general_limit request.path
      then (s, next)
      else (consumed.0, applied_result config.limit consumed.1)
