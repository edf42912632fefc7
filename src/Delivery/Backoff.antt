-- ===== src/Delivery/Backoff.antt =====
-- The settings and the retry delay of apps/worker/src/channels/channel-delivery.processor.ts.
use autonomous_csa.Base.{
  ℕ, ◌+◌, ◌-◌, ◌*◌, ◌/◌, ◌^◌, min, Bool, Option, none, some, if◌then◌else◌, ltb, Text, ℤ, pos,
  negsuc, at_least, parse_int, trim, or_else, [],
}

-- `Number.isFinite` of a whole number that is read as a double: from here on it is rounded to infinity.
abbrev pub is_finite : ℤ → Bool
is_finite (pos n) = ltb n (2 ^ 1024 - 2 ^ 970)
is_finite (negsuc n) = ltb (n + 1) (2 ^ 1024 - 2 ^ 970)

abbrev pub finite_or : ℕ → Option ℤ → ℤ
finite_or fallback none = pos fallback
finite_or fallback (some n) = if is_finite n then n else pos fallback

-- `parseIntEnv(name, fallback)`, over the variable's text.
unfoldable pub parse_int_env : Option Text → ℕ → ℤ
unfolding parse_int trim
parse_int_env value fallback = finite_or fallback (parse_int (trim (or_else value [])))

-- `Math.floor(capped * 0.2)` is `capped / 5` for each whole number up to 60,000.
unfoldable pub backoff_delay_ms : Option Text → ℕ → ℕ
backoff_delay_ms retry_base_delay_ms attempt =
    let base = at_least 100 (parse_int_env retry_base_delay_ms 1000) in
    let capped = min (base * 2 ^ (attempt - 1)) 60000 in let jitter = capped / 5 in capped + jitter

-- `Math.max(parseIntEnv('CHANNEL_DELIVERY_LEASE_MS', 120_000), 10_000)`.
unfoldable pub delivery_lease_ms : Option Text → ℕ
delivery_lease_ms value = at_least 10000 (parse_int_env value 120000)
