-- ===== src/Inbound/Sanitizer.antt =====
-- `truncateText` and `sanitizeSubject` of apps/api/src/channels/channel-sanitizer.ts.
use autonomous_csa.Base.{ℕ, Option, none, some, Text, codes, trim, take, filter, not, ◌==◌, or_else}
use autonomous_csa.Inbound.Defs.{truthy}

-- `slice(0, max)` of a shorter text is the text.
unfoldable pub truncate_text : ℕ → Option Text → Option Text
unfolding trim
truncate_text max value = elim (truthy value) [
  | none ↦ none
  | some text ↦ some (take max (trim (filter (λ c. not (c == 0)) text)))
]

-- `max` is CHANNEL_MAX_SUBJECT_LENGTH.
unfoldable pub sanitize_subject : ℕ → Text → Text
unfolding truncate_text
sanitize_subject max value = or_else (truncate_text max (some value)) (codes "(no subject)")
