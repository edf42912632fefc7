-- ===== src/Support/Detectors.antt =====
-- apps/worker/src/guardrails/pii-detector.ts and secret-detector.ts.
use autonomous_csa.Base.{
  ℕ, Bool, ◌&&◌, ◌||◌, List, [], ◌∷◌, String, Text, codes, is_space, leb, ◌==◌, if◌then◌else◌,
}
use autonomous_csa.Support.Regex.{
  Regex, empty, boundary, one_of, many_of, seq, either, test, times, up_to, literal,
}

abbrev pub is_digit : ℕ → Bool
is_digit c = leb b'0' c && leb c b'9'

abbrev pub is_upper : ℕ → Bool
is_upper c = leb b'A' c && leb c b'Z'

abbrev pub is_lower : ℕ → Bool
is_lower c = leb b'a' c && leb c b'z'

-- `[a-zA-Z0-9]`.
abbrev pub is_alnum : ℕ → Bool
is_alnum c = is_lower c || is_upper c || is_digit c

-- `[0-9A-Z]`.
abbrev pub is_upper_alnum : ℕ → Bool
is_upper_alnum c = is_digit c || is_upper c

abbrev is_separator : ℕ → Bool
is_separator c = c == b'-' || c == b'.' || is_space c

abbrev is_dash_or_blank : ℕ → Bool
is_dash_or_blank c = c == 32 || c == b'-'

abbrev is_slack_kind : ℕ → Bool
is_slack_kind c = c == b'b' || c == b'a' || c == b'p' || c == b'r' || c == b's'

abbrev optional : Regex → Regex
optional r = either r empty

-- `PII_PATTERNS`: a social security number, a credit card, a passport.
unfoldable pub ssn : Regex
unfolding times is_space
ssn = seq boundary (
    seq (times 3 (one_of is_digit)) (
      seq (optional (one_of is_separator)) (
        seq (times 2 (one_of is_digit))
          (seq (optional (one_of is_separator)) (seq (times 4 (one_of is_digit)) boundary)))))

unfoldable pub credit_card : Regex
unfolding times up_to
credit_card =
    let digit = seq (one_of is_digit) (optional (one_of is_dash_or_blank)) in
    seq boundary (seq (times 13 digit) (seq (up_to 3 digit) boundary))

unfoldable pub passport_number : Regex
unfolding times up_to
passport_number = seq boundary (
    seq (one_of is_upper) (
      seq (optional (one_of is_upper))
        (seq (times 6 (one_of is_digit)) (seq (up_to 3 (one_of is_digit)) boundary))))

-- `SECRET_PATTERNS`.
unfoldable pub openai_key : Regex
unfolding literal times
openai_key = seq (literal (codes "sk-")) (seq (times 20 (one_of is_alnum)) (many_of is_alnum))

unfoldable pub aws_access_key : Regex
unfolding literal times
aws_access_key = seq (literal (codes "AKIA")) (times 16 (one_of is_upper_alnum))

unfoldable pub github_pat : Regex
unfolding literal times
github_pat = seq (literal (codes "ghp_")) (times 36 (one_of is_alnum))

unfoldable pub slack_token : Regex
unfolding literal times
slack_token = seq (literal (codes "xox")) (
    seq (one_of is_slack_kind)
      (seq (literal (codes "-")) (seq (times 10 (one_of is_alnum)) (many_of is_alnum))))

unfoldable pub private_key : Regex
unfolding literal
private_key = seq (literal (codes "-----BEGIN ")) (
    seq (optional (either (literal (codes "RSA ")) (literal (codes "EC "))))
      (literal (codes "PRIVATE KEY-----")))

-- The types of the patterns that match, in the order of the table.
abbrev pub detect : List (Regex × String) → Text → List String
detect [] text = []
detect ((pattern, type) ∷ rest) text =
    let types = detect rest text in if test pattern text then type ∷ types else types

unfoldable pub detect_pii : Text → List String
detect_pii text =
    detect ((ssn, "ssn") ∷ (credit_card, "credit_card") ∷ (passport_number, "passport_number") ∷ [])
      text

unfoldable pub detect_secrets : Text → List String
detect_secrets text =
    detect
      ((openai_key, "openai_key")
        ∷ (aws_access_key, "aws_access_key")
        ∷ (github_pat, "github_pat")
        ∷ (slack_token, "slack_token")
        ∷ (private_key, "private_key")
        ∷ [])
      text
