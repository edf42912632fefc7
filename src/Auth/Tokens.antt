-- ===== src/Auth/Tokens.antt =====
-- apps/api/src/auth/token.service.ts: signed tokens. Buffer, JSON and the crypto module are parameters.
use autonomous_csa.Base.{
  ℕ, ◌+◌, ◌-◌, ◌%◌, Bool, false, ◌&&◌, List, [], ◌∷◌, ◌++◌, map, length, Option, none, some, Text,
  codes, text_eq, split_on, leb, ◌==◌, if◌then◌else◌, is_some, zero, suc, All, ◌<◌,
}

-- What `JSON.parse` yields, by the type of each field: `none` where a field is absent or of another
-- type. Numbers are natural.
pub record Claims : Type 0 where
  pub sub : Option Text
  pub email : Option Text
  pub sid : Option Text
  pub typ : Option Text
  pub iat : Option ℕ
  pub exp : Option ℕ

pub record TokenHeader : Type 0 where
  pub alg : Option Text
  pub typ : Option Text

-- The numbers are bytes.
abbrev pub IsBytes : List ℕ → Type 0
IsBytes bytes = All (λ b. b < 256) bytes

-- A buffer is the list of its bytes (`IsBytes` is what theorems ask of it), and a text that is encoded
-- the list of its units.
pub record Codec : Type 0 where
  pub utf8_encode : Text → List ℕ
  pub utf8_decode : List ℕ → Text
  pub base64_encode : List ℕ → Text
  pub base64_decode : Text → List ℕ
  pub stringify_header : TokenHeader → Text
  pub parse_header : Text → Option TokenHeader
  pub stringify_claims : Claims → Text
  pub parse_claims : Text → Option Claims
  pub hmac_sha256 : Text → Text → List ℕ

pub data TokenError : Type 0 where
  malformed_token unsupported_algorithm invalid_signature : TokenError
  invalid_token_payload token_expired not_json : TokenError
  invalid_access_payload invalid_refresh_payload : TokenError

pub data Verified {ℓ} (A : Type ℓ) : Type ℓ where
  fails : TokenError → Verified A
  holds : A → Verified A

infixl 5 ◌>>=◌
abbrev pub ◌>>=◌ {κ ℓ} : {B : Type κ} {A : Type ℓ} → Verified A → (A → Verified B) → Verified B
fails e >>= rest = fails e
holds a >>= rest = rest a

-- `.replace(/\+/g, '-').replace(/\//g, '_')`, and back.
abbrev pub to_url : ℕ → ℕ
to_url c = let d = if c == b'+' then b'-' else c in if d == b'/' then b'_' else d

abbrev pub of_url : ℕ → ℕ
of_url c = let d = if c == b'-' then b'+' else c in if d == b'_' then b'/' else d

abbrev pub cons_unpadded : ℕ → Text → Text
cons_unpadded c [] = if c == b'=' then [] else c ∷ []
cons_unpadded c (d ∷ s) = c ∷ d ∷ s

-- `.replace(/=+$/g, '')`.
unfoldable pub unpadded : Text → Text
unpadded [] = []
unpadded (c ∷ s) = cons_unpadded c (unpadded s)

-- `'='.repeat(n)`.
abbrev pub equal_signs : ℕ → Text
equal_signs zero = []
equal_signs (suc n) = b'=' ∷ equal_signs n

abbrev pub padded : Text → Text
padded s = let padding = length s % 4 in if padding == 0 then s else s ++ equal_signs (4 - padding)

unfoldable pub base64_url_encode : Codec → List ℕ → Text
unfolding unpadded
base64_url_encode codec bytes = unpadded (map to_url (codec.base64_encode bytes))

unfoldable pub base64_url_decode : Codec → Text → Text
base64_url_decode codec value = codec.utf8_decode (codec.base64_decode (padded (map of_url value)))

abbrev pub jwt_header : TokenHeader
jwt_header = record { alg = some (codes "HS256"); typ = some (codes "JWT") }

abbrev pub dotted : Text → Text → Text
dotted a b = a ++ b'.' ∷ b

-- The token of a payload that has its times.
unfoldable pub signed : Codec → Text → Claims → Text
unfolding base64_url_encode
signed codec secret claims =
    let header = base64_url_encode codec (codec.utf8_encode (codec.stringify_header jwt_header)) in
    let payload = base64_url_encode codec (codec.utf8_encode (codec.stringify_claims claims)) in
    dotted (dotted header payload)
      (base64_url_encode codec (codec.hmac_sha256 secret (dotted header payload)))

abbrev pub issued : Claims → ℕ → ℕ → Claims
issued claims now ttl_seconds = record claims { iat = some now; exp = some (now + ttl_seconds) }

unfoldable pub sign_token : Codec → Claims → Text → ℕ → ℕ → Text
unfolding signed
sign_token codec claims secret ttl_seconds now = signed codec secret (issued claims now ttl_seconds)

abbrev pub text_is : Option Text → Text → Bool
text_is none t = false
text_is (some s) t = text_eq s t

-- The checks of the payload's fields and of its end.
unfoldable pub check_claims : ℕ → Claims → Verified Claims
check_claims now claims = elim claims.exp [
  | none ↦ fails invalid_token_payload
  | some exp ↦
      if is_some claims.sub && is_some claims.iat && is_some claims.typ
      then if leb exp now then fails token_expired else holds claims
      else fails invalid_token_payload
]

abbrev pub parsed {ℓ} : {A : Type ℓ} → Option A → Verified A
parsed none = fails not_json
parsed (some a) = holds a

abbrev pub is_supported : TokenHeader → Bool
is_supported header = text_is header.alg (codes "HS256") && text_is header.typ (codes "JWT")

unfoldable pub has_signature : Codec → Text → Text → Text → Text → Bool
has_signature codec secret header payload signature =
    let expected = codec.hmac_sha256 secret (dotted header payload) in
    let actual = codec.base64_decode (map of_url signature) in
    length expected == length actual && text_eq expected actual

unfoldable pub verify_parts : Codec → Text → ℕ → Text → Text → Text → Verified Claims
unfolding base64_url_decode has_signature check_claims
verify_parts codec secret now header payload signature =
    parsed (codec.parse_header (base64_url_decode codec header)) >>= λ fields.
    if is_supported fields
    then if has_signature codec secret header payload signature
      then parsed (codec.parse_claims (base64_url_decode codec payload)) >>= check_claims now
      else fails invalid_signature
    else fails unsupported_algorithm

abbrev pub verify_split : Codec → Text → ℕ → List Text → Verified Claims
verify_split codec secret now (header ∷ payload ∷ signature ∷ []) =
    verify_parts codec secret now header payload signature
verify_split codec secret now _ = fails malformed_token

unfoldable pub verify_token : Codec → Text → ℕ → Text → Verified Claims
unfolding split_on verify_parts
verify_token codec secret now token = verify_split codec secret now (split_on b'.' token)

pub record AuthTokenConfig : Type 0 where
  pub access_secret : Text
  pub refresh_secret : Text
  pub access_ttl_seconds : ℕ
  pub refresh_ttl_seconds : ℕ

abbrev pub access_claims : Text → Text → Claims
access_claims user_id email = record {
  sub = some user_id;
  email = some email;
  sid = none;
  typ = some (codes "access");
  iat = none;
  exp = none;
}

abbrev pub refresh_claims : Text → Text → Claims
refresh_claims user_id session_id = record {
  sub = some user_id;
  email = none;
  sid = some session_id;
  typ = some (codes "refresh");
  iat = none;
  exp = none;
}

unfoldable pub create_access_token : Codec → AuthTokenConfig → Text → Text → ℕ → Text
unfolding sign_token
create_access_token codec config user_id email =
    sign_token codec (access_claims user_id email) config.access_secret config.access_ttl_seconds

unfoldable pub create_refresh_token : Codec → AuthTokenConfig → Text → Text → ℕ → Text
unfolding sign_token
create_refresh_token codec config user_id session_id =
    sign_token codec (refresh_claims user_id session_id) config.refresh_secret
      config.refresh_ttl_seconds

abbrev pub check_access : Claims → Verified Claims
check_access claims =
    if text_is claims.typ (codes "access") && is_some claims.email
    then holds claims
    else fails invalid_access_payload

abbrev pub check_refresh : Claims → Verified Claims
check_refresh claims =
    if text_is claims.typ (codes "refresh") && is_some claims.sid
    then holds claims
    else fails invalid_refresh_payload

unfoldable pub verify_access_token : Codec → AuthTokenConfig → ℕ → Text → Verified Claims
unfolding verify_token
verify_access_token codec config now token =
    verify_token codec config.access_secret now token >>= check_access

unfoldable pub verify_refresh_token : Codec → AuthTokenConfig → ℕ → Text → Verified Claims
unfolding verify_token
verify_refresh_token codec config now token =
    verify_token codec config.refresh_secret now token >>= check_refresh
