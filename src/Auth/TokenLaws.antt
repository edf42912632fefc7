-- ===== src/Auth/TokenLaws.antt =====
-- Signed tokens that are verified again (apps/api/src/auth/token.service.ts).

use autonomous_csa.Base.{
  ◌∙◌, ℕ, ◌+◌, ◌%◌, ◌≡◌, ◌≤◌, refl, sym, ap, Bool-cases, inl, inr, ◌⊎◌, Bool, true, false, ◌&&◌,
  List, [], ◌∷◌, map, length, any, Option, none, some, Text, codes, text_eq, split_on, text_eq_refl,
  text_eq→eq, leb, ltb, ==_refl, if◌then◌else◌, is_some, arith,
}
use autonomous_csa.Auth.Base64Laws.{
  is_base64, padding_length, url_of, map-url_of, is_dot, no_dot, padded-unpadded, split_three,
}
use autonomous_csa.Auth.Tokens.{
  Claims, TokenHeader, Codec, IsBytes, TokenError, token_expired, invalid_access_payload,
  invalid_refresh_payload, invalid_signature, unsupported_algorithm, Verified, fails, holds, ◌>>=◌,
  of_url, unpadded, padded, base64_url_encode, base64_url_decode, jwt_header, dotted, signed,
  issued, sign_token, text_is, check_claims, parsed, is_supported, has_signature, verify_parts,
  verify_split, verify_token, AuthTokenConfig, refresh_claims, create_refresh_token, check_refresh,
  verify_access_token, verify_refresh_token,
}

verify_token-parts :
    (codec : Codec) (secret : Text) (now : ℕ) (token header payload signature : Text)
    → split_on b'.' token ≡ header ∷ payload ∷ signature ∷ []
    → verify_token codec secret now token ≡ verify_parts codec secret now header payload signature
unfolding verify_token verify_parts
verify_token-parts codec secret now token header payload signature e =
    rw (verify_split, verify_token, e) refl

check_refresh-issued :
    (user_id session_id : Text) (now ttl later : ℕ)
    → let claims = issued (refresh_claims user_id session_id) now ttl in
      (check_claims later claims >>= check_refresh)
      ≡ (if leb (now + ttl) later then fails token_expired else holds claims)
unfolding check_claims text_eq
check_refresh-issued user_id session_id now ttl later = elim (Bool-cases (leb (now + ttl) later)) [
  | inl e ↦ rw (e) refl
  | inr e ↦ rw (e) refl
]

has_signature_lem :
    (codec : Codec) (secret header payload signature : Text)
    → has_signature codec secret header payload signature ≡ true
    → codec.hmac_sha256 secret (dotted header payload) ≡ codec.base64_decode (map of_url signature)
unfolding has_signature
has_signature_lem codec secret header payload signature h =
    let expected = codec.hmac_sha256 secret (dotted header payload) in
    let actual = codec.base64_decode (map of_url signature) in
    text_eq→eq expected actual (ground (arith, h))

ends_after : ℕ → Option ℕ → Bool
ends_after now none = false
ends_after now (some exp) = ltb now exp

-- The token has three parts, the third is the signature of the other two under the secret, and the
-- second is the payload, which has not ended.
pub IsAuthentic : Codec → Text → ℕ → Text → Claims → Type 0
IsAuthentic codec secret now token claims =
    (header : Text) × (payload : Text) × (signature : Text) × (split_on b'.' token
      ≡ header ∷ payload ∷ signature ∷ [])
    × (codec.hmac_sha256 secret (dotted header payload)
        ≡ codec.base64_decode (map of_url signature))
    × (codec.parse_claims (base64_url_decode codec payload) ≡ some claims)
    × (ends_after now claims.exp ≡ true)

check_claims_lem :
    (now : ℕ) (raw claims : Claims)
    → check_claims now raw ≡ holds claims
    → (raw ≡ claims) × (ends_after now claims.exp ≡ true)
unfolding check_claims ends_after
check_claims_lem now raw claims h = ground (arith, h)

check_parsed_lem :
    (now : ℕ) (raw : Option Claims) (claims : Claims)
    → (parsed raw >>= check_claims now) ≡ holds claims
    → (raw ≡ some claims) × (ends_after now claims.exp ≡ true)
check_parsed_lem now none claims h = ground (arith, h)
check_parsed_lem now (some raw) claims h =
    let p = check_claims_lem now raw claims h in (ap some p.0, p.1)

gates_lem :
    (header : Option TokenHeader) (supports : TokenHeader → Bool) (signed_well : Bool)
    (rest : Verified Claims) (claims : Claims)
    → (parsed header >>= λ fields.
        if supports fields
        then if signed_well then rest else fails invalid_signature
        else fails unsupported_algorithm)
      ≡ holds claims
    → (signed_well ≡ true) × (rest ≡ holds claims)
gates_lem none supports signed_well rest claims h = ground (arith, h)
gates_lem (some fields) supports signed_well rest claims h = elim (Bool-cases (supports fields)) [
  | inl e ↦ ground (arith, h)
  | inr e ↦ ground (arith, h)
]

verify_parts_lem :
    (codec : Codec) (secret : Text) (now : ℕ) (header payload signature : Text) (claims : Claims)
    → verify_parts codec secret now header payload signature ≡ holds claims
    → (has_signature codec secret header payload signature ≡ true)
      × ((parsed (codec.parse_claims (base64_url_decode codec payload)) >>= check_claims now)
          ≡ holds claims)
unfolding verify_parts
verify_parts_lem codec secret now header payload signature claims h =
    gates_lem (codec.parse_header (base64_url_decode codec header)) is_supported
      (has_signature codec secret header payload signature)
      (parsed (codec.parse_claims (base64_url_decode codec payload)) >>= check_claims now) claims h

verify_token-IsAuthentic :
    (codec : Codec) (secret : Text) (now : ℕ) (token : Text) (claims : Claims) (parts : List Text)
    → split_on b'.' token ≡ parts
    → verify_split codec secret now parts ≡ holds claims
    → IsAuthentic codec secret now token claims
unfolding IsAuthentic
verify_token-IsAuthentic codec secret now token claims (header ∷ payload ∷ signature ∷ []) e h =
    let p = verify_parts_lem codec secret now header payload signature claims h in
    let q =
      check_parsed_lem now (codec.parse_claims (base64_url_decode codec payload)) claims p.1 in
    (
      header,
      payload,
      signature,
      e,
      has_signature_lem codec secret header payload signature p.0,
      q.0,
      q.1,
    )
verify_token-IsAuthentic codec secret now token claims [] e h = ground (arith, h)
verify_token-IsAuthentic codec secret now token claims (a ∷ []) e h = ground (arith, h)
verify_token-IsAuthentic codec secret now token claims (a ∷ b ∷ []) e h = ground (arith, h)
verify_token-IsAuthentic codec secret now token claims (a ∷ b ∷ c ∷ d ∷ rest) e h =
    ground (arith, h)

module _ (codec : Codec) (utf8_bytes : (text : Text) → IsBytes (codec.utf8_encode text))
    (hmac_bytes : (secret text : Text) → IsBytes (codec.hmac_sha256 secret text))
    (base64_decode-encode : (bytes : List ℕ)
      → IsBytes bytes
      → codec.base64_decode (codec.base64_encode bytes) ≡ bytes)
    (base64_alphabet : (bytes : List ℕ)
      → IsBytes bytes
      → is_base64 (codec.base64_encode bytes) ≡ true)
    (base64_length : (bytes : List ℕ) → IsBytes bytes → length (codec.base64_encode bytes) % 4 ≡ 0)
    (base64_padding : (bytes : List ℕ)
      → IsBytes bytes
      → padding_length (codec.base64_encode bytes) ≤ 2)
    (base64_unpadded : (bytes : List ℕ)
      → IsBytes bytes
      → codec.base64_decode (unpadded (codec.base64_encode bytes)) ≡ bytes) where
  url_round_trip :
      (bytes : List ℕ)
      → IsBytes bytes
      → codec.base64_decode (padded (map of_url (base64_url_encode codec bytes))) ≡ bytes
  unfolding base64_url_encode url_of
  url_round_trip bytes small =
      let text = codec.base64_encode bytes in
      rw
        (
          map-url_of text (base64_alphabet bytes small),
          padded-unpadded text (base64_alphabet bytes small) (base64_length bytes small)
              (base64_padding bytes small),
          base64_decode-encode bytes small,
        )
        refl

  signature_round_trip :
      (bytes : List ℕ)
      → IsBytes bytes
      → codec.base64_decode (map of_url (base64_url_encode codec bytes)) ≡ bytes
  unfolding base64_url_encode url_of
  signature_round_trip bytes small =
      let text = codec.base64_encode bytes in
      rw (map-url_of text (base64_alphabet bytes small), base64_unpadded bytes small) refl

  no_dot-encode :
      (bytes : List ℕ) → IsBytes bytes → any is_dot (base64_url_encode codec bytes) ≡ false
  unfolding base64_url_encode url_of
  no_dot-encode bytes small = no_dot (codec.base64_encode bytes) (base64_alphabet bytes small)

  has_signature-encode :
      (secret header payload : Text)
      → has_signature codec secret header payload
          (base64_url_encode codec (codec.hmac_sha256 secret (dotted header payload)))
        ≡ true
  unfolding has_signature
  has_signature-encode secret header payload =
      let mac = codec.hmac_sha256 secret (dotted header payload) in
      rw
        (
          signature_round_trip mac (hmac_bytes secret (dotted header payload)),
          text_eq_refl mac,
          ==_refl (length mac),
        )
        refl

  decode-encode :
      (text : Text)
      → codec.utf8_decode (codec.utf8_encode text) ≡ text
      → base64_url_decode codec (base64_url_encode codec (codec.utf8_encode text)) ≡ text
  unfolding base64_url_decode
  decode-encode text utf8 =
      rw (base64_url_decode, url_round_trip (codec.utf8_encode text) (utf8_bytes text)) utf8

  verify_parts-signed :
      (secret : Text) (claims : Claims) (now : ℕ)
      → codec.utf8_decode (codec.utf8_encode (codec.stringify_header jwt_header))
        ≡ codec.stringify_header jwt_header
      → codec.parse_header (codec.stringify_header jwt_header) ≡ some jwt_header
      → codec.utf8_decode (codec.utf8_encode (codec.stringify_claims claims))
        ≡ codec.stringify_claims claims
      → codec.parse_claims (codec.stringify_claims claims) ≡ some claims
      → (header payload signature : Text)
      → header ≡ base64_url_encode codec (codec.utf8_encode (codec.stringify_header jwt_header))
      → payload ≡ base64_url_encode codec (codec.utf8_encode (codec.stringify_claims claims))
      → has_signature codec secret header payload signature ≡ true
      → verify_parts codec secret now header payload signature ≡ check_claims now claims
  unfolding verify_parts check_claims text_eq
  verify_parts-signed secret claims now utf8_header json_header utf8_claims json_claims header
        payload signature is_header is_payload accepted =
      let h = ap (base64_url_decode codec) is_header ∙ decode-encode _ utf8_header in
      let p = ap (base64_url_decode codec) is_payload ∙ decode-encode _ utf8_claims in
      rw (verify_parts, h, json_header, accepted, p, json_claims) refl

  -- What `sign` wrote of a payload, verified at `now` with the same secret.
  verify-signed :
      (secret : Text) (claims : Claims) (now : ℕ)
      → codec.utf8_decode (codec.utf8_encode (codec.stringify_header jwt_header))
        ≡ codec.stringify_header jwt_header
      → codec.parse_header (codec.stringify_header jwt_header) ≡ some jwt_header
      → codec.utf8_decode (codec.utf8_encode (codec.stringify_claims claims))
        ≡ codec.stringify_claims claims
      → codec.parse_claims (codec.stringify_claims claims) ≡ some claims
      → verify_token codec secret now (signed codec secret claims) ≡ check_claims now claims
  unfolding signed
  verify-signed secret claims now utf8_header json_header utf8_claims json_claims =
      let header =
        base64_url_encode codec (codec.utf8_encode (codec.stringify_header jwt_header)) in
      let payload = base64_url_encode codec (codec.utf8_encode (codec.stringify_claims claims)) in
      let mac = codec.hmac_sha256 secret (dotted header payload) in
      verify_token-parts codec secret now (signed codec secret claims) header payload
        (base64_url_encode codec mac)
        (split_three header payload (base64_url_encode codec mac) (no_dot-encode _ (utf8_bytes _))
          (no_dot-encode _ (utf8_bytes _))
          (no_dot-encode mac (hmac_bytes secret (dotted header payload))))
      ∙ verify_parts-signed secret claims now utf8_header json_header utf8_claims json_claims header
          payload (base64_url_encode codec mac) refl refl
          (has_signature-encode secret header payload)

  -- A refresh token that is verified: it is accepted with the user and the session that it was
  -- created for, and with its times, until its end, and refused as expired from then on. This is of a
  -- UTF-8 and an HMAC that give bytes, of a base64 that on bytes gives units of its alphabet in groups of
  -- four with at most two signs of padding and can be undone with or without them, of a JSON that gives the
  -- two written values back, and of a UTF-8 that gives their texts back.
  pub verify_refresh_token-create :
      (config : AuthTokenConfig) (user_id session_id : Text) (now later : ℕ)
      → codec.utf8_decode (codec.utf8_encode (codec.stringify_header jwt_header))
        ≡ codec.stringify_header jwt_header
      → codec.parse_header (codec.stringify_header jwt_header) ≡ some jwt_header
      → (claims : Claims)
      → claims ≡ issued (refresh_claims user_id session_id) now config.refresh_ttl_seconds
      → codec.utf8_decode (codec.utf8_encode (codec.stringify_claims claims))
        ≡ codec.stringify_claims claims
      → codec.parse_claims (codec.stringify_claims claims) ≡ some claims
      → verify_refresh_token codec config later
          (create_refresh_token codec config user_id session_id now)
        ≡ (if leb (now + config.refresh_ttl_seconds) later
            then fails token_expired
            else holds claims)
  unfolding verify_refresh_token create_refresh_token sign_token
  verify_refresh_token-create config user_id session_id now later uh jh claims e uc jc =
      let secret = config.refresh_secret in
      ap (λ c. verify_token codec secret later (signed codec secret c) >>= check_refresh) (sym e)
      ∙ ap (λ r. r >>= check_refresh) (verify-signed secret claims later uh jh uc jc)
      ∙ ap (λ c. check_claims later c >>= check_refresh) e
      ∙ check_refresh-issued user_id session_id now config.refresh_ttl_seconds later
      ∙ ap
          (λ c.
            if leb (now + config.refresh_ttl_seconds) later then fails token_expired else holds c)
          (sym e)

and_lem : (a b : Bool) → (a && b) ≡ true → (a ≡ true) × (b ≡ true)
and_lem a b h = ground (arith, h)

and_then_lem :
    (check : Claims → Bool) (error : TokenError) (r : Verified Claims) (claims : Claims)
    → (r >>= λ c. if check c then holds c else fails error) ≡ holds claims
    → (r ≡ holds claims) × (check claims ≡ true)
and_then_lem check error (fails e) claims h = ground (arith, h)
and_then_lem check error (holds c) claims h = ground (arith, h)

-- An access token that is accepted is signed with the secret of access tokens, its payload has not
-- ended and is of the access type; a refresh token that is accepted is signed with the secret of
-- refresh tokens, its payload has not ended, is of the refresh type and names a session.
pub verify-IsAuthentic :
    (codec : Codec) (config : AuthTokenConfig) (now : ℕ) (token : Text) (claims : Claims)
    → (verify_access_token codec config now token ≡ holds claims)
      ⊎ (verify_refresh_token codec config now token ≡ holds claims)
    → (IsAuthentic codec config.access_secret now token claims
        × (text_is claims.typ (codes "access") ≡ true))
      ⊎ (IsAuthentic codec config.refresh_secret now token claims
          × (text_is claims.typ (codes "refresh") ≡ true)
          × (is_some claims.sid ≡ true))
unfolding verify_access_token verify_refresh_token verify_token
verify-IsAuthentic codec config now token claims (inl h) =
    let p =
      and_then_lem (λ c. text_is c.typ (codes "access") && is_some c.email) invalid_access_payload
        (verify_token codec config.access_secret now token) claims h in
    inl (
      verify_token-IsAuthentic codec config.access_secret now token claims (split_on b'.' token)
          refl p.0,
      (and_lem (text_is claims.typ (codes "access")) (is_some claims.email) p.1).0,
    )
verify-IsAuthentic codec config now token claims (inr h) =
    let p =
      and_then_lem (λ c. text_is c.typ (codes "refresh") && is_some c.sid) invalid_refresh_payload
        (verify_token codec config.refresh_secret now token) claims h in
    let q = and_lem (text_is claims.typ (codes "refresh")) (is_some claims.sid) p.1 in
    inr (
      verify_token-IsAuthentic codec config.refresh_secret now token claims (split_on b'.' token)
          refl p.0,
      q.0,
      q.1,
    )
