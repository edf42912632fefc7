-- ===== src/Auth/Tests.antt =====
-- Runs of the authentication on small tables, and the theorems at them.
use autonomous_csa.Base.{
  zero, suc, ◌/◌, ◌%◌, ℕ, ◌+◌, ◌*◌, ◌≤◌, ◌≡◌, refl, ◌⊎◌, inl, inr, true, count, List, [], ◌∷◌,
  length, map, Option, none, some, Text, codes, text_eq, trim, ◌==◌, if◌then◌else◌, or_else,
  is_some, and_then, Bool-cases, ap, sym, text_eq→eq, arith, ◌∙◌,
}
use autonomous_csa.Http.{HttpError, refuse, reply, on_found}
use autonomous_csa.Auth.Slug.{normalize_organization_slug, IsSlug}
use autonomous_csa.Auth.SlugLaws.{
  normalize_organization_slug-IsSlug, IsSlug-normalize_organization_slug,
}
use autonomous_csa.Auth.Tokens.{
  Claims, Codec, IsBytes, AuthTokenConfig, holds, jwt_header, issued, refresh_claims,
  create_refresh_token, verify_refresh_token, verify_access_token, text_is, unpadded, cons_unpadded,
}
use autonomous_csa.Auth.Base64Laws.{is_base64, padding_length}
use autonomous_csa.Auth.TokenLaws.{verify_refresh_token-create, verify-IsAuthentic, IsAuthentic}
use autonomous_csa.Auth.Sessions.{
  agent, User, RefreshSession, AuthDb, AuthServices, RequestMetadata, has_id, commit_refresh,
  AuthAnswer, logout,
}
use autonomous_csa.Auth.SessionLaws.{here, next, logs_out, refresh_once}
use autonomous_csa.Auth.SessionSet.{SetStep, closes, sid_of, open_in, IsKeyed, Step-SetStep}
use autonomous_csa.Auth.Accounts.{TenantMembership}
use autonomous_csa.Auth.Access.{mutating_org_roles, bearer_token, is_role_allowed, guard_route}
use autonomous_csa.Auth.AccessLaws.{guard_route_lem, has_member}

slug_0 : normalize_organization_slug (λ s. s) (codes " acme & co ") ≡ reply (codes "acme-co")
unfolding normalize_organization_slug
slug_0 = refl

normalize_organization_slug-IsSlug_example : IsSlug (codes "acme-co")
normalize_organization_slug-IsSlug_example =
    normalize_organization_slug-IsSlug (λ s. s) (codes " acme & co ") (codes "acme-co") slug_0

IsSlug-normalize_organization_slug_example :
    normalize_organization_slug (λ s. s) (codes "acme-co") ≡ reply (codes "acme-co")
IsSlug-normalize_organization_slug_example =
    IsSlug-normalize_organization_slug (λ s. s) (codes "acme-co") (λ s h. refl)
      (refl, omega arith, omega arith)

-- A codec that can be undone: a byte is a run of `A`, four for each unit and three more, before a `B`.
abbrev run_of : ℕ → Text → Text
run_of zero s = s
run_of (suc n) s = b'A' ∷ run_of n s

abbrev toy_encode : List ℕ → Text
toy_encode [] = []
toy_encode (n ∷ ns) = run_of (4 * n + 3) (b'B' ∷ toy_encode ns)

abbrev toy_decode : ℕ → Text → List ℕ
toy_decode acc [] = []
toy_decode acc (c ∷ s) =
    if c == b'A'
    then toy_decode (suc acc) s
    else if c == b'B'
    then acc / 4 ∷ toy_decode 0 s
    else toy_decode acc s

toy_decode-run :
    (n acc : ℕ) (s : Text) → toy_decode acc (run_of n (b'B' ∷ s)) ≡ (acc + n) / 4 ∷ toy_decode 0 s
toy_decode-run zero acc s = ground arith
toy_decode-run (suc n) acc s = ground (arith, toy_decode-run n (suc acc) s)

toy_inverse : (bytes : List ℕ) → toy_decode 0 (toy_encode bytes) ≡ bytes
toy_inverse [] = refl
toy_inverse (n ∷ ns) = ground (arith, toy_decode-run (4 * n + 3) 0 (toy_encode ns), toy_inverse ns)

run_base64 : (n : ℕ) (s : Text) → is_base64 s ≡ true → is_base64 (run_of n (b'B' ∷ s)) ≡ true
run_base64 zero s h = ground (arith, h)
run_base64 (suc n) s h = ground (arith, run_base64 n s h)

toy_alphabet : (bytes : List ℕ) → is_base64 (toy_encode bytes) ≡ true
toy_alphabet [] = refl
toy_alphabet (n ∷ ns) = run_base64 (4 * n + 3) (toy_encode ns) (toy_alphabet ns)

length-run_of : (n : ℕ) (s : Text) → length (run_of n s) ≡ n + length s
length-run_of zero s = omega arith
length-run_of (suc n) s = ground (arith, length-run_of n s)

toy_length : (bytes : List ℕ) → length (toy_encode bytes) % 4 ≡ 0
toy_length [] = refl
toy_length (n ∷ ns) = omega (arith, length-run_of (4 * n + 3) (b'B' ∷ toy_encode ns), toy_length ns)

run_padding : (n : ℕ) (s : Text) → padding_length (run_of n s) ≡ padding_length s
run_padding zero s = refl
run_padding (suc n) s = ground (arith, run_padding n s)

toy_padding : (bytes : List ℕ) → padding_length (toy_encode bytes) ≡ 0
toy_padding [] = refl
toy_padding (n ∷ ns) =
    ground (arith, run_padding (4 * n + 3) (b'B' ∷ toy_encode ns), toy_padding ns)

toy_cons : (acc c : ℕ) (s : Text) → toy_decode acc (cons_unpadded c s) ≡ toy_decode acc (c ∷ s)
toy_cons acc c [] = ground arith
toy_cons acc c (d ∷ s) = refl

toy_unpadded : (text : Text) (acc : ℕ) → toy_decode acc (unpadded text) ≡ toy_decode acc text
unfolding unpadded
toy_unpadded [] acc = refl
toy_unpadded (c ∷ s) acc =
    toy_cons acc c (unpadded s)
    ∙ ground (arith, toy_unpadded s acc, toy_unpadded s (suc acc), toy_unpadded s 0)

abbrev config_0 : AuthTokenConfig
config_0 = record {
  access_secret = codes "a";
  refresh_secret = codes "r";
  access_ttl_seconds = 10;
  refresh_ttl_seconds = 100;
}

abbrev claims_0 : Claims
claims_0 = issued (refresh_claims (codes "u") (codes "s")) 5 100

abbrev toy_codec : Codec
toy_codec = record {
  utf8_encode = map (λ c. c % 256);
  utf8_decode = λ s. s;
  base64_encode = toy_encode;
  base64_decode = toy_decode 0;
  stringify_header = λ h. codes "h";
  parse_header = λ s. some jwt_header;
  stringify_claims = λ c. codes "c";
  parse_claims = λ s. some claims_0;
  hmac_sha256 = λ key text. length key % 256 ∷ length text % 256 ∷ [];
}

map-IsBytes : (s : Text) → IsBytes (map (λ c. c % 256) s)
map-IsBytes [] = tt
map-IsBytes (c ∷ s) = (omega arith, map-IsBytes s)

verify_refresh_token-create_example :
    verify_refresh_token toy_codec config_0 104
      (create_refresh_token toy_codec config_0 (codes "u") (codes "s") 5)
    ≡ holds claims_0
verify_refresh_token-create_example =
    verify_refresh_token-create toy_codec map-IsBytes (λ key text. (omega arith, (omega arith, tt)))
      (λ bytes _. toy_inverse bytes) (λ bytes _. toy_alphabet bytes) (λ bytes _. toy_length bytes)
      (λ bytes _. omega (arith, toy_padding bytes))
      (λ bytes _. toy_unpadded (toy_encode bytes) 0 ∙ toy_inverse bytes) config_0 (codes "u")
      (codes "s") 5 104 refl refl claims_0 refl refl refl

-- A codec that leaves texts as they are, with one payload.
abbrev plain_codec : Claims → Codec
plain_codec claims = record {
  utf8_encode = λ s. s;
  utf8_decode = λ s. s;
  base64_encode = λ s. s;
  base64_decode = λ s. s;
  stringify_header = λ h. codes "h";
  parse_header = λ s. some jwt_header;
  stringify_claims = λ c. codes "c";
  parse_claims = λ s. some claims;
  hmac_sha256 = λ key text. codes "mac";
}

abbrev access_0 : Claims
access_0 = record {
  sub = some (codes "u");
  email = some (codes "u@x");
  sid = none;
  typ = some (codes "access");
  iat = some 5;
  exp = some 15;
}

verify-IsAuthentic_example :
    (IsAuthentic (plain_codec access_0) config_0.access_secret 14 (codes "h.c.mac") access_0
      × (text_is access_0.typ (codes "access") ≡ true))
    ⊎ (IsAuthentic (plain_codec access_0) config_0.refresh_secret 14 (codes "h.c.mac") access_0
        × (text_is access_0.typ (codes "refresh") ≡ true)
        × (is_some access_0.sid ≡ true))
unfolding verify_access_token text_eq
verify-IsAuthentic_example =
    verify-IsAuthentic (plain_codec access_0) config_0 14 (codes "h.c.mac") access_0 (inl refl)

abbrev services_0 : AuthServices
services_0 = record {
  create_access_token = λ user email. user;
  create_refresh_token = λ user session. session;
  verify_refresh_token = λ token. some (record { sub = codes "u"; sid = token; exp = 100 });
  hash_refresh_token = λ token. token;
  hash_password = λ password. password;
  verify_password = λ hash password. text_eq hash password;
  to_lower_case = λ s. s;
}

abbrev user_0 : User
user_0 = record {
  id = codes "u";
  email = codes "u@x";
  normalized_email = codes "u@x";
  password_hash = codes "p";
  display_name = none;
  is_active = true;
}

abbrev session_of : Text → Option ℕ → RefreshSession
session_of id revoked_at = record {
  id = id;
  user_id = codes "u";
  token_hash = id;
  expires_at = 100000;
  revoked_at = revoked_at;
  last_used_at = revoked_at;
  user_agent = none;
  ip_address = none;
}

abbrev db_with : List RefreshSession → AuthDb
db_with sessions = record {
  users = user_0 ∷ [];
  organizations = record { id = codes "o"; name = codes "Acme"; slug = codes "acme" } ∷ [];
  settings = codes "o" ∷ [];
  memberships =
      record { id = codes "m"; user_id = codes "u"; organization_id = codes "o"; role = agent }
      ∷ [];
  sessions = sessions;
}

abbrev metadata_0 : RequestMetadata
metadata_0 = record { user_agent = none; ip_address = none }

abbrev db_0 : AuthDb
db_0 = db_with (session_of (codes "s") none ∷ [])

abbrev db_1 : AuthDb
db_1 = db_with (session_of (codes "t") none ∷ session_of (codes "s") (some 7) ∷ [])

abbrev db_2 : AuthDb
db_2 = db_with (session_of (codes "t") (some 9) ∷ session_of (codes "s") (some 7) ∷ [])

abbrev answer_0 : AuthAnswer
answer_0 = record {
  profile = record {
    user_id = codes "u";
    email = codes "u@x";
    display_name = none;
    memberships =
        record {
          organization_id = codes "o";
          organization_slug = codes "acme";
          organization_name = codes "Acme";
          role = agent;
        }
        ∷ [];
  };
  access_token = codes "u";
  refresh_token = codes "t";
}

first_refresh :
    commit_refresh
      (λ ms. ms)
      services_0
      metadata_0
      7
      (codes "t")
      (codes "s")
      (session_of (codes "s") none, user_0)
      db_0
    ≡ (db_1, reply answer_0)
unfolding commit_refresh on_found text_eq
first_refresh = refl

logged_out : logout services_0 9 (codes "t") db_1 ≡ db_2
unfolding logout text_eq
logged_out = refl

one_row : count (has_id (codes "s")) db_0.sessions ≤ 1
unfolding text_eq
one_row = omega arith

-- Two requests that read the session, of which one commits; in between the new session is ended.
refresh_once_example :
    (error : HttpError) × (commit_refresh
        (λ ms. ms)
        services_0
        metadata_0
        8
        (codes "t2")
        (codes "s")
        (session_of (codes "s") none, user_0)
        db_2
      ≡ (db_2, refuse error))
refresh_once_example =
    refresh_once (λ ms. ms) services_0 metadata_0 metadata_0 7 8 (codes "t") (codes "t2")
      (codes "s") (codes "s") (session_of (codes "s") none) (session_of (codes "s") none) user_0
      user_0 db_0 db_1 db_2 answer_0 one_row first_refresh
      (next here (logs_out 9 (codes "t") logged_out)) refl

db_1-IsKeyed : IsKeyed db_1
unfolding text_eq
db_1-IsKeyed id = elim (Bool-cases (text_eq (codes "t") id)) [
  | inl e ↦ ground (arith, e, ap (text_eq (codes "s")) (sym (text_eq→eq (codes "t") id e)))
  | inr e ↦ ground (arith, e)
]

Step-SetStep_example :
    SetStep
      (open_in db_1)
      (open_in db_2)
      (closes (sid_of (services_0.verify_refresh_token (codes "t"))))
      true
    × IsKeyed db_2
Step-SetStep_example =
    Step-SetStep (λ ms. ms) services_0 db_1-IsKeyed (logs_out 9 (codes "t") logged_out)

abbrev tenant_0 : TenantMembership
tenant_0 = record {
  membership_id = codes "m";
  organization_id = codes "o";
  organization_slug = codes "acme";
  organization_name = codes "Acme";
  role = agent;
}

guarded :
    guard_route
      (plain_codec access_0)
      config_0
      14
      db_0
      mutating_org_roles
      (some (codes "Bearer h.c.mac"))
      (some (codes "o"))
    ≡ reply (record { user_id = codes "u"; email = codes "u@x" }, tenant_0)
unfolding guard_route and_then text_eq
guarded = refl

guard_route_lem_example :
    (bearer : Text) × (claims : Claims) × (header : Text) × (◌≡◌ {A = Option Text}
      (some (codes "Bearer h.c.mac"))
      (some bearer))
    × (verify_access_token (plain_codec access_0) config_0 14 (bearer_token bearer) ≡ holds claims)
    × (codes "u" ≡ or_else claims.sub [])
    × (◌≡◌ {A = Option Text} (some (codes "o")) (some header))
    × (has_member db_0 (codes "u") (trim header) agent ≡ true)
    × (is_role_allowed mutating_org_roles agent ≡ true)
guard_route_lem_example =
    guard_route_lem (plain_codec access_0) config_0 14 db_0 mutating_org_roles
      (some (codes "Bearer h.c.mac")) (some (codes "o"))
      (record { user_id = codes "u"; email = codes "u@x" }) tenant_0 guarded
