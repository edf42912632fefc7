-- ===== src/Auth/Sessions.antt =====
-- The tables of users, organizations and sessions (packages/db/prisma/schema.prisma) and
-- apps/api/src/auth/auth.service.ts on them. Identifiers are texts, since tokens carry them.
use autonomous_csa.Base.{
  ℕ, ◌*◌, Bool, not, ◌&&◌, ◌||◌, List, [], ◌∷◌, Option, none, some, is_some, Text, text_eq, ltb,
  leb, ◌==◌, any, count, find_first, filter, if◌then◌else◌,
}
use autonomous_csa.Http.{
  Response, refuse, reply, refuse_if, ◌>>=◌, on_found, unauthorized, internal_error, HttpError,
}

pub data OrganizationRole : Type 0 where
  owner admin agent viewer : OrganizationRole

pub record User : Type 0 where
  pub id : Text
  pub email : Text
  pub normalized_email : Text
  pub password_hash : Text
  pub display_name : Option Text
  pub is_active : Bool

pub record Organization : Type 0 where
  pub id : Text
  pub name : Text
  pub slug : Text

pub record Membership : Type 0 where
  pub id : Text
  pub user_id : Text
  pub organization_id : Text
  pub role : OrganizationRole

-- Instants are milliseconds.
pub record RefreshSession : Type 0 where
  pub id : Text
  pub user_id : Text
  pub token_hash : Text
  pub expires_at : ℕ
  pub revoked_at : Option ℕ
  pub last_used_at : Option ℕ
  pub user_agent : Option Text
  pub ip_address : Option Text

pub record AuthDb : Type 0 where
  pub users : List User
  pub organizations : List Organization
  pub settings : List Text
  pub memberships : List Membership
  pub sessions : List RefreshSession

-- What the service calls of `TokenService` and `PasswordService`: an accepted refresh token gives its
-- user, its session and its end in seconds.
pub record RefreshPayload : Type 0 where
  pub sub : Text
  pub sid : Text
  pub exp : ℕ

pub record AuthServices : Type 0 where
  pub create_access_token : Text → Text → Text
  pub create_refresh_token : Text → Text → Text
  pub verify_refresh_token : Text → Option RefreshPayload
  pub hash_refresh_token : Text → Text
  pub hash_password : Text → Text
  pub verify_password : Text → Text → Bool
  pub to_lower_case : Text → Text

pub record RequestMetadata : Type 0 where
  pub user_agent : Option Text
  pub ip_address : Option Text

abbrev pub has_id : Text → RefreshSession → Bool
has_id id session = text_eq session.id id

-- `refreshSession.create`: an identifier or a hash that is taken violates a unique constraint.
unfoldable pub create_session : RefreshSession → List RefreshSession → Option (List RefreshSession)
create_session row sessions =
    if any (λ s. text_eq s.id row.id || text_eq s.token_hash row.token_hash) sessions
    then none
    else some (row ∷ sessions)

-- `getRefreshExpiry` on the payload's end, and the row of a new session.
abbrev pub new_session :
    AuthServices → Text → Text → Text → ℕ → Option Text → Option Text → RefreshSession
new_session services session_id user_id token exp user_agent ip_address = record {
  id = session_id;
  user_id = user_id;
  token_hash = services.hash_refresh_token token;
  expires_at = exp * 1000;
  revoked_at = none;
  last_used_at = none;
  user_agent = user_agent;
  ip_address = ip_address;
}

-- The condition of the update that revokes, and the row that it leaves.
abbrev pub is_rotatable : Text → Text → ℕ → RefreshSession → Bool
is_rotatable id token_hash now session =
    text_eq session.id id
    && not (is_some session.revoked_at)
    && text_eq session.token_hash token_hash
    && ltb now session.expires_at

abbrev pub revoked : ℕ → RefreshSession → RefreshSession
revoked now session = record session { revoked_at = some now; last_used_at = some now }

-- `updateMany` on sessions: the rows that pass the test are revoked.
unfoldable pub revoke_where :
    (RefreshSession → Bool) → ℕ → List RefreshSession → List RefreshSession
revoke_where test now [] = []
revoke_where test now (s ∷ sessions) =
    (if test s then revoked now s else s) ∷ revoke_where test now sessions

unfoldable pub add_session : RefreshSession → AuthDb → Option AuthDb
unfolding create_session
add_session row db = elim (create_session row db.sessions) [
  | none ↦ none
  | some sessions ↦ some (record db { sessions = sessions })
]

-- The transaction of `refresh`: `none` where it throws, and then it changes nothing.
unfoldable pub rotate : ℕ → Text → Text → RefreshSession → AuthDb → Option AuthDb
unfolding revoke_where add_session
rotate now id token_hash next db =
    if count (is_rotatable id token_hash now) db.sessions == 1
    then add_session next
        (record db { sessions = revoke_where (is_rotatable id token_hash now) now db.sessions })
    else none

-- `logout`, whose answer is the same on every path.
unfoldable pub logout : AuthServices → ℕ → Text → AuthDb → AuthDb
unfolding revoke_where
logout services now token db = elim (services.verify_refresh_token token) [
  | none ↦ db
  | some payload ↦ record db {
    sessions =
        revoke_where (λ s. text_eq s.id payload.sid && not (is_some s.revoked_at)) now db.sessions;
  }
]

-- What `getMe` answers, and with the two tokens what the other three do.
pub record MemberView : Type 0 where
  pub organization_id : Text
  pub organization_slug : Text
  pub organization_name : Text
  pub role : OrganizationRole

pub record Profile : Type 0 where
  pub user_id : Text
  pub email : Text
  pub display_name : Option Text
  pub memberships : List MemberView

pub record AuthAnswer : Type 0 where
  pub profile : Profile
  pub access_token : Text
  pub refresh_token : Text

abbrev pub user_by_id : Text → AuthDb → Option User
user_by_id id db = find_first (λ u. text_eq u.id id) db.users

abbrev pub organization_by_id : Text → AuthDb → Option Organization
organization_by_id id db = find_first (λ o. text_eq o.id id) db.organizations

abbrev pub member_view : Membership → Organization → MemberView
member_view membership organization = record {
  organization_id = organization.id;
  organization_slug = organization.slug;
  organization_name = organization.name;
  role = membership.role;
}

-- The memberships with their organizations; a foreign key gives each its own.
unfoldable pub views_of : AuthDb → List Membership → List MemberView
views_of db [] = []
views_of db (m ∷ ms) =
    let rest = views_of db ms in
    elim (organization_by_id m.organization_id db) [
      | none ↦ rest
      | some organization ↦ member_view m organization ∷ rest
    ]

-- `order` is the sort by role and name that the query asks of the database.
unfoldable pub get_me : (List MemberView → List MemberView) → Text → AuthDb → Response Profile
unfolding views_of
get_me order user_id db = elim (user_by_id user_id db) [
  | none ↦ refuse (unauthorized "User is not active")
  | some user ↦ refuse_if (not user.is_active) (unauthorized "User is not active") (
      reply (record {
        user_id = user.id;
        email = user.email;
        display_name = user.display_name;
        memberships = order (views_of db (filter (λ m. text_eq m.user_id user.id) db.memberships));
      }))
]

abbrev pub answer_with : Text → Text → Profile → Response AuthAnswer
answer_with access_token refresh_token profile =
    reply (record { profile = profile; access_token = access_token; refresh_token = refresh_token })

abbrev invalid_refresh : HttpError
invalid_refresh = unauthorized "Invalid refresh token"

-- The first part of `refresh`, which reads: the session of a token that may be rotated, and its user.
unfoldable pub check_refresh : AuthServices → ℕ → Text → AuthDb → Response (RefreshSession × User)
check_refresh services now token db = elim (services.verify_refresh_token token) [
  | none ↦ refuse invalid_refresh
  | some payload ↦ elim (find_first (has_id payload.sid) db.sessions) [
    | none ↦ refuse invalid_refresh
    | some session ↦ elim (user_by_id session.user_id db) [
      | none ↦ refuse invalid_refresh
      | some user ↦
          refuse_if (is_some session.revoked_at || leb session.expires_at now || not user.is_active)
            invalid_refresh
            (refuse_if (not (text_eq (services.hash_refresh_token token) session.token_hash))
              invalid_refresh (reply (session, user)))
    ]
  ]
]

abbrev pub or_option : Option Text → Option Text → Option Text
or_option none other = other
or_option (some a) other = some a

-- The second part: a new session in place of the one that was read. The new token is verified for
-- its end; a token that is not accepted makes the call throw.
unfoldable pub commit_refresh :
    (order : List MemberView → List MemberView) (services : AuthServices)
    (metadata : RequestMetadata) (rotated_at : ℕ) (new_id token : Text)
    → RefreshSession × User
    → AuthDb
    → AuthDb × Response AuthAnswer
unfolding rotate get_me
commit_refresh order services metadata rotated_at new_id token (session, user) db =
    let next_token = services.create_refresh_token user.id new_id in
    on_found db (internal_error "Invalid refresh token payload")
      (services.verify_refresh_token next_token)
      λ payload.
        on_found db invalid_refresh
          (rotate rotated_at session.id (services.hash_refresh_token token)
            (new_session services new_id user.id next_token payload.exp
              (or_option metadata.user_agent session.user_agent)
              (or_option metadata.ip_address session.ip_address))
            db)
          λ db'. (
            db',
            get_me order user.id db'
                >>= answer_with (services.create_access_token user.id user.email) next_token,
          )
