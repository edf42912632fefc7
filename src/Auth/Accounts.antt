-- ===== src/Auth/Accounts.antt =====
-- `register`, `login`, `refresh` and `resolveTenantMembership` of apps/api/src/auth/auth.service.ts,
-- each from its request to its answer.
use autonomous_csa.Base.{
  Bool, true, false, not, ◌&&◌, ◌||◌, List, [], ◌∷◌, Option, none, some, ℕ, Text, text_eq, trim,
  any, find_first, if◌then◌else◌, or_else, and_then,
}
use autonomous_csa.Http.{
  Response, unauthorized, conflict, internal_error, ◌>>=◌, on_found, on_reply, throw_if,
}
use autonomous_csa.Auth.Slug.{normalize_email, normalize_organization_slug}
use autonomous_csa.Auth.Sessions.{
  OrganizationRole, owner, Organization, Membership, AuthDb, AuthServices, RequestMetadata,
  RefreshSession, MemberView, AuthAnswer, add_session, new_session, user_by_id, organization_by_id,
  get_me, answer_with, check_refresh, commit_refresh,
}

-- The session of a user who has just shown who they are, and its two tokens.
unfoldable pub open_session :
    (order : List MemberView → List MemberView)
    → AuthServices
    → RequestMetadata
    → (session_id : Text) → (user_id email : Text) → AuthDb
    → AuthDb × Response AuthAnswer
unfolding add_session get_me
open_session order services metadata session_id user_id email db =
    let token = services.create_refresh_token user_id session_id in
    on_found db (internal_error "Invalid refresh token payload")
      (services.verify_refresh_token token)
      λ payload.
        on_found db (internal_error "Unique constraint failed")
          (add_session
            (new_session services session_id user_id token payload.exp metadata.user_agent
              metadata.ip_address)
            db)
          λ db'. (
            db',
            get_me order user_id db'
                >>= answer_with (services.create_access_token user_id email) token,
          )

pub record LoginDto : Type 0 where
  pub email : Text
  pub password : Text

-- `limited` is the outcome of the rate limiter.
unfoldable pub login :
    (List MemberView → List MemberView)
    → AuthServices
    → RequestMetadata
    → Response (Unit {0})
    → Text
    → LoginDto
    → AuthDb
    → AuthDb × Response AuthAnswer
unfolding open_session normalize_email
login order services metadata limited session_id dto db =
    let email = normalize_email services.to_lower_case dto.email in
    on_reply db limited λ _.
      on_found db (unauthorized "Invalid email or password")
        (find_first (λ u. text_eq u.normalized_email email) db.users)
        λ user.
          throw_if db
            (not (user.is_active && services.verify_password user.password_hash dto.password))
            (unauthorized "Invalid email or password")
            (open_session order services metadata session_id user.id user.email db)

pub record RegisterDto : Type 0 where
  pub email : Text
  pub password : Text
  pub display_name : Option Text
  pub organization_name : Text
  pub organization_slug : Option Text

-- The identifiers that `randomUUID` gives in a request.
pub record NewIds : Type 0 where
  pub user_id : Text
  pub organization_id : Text
  pub membership_id : Text
  pub session_id : Text

-- `text?.trim() || null`.
abbrev pub trimmed_or_null : Option Text → Option Text
trimmed_or_null none = none
trimmed_or_null (some text) = elim (trim text) [ [] ↦ none | ◌∷◌ c s ↦ some (c ∷ s) ]

-- The rows that the transaction of `register` creates before the session's; the database refuses what
-- is there already.
unfoldable pub create_account :
    AuthServices → NewIds → RegisterDto → (email slug : Text) → AuthDb → Option AuthDb
create_account services ids dto email slug db =
    if any (λ u. text_eq u.id ids.user_id || text_eq u.normalized_email email) db.users
      || any (λ o. text_eq o.id ids.organization_id || text_eq o.slug slug) db.organizations
      || any (λ m. text_eq m.id ids.membership_id) db.memberships
    then none
    else some (record db {
      users =
          record {
            id = ids.user_id;
            email = email;
            normalized_email = email;
            password_hash = services.hash_password dto.password;
            display_name = trimmed_or_null dto.display_name;
            is_active = true;
          }
          ∷ db.users;
      organizations =
          record { id = ids.organization_id; name = trim dto.organization_name; slug = slug }
          ∷ db.organizations;
      settings = ids.organization_id ∷ db.settings;
      memberships =
          record {
            id = ids.membership_id;
            user_id = ids.user_id;
            organization_id = ids.organization_id;
            role = owner;
          }
          ∷ db.memberships;
    })

-- The transaction of `register`.
unfoldable pub create_rows :
    AuthServices
    → NewIds
    → RegisterDto
    → (email slug : Text) → RefreshSession
    → AuthDb
    → Option AuthDb
unfolding create_account add_session
create_rows services ids dto email slug session db =
    and_then (create_account services ids dto email slug db) (add_session session)

-- The part of `register` behind its checks.
unfoldable pub commit_registration :
    (List MemberView → List MemberView)
    → AuthServices
    → RequestMetadata
    → NewIds
    → RegisterDto
    → (email slug : Text) → AuthDb
    → AuthDb × Response AuthAnswer
unfolding create_rows get_me
commit_registration order services metadata ids dto email slug db =
    let token = services.create_refresh_token ids.user_id ids.session_id in
    on_found db (internal_error "Invalid refresh token payload")
      (services.verify_refresh_token token)
      λ payload.
        on_found db (internal_error "Unique constraint failed")
          (create_rows services ids dto email slug
            (new_session services ids.session_id ids.user_id token payload.exp metadata.user_agent
              metadata.ip_address)
            db)
          λ db'. (
            db',
            get_me order ids.user_id db'
                >>= answer_with (services.create_access_token ids.user_id email) token,
          )

unfoldable pub register :
    (List MemberView → List MemberView)
    → AuthServices
    → RequestMetadata
    → NewIds
    → RegisterDto
    → AuthDb
    → AuthDb × Response AuthAnswer
unfolding commit_registration normalize_email normalize_organization_slug
register order services metadata ids dto db =
    let email = normalize_email services.to_lower_case dto.email in
    on_reply db
      (normalize_organization_slug services.to_lower_case
        (or_else dto.organization_slug dto.organization_name))
      λ slug.
        throw_if db (any (λ u. text_eq u.normalized_email email) db.users)
          (conflict "Email is already in use")
          (throw_if db (any (λ o. text_eq o.slug slug) db.organizations)
            (conflict "Organization slug is already in use")
            (commit_registration order services metadata ids dto email slug db))

-- `refresh`, where nothing happens between its two parts.
unfoldable pub refresh :
    (List MemberView → List MemberView)
    → AuthServices
    → RequestMetadata
    → (checked_at rotated_at : ℕ) → (new_id token : Text) → AuthDb
    → AuthDb × Response AuthAnswer
unfolding check_refresh commit_refresh
refresh order services metadata checked_at rotated_at new_id token db =
    on_reply db (check_refresh services checked_at token db)
      λ found. commit_refresh order services metadata rotated_at new_id token found db

pub record TenantMembership : Type 0 where
  pub membership_id : Text
  pub organization_id : Text
  pub organization_slug : Text
  pub organization_name : Text
  pub role : OrganizationRole

abbrev pub is_active_user : Text → AuthDb → Bool
is_active_user user_id db = elim (user_by_id user_id db) [
  | none ↦ false
  | some user ↦ user.is_active
]

abbrev pub tenant_view : Membership → Organization → TenantMembership
tenant_view membership organization = record {
  membership_id = membership.id;
  organization_id = organization.id;
  organization_slug = organization.slug;
  organization_name = organization.name;
  role = membership.role;
}

unfoldable pub resolve_tenant_membership :
    (user_id organization_id : Text) → AuthDb → Option TenantMembership
resolve_tenant_membership user_id organization_id db =
    and_then
      (find_first
        (λ m.
          text_eq m.user_id user_id
          && text_eq m.organization_id organization_id
          && is_active_user m.user_id db)
        db.memberships)
      λ membership.
        and_then (organization_by_id membership.organization_id db)
          λ organization. some (tenant_view membership organization)
