-- ===== src/Auth/Access.antt =====
-- The guards of a route of the API, in the order in which the controllers list them: jwt-access.guard.ts,
-- tenant-context.guard.ts and roles.guard.ts of apps/api/src/auth. A header is looked up by name.
use autonomous_csa.Base.{
  ℕ, Bool, true, false, not, List, [], ◌∷◌, Option, none, some, Text, codes, starts_with, zero, suc,
  trim, any, or_else,
}
use autonomous_csa.Http.{
  Response, refuse, reply, refuse_if, unauthorized, bad_request, forbidden, ◌>>=◌,
}
use autonomous_csa.Auth.Tokens.{
  Claims, Codec, AuthTokenConfig, Verified, fails, holds, verify_access_token,
}
use autonomous_csa.Auth.Sessions.{OrganizationRole, owner, admin, agent, viewer, AuthDb}
use autonomous_csa.Auth.Accounts.{TenantMembership, resolve_tenant_membership}

pub record AuthenticatedUser : Type 0 where
  pub user_id : Text
  pub email : Text

-- `Array.prototype.slice(n)` of a text.
abbrev pub drop : ℕ → Text → Text
drop zero s = s
drop (suc n) [] = []
drop (suc n) (c ∷ s) = drop n s

abbrev user_of_claims : Claims → AuthenticatedUser
user_of_claims claims = record { user_id = or_else claims.sub []; email = or_else claims.email [] }

abbrev pub user_of_token : Verified Claims → Response AuthenticatedUser
user_of_token (fails e) = refuse (unauthorized "Invalid access token")
user_of_token (holds claims) = reply (user_of_claims claims)

abbrev pub bearer_token : Text → Text
bearer_token header = trim (drop 7 header)

unfoldable pub jwt_access_guard :
    Codec → AuthTokenConfig → ℕ → Option Text → Response AuthenticatedUser
unfolding starts_with verify_access_token trim
jwt_access_guard codec config now none = refuse (unauthorized "Missing bearer token")
jwt_access_guard codec config now (some header) =
    refuse_if (not (starts_with header (codes "Bearer "))) (unauthorized "Missing bearer token")
      (user_of_token (verify_access_token codec config now (bearer_token header)))

abbrev is_empty : Text → Bool
is_empty [] = true
is_empty (c ∷ s) = false

abbrev pub member_or_forbidden : Option TenantMembership → Response TenantMembership
member_or_forbidden none = refuse (forbidden "Forbidden")
member_or_forbidden (some membership) = reply membership

unfoldable pub tenant_context_guard :
    AuthDb → Option Text → AuthenticatedUser → Response TenantMembership
unfolding resolve_tenant_membership trim
tenant_context_guard db none user = refuse (bad_request "Missing X-Organization-Id header")
tenant_context_guard db (some header) user =
    refuse_if (is_empty (trim header)) (bad_request "Missing X-Organization-Id header")
      (member_or_forbidden (resolve_tenant_membership user.user_id (trim header) db))

abbrev pub role_eq : OrganizationRole → OrganizationRole → Bool
role_eq owner owner = true
role_eq admin admin = true
role_eq agent agent = true
role_eq viewer viewer = true
role_eq _ _ = false

abbrev pub read_org_roles : List OrganizationRole
read_org_roles = owner ∷ admin ∷ agent ∷ viewer ∷ []

abbrev pub mutating_org_roles : List OrganizationRole
mutating_org_roles = owner ∷ admin ∷ agent ∷ []

abbrev pub manage_org_roles : List OrganizationRole
manage_org_roles = owner ∷ admin ∷ []

-- A route without required roles is open to every member.
unfoldable pub is_role_allowed : List OrganizationRole → OrganizationRole → Bool
is_role_allowed [] role = true
is_role_allowed (r ∷ roles) role = any (role_eq role) (r ∷ roles)

unfoldable pub roles_guard : List OrganizationRole → TenantMembership → Response TenantMembership
unfolding is_role_allowed
roles_guard roles membership =
    refuse_if (not (is_role_allowed roles membership.role))
      (forbidden "Insufficient organization role") (reply membership)

-- The three guards of a route that requires these roles.
unfoldable pub guard_route :
    Codec
    → AuthTokenConfig
    → ℕ
    → AuthDb
    → List OrganizationRole
    → (authorization organization : Option Text) → Response (AuthenticatedUser × TenantMembership)
unfolding jwt_access_guard tenant_context_guard roles_guard
guard_route codec config now db roles authorization organization =
    jwt_access_guard codec config now authorization >>= λ user.
    tenant_context_guard db organization user >>= λ membership.
    roles_guard roles membership >>= λ allowed. reply (user, allowed)
