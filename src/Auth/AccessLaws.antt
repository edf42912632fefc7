-- ===== src/Auth/AccessLaws.antt =====
-- What the guards of a route have established when its handler runs (apps/api/src/auth).
use autonomous_csa.Base.{
  and_then-some, ℕ, ◌≡◌, refl, ap, sym, ◌∙◌, subst, Bool, true, ◌&&◌, List, [], ◌∷◌, Option, none,
  some, Text, text_eq, trim, any, find_first, or_else, arith,
}
use autonomous_csa.Http.{Response, refuse, reply, bind_replied, refuse_if_replied}
use autonomous_csa.Auth.Tokens.{
  Claims, Codec, AuthTokenConfig, Verified, fails, holds, verify_access_token,
}
use autonomous_csa.Auth.Sessions.{
  OrganizationRole, owner, admin, agent, viewer, AuthDb, Membership, Organization,
  organization_by_id,
}
use autonomous_csa.Auth.Accounts.{
  TenantMembership, tenant_view, is_active_user, resolve_tenant_membership,
}
use autonomous_csa.Auth.Access.{
  AuthenticatedUser, user_of_token, bearer_token, jwt_access_guard, member_or_forbidden,
  tenant_context_guard, role_eq, is_role_allowed, roles_guard, guard_route,
}

abbrev pub is_active_member : AuthDb → Text → Text → Membership → Bool
is_active_member db user_id organization_id m =
    text_eq m.user_id user_id
    && text_eq m.organization_id organization_id
    && is_active_user m.user_id db

-- There is a row of this role among those that pass a test.
abbrev pub has_member : AuthDb → Text → Text → OrganizationRole → Bool
has_member db user_id organization_id role =
    any (λ m. is_active_member db user_id organization_id m && role_eq m.role role) db.memberships

role_eq_refl : (role : OrganizationRole) → role_eq role role ≡ true
role_eq_refl owner = refl
role_eq_refl admin = refl
role_eq_refl agent = refl
role_eq_refl viewer = refl

found_any :
    (p : Membership → Bool) (ms : List Membership) (m : Membership)
    → find_first p ms ≡ some m
    → any (λ x. p x && role_eq x.role m.role) ms ≡ true
found_any p [] m e = ground (arith, e)
found_any p (x ∷ ms) m e =
    ground (arith, e, found_any p ms m, role_eq_refl m.role, ap (λ o. or_else o m) e)

role_of_view :
    (m : Membership) (o : Organization) (tenant : TenantMembership)
    → some (tenant_view m o) ≡ some tenant
    → m.role ≡ tenant.role
role_of_view m o tenant e = ap (λ v. (or_else v tenant).role) e

resolve_lem :
    (user_id organization_id : Text) (db : AuthDb) (tenant : TenantMembership)
    → resolve_tenant_membership user_id organization_id db ≡ some tenant
    → has_member db user_id organization_id tenant.role ≡ true
unfolding resolve_tenant_membership
resolve_lem user_id organization_id db tenant e =
    let (m, found, rest) =
      and_then-some (find_first (is_active_member db user_id organization_id) db.memberships) _
        tenant e in
    let (o, _, same) = and_then-some (organization_by_id m.organization_id db) _ tenant rest in
    subst (λ role. has_member db user_id organization_id role ≡ true) (role_of_view m o tenant same)
      (found_any (is_active_member db user_id organization_id) db.memberships m found)

user_of_token_lem :
    (v : Verified Claims) (user : AuthenticatedUser)
    → user_of_token v ≡ reply user
    → (claims : Claims) × (v ≡ holds claims) × (user.user_id ≡ or_else claims.sub [])
user_of_token_lem (fails error) user e = ground (arith, e)
user_of_token_lem (holds claims) user e = (claims, refl, ground (arith, e))

jwt_lem :
    (codec : Codec) (config : AuthTokenConfig) (now : ℕ) (authorization : Option Text)
    (user : AuthenticatedUser)
    → jwt_access_guard codec config now authorization ≡ reply user
    → (header : Text) × (claims : Claims) × (authorization ≡ some header)
      × (verify_access_token codec config now (bearer_token header) ≡ holds claims)
      × (user.user_id ≡ or_else claims.sub [])
unfolding jwt_access_guard
jwt_lem codec config now none user e = ground (arith, e)
jwt_lem codec config now (some header) user e =
    let (_, accepted) =
      refuse_if_replied _ _
        (user_of_token (verify_access_token codec config now (bearer_token header))) user e in
    let (claims, verified, is_user) =
      user_of_token_lem (verify_access_token codec config now (bearer_token header)) user
        accepted in
    (header, claims, refl, verified, is_user)

reply_lem {ℓ} : {A : Type ℓ} (a b : A) → ◌≡◌ {A = Response A} (reply a) (reply b) → a ≡ b
reply_lem a b e = ap (λ r. elim r [ refuse error ↦ a | reply x ↦ x ]) e

member_lem :
    (o : Option TenantMembership) (tenant : TenantMembership)
    → member_or_forbidden o ≡ reply tenant
    → o ≡ some tenant
member_lem none tenant e = ground (arith, e)
member_lem (some t) tenant e = ground (arith, e)

tenant_lem :
    (db : AuthDb) (organization : Option Text) (user : AuthenticatedUser)
    (tenant : TenantMembership)
    → tenant_context_guard db organization user ≡ reply tenant
    → (header : Text) × (organization ≡ some header)
      × (has_member db user.user_id (trim header) tenant.role ≡ true)
unfolding tenant_context_guard
tenant_lem db none user tenant e = ground (arith, e)
tenant_lem db (some header) user tenant e =
    let (_, found) =
      refuse_if_replied _ _
        (member_or_forbidden (resolve_tenant_membership user.user_id (trim header) db)) tenant e in
    (
      header,
      refl,
      resolve_lem user.user_id (trim header) db tenant
          (member_lem (resolve_tenant_membership user.user_id (trim header) db) tenant found),
    )

roles_lem :
    (roles : List OrganizationRole) (t tenant : TenantMembership)
    → roles_guard roles t ≡ reply tenant
    → (is_role_allowed roles t.role ≡ true) × (t ≡ tenant)
unfolding roles_guard
roles_lem roles t tenant e =
    let (allowed, same) = refuse_if_replied _ _ (reply t) tenant e in
    (ground (arith, allowed), reply_lem t tenant same)

-- When the guards of a route let a request through, its bearer token is an access token that was
-- accepted and names the user, the header names an organization in which that user, who is active, has
-- a membership with the role that is passed on, and the route's roles allow that role.
pub guard_route_lem :
    (codec : Codec) (config : AuthTokenConfig) (now : ℕ) (db : AuthDb)
    (roles : List OrganizationRole) (authorization organization : Option Text)
    (user : AuthenticatedUser) (tenant : TenantMembership)
    → guard_route codec config now db roles authorization organization ≡ reply (user, tenant)
    → (bearer : Text) × (claims : Claims) × (header : Text) × (authorization ≡ some bearer)
      × (verify_access_token codec config now (bearer_token bearer) ≡ holds claims)
      × (user.user_id ≡ or_else claims.sub [])
      × (organization ≡ some header)
      × (has_member db user.user_id (trim header) tenant.role ≡ true)
      × (is_role_allowed roles tenant.role ≡ true)
unfolding guard_route roles_guard
guard_route_lem codec config now db roles authorization organization user tenant e =
    let (u, is_u, rest) =
      bind_replied (jwt_access_guard codec config now authorization) _ (user, tenant) e in
    let (t, is_t, last) =
      bind_replied (tenant_context_guard db organization u) _ (user, tenant) rest in
    let (a, is_a, same) = bind_replied (roles_guard roles t) _ (user, tenant) last in
    let pair = reply_lem (u, a) (user, tenant) same in
    let u_is = ap (λ p. p.0) pair in
    let (allowed, t_is_a) = roles_lem roles t a is_a in
    let t_is = t_is_a ∙ ap (λ p. p.1) pair in
    let (bearer, claims, is_header, verified, is_user) =
      jwt_lem codec config now authorization user (is_u ∙ ap reply u_is) in
    let (header, is_organization, member) =
      tenant_lem db organization user tenant
        (ap (tenant_context_guard db organization) (sym u_is) ∙ is_t ∙ ap reply t_is) in
    (
      bearer,
      claims,
      header,
      is_header,
      verified,
      is_user,
      is_organization,
      member,
      ap (λ x. is_role_allowed roles x.role) (sym t_is) ∙ allowed,
    )
