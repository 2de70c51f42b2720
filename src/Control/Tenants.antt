-- ===== src/Control/Tenants.antt =====
-- internal/mailview/control/service.go: tenants, their members and the members' roles. New ids are
-- arguments.
pub mod Roles
pub mod Owner
mod Examples
use mailview.Prelude.{
  ℕ, ◌+◌, Bool, true, false, not, ◌&&◌, ◌||◌, Option, none, some, List, [], ◌∷◌, ◌++◌, ◌==◌, ltb,
  leb, if◌then◌else◌, Bytes, codes, any, find, filter, update, length, str_eq, trim_space, is_empty,
  Tx, Result, ok, err, Error, zero, suc, invalid, conflict, not_found, user_not_found, invalid_role,
  external_failure, ◌>>=◌, ◌>>◌, exec, gets, guard, pure, some_or, in_tx, map,
}
use mailview.Control.Db.{
  Db, Tenant, TenantStatus, Membership, MembershipStatus, MemberRole, Role, Actor, owned_by,
  append_audit, tenant_exists, user_enabled,
}
use mailview.Control.Names.{normalize_slug}
use mailview.Control.Seeds.{seed_tenant_roles}

-- `count(*)`
abbrev pub count {ℓ} : {A : Type ℓ} → (A → Bool) → List A → ℕ
count p [] = 0
count p (x ∷ xs) = let rest = count p xs in if p x then suc rest else rest

-- `tenant_id = $1 AND id = ANY($2)`
abbrev pub is_listed : ℕ → List ℕ → Role → Bool
is_listed t ids r = owned_by r.tenant t && any (λ i. r.id == i) ids

-- `validateRoles`: as many of the tenant's roles are listed as there are ids.
unfoldable pub validate_roles : ℕ → List ℕ → Db → Bool
validate_roles t ids db = count (is_listed t ids) db.roles == length ids

-- One row for each id.
abbrev pub links : ℕ → List ℕ → List MemberRole
links m [] = []
links m (r ∷ rs) = record { membership = m; role = r } ∷ links m rs

pub record TenantInput : Type 0 where
  pub slug : Bytes
  pub name : Bytes
  pub owner : ℕ

-- The new ids of a tenant, of its roles (the first of seven) and of its owner's membership.
pub record NewIds : Type 0 where
  pub tenant : ℕ
  pub first_role : ℕ
  pub membership : ℕ

abbrev pub new_tenant : ℕ → Bytes → Bytes → Tenant
new_tenant t slug name = record { id = t; slug = slug; name = name; status = TenantStatus.active }

abbrev pub new_member : ℕ → ℕ → ℕ → Membership
new_member id t u = record { id = id; tenant = t; user = u; status = MembershipStatus.active }

-- The transaction of `CreateTenant`. The trigger on mv_tenants refuses a slug of mv_reserved_slugs.
unfoldable pub create_tenant_body : NewIds → Bytes → Bytes → ℕ → Actor → Tx Db Tenant
create_tenant_body ids slug name owner actor = do
  exists ← gets (user_enabled owner)
  guard exists user_not_found
  reserved ← gets (λ db. any (str_eq slug) db.reserved_slugs)
  guard (not reserved) external_failure
  taken ← gets (λ db. any (λ (r : Tenant). str_eq r.slug slug || r.id == ids.tenant) db.tenants)
  guard (not taken) conflict
  exec (λ db. record db { tenants = db.tenants ++ new_tenant ids.tenant slug name ∷ [] })
  exec (seed_tenant_roles ids.tenant ids.first_role)
  exec (λ db. record db {
    memberships = db.memberships ++ new_member ids.membership ids.tenant owner ∷ [];
    member_roles = db.member_roles ++ links ids.membership (ids.first_role ∷ []);
  })
  append_audit (some ids.tenant) actor (codes "tenant.create") ids.tenant
  pure (new_tenant ids.tenant slug name)

-- `CreateTenant`
unfoldable pub create_tenant : NewIds → TenantInput → Actor → Tx Db Tenant
create_tenant ids input actor = do
  found ← gets (λ db. normalize_slug input.slug)
  slug ← some_or found invalid
  let name = trim_space input.name
  guard (not (is_empty name) && leb (length name) 160 && leb 1 input.owner) invalid
  in_tx (create_tenant_body ids slug name input.owner actor)

-- `validTenantState`
abbrev pub status_of : Bytes → Option TenantStatus
status_of s =
    if str_eq s (codes "active")
    then some TenantStatus.active
    else if str_eq s (codes "suspended")
    then some TenantStatus.suspended
    else if str_eq s (codes "pending")
    then some TenantStatus.pending
    else if str_eq s (codes "offboarded")
    then some TenantStatus.offboarded
    else none

-- `UpdateTenantStatus`
unfoldable pub update_tenant_status : ℕ → Bytes → Actor → Tx Db Tenant
update_tenant_status t status actor = do
  found ← gets (λ db. status_of (trim_space status))
  new ← some_or found invalid
  in_tx do
    row ← gets (λ db. find (λ (r : Tenant). r.id == t) db.tenants)
    tenant ← some_or row not_found
    exec (λ db. record db {
      tenants = update (λ (r : Tenant). r.id == t) (λ r. record r { status = new }) db.tenants;
    })
    append_audit (some t) actor (codes "tenant.status.update") t
    pure (record tenant { status = new })

-- The transaction of `CreateMembership`, with `validateTenantAndUser`
unfoldable pub create_membership_body : ℕ → ℕ → ℕ → List ℕ → Actor → Tx Db Membership
create_membership_body id t user roles actor = do
  exists ← gets (tenant_exists t)
  guard exists not_found
  enabled ← gets (user_enabled user)
  guard enabled user_not_found
  valid ← gets (validate_roles t roles)
  guard valid invalid_role
  taken ← gets (λ db.
      any (λ (m : Membership). (m.tenant == t && m.user == user) || m.id == id) db.memberships)
  guard (not taken) conflict
  exec (λ db. record db {
    memberships = db.memberships ++ new_member id t user ∷ [];
    member_roles = db.member_roles ++ links id roles;
  })
  append_audit (some t) actor (codes "membership.create") id
  pure (new_member id t user)

-- `CreateMembership`
unfoldable pub create_membership : ℕ → ℕ → ℕ → List ℕ → Actor → Tx Db Membership
create_membership id t user roles actor = do
  guard (leb 1 user && leb 1 (length roles)) invalid
  in_tx (create_membership_body id t user roles actor)

abbrev pub is_link_of : ℕ → MemberRole → Bool
is_link_of m l = l.membership == m

-- The transaction of `ReplaceMembershipRoles`
unfoldable pub replace_body : ℕ → ℕ → List ℕ → Actor → Tx Db ℕ
replace_body t m roles actor = do
  found ← gets (λ db. find (λ (r : Membership). r.id == m && r.tenant == t) db.memberships)
  member ← some_or found not_found
  valid ← gets (validate_roles t roles)
  guard valid invalid_role
  exec (λ db. record db {
    member_roles = filter (λ l. not (is_link_of m l)) db.member_roles ++ links m roles;
  })
  append_audit (some t) actor (codes "membership.roles.replace") m
  pure member.user

-- `ReplaceMembershipRoles`: the affected user.
unfoldable pub replace_membership_roles : ℕ → ℕ → List ℕ → Actor → Tx Db ℕ
replace_membership_roles t m roles actor = do
  guard (leb 1 (length roles)) invalid
  in_tx (replace_body t m roles actor)
