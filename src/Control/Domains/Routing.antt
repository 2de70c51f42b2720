-- ===== src/Control/Domains/Routing.antt =====
-- internal/mailview/control/domains.go: the tenant that a hostname routes to.
use mailview.Prelude.{
  ℕ, Bool, ◌&&◌, Option, none, some, List, [], ◌∷◌, ◌==◌, if◌then◌else◌, Bytes, any, is_empty,
  str_eq, trim_space, to_lower,
}
use mailview.Control.Db.{Tenant, tenant_is_active}
use mailview.Control.Domains.Table.{TenantDomain, DomainDb}
use mailview.Control.Domains.Ownership.{is_verified}

-- A row that routes a hostname in its tenant's scope: verified, of an active tenant.
abbrev pub routes : Bytes → ℕ → TenantDomain → Bool
routes h t d = d.tenant == t && str_eq d.hostname h && is_verified d.status

abbrev pub is_active_tenant : ℕ → Tenant → Bool
is_active_tenant t r = r.id == t && tenant_is_active r.status

-- The loop of `GetTenantByVerifiedHostname` over the active tenants
unfoldable pub first_route : Bytes → DomainDb → List Tenant → Option Tenant
first_route h db [] = none
first_route h db (t ∷ ts) =
    let rest = first_route h db ts in
    if tenant_is_active t.status && any (routes h t.id) db.domains then some t else rest

-- `GetTenantByVerifiedHostname`, its error being `ErrNotFound`. The loop is in the order of the ids;
-- which tenant is first matters only where two rows have one hostname.
unfoldable pub get_tenant_by_verified_hostname : Bytes → DomainDb → Option Tenant
unfolding first_route
get_tenant_by_verified_hostname hostname db =
    let h = to_lower (trim_space hostname) in
    let routed = first_route h db db.control.tenants in if is_empty h then none else routed
