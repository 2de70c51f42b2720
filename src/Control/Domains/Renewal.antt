-- ===== src/Control/Domains/Renewal.antt =====
-- internal/mailview/control/domains.go: the periodic check of verified hostnames.
use mailview.Prelude.{
  ℕ, ◌+◌, ◌-◌, Bool, false, ◌&&◌, ◌||◌, Option, none, some, List, [], ◌∷◌, ◌==◌, ltb, leb,
  if◌then◌else◌, filter, take, map, Result, ok, err, Error,
}
use mailview.Control.Db.{Tenant, Actor, tenant_is_active}
use mailview.Control.Domains.Table.{TenantDomain, DomainDb, Resolver}
use mailview.Control.Domains.Ownership.{is_verified, verify_tenant_domain_dns}

-- `RevalidateDueDomains`
abbrev pub is_due : ℕ → ℕ → TenantDomain → Bool
is_due t now d = d.tenant == t && is_verified d.status && due d.next_check_at
  where
    due : Option ℕ → Bool
    due none = false
    due (some at) = leb at now

abbrev next_check : TenantDomain → ℕ
next_check d = at_time d.next_check_at
  where
    at_time : Option ℕ → ℕ
    at_time none = 0
    at_time (some at) = at

-- `ORDER BY next_check_at`
abbrev insert_due : TenantDomain → List TenantDomain → List TenantDomain
insert_due d [] = d ∷ []
insert_due d (e ∷ es) =
    let rest = insert_due d es in if leb (next_check d) (next_check e) then d ∷ e ∷ es else e ∷ rest

abbrev pub sort_due : List TenantDomain → List TenantDomain
sort_due [] = []
sort_due (d ∷ ds) = insert_due d (sort_due ds)

-- The number of checks so far, and the error that ended the run, if any.
pub data Progress : Type 0 where
  running : ℕ → Progress
  stopped : ℕ → Error → Progress

abbrev pub count : Progress → ℕ
count (running n) = n
count (stopped n e) = n

abbrev pub after_check : ℕ → Result TenantDomain → Progress
after_check n (ok d) = running (n + 1)
after_check n (err e) = stopped n e

-- The loop over one tenant's due ids
unfoldable pub recheck_ids :
    Resolver → ℕ → Actor → ℕ → List ℕ → Progress → DomainDb → Progress × DomainDb
recheck_ids dns t actor now [] p db = (p, db)
recheck_ids dns t actor now (id ∷ ids) (stopped n e) db = (stopped n e, db)
recheck_ids dns t actor now (id ∷ ids) (running n) db =
    let r = verify_tenant_domain_dns dns t id actor now db in
    recheck_ids dns t actor now ids (after_check n r.0) r.1

abbrev pub due_ids : ℕ → ℕ → ℕ → DomainDb → List ℕ
due_ids t now most db =
    map (λ (d : TenantDomain). d.id) (take most (sort_due (filter (is_due t now) db.domains)))

-- The loop over the active tenants
unfoldable pub recheck_tenants :
    Resolver → ℕ → Actor → ℕ → List Tenant → Progress → DomainDb → Progress × DomainDb
unfolding recheck_ids
recheck_tenants dns limit actor now [] p db = (p, db)
recheck_tenants dns limit actor now (t ∷ ts) (stopped n e) db = (stopped n e, db)
recheck_tenants dns limit actor now (t ∷ ts) (running n) db =
    let done = recheck_ids dns t.id actor now (due_ids t.id now (limit - n) db) (running n) db in
    let rest = recheck_tenants dns limit actor now ts done.0 done.1 in
    if leb limit n then (running n, db) else rest

abbrev pub effective_limit : ℕ → ℕ
effective_limit limit = if ltb limit 1 || ltb 500 limit then 100 else limit

-- A limit below zero is given as 0: both mean 100.
unfoldable pub revalidate_due_domains : Resolver → Actor → ℕ → ℕ → DomainDb → Progress × DomainDb
unfolding recheck_tenants
revalidate_due_domains dns actor limit now db =
    recheck_tenants dns (effective_limit limit) actor now
      (filter (λ (t : Tenant). tenant_is_active t.status) db.control.tenants) (running 0) db
