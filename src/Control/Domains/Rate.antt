-- ===== src/Control/Domains/Rate.antt =====
-- How many hostnames a run of `RevalidateDueDomains` of domains.go checks.
use mailview.Prelude.{
  ℕ, suc, ◌+◌, ◌-◌, ◌≤◌, ◌≡◌, refl, ap, List, [], ◌∷◌, map, leb, filter, length, take, Result, ok,
  err, arith, Bool-cases, inl, inr, length-take,
}
use mailview.Control.Db.{Actor, Tenant, tenant_is_active}
use mailview.Control.Domains.Table.{TenantDomain, DomainDb, Resolver}
use mailview.Control.Domains.Ownership.{verify_tenant_domain_dns}
use mailview.Control.Domains.Renewal.{
  Progress, running, stopped, count, recheck_ids, recheck_tenants, due_ids, effective_limit,
  revalidate_due_domains, after_check, sort_due, is_due,
}

length-map : (f : TenantDomain → ℕ) (ds : List TenantDomain) → length (map f ds) ≡ length ds
length-map f [] = refl
length-map f (d ∷ ds) = ap suc (length-map f ds)

count-after_check : (n : ℕ) (r : Result TenantDomain) → count (after_check n r) ≤ n + 1
count-after_check n (ok d) = omega arith
count-after_check n (err e) = omega arith

count-recheck_ids :
    (dns : Resolver) (t : ℕ) (actor : Actor) (now : ℕ) (ids : List ℕ) (p : Progress) (db : DomainDb)
    → count (recheck_ids dns t actor now ids p db).0 ≤ count p + length ids
unfolding recheck_ids
count-recheck_ids dns t actor now [] p db = omega arith
count-recheck_ids dns t actor now (id ∷ ids) (stopped n e) db = omega arith
count-recheck_ids dns t actor now (id ∷ ids) (running n) db = omega (
  arith,
  count-recheck_ids dns t actor now ids
      (after_check n (verify_tenant_domain_dns dns t id actor now db).0)
      (verify_tenant_domain_dns dns t id actor now db).1,
  count-after_check n (verify_tenant_domain_dns dns t id actor now db).0,
)

length-due_ids : (t now most : ℕ) (db : DomainDb) → length (due_ids t now most db) ≤ most
length-due_ids t now most db = omega (
  arith,
  length-map (λ (d : TenantDomain). d.id) (take most (sort_due (filter (is_due t now) db.domains))),
  length-take most (sort_due (filter (is_due t now) db.domains)),
)

count-recheck_tenants :
    (dns : Resolver) (limit : ℕ) (actor : Actor) (now : ℕ) (ts : List Tenant) (p : Progress)
    (db : DomainDb)
    → count p ≤ limit
    → count (recheck_tenants dns limit actor now ts p db).0 ≤ limit
unfolding recheck_tenants
count-recheck_tenants dns limit actor now [] p db h = h
count-recheck_tenants dns limit actor now (t ∷ ts) (stopped n e) db h = h
count-recheck_tenants dns limit actor now (t ∷ ts) (running n) db h =
    elim (Bool-cases (leb limit n)) [
      | inl full ↦ rw full h
      | inr room ↦
          let ids = due_ids t.id now (limit - n) db in
          rw room (
            count-recheck_tenants dns limit actor now ts _ _ (
              omega (
                arith,
                count-recheck_ids dns t.id actor now ids (running n) db,
                length-due_ids t.id now (limit - n) db,
              )))
    ]

-- A run checks no more hostnames than its limit, and never more than 500, whatever limit it is given
-- and whether or not it is stopped by an error.
revalidate_due_domains_bound :
    (dns : Resolver) (actor : Actor) (limit now : ℕ) (db : DomainDb)
    → (count (revalidate_due_domains dns actor limit now db).0 ≤ effective_limit limit)
      × (effective_limit limit ≤ 500)
unfolding revalidate_due_domains
revalidate_due_domains_bound dns actor limit now db = (
  count-recheck_tenants dns (effective_limit limit) actor now
      (filter (λ (t : Tenant). tenant_is_active t.status) db.control.tenants) (running 0) db
      (omega arith),
  ground arith,
)
