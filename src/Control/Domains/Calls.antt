-- ===== src/Control/Domains/Calls.antt =====
-- Sequences of calls of domains.go, and what they do to the rows.
use mailview.Prelude.{
  ℕ, ◌-◌, ◌≡◌, refl, subst, Bool, true, false, ◌&&◌, some, List, [], ◌∷◌, leb, if◌then◌else◌, Bytes,
  any, find, filter, str_eq, trim_space, to_lower, arith, Bool-cases, Option-cases, inl, inr,
  is_empty, continue, invalid, not_found, guard_keeps, some_or_keeps, in_tx_keeps,
}
use mailview.Control.Db.{Actor, tenant_exists, Tenant, tenant_is_active}
use mailview.Control.Names.{valid_tenant_hostname}
use mailview.Control.Domains.Table.{
  TenantDomain, DomainStatus, TlsStatus, DomainDb, DomainInput, Resolver, Method, create_body,
  create_tenant_domain, clashes, method_of, is_owner, valid_domain_purpose,
}
use mailview.Control.Domains.Ownership.{
  is_domain, is_verified, is_issued, update_body, update_tenant_domain_status, revoke_tenant_domain,
  lookup_domain_ownership, verify_tenant_domain_dns,
}
use mailview.Control.Domains.Certificates.{
  tls_of, tls_body, write_tls, check_tls, set_tenant_domain_tls_status,
}
use mailview.Control.Domains.Renewal.{
  Progress, running, stopped, recheck_ids, recheck_tenants, due_ids, effective_limit,
  revalidate_due_domains,
}
use mailview.Control.Domains.Honesty.{IsSound, status-IsSound, tls-IsSound, new-IsSound, is_pending}

abbrev IsSoundDb : DomainDb → Type 0
IsSoundDb db = IsSound db.domains

create_body-IsSound :
    (id t : ℕ) (hostname purpose : Bytes) (method : Method) (raw : Bytes) (actor : Actor)
    (db : DomainDb)
    → IsSoundDb db
    → IsSoundDb (create_body id t hostname purpose method raw actor db).1
unfolding create_body
create_body-IsSound id t hostname purpose method raw actor db h =
    guard_keeps IsSoundDb (tenant_exists t db.control) not_found _ h (
      some_or_keeps IsSoundDb (find (is_owner db.control t) db.control.memberships) invalid _ h
        (λ owner e. elim (Bool-cases (any (clashes id hostname) db.domains)) [
          | inl taken ↦ rw taken h
          | inr free ↦ rw free (new-IsSound _ db.domains free (ground arith) h)
        ]))

create-IsSound :
    (is_ip : Bytes → Bool) (id t : ℕ) (input : DomainInput) (raw : Bytes) (actor : Actor)
    (db : DomainDb)
    → IsSoundDb db
    → IsSoundDb (create_tenant_domain is_ip id t input raw actor db).1
unfolding create_tenant_domain
create-IsSound is_ip id t input raw actor db h =
    guard_keeps IsSoundDb (valid_tenant_hostname is_ip (to_lower (trim_space input.hostname)))
      invalid _ h
      (guard_keeps IsSoundDb (any (str_eq input.purpose) valid_domain_purpose) invalid _ h (
        some_or_keeps IsSoundDb (method_of input.method) invalid _ h (λ method e.
          let body =
            create_body id t (to_lower (trim_space input.hostname)) input.purpose method raw
              actor in
          in_tx_keeps IsSoundDb body db h (create_body-IsSound id t _ _ method raw actor db h))))

update_status-IsSound :
    (t id : ℕ) (s : DomainStatus) (actor : Actor) (action reason : Bytes) (now : ℕ) (db : DomainDb)
    → is_pending s ≡ false
    → IsSoundDb db
    → IsSoundDb (update_tenant_domain_status t id s actor action reason now db).1
unfolding update_tenant_domain_status
update_status-IsSound t id s actor action reason now db p h =
    in_tx_keeps IsSoundDb (update_body t id s actor action reason now) db h
      (elim (Option-cases (find (is_domain t id) db.domains)) [
        | inl e ↦ rw e h
        | inr found ↦ let (d, e) = found in rw e (status-IsSound t id s reason now db.domains p h)
      ])

verify-IsSound :
    (dns : Resolver) (t id : ℕ) (actor : Actor) (now : ℕ) (db : DomainDb)
    → IsSoundDb db
    → IsSoundDb (verify_tenant_domain_dns dns t id actor now db).1
unfolding verify_tenant_domain_dns is_pending
verify-IsSound dns t id actor now db h = elim (Option-cases (find (is_domain t id) db.domains)) [
  | inl e ↦ rw e h
  | inr found ↦
      let (d, e) = found in
      rw e
        (update_status-IsSound t id _ actor _ _ now db (chosen (lookup_domain_ownership dns d).0) h)
]
  where
    chosen :
        (b : Bool) → is_pending (if b then DomainStatus.verified else DomainStatus.failed) ≡ false
    chosen true = refl
    chosen false = refl

write_tls-IsSound :
    (t id : ℕ) (s : TlsStatus) (ref : Bytes) (actor : Actor) (now : ℕ) (db : DomainDb)
    → ((d : TenantDomain)
        → find (is_domain t id) db.domains ≡ some d
        → is_issued s ≡ true
        → (is_verified d.status ≡ true) × (is_empty ref ≡ false))
    → IsSoundDb db
    → IsSoundDb (write_tls t id s ref actor now db).1
unfolding write_tls
write_tls-IsSound t id s ref actor now db can h =
    in_tx_keeps IsSoundDb (tls_body t id s ref actor now) db h
      (elim (Option-cases (find (is_domain t id) db.domains)) [
        | inl e ↦ rw e h
        | inr found ↦
            let (d, e) = found in rw e (tls-IsSound t id s ref now db.domains e (can d e) h)
      ])

set_tls-IsSound :
    (t id : ℕ) (status ref : Bytes) (actor : Actor) (now : ℕ) (db : DomainDb)
    → IsSoundDb db
    → IsSoundDb (set_tenant_domain_tls_status t id status ref actor now db).1
unfolding set_tenant_domain_tls_status
set_tls-IsSound t id status ref actor now db h =
    some_or_keeps IsSoundDb (tls_of (trim_space status)) invalid _ h (λ tls e.
      elim (Bool-cases (is_issued tls && is_empty (trim_space ref))) [
        | inl empty ↦ rw empty h
        | inr given ↦ rw given (checked tls given)
      ])
  where
    checked :
        (tls : TlsStatus)
        → (is_issued tls && is_empty (trim_space ref)) ≡ false
        → IsSoundDb
            (continue
              (check_tls t id tls db)
              (λ _. write_tls t id tls (trim_space ref) actor now)).1
    checked TlsStatus.issued given = elim (Option-cases (find (is_domain t id) db.domains)) [
      | inl e ↦ rw e h
      | inr found ↦
          let (d, e) = found in
          elim (Bool-cases (is_verified d.status)) [
            | inr bad ↦ rw (e, bad) h
            | inl good ↦
                rw (e, good)
                  (write_tls-IsSound t id TlsStatus.issued (trim_space ref) actor now db
                    (λ x q i.
                      let it : d ≡ x = cc in
                      (subst (λ z. is_verified z.status ≡ true) it good, given))
                    h)
          ]
    ]
    checked TlsStatus.tls_none given = write_tls-IsSound t id _ _ actor now db (λ d e q. cc) h
    checked TlsStatus.pending given = write_tls-IsSound t id _ _ actor now db (λ d e q. cc) h
    checked TlsStatus.failed given = write_tls-IsSound t id _ _ actor now db (λ d e q. cc) h
    checked TlsStatus.revoked given = write_tls-IsSound t id _ _ actor now db (λ d e q. cc) h

recheck_ids-IsSound :
    (dns : Resolver) (t : ℕ) (actor : Actor) (now : ℕ) (ids : List ℕ) (p : Progress) (db : DomainDb)
    → IsSoundDb db
    → IsSoundDb (recheck_ids dns t actor now ids p db).1
unfolding recheck_ids
recheck_ids-IsSound dns t actor now [] p db h = h
recheck_ids-IsSound dns t actor now (id ∷ ids) (stopped n e) db h = h
recheck_ids-IsSound dns t actor now (id ∷ ids) (running n) db h =
    recheck_ids-IsSound dns t actor now ids _ _ (verify-IsSound dns t id actor now db h)

recheck_tenants-IsSound :
    (dns : Resolver) (limit : ℕ) (actor : Actor) (now : ℕ) (ts : List Tenant) (p : Progress)
    (db : DomainDb)
    → IsSoundDb db
    → IsSoundDb (recheck_tenants dns limit actor now ts p db).1
unfolding recheck_tenants
recheck_tenants-IsSound dns limit actor now [] p db h = h
recheck_tenants-IsSound dns limit actor now (t ∷ ts) (stopped n e) db h = h
recheck_tenants-IsSound dns limit actor now (t ∷ ts) (running n) db h =
    elim (Bool-cases (leb limit n)) [
      | inl full ↦ rw full h
      | inr room ↦ rw room (
          recheck_tenants-IsSound dns limit actor now ts _ _ (
            recheck_ids-IsSound dns t.id actor now (due_ids t.id now (limit - n) db) (running n) db
              h))
    ]

-- The operations that write domains, as clients and the scheduler call them.
pub data Call : Type 0 where
  create : (Bytes → Bool) → ℕ → ℕ → DomainInput → Bytes → Actor → Call
  verify : Resolver → ℕ → ℕ → Actor → ℕ → Call
  revoke_call : ℕ → ℕ → Actor → ℕ → Call
  set_tls : ℕ → ℕ → Bytes → Bytes → Actor → ℕ → Call
  revalidate : Resolver → Actor → ℕ → ℕ → Call

unfoldable pub perform : Call → DomainDb → DomainDb
perform (create is_ip id t input raw actor) db =
    (create_tenant_domain is_ip id t input raw actor db).1
perform (verify dns t id actor now) db = (verify_tenant_domain_dns dns t id actor now db).1
perform (revoke_call t id actor now) db = (revoke_tenant_domain t id actor now db).1
perform (set_tls t id status ref actor now) db =
    (set_tenant_domain_tls_status t id status ref actor now db).1
perform (revalidate dns actor limit now) db = (revalidate_due_domains dns actor limit now db).1

unfoldable pub perform_all : List Call → DomainDb → DomainDb
unfolding perform
perform_all [] db = db
perform_all (c ∷ cs) db = perform_all cs (perform c db)

perform-IsSound : (c : Call) (db : DomainDb) → IsSoundDb db → IsSoundDb (perform c db)
unfolding perform revoke_tenant_domain revalidate_due_domains is_pending
perform-IsSound (create is_ip id t input raw actor) db h =
    create-IsSound is_ip id t input raw actor db h
perform-IsSound (verify dns t id actor now) db h = verify-IsSound dns t id actor now db h
perform-IsSound (revoke_call t id actor now) db h =
    update_status-IsSound t id _ actor _ _ now db refl h
perform-IsSound (set_tls t id status ref actor now) db h =
    set_tls-IsSound t id status ref actor now db h
perform-IsSound (revalidate dns actor limit now) db h =
    recheck_tenants-IsSound dns (effective_limit limit) actor now
      (filter (λ (t : Tenant). tenant_is_active t.status) db.control.tenants) (running 0) db h

-- Calls that are not interleaved keep the table sound, whether each succeeds or fails and whatever
-- the resolvers answer: ids and hostnames stay unique, a certificate is issued only while its
-- hostname is verified and then has a reference, a hostname that is not verified has no reference,
-- and a verified one has the time of its verification.
pub perform_all_domains-IsSound :
    (cs : List Call) (db : DomainDb) → IsSound db.domains → IsSound (perform_all cs db).domains
unfolding perform_all
perform_all_domains-IsSound [] db h = h
perform_all_domains-IsSound (c ∷ cs) db h =
    perform_all_domains-IsSound cs (perform c db) (perform-IsSound c db h)
