-- ===== src/Control/Domains/Proven.antt =====
-- What DNS must show for a hostname of domains.go to be verified.
use mailview.Prelude.{
  ℕ, ◌≡◌, ◌⊎◌, refl, sym, ap, subst, ◌∙◌, true, false, none, some, List, [], Memᴰ, if◌then◌else◌,
  Bytes, codes, any, find, find-update_self, update, str_eq, str_eq_iff, trim_space, to_lower, ok,
  arith, Bool-cases, inl, inr, mem-any, any-mem, in_tx_ok, some_or_ok,
}
use mailview.Control.Db.{Actor}
use mailview.Control.Domains.Table.{
  TenantDomain, DomainStatus, TlsStatus, DomainDb, Resolver, Method, txt, cname, Lookup, values,
  failure,
}
use mailview.Control.Domains.Ownership.{
  is_domain, is_verified, with_status, update_body, update_tenant_domain_status, trim_dot,
  lookup_domain_ownership, verify_tenant_domain_dns,
}

-- What DNS has to answer: a TXT record with the token, or the token's alias.
abbrev pub IsProven : Resolver → TenantDomain → Type 0
IsProven dns d =
    ((d.method ≡ txt)
      × (vs : List Bytes) × (v : Bytes) × (dns.lookup_txt d.verification_name ≡ values vs)
      × Memᴰ v vs
      × (trim_space v ≡ d.verification_value))
    ⊎ ((d.method ≡ cname)
        × (target : Bytes) × (dns.lookup_cname d.verification_name ≡ values target)
        × (trim_dot (to_lower target) ≡ trim_dot (to_lower d.verification_value)))

Lookup-cases :
    {A : Type 0} (r : Lookup A) → ((a : A) × (r ≡ values a)) ⊎ ((e : Bytes) × (r ≡ failure e))
Lookup-cases (values a) = inl (a, refl)
Lookup-cases (failure e) = inr (e, refl)

Method-cases : (m : Method) → (m ≡ txt) ⊎ (m ≡ cname)
Method-cases txt = inl refl
Method-cases cname = inr refl

lookup→IsProven :
    (dns : Resolver) (d : TenantDomain) → (lookup_domain_ownership dns d).0 ≡ true → IsProven dns d
unfolding lookup_domain_ownership
lookup→IsProven dns d h = elim (Method-cases d.method) [
  | inl m ↦ elim (Lookup-cases (dns.lookup_txt d.verification_name)) [
    | inr bad ↦ absurd (ground (arith, rw (m, bad.1) at h))
    | inl good ↦
        let (vs, e) = good in
        elim (Bool-cases (any (λ v. str_eq (trim_space v) d.verification_value) vs)) [
          | inr miss ↦ absurd (ground (arith, rw (m, e, miss) at h))
          | inl hit ↦
              let (v, mem, eq) = mem-any (λ v. str_eq (trim_space v) d.verification_value) vs hit in
              inl (m, vs, v, e, mem, (str_eq_iff _ _).0 eq)
        ]
  ]
  | inr m ↦ elim (Lookup-cases (dns.lookup_cname d.verification_name)) [
    | inr bad ↦ absurd (ground (arith, rw (m, bad.1) at h))
    | inl good ↦
        let (target, e) = good in
        elim (Bool-cases
          (str_eq (trim_dot (to_lower target)) (trim_dot (to_lower d.verification_value)))) [
            | inr miss ↦ absurd (ground (arith, rw (m, e, miss) at h))
            | inl hit ↦ inr (m, target, e, (str_eq_iff _ _).0 hit)
          ]
  ]
]

IsProven→lookup :
    (dns : Resolver) (d : TenantDomain) → IsProven dns d → (lookup_domain_ownership dns d).0 ≡ true
unfolding lookup_domain_ownership
IsProven→lookup dns d (inl (m, vs, v, e, mem, eq)) =
    rw (m, e)
      (rw (any-mem (λ v. str_eq (trim_space v) d.verification_value) vs mem ((str_eq_iff _ _).1 eq))
        refl)
IsProven→lookup dns d (inr (m, target, e, eq)) = rw (m, e) (rw ((str_eq_iff _ _).1 eq) refl)

pub update_status_ok :
    (t id : ℕ) (s : DomainStatus) (actor : Actor) (action reason : Bytes) (now : ℕ) (db : DomainDb)
    {out : TenantDomain} {db' : DomainDb}
    → update_tenant_domain_status t id s actor action reason now db ≡ (ok out, db')
    → (d : TenantDomain) × (find (is_domain t id) db.domains ≡ some d)
      × (out ≡ with_status s reason now d)
      × (db'.domains ≡ update (is_domain t id) (with_status s reason now) db.domains)
unfolding update_tenant_domain_status
update_status_ok t id s actor action reason now db h =
    let (d, found, h1) =
      some_or_ok (find (is_domain t id) db.domains) _ _
        (in_tx_ok (update_body t id s actor action reason now) h) in
    (d, found, cc h1, sym (ap (λ r. r.1.domains) h1))

-- What a check leaves of the row `d`.
pub record Checked (dns : Resolver) (d out : TenantDomain) : Type 0 where
  pub same : out.hostname ≡ d.hostname
  pub sound : is_verified out.status ≡ true → IsProven dns d
  pub complete : IsProven dns d → is_verified out.status ≡ true
  pub withdrawn :
      is_verified out.status ≡ false
      → (out.status ≡ DomainStatus.failed)
        × (out.tls_status ≡ TlsStatus.revoked)
        × (out.certificate_ref ≡ [])
        × (out.next_check_at ≡ none)

checked :
    (dns : Resolver) (d : TenantDomain) (reason : Bytes) (now : ℕ)
    → Checked dns d (
        with_status
          (if (lookup_domain_ownership dns d).0 then DomainStatus.verified else DomainStatus.failed)
          reason
          now
          d)
unfolding with_status
checked dns d reason now = elim (Bool-cases (lookup_domain_ownership dns d).0) [
  | inl e ↦ rw e (record {
    same = refl;
    sound = λ q. lookup→IsProven dns d e;
    complete = λ q. refl;
    withdrawn = λ q. cc;
  })
  | inr e ↦ rw e (record {
    same = refl;
    sound = λ q. cc;
    complete = λ q. cc (e, IsProven→lookup dns d q);
    withdrawn = λ q. (refl, refl, refl, refl);
  })
]

with_status-is_domain :
    (t id : ℕ) (s : DomainStatus) (reason : Bytes) (now : ℕ) (d : TenantDomain)
    → is_domain t id d ≡ true
    → is_domain t id (with_status s reason now d) ≡ true
unfolding with_status
with_status-is_domain t id DomainStatus.verified reason now d h = h
with_status-is_domain t id DomainStatus.pending reason now d h = h
with_status-is_domain t id DomainStatus.failed reason now d h = h
with_status-is_domain t id DomainStatus.revoked reason now d h = h

-- A check that ended well returns the row as it then stands in the table: verified exactly when DNS
-- answered with the row's own challenge; otherwise failed, its certificate revoked and its reference
-- gone.
pub verify-Checked :
    (dns : Resolver) (t id : ℕ) (actor : Actor) (now : ℕ) (db : DomainDb) {out : TenantDomain}
    {db' : DomainDb}
    → verify_tenant_domain_dns dns t id actor now db ≡ (ok out, db')
    → (d : TenantDomain) × (find (is_domain t id) db.domains ≡ some d)
      × Checked dns d out
      × (find (is_domain t id) db'.domains ≡ some out)
unfolding verify_tenant_domain_dns
verify-Checked dns t id actor now db {out} {db'} h =
    let (d, found, h1) = some_or_ok (find (is_domain t id) db.domains) _ _ h in
    let answer = lookup_domain_ownership dns d in
    let (e, found', made, rows) =
      update_status_ok t id (if answer.0 then DomainStatus.verified else DomainStatus.failed) actor
        (codes "tenant_domain.verify") (if answer.0 then [] else answer.1) now db h1 in
    let it : d ≡ e = cc in
    (
      e,
      found',
      subst (Checked dns e)
          (ap
              (λ z.
                with_status
                  (if (lookup_domain_ownership dns z).0
                    then DomainStatus.verified
                    else DomainStatus.failed)
                  (if answer.0 then [] else answer.1) now e)
              (sym it)
            ∙ sym made)
          (checked dns e (if answer.0 then [] else answer.1) now),
      ap (find (is_domain t id)) rows
          ∙ find-update_self (is_domain t id) (is_domain t id)
              (with_status (if answer.0 then DomainStatus.verified else DomainStatus.failed)
                (if answer.0 then [] else answer.1) now)
              db.domains
              (λ y q.
                with_status-is_domain t id
                  (if answer.0 then DomainStatus.verified else DomainStatus.failed)
                  (if answer.0 then [] else answer.1) now y q)
              found'
          ∙ ap some (sym made),
    )
