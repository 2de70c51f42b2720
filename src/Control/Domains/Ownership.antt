-- ===== src/Control/Domains/Ownership.antt =====
-- internal/mailview/control/domains.go: verification of a hostname by DNS, and its revocation.
use mailview.Prelude.{
  ℕ, ◌+◌, ◌*◌, Bool, true, false, ◌&&◌, none, some, List, [], ◌∷◌, ◌++◌, ◌==◌, if◌then◌else◌, Bytes,
  codes, any, find, update, str_eq, trim_space, to_lower, Tx, not_found, ◌>>=◌, ◌>>◌, exec, gets,
  pure, some_or, in_tx,
}
use mailview.Control.Db.{Actor}
use mailview.Control.Domains.Table.{
  Method, txt, cname, DomainStatus, TlsStatus, TenantDomain, DomainDb, Lookup, values, failure,
  Resolver, log_domain,
}

abbrev pub is_domain : ℕ → ℕ → TenantDomain → Bool
is_domain t id d = d.tenant == t && d.id == id

abbrev pub is_verified : DomainStatus → Bool
is_verified DomainStatus.verified = true
is_verified _ = false

abbrev pub is_issued : TlsStatus → Bool
is_issued TlsStatus.issued = true
is_issued _ = false

abbrev pub day : ℕ
day = 24 * 3_600_000_000_000

-- The `UPDATE` of `updateTenantDomainStatus`
unfoldable pub with_status : DomainStatus → Bytes → ℕ → TenantDomain → TenantDomain
with_status DomainStatus.verified reason now d = record d {
  status = DomainStatus.verified;
  last_verified_at = some now;
  last_checked_at = some now;
  next_check_at = some (now + day);
  failure_reason = reason;
  tls_status = if is_issued d.tls_status then TlsStatus.issued else TlsStatus.pending;
  certificate_revoked_at = none;
}
with_status DomainStatus.pending reason now d = record d {
  status = DomainStatus.pending;
  last_checked_at = some now;
  next_check_at = none;
  failure_reason = reason;
}
with_status status reason now d = record d {
  status = status;
  last_checked_at = some now;
  next_check_at = none;
  failure_reason = reason;
  tls_status = TlsStatus.revoked;
  certificate_ref = [];
  certificate_revoked_at = some now;
}

unfoldable pub update_body :
    ℕ → ℕ → DomainStatus → Actor → Bytes → Bytes → ℕ → Tx DomainDb TenantDomain
update_body t id status actor action reason now = do
  found ← gets (λ db. find (is_domain t id) db.domains)
  domain ← some_or found not_found
  exec (λ db. record db {
    domains = update (is_domain t id) (with_status status reason now) db.domains;
  })
  exec (log_domain t actor action id)
  pure (with_status status reason now domain)

-- `updateTenantDomainStatus`
unfoldable pub update_tenant_domain_status :
    ℕ → ℕ → DomainStatus → Actor → Bytes → Bytes → ℕ → Tx DomainDb TenantDomain
unfolding update_body
update_tenant_domain_status t id status actor action reason now =
    in_tx (update_body t id status actor action reason now)

-- `RevokeTenantDomain`
unfoldable pub revoke_tenant_domain : ℕ → ℕ → Actor → ℕ → Tx DomainDb TenantDomain
revoke_tenant_domain t id actor now =
    update_tenant_domain_status t id DomainStatus.revoked actor (codes "tenant_domain.revoke")
      (codes "ownership revoked") now

abbrev pub trim_dot : Bytes → Bytes
trim_dot [] = []
trim_dot (c ∷ []) = if c == 46 then [] else c ∷ []
trim_dot (c ∷ d ∷ cs) = c ∷ trim_dot (d ∷ cs)

abbrev txt_result : TenantDomain → Lookup (List Bytes) → Bool × Bytes
txt_result d (failure e) = (false, codes "TXT lookup failed: " ++ e)
txt_result d (values vs) =
    if any (λ v. str_eq (trim_space v) d.verification_value) vs
    then (true, [])
    else (false, codes "expected TXT value not found")

abbrev cname_result : TenantDomain → Lookup Bytes → Bool × Bytes
cname_result d (failure e) = (false, codes "CNAME lookup failed: " ++ e)
cname_result d (values target) =
    if str_eq (trim_dot (to_lower target)) (trim_dot (to_lower d.verification_value))
    then (true, [])
    else (false, codes "CNAME target does not match")

-- `lookupDomainOwnership`
unfoldable pub lookup_domain_ownership : Resolver → TenantDomain → Bool × Bytes
lookup_domain_ownership dns d = by_method d.method
  where
    by_method : Method → Bool × Bytes
    by_method txt = txt_result d (dns.lookup_txt d.verification_name)
    by_method cname = cname_result d (dns.lookup_cname d.verification_name)

-- `VerifyTenantDomainDNS`: the row is read in a transaction of its own.
unfoldable pub verify_tenant_domain_dns : Resolver → ℕ → ℕ → Actor → ℕ → Tx DomainDb TenantDomain
unfolding lookup_domain_ownership
verify_tenant_domain_dns dns t id actor now = do
  found ← gets (λ db. find (is_domain t id) db.domains)
  domain ← some_or found not_found
  let answer = lookup_domain_ownership dns domain
  update_tenant_domain_status t id (if answer.0 then DomainStatus.verified else DomainStatus.failed)
      actor (codes "tenant_domain.verify") (if answer.0 then [] else answer.1) now
