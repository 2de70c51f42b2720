-- ===== src/Control/Domains/Certificates.antt =====
-- internal/mailview/control/domains.go: the state of certificates.
use mailview.Prelude.{
  ℕ, not, ◌&&◌, Option, none, some, [], if◌then◌else◌, Bytes, codes, find, update, is_empty, str_eq,
  trim_space, Tx, invalid, not_found, ◌>>=◌, ◌>>◌, exec, gets, guard, pure, some_or, in_tx,
}
use mailview.Control.Db.{Actor}
use mailview.Control.Domains.Table.{TlsStatus, TenantDomain, DomainDb, log_domain}
use mailview.Control.Domains.Ownership.{is_domain, is_verified, is_issued}

-- The states that `SetTenantDomainTLSStatus` accepts
abbrev pub tls_of : Bytes → Option TlsStatus
tls_of s =
    if str_eq s (codes "pending")
    then some TlsStatus.pending
    else if str_eq s (codes "issued")
    then some TlsStatus.issued
    else if str_eq s (codes "failed")
    then some TlsStatus.failed
    else if str_eq s (codes "revoked")
    then some TlsStatus.revoked
    else none

-- The `UPDATE` of `SetTenantDomainTLSStatus`
unfoldable pub with_tls : TlsStatus → Bytes → ℕ → TenantDomain → TenantDomain
with_tls TlsStatus.issued ref now d = record d {
  tls_status = TlsStatus.issued;
  certificate_ref = ref;
  certificate_revoked_at = none;
}
with_tls TlsStatus.revoked ref now d = record d {
  tls_status = TlsStatus.revoked;
  certificate_ref = [];
  certificate_revoked_at = some now;
}
with_tls status ref now d = record d { tls_status = status }

unfoldable pub tls_body : ℕ → ℕ → TlsStatus → Bytes → Actor → ℕ → Tx DomainDb TenantDomain
tls_body t id status ref actor now = do
  found ← gets (λ db. find (is_domain t id) db.domains)
  domain ← some_or found not_found
  exec (λ db. record db { domains = update (is_domain t id) (with_tls status ref now) db.domains })
  exec (log_domain t actor (codes "tenant_domain.tls_status") id)
  pure (with_tls status ref now domain)

-- The transaction that writes the certificate's state.
unfoldable pub write_tls : ℕ → ℕ → TlsStatus → Bytes → Actor → ℕ → Tx DomainDb TenantDomain
unfolding tls_body
write_tls t id status ref actor now = in_tx (tls_body t id status ref actor now)

-- The transaction before it, for `issued` only: the hostname is verified.
abbrev pub issuable : ℕ → ℕ → Tx DomainDb Unit
issuable t id = do
  found ← gets (λ db. find (is_domain t id) db.domains)
  domain ← some_or found not_found
  guard (is_verified domain.status) invalid

abbrev pub check_tls : ℕ → ℕ → TlsStatus → Tx DomainDb Unit
check_tls t id TlsStatus.issued = issuable t id
check_tls t id _ = pure tt

-- `SetTenantDomainTLSStatus`: two transactions, one after the other.
unfoldable pub set_tenant_domain_tls_status :
    ℕ → ℕ → Bytes → Bytes → Actor → ℕ → Tx DomainDb TenantDomain
set_tenant_domain_tls_status t id status certificate_ref actor now = do
  found ← gets (λ db. tls_of (trim_space status))
  tls ← some_or found invalid
  guard (not (is_issued tls && is_empty (trim_space certificate_ref))) invalid
  check_tls t id tls
  write_tls t id tls (trim_space certificate_ref) actor now
