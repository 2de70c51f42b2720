-- ===== src/Control/Domains/Honesty.antt =====
-- A well-formed row of mv_tenant_domains, and the changes that the operations of domains.go make.
use mailview.Prelude.{
  ℕ, ◌≡◌, refl, ap, Bool, true, false, ◌&&◌, some, List, [], ◌∷◌, ◌++◌, ◌==◌, Bytes, any, all, find,
  update, str_eq, is_empty, arith, is_some, All, All-concat, All-mem, All-update, IsKeyed,
  IsKeyed-concat, IsKeyed-update, All-update_each, any-weaken, mem-find,
}
use mailview.Control.Domains.Table.{TenantDomain, DomainStatus, TlsStatus, clashes}
use mailview.Control.Domains.Ownership.{is_domain, is_verified, is_issued, with_status}
use mailview.Control.Domains.Certificates.{with_tls}

-- A certificate is issued for a verified hostname only and then has a reference; a hostname that is
-- not verified has none; a verified one has the time of its verification.
pub record IsHonest (d : TenantDomain) : Type 0 where
  pub issued :
      is_issued d.tls_status ≡ true
      → (is_verified d.status ≡ true) × (is_empty d.certificate_ref ≡ false)
  pub unverified : is_verified d.status ≡ false → is_empty d.certificate_ref ≡ true
  pub verified : is_verified d.status ≡ true → is_some d.last_verified_at ≡ true

abbrev pub same_id : TenantDomain → TenantDomain → Bool
same_id d e = d.tenant == e.tenant && d.id == e.id

abbrev pub same_host : TenantDomain → TenantDomain → Bool
same_host d e = str_eq d.hostname e.hostname

pub record IsSound (domains : List TenantDomain) : Type 0 where
  pub keyed : IsKeyed same_id domains
  pub unique : IsKeyed same_host domains
  pub honest : All IsHonest domains

unfoldable pub is_pending : DomainStatus → Bool
is_pending DomainStatus.pending = true
is_pending _ = false

with_status-IsHonest :
    (s : DomainStatus) (reason : Bytes) (now : ℕ) (d : TenantDomain)
    → is_pending s ≡ false
    → IsHonest d
    → IsHonest (with_status s reason now d)
unfolding with_status is_pending
with_status-IsHonest DomainStatus.pending reason now d p h = cc
with_status-IsHonest DomainStatus.verified reason now d p h = ground (arith, h.issued)
with_status-IsHonest DomainStatus.failed reason now d p h = ground arith
with_status-IsHonest DomainStatus.revoked reason now d p h = ground arith

with_tls-IsHonest :
    (s : TlsStatus) (ref : Bytes) (now : ℕ) (d : TenantDomain)
    → (is_issued s ≡ true → (is_verified d.status ≡ true) × (is_empty ref ≡ false))
    → IsHonest d
    → IsHonest (with_tls s ref now d)
unfolding with_tls
with_tls-IsHonest TlsStatus.issued ref now d p h = ground (arith, p refl, h.verified)
with_tls-IsHonest TlsStatus.tls_none ref now d p h = ground (arith, h.unverified, h.verified)
with_tls-IsHonest TlsStatus.pending ref now d p h = ground (arith, h.unverified, h.verified)
with_tls-IsHonest TlsStatus.failed ref now d p h = ground (arith, h.unverified, h.verified)
with_tls-IsHonest TlsStatus.revoked ref now d p h = ground (arith, h.unverified, h.verified)

-- An update of a row's own state keeps the keys.
module _ (t id : ℕ) (f : TenantDomain → TenantDomain) where
  update-IsSound :
      ((d e : TenantDomain) → same_id (f d) e ≡ same_id d e)
      → ((d e : TenantDomain) → same_id e (f d) ≡ same_id e d)
      → ((d e : TenantDomain) → same_host (f d) e ≡ same_host d e)
      → ((d e : TenantDomain) → same_host e (f d) ≡ same_host e d)
      → (ds : List TenantDomain) → IsSound ds
      → All IsHonest (update (is_domain t id) f ds)
      → IsSound (update (is_domain t id) f ds)
  update-IsSound l r hl hr ds s all = record {
    keyed = IsKeyed-update same_id (is_domain t id) f l r ds s.keyed;
    unique = IsKeyed-update same_host (is_domain t id) f hl hr ds s.unique;
    honest = all;
  }

with_status-keeps :
    (s : DomainStatus) (reason : Bytes) (now : ℕ) (d : TenantDomain)
    → ((with_status s reason now d).id ≡ d.id)
      × ((with_status s reason now d).tenant ≡ d.tenant)
      × ((with_status s reason now d).hostname ≡ d.hostname)
unfolding with_status
with_status-keeps s reason now d = ground arith

with_tls-keeps :
    (s : TlsStatus) (ref : Bytes) (now : ℕ) (d : TenantDomain)
    → ((with_tls s ref now d).id ≡ d.id)
      × ((with_tls s ref now d).tenant ≡ d.tenant)
      × ((with_tls s ref now d).hostname ≡ d.hostname)
unfolding with_tls
with_tls-keeps s ref now d = ground arith

pub status-IsSound :
    (t id : ℕ) (s : DomainStatus) (reason : Bytes) (now : ℕ) (ds : List TenantDomain)
    → is_pending s ≡ false
    → IsSound ds
    → IsSound (update (is_domain t id) (with_status s reason now) ds)
status-IsSound t id s reason now ds p h =
    update-IsSound t id (with_status s reason now)
      (λ d e. ground (arith, with_status-keeps s reason now d))
      (λ d e. ground (arith, with_status-keeps s reason now d))
      (λ d e. ap (λ n. str_eq n e.hostname) (with_status-keeps s reason now d).2)
      (λ d e. ap (str_eq e.hostname) (with_status-keeps s reason now d).2) ds h
      (All-update_each IsHonest (is_domain t id) (with_status s reason now)
        (λ d e old. with_status-IsHonest s reason now d p old) ds h.honest)

-- A certificate is issued to the row that was found verified.
pub tls-IsSound :
    (t id : ℕ) (s : TlsStatus) (ref : Bytes) (now : ℕ) (ds : List TenantDomain) {d : TenantDomain}
    → find (is_domain t id) ds ≡ some d
    → (is_issued s ≡ true → (is_verified d.status ≡ true) × (is_empty ref ≡ false))
    → IsSound ds
    → IsSound (update (is_domain t id) (with_tls s ref now) ds)
tls-IsSound t id s ref now ds {d} found can h =
    update-IsSound t id (with_tls s ref now) (λ d e. ground (arith, with_tls-keeps s ref now d))
      (λ d e. ground (arith, with_tls-keeps s ref now d))
      (λ d e. ap (λ n. str_eq n e.hostname) (with_tls-keeps s ref now d).2)
      (λ d e. ap (str_eq e.hostname) (with_tls-keeps s ref now d).2) ds h
      (All-update IsHonest same_id (is_domain t id) (with_tls s ref now) (λ y z e. ground arith) ds
        h.keyed found h.honest
        (with_tls-IsHonest s ref now d can
          (All-mem IsHonest ds h.honest (mem-find (is_domain t id) ds found).0)))

-- A new row clashes with none.
pub new-IsSound :
    (d : TenantDomain) (ds : List TenantDomain)
    → any (clashes d.id d.hostname) ds ≡ false
    → IsHonest d
    → IsSound ds
    → IsSound (ds ++ d ∷ [])
new-IsSound d ds free honest h = record {
  keyed =
      IsKeyed-concat same_id ds d
        (any-weaken (clashes d.id d.hostname) (λ e. same_id e d) (λ e q. ground arith) ds free)
        h.keyed;
  unique =
      IsKeyed-concat same_host ds d
        (any-weaken (clashes d.id d.hostname) (λ e. same_host e d) (λ e q. ground arith) ds free)
        h.unique;
  honest = All-concat IsHonest ds d h.honest honest;
}
