-- ===== src/Control/Domains/Examples.antt =====
-- Runs of domains.go and of `NormalizeSlug` on one tenant, and the theorems at these runs.
use mailview.Prelude.{
  ◌≤◌, ◌≡◌, refl, Bool, true, false, some, List, [], ◌∷◌, Bytes, codes, any, find, all, str_eq,
  length, trim_left, trim_right, to_lower, trim_space, is_empty, ok, map,
}
use mailview.Control.Db.{Db, Actor, Tenant, TenantStatus, MembershipStatus, tenant_exists}
use mailview.Control.Names.{
  normalize_slug, normalize_slug_idem, label_pattern, labels, ends_alnum, hostname_pattern,
  valid_tenant_hostname, reserved_slugs,
}
use mailview.Control.Domains.Table.{
  TenantDomain, DomainStatus, TlsStatus, DomainDb, DomainInput, Resolver, values, failure,
  create_tenant_domain, create_body, domain_verification_record, new_domain, txt, new_token,
}
use mailview.Control.Domains.Ownership.{
  is_domain, with_status, update_body, update_tenant_domain_status, revoke_tenant_domain,
  lookup_domain_ownership, verify_tenant_domain_dns,
}
use mailview.Control.Domains.Certificates.{write_tls, tls_body, with_tls}
use mailview.Control.Domains.Routing.{get_tenant_by_verified_hostname}
use mailview.Control.Domains.Honesty.{IsSound}
use mailview.Control.Domains.Calls.{
  Call, create, verify, revoke_call, set_tls, revalidate, perform_all, perform_all_domains-IsSound,
}
use mailview.Control.Domains.Proven.{Checked, verify-Checked}
use mailview.Control.Domains.Routes.{Route, get_tenant_by_verified_hostname_lem}

abbrev control : Db
control = record {
  tenants =
      record { id = 7; slug = codes "acme"; name = codes "Acme"; status = TenantStatus.active }
      ∷ [];
  reserved_slugs = [];
  slug_history = [];
  users = [];
  memberships = record { id = 11; tenant = 7; user = 3; status = MembershipStatus.active } ∷ [];
  member_roles = record { membership = 11; role = 21 } ∷ [];
  roles = record { id = 21; tenant = some 7; name = codes "Tenant Owner"; is_system = true } ∷ [];
  permissions = [];
  role_permissions = [];
  denials = [];
  audit = [];
}

abbrev no_ips : Bytes → Bool
no_ips _ = false

abbrev input : DomainInput
input = record { hostname = codes " Mail.Acme.com"; purpose = codes "portal"; method = [] }

abbrev actor : Actor
actor = record { user = 3 }

abbrev raw : Bytes
raw = 171 ∷ 205 ∷ []

abbrev empty_db : DomainDb
empty_db = record { control = control; domains = [] }

abbrev created : DomainDb
created = (create_tenant_domain no_ips 31 7 input raw actor empty_db).1

abbrev domain : TenantDomain
domain = new_domain 31 7 (codes "mail.acme.com") (codes "portal") txt (new_token raw) 3 3

created_ok : create_tenant_domain no_ips 31 7 input raw actor empty_db ≡ (ok domain, created)
unfolding create_tenant_domain create_body valid_tenant_hostname hostname_pattern labels
    label_pattern ends_alnum tenant_exists domain_verification_record all any str_eq trim_left
    trim_right to_lower
created_ok = refl

empty-IsSound : IsSound empty_db.domains
empty-IsSound = record { keyed = tt; unique = tt; honest = tt }

-- The zone of the tenant, with the challenge published.
abbrev dns : Resolver
dns = record {
  lookup_txt = λ name. values (codes " mailview-verify-abcd" ∷ []);
  lookup_cname = λ name. failure (codes "none");
}

abbrev calls : List Call
calls =
    create no_ips 31 7 input raw actor
    ∷ verify dns 7 31 actor 100
    ∷ set_tls 7 31 (codes "issued") (codes "ref") actor 200
    ∷ revalidate dns actor 0 300
    ∷ revoke_call 7 31 actor 400
    ∷ []

perform_all_domains-IsSound_example : IsSound (perform_all calls empty_db).domains
perform_all_domains-IsSound_example = perform_all_domains-IsSound calls empty_db empty-IsSound

abbrev one : DomainDb
one = record { control = control; domains = domain ∷ [] }

abbrev verified_one : DomainDb
verified_one = (verify_tenant_domain_dns dns 7 31 actor 100 one).1

abbrev verified_domain : TenantDomain
verified_domain = with_status DomainStatus.verified [] 100 domain

verified_ok : verify_tenant_domain_dns dns 7 31 actor 100 one ≡ (ok verified_domain, verified_one)
unfolding verify_tenant_domain_dns update_tenant_domain_status update_body lookup_domain_ownership
    with_status domain_verification_record any str_eq trim_left trim_right
verified_ok = refl

verify-Checked_example :
    (d : TenantDomain) × (find (is_domain 7 31) one.domains ≡ some d)
    × Checked dns d verified_domain
    × (find (is_domain 7 31) verified_one.domains ≡ some verified_domain)
verify-Checked_example = verify-Checked dns 7 31 actor 100 one verified_ok

verified-IsSound : IsSound verified_one.domains
unfolding any verify_tenant_domain_dns perform_all
verified-IsSound = perform_all_domains-IsSound (verify dns 7 31 actor 100 ∷ []) one one-IsSound
  where
    one-IsSound : IsSound one.domains
    one-IsSound = record {
      keyed = (refl, tt);
      unique = (refl, tt);
      honest = (record { issued = λ h. cc; unverified = λ h. refl; verified = λ h. cc }, tt);
    }

written : is_empty (to_lower (trim_space (codes "MAIL.acme.com"))) ≡ false
unfolding trim_left trim_right to_lower
written = refl

get_tenant_by_verified_hostname_example :
    ((t : Tenant)
      → get_tenant_by_verified_hostname (codes "MAIL.acme.com") verified_one ≡ some t
      → Route (codes "MAIL.acme.com") verified_one t)
    × ((u : Tenant)
        → Route (codes "MAIL.acme.com") verified_one u
        → (t : Tenant) × (get_tenant_by_verified_hostname (codes "MAIL.acme.com") verified_one
            ≡ some t)
          × (t.id ≡ u.id))
get_tenant_by_verified_hostname_example =
    get_tenant_by_verified_hostname_lem (codes "MAIL.acme.com") verified_one verified-IsSound
      written

abbrev revoked_one : DomainDb
revoked_one = (revoke_tenant_domain 7 31 actor 400 verified_one).1

revoked_ok : revoke_tenant_domain 7 31 actor 400 verified_one ≡ (
  ok (with_status DomainStatus.revoked (codes "ownership revoked") 400 verified_domain),
  revoked_one,
)
unfolding revoke_tenant_domain verify_tenant_domain_dns update_tenant_domain_status update_body
    lookup_domain_ownership with_status domain_verification_record any str_eq trim_left trim_right
revoked_ok = refl

named :
    to_lower (trim_space (codes "Mail.acme.com "))
    ≡ (with_status DomainStatus.revoked (codes "ownership revoked") 400 verified_domain).hostname
unfolding trim_left trim_right to_lower with_status
named = refl

-- A certificate that is written after its check, the hostname being revoked in between, is issued for
-- a hostname that is not verified: the two transactions of `SetTenantDomainTLSStatus` interleave.
late_certificate :
    map {B = DomainStatus × TlsStatus}
      (λ (d : TenantDomain). (d.status, d.tls_status))
      (write_tls 7 31 TlsStatus.issued (codes "ref") actor 500 revoked_one).1.domains
    ≡ (DomainStatus.revoked, TlsStatus.issued) ∷ []
unfolding write_tls tls_body with_tls revoke_tenant_domain verify_tenant_domain_dns
    update_tenant_domain_status update_body lookup_domain_ownership with_status
    domain_verification_record any str_eq trim_left trim_right
late_certificate = refl

accepted_slug : normalize_slug (codes " Acme-1 ") ≡ some (codes "acme-1")
unfolding normalize_slug label_pattern ends_alnum all any str_eq trim_left trim_right to_lower
accepted_slug = refl

normalize_slug_idem_example :
    (3 ≤ length (codes "acme-1"))
    × (length (codes "acme-1") ≤ 63)
    × (any (str_eq (codes "acme-1")) reserved_slugs ≡ false)
    × (normalize_slug (codes "acme-1") ≡ some (codes "acme-1"))
normalize_slug_idem_example = normalize_slug_idem (codes " Acme-1 ") accepted_slug
