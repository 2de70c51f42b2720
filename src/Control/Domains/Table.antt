-- ===== src/Control/Domains/Table.antt =====
-- internal/mailview/control/domains.go: the hostnames of tenants and their registration. The
-- resolver and `net.ParseIP` are arguments.
use mailview.Prelude.{
  hex_encode, ℕ, Bool, not, ◌&&◌, ◌||◌, Option, none, some, List, [], ◌∷◌, ◌++◌, ◌==◌,
  if◌then◌else◌, Bytes, codes, any, find, length, drop, is_empty, str_eq, has_prefix, trim_space,
  to_lower, Tx, invalid, conflict, not_found, ◌>>=◌, ◌>>◌, exec, gets, guard, pure, some_or, in_tx,
}
use mailview.Control.Db.{Db, Actor, Membership, MemberRole, Role, is_active, tenant_exists, audited}
use mailview.Control.Names.{valid_tenant_hostname}

pub data Method : Type 0 where
  txt cname : Method

pub data DomainStatus : Type 0 where
  pending verified failed revoked : DomainStatus

pub data TlsStatus : Type 0 where
  tls_none pending issued failed revoked : TlsStatus

pub record TenantDomain : Type 0 where
  pub id : ℕ
  pub tenant : ℕ
  pub hostname : Bytes
  pub purpose : Bytes
  pub method : Method
  pub token : Bytes
  pub verification_name : Bytes
  pub verification_value : Bytes
  pub status : DomainStatus
  pub tls_status : TlsStatus
  pub last_verified_at : Option ℕ
  pub last_checked_at : Option ℕ
  pub next_check_at : Option ℕ
  pub failure_reason : Bytes
  pub certificate_ref : Bytes
  pub certificate_revoked_at : Option ℕ
  pub owner : ℕ
  pub created_by : ℕ

pub record DomainDb : Type 0 where
  pub control : Db
  pub domains : List TenantDomain

-- What a lookup returns: its values, or the text of its error.
pub data Lookup (A : Type 0) : Type 0 where
  values : A → Lookup A
  failure : Bytes → Lookup A

-- `DNSResolver`
pub record Resolver : Type 0 where
  pub lookup_txt : Bytes → Lookup (List Bytes)
  pub lookup_cname : Bytes → Lookup Bytes

pub record DomainInput : Type 0 where
  pub hostname : Bytes
  pub purpose : Bytes
  pub method : Bytes

abbrev pub valid_domain_purpose : List Bytes
valid_domain_purpose =
    codes "portal"
    ∷ codes "tracking"
    ∷ codes "sending"
    ∷ codes "return_path"
    ∷ codes "public_forms"
    ∷ []

-- The empty text is `txt`.
abbrev pub method_of : Bytes → Option Method
method_of s =
    if is_empty s
    then some txt
    else if str_eq s (codes "txt")
    then some txt
    else if str_eq s (codes "cname")
    then some cname
    else none

abbrev pub token_prefix : Bytes
token_prefix = codes "mailview-verify-"

-- `newDomainVerificationToken` on the random bytes
abbrev pub new_token : Bytes → Bytes
new_token raw = token_prefix ++ hex_encode raw

-- `strings.TrimPrefix`
abbrev pub trim_prefix : Bytes → Bytes → Bytes
trim_prefix s p = if has_prefix s p then drop (length p) s else s

-- `domainVerificationRecord`
unfoldable pub domain_verification_record : Method → Bytes → Bytes → Bytes × Bytes
domain_verification_record cname hostname token =
    (hostname, trim_prefix token token_prefix ++ codes ".verify.mailview.com.br")
domain_verification_record txt hostname token = (codes "_mailview-verification." ++ hostname, token)

-- The row as `CreateTenantDomain` inserts it, the other columns at their defaults.
abbrev pub new_domain : ℕ → ℕ → Bytes → Bytes → Method → Bytes → ℕ → ℕ → TenantDomain
new_domain id t hostname purpose method token owner user = record {
  id = id;
  tenant = t;
  hostname = hostname;
  purpose = purpose;
  method = method;
  token = token;
  verification_name = (domain_verification_record method hostname token).0;
  verification_value = (domain_verification_record method hostname token).1;
  status = DomainStatus.pending;
  tls_status = TlsStatus.tls_none;
  last_verified_at = none;
  last_checked_at = none;
  next_check_at = none;
  failure_reason = [];
  certificate_ref = [];
  certificate_revoked_at = none;
  owner = owner;
  created_by = user;
}

-- The oldest active membership with a role named `Tenant Owner`; rows stand in order of creation.
abbrev pub is_owner : Db → ℕ → Membership → Bool
is_owner db t m =
    m.tenant == t
    && is_active m.status
    && any
        (λ (mr : MemberRole).
          mr.membership == m.id
          && any (λ (r : Role). r.id == mr.role && str_eq r.name (codes "Tenant Owner")) db.roles)
        db.member_roles

abbrev pub log_domain : ℕ → Actor → Bytes → ℕ → DomainDb → DomainDb
log_domain t actor action id db = record db {
  control = record db.control { audit = audited (some t) actor action id db.control.audit };
}

-- The unique columns: the hostname and the primary key.
abbrev pub clashes : ℕ → Bytes → TenantDomain → Bool
clashes id hostname d = str_eq d.hostname hostname || d.id == id

unfoldable pub create_body :
    ℕ → ℕ → Bytes → Bytes → Method → Bytes → Actor → Tx DomainDb TenantDomain
create_body id t hostname purpose method raw actor = do
  exists ← gets (λ db. tenant_exists t db.control)
  guard exists not_found
  found ← gets (λ db. find (is_owner db.control t) db.control.memberships)
  owner ← some_or found invalid
  let domain = new_domain id t hostname purpose method (new_token raw) owner.user actor.user
  taken ← gets (λ db. any (clashes id hostname) db.domains)
  guard (not taken) conflict
  exec (λ db. record db { domains = db.domains ++ domain ∷ [] })
  exec (log_domain t actor (codes "tenant_domain.create") id)
  pure domain

-- `CreateTenantDomain`: the new row's id and the 16 random bytes are arguments.
unfoldable pub create_tenant_domain :
    (Bytes → Bool) → ℕ → ℕ → DomainInput → Bytes → Actor → Tx DomainDb TenantDomain
create_tenant_domain is_ip id t input raw actor = do
  let hostname = to_lower (trim_space input.hostname)
  guard (valid_tenant_hostname is_ip hostname) invalid
  guard (any (str_eq input.purpose) valid_domain_purpose) invalid
  found ← gets (λ db. method_of input.method)
  method ← some_or found invalid
  in_tx (create_body id t hostname input.purpose method raw actor)
