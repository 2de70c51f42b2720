-- ===== src/Control/Db.antt =====
-- The tables that the Control Plane's services share (internal/mailview/control/models.go and the
-- schema in internal/mailview/migrations/migrations.go). A UUID is a number, 0 being `uuid.Nil`; a
-- user's id is a number; a time is a number of nanoseconds.
use mailview.Prelude.{
  ℕ, Bool, true, false, Option, none, some, List, [], ◌∷◌, ◌++◌, ◌&&◌, ◌==◌, Bytes, any, Tx, exec,
  if◌then◌else◌,
}

pub data TenantStatus : Type 0 where
  active suspended pending offboarded : TenantStatus

pub data MembershipStatus : Type 0 where
  active invited suspended removed : MembershipStatus

pub record Tenant : Type 0 where
  pub id : ℕ
  pub slug : Bytes
  pub name : Bytes
  pub status : TenantStatus

pub record Membership : Type 0 where
  pub id : ℕ
  pub tenant : ℕ
  pub user : ℕ
  pub status : MembershipStatus

pub record Role : Type 0 where
  pub id : ℕ
  pub tenant : Option ℕ
  pub name : Bytes
  pub is_system : Bool

-- A row of `users`: only what `type = 'user' AND status = 'enabled'` reads.
pub record User : Type 0 where
  pub id : ℕ
  pub enabled : Bool

-- mv_membership_roles
pub record MemberRole : Type 0 where
  pub membership : ℕ
  pub role : ℕ

-- mv_role_permissions and mv_role_permission_denials
pub record RolePermission : Type 0 where
  pub role : ℕ
  pub code : Bytes

pub record SlugHistory : Type 0 where
  pub tenant : ℕ
  pub old_slug : Bytes
  pub new_slug : Bytes
  pub redirect_until : ℕ
  pub changed_by : ℕ

pub record Actor : Type 0 where
  pub user : ℕ

-- mv_audit_events, without the request's metadata. `NULLIF(actor, 0)` is the option.
pub record AuditEvent : Type 0 where
  pub tenant : Option ℕ
  pub actor : Option ℕ
  pub action : Bytes
  pub resource : ℕ

pub record Db : Type 0 where
  pub tenants : List Tenant
  pub reserved_slugs : List Bytes
  pub slug_history : List SlugHistory
  pub users : List User
  pub memberships : List Membership
  pub member_roles : List MemberRole
  pub roles : List Role
  pub permissions : List Bytes
  pub role_permissions : List RolePermission
  pub denials : List RolePermission
  pub audit : List AuditEvent

abbrev pub is_active : MembershipStatus → Bool
is_active active = true
is_active _ = false

abbrev pub tenant_is_active : TenantStatus → Bool
tenant_is_active active = true
tenant_is_active _ = false

-- `tenant_id = $1` on a nullable column.
abbrev pub owned_by : Option ℕ → ℕ → Bool
owned_by none t = false
owned_by (some u) t = u == t

abbrev pub null_if_zero : ℕ → Option ℕ
null_if_zero n = if n == 0 then none else some n

-- `appendAudit` on the list of events
abbrev pub audited : Option ℕ → Actor → Bytes → ℕ → List AuditEvent → List AuditEvent
audited tenant actor action resource log =
    log
    ++ (record {
      tenant = tenant;
      actor = null_if_zero actor.user;
      action = action;
      resource = resource;
    }
        ∷ [])

-- `appendAudit`: one more row, and no other change.
abbrev pub append_audit : Option ℕ → Actor → Bytes → ℕ → Tx Db Unit
append_audit tenant actor action resource =
    exec λ db. record db { audit = audited tenant actor action resource db.audit }

-- `SELECT EXISTS(SELECT 1 FROM mv_tenants WHERE id = $1)`
unfoldable pub tenant_exists : ℕ → Db → Bool
unfolding any
tenant_exists t db = any (λ r. r.id == t) db.tenants

-- `SELECT EXISTS(SELECT 1 FROM users WHERE id = $1 AND type = 'user' AND status = 'enabled')`
unfoldable pub user_enabled : ℕ → Db → Bool
unfolding any
user_enabled u db = any (λ r. r.id == u && r.enabled) db.users
