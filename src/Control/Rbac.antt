-- ===== src/Control/Rbac.antt =====
-- internal/mailview/control/rbac.go: effective tenant permissions and explicit denials.
pub mod Spec
pub mod Listing
pub mod Denials
mod Examples
use mailview.Prelude.{
  ℕ, Bool, true, false, not, ◌&&◌, Option, none, some, List, [], ◌∷◌, ◌++◌, ◌==◌, if◌then◌else◌,
  Bytes, codes, any, filter, str_eq, Tx, Result, ok, err, invalid_role, ◌>>=◌, ◌>>◌, exec, gets,
  guard, in_tx,
}
use mailview.Control.Db.{
  Db, Actor, Membership, MemberRole, RolePermission, Role, is_active, owned_by, append_audit,
}

-- `m.tenant_id = $1 AND m.user_id = $2 AND m.status = 'active'`
abbrev pub is_member : ℕ → ℕ → Membership → Bool
is_member t u m = m.tenant == t && m.user == u && is_active m.status

-- `mr.membership_id = m.id` joined with a row for the role and the code.
abbrev pub carries : List RolePermission → ℕ → Bytes → MemberRole → Bool
carries rows m code mr =
    mr.membership == m && any (λ p. p.role == mr.role && str_eq p.code code) rows

-- Does a role of the membership have a row for the code in the given table?
abbrev pub by_role : Db → List RolePermission → Bytes → Membership → Bool
by_role db rows code m = any (carries rows m.id code) db.member_roles

pub is_denied : Db → ℕ → ℕ → Bytes → Bool
is_denied db t u code = any (λ m. is_member t u m && by_role db db.denials code m) db.memberships

pub is_granted : Db → ℕ → ℕ → Bytes → Bool
is_granted db t u code =
    any (λ m. is_member t u m && by_role db db.role_permissions code m) db.memberships

-- `HasTenantPermission`: a denial on any of the user's roles wins over a grant.
unfoldable pub has_tenant_permission : Db → ℕ → ℕ → Bytes → Bool
unfolding is_denied is_granted
has_tenant_permission db t u code = if is_denied db t u code then false else is_granted db t u code

-- The rows that `ListTenantPermissions` selects for one membership: the codes of its roles that no
-- denial of a role of the same membership takes away.
abbrev pub listed_by : Db → ℕ → ℕ → Membership → RolePermission → Bool
listed_by db t u m p =
    is_member t u m
    && any (λ mr. mr.membership == m.id && mr.role == p.role) db.member_roles
    && not (by_role db db.denials p.code m)

-- `SELECT DISTINCT`
pub distinct : List Bytes → List Bytes
distinct [] = []
distinct (c ∷ cs) = let rest = distinct cs in if any (str_eq c) rest then rest else c ∷ rest

codes_of : Db → ℕ → ℕ → List RolePermission → List Bytes
codes_of db t u [] = []
codes_of db t u (p ∷ ps) =
    let rest = codes_of db t u ps in
    if any (λ m. listed_by db t u m p) db.memberships then p.code ∷ rest else rest

-- `ListTenantPermissions`, without its `ORDER BY`
unfoldable pub list_tenant_permissions : Db → ℕ → ℕ → List Bytes
unfolding codes_of distinct
list_tenant_permissions db t u = distinct (codes_of db t u db.role_permissions)

abbrev pub same_row : ℕ → Bytes → RolePermission → Bool
same_row r code p = p.role == r && str_eq p.code code

-- `SELECT EXISTS(SELECT 1 FROM mv_roles WHERE id = $1 AND tenant_id = $2)`
unfoldable pub role_belongs : ℕ → ℕ → Db → Bool
role_belongs r t db = any (λ (x : Role). x.id == r && owned_by x.tenant t) db.roles

-- `INSERT … ON CONFLICT DO NOTHING`
abbrev insert_row : ℕ → Bytes → List RolePermission → List RolePermission
insert_row r code rows =
    if any (same_row r code) rows then rows else rows ++ (record { role = r; code = code } ∷ [])

unfoldable pub deny_role_permission : ℕ → ℕ → Bytes → Actor → Tx Db Unit
deny_role_permission t r code actor = in_tx do
  belongs ← gets (role_belongs r t)
  guard belongs invalid_role
  exec (λ db. record db { denials = insert_row r code db.denials })
  append_audit (some t) actor (codes "role_permission.deny") r

-- `AllowRolePermission`: the denial is deleted if the role is the tenant's.
unfoldable pub allow_role_permission : ℕ → ℕ → Bytes → Actor → Tx Db Unit
allow_role_permission t r code actor = in_tx do
  exec (λ db. record db {
    denials = filter (λ p. not (same_row r code p && role_belongs r t db)) db.denials;
  })
  append_audit (some t) actor (codes "role_permission.allow") r
