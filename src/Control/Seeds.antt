-- ===== src/Control/Seeds.antt =====
-- `seedTenantRoles` of internal/mailview/control/service.go: the permissions and the seven roles that a
-- new tenant gets. Go's order over a map is random; here it is the order of the text.
use mailview.Prelude.{
  ℕ, ◌+◌, true, List, [], ◌∷◌, ◌++◌, some, Bytes, codes, any, str_eq, if◌then◌else◌,
}
use mailview.Control.Db.{Db, Role, RolePermission}

abbrev pub seed_permissions : List Bytes
seed_permissions =
    codes "campaign.create.tenant"
    ∷ codes "campaign.approve.tenant"
    ∷ codes "campaign.read.tenant"
    ∷ codes "campaign.manage.tenant"
    ∷ codes "campaign.send.tenant"
    ∷ codes "campaign.review.tenant"
    ∷ codes "campaign.schedule.tenant"
    ∷ codes "campaign.cancel.tenant"
    ∷ codes "campaign.test.tenant"
    ∷ codes "analytics.read.tenant"
    ∷ codes "subscriber.read.tenant"
    ∷ codes "subscriber.manage.tenant"
    ∷ codes "subscriber.import.tenant"
    ∷ codes "subscriber.export.tenant"
    ∷ codes "list.read.tenant"
    ∷ codes "list.manage.tenant"
    ∷ codes "template.read.tenant"
    ∷ codes "template.manage.tenant"
    ∷ codes "media.read.tenant"
    ∷ codes "media.manage.tenant"
    ∷ codes "bounce.read.tenant"
    ∷ codes "bounce.manage.tenant"
    ∷ codes "domain.manage.tenant"
    ∷ codes "user.invite.tenant"
    ∷ codes "user.manage.tenant"
    ∷ codes "audit.read.tenant"
    ∷ codes "smtp.manage.tenant"
    ∷ codes "apikey.manage.tenant"
    ∷ codes "security.read.tenant"
    ∷ codes "billing.read.tenant"
    ∷ codes "billing.manage.tenant"
    ∷ []

-- A role's name and its permissions.
abbrev Seed : Type 0
Seed = Bytes × List Bytes

abbrev tenant_admin : List Bytes
tenant_admin =
    codes "campaign.create.tenant"
    ∷ codes "campaign.approve.tenant"
    ∷ codes "campaign.read.tenant"
    ∷ codes "campaign.manage.tenant"
    ∷ codes "campaign.send.tenant"
    ∷ codes "campaign.review.tenant"
    ∷ codes "campaign.schedule.tenant"
    ∷ codes "campaign.cancel.tenant"
    ∷ codes "campaign.test.tenant"
    ∷ codes "analytics.read.tenant"
    ∷ codes "subscriber.read.tenant"
    ∷ codes "subscriber.manage.tenant"
    ∷ codes "subscriber.import.tenant"
    ∷ codes "subscriber.export.tenant"
    ∷ codes "list.read.tenant"
    ∷ codes "list.manage.tenant"
    ∷ codes "template.read.tenant"
    ∷ codes "template.manage.tenant"
    ∷ codes "media.read.tenant"
    ∷ codes "media.manage.tenant"
    ∷ codes "bounce.read.tenant"
    ∷ codes "bounce.manage.tenant"
    ∷ codes "domain.manage.tenant"
    ∷ codes "user.invite.tenant"
    ∷ codes "user.manage.tenant"
    ∷ codes "audit.read.tenant"
    ∷ codes "smtp.manage.tenant"
    ∷ codes "apikey.manage.tenant"
    ∷ codes "security.read.tenant"
    ∷ []

abbrev campaign_manager : List Bytes
campaign_manager =
    codes "campaign.create.tenant"
    ∷ codes "campaign.approve.tenant"
    ∷ codes "campaign.read.tenant"
    ∷ codes "campaign.manage.tenant"
    ∷ codes "campaign.send.tenant"
    ∷ codes "campaign.review.tenant"
    ∷ codes "campaign.schedule.tenant"
    ∷ codes "campaign.cancel.tenant"
    ∷ codes "campaign.test.tenant"
    ∷ codes "analytics.read.tenant"
    ∷ codes "template.read.tenant"
    ∷ codes "template.manage.tenant"
    ∷ codes "media.read.tenant"
    ∷ codes "media.manage.tenant"
    ∷ codes "bounce.read.tenant"
    ∷ []

abbrev operator : List Bytes
operator =
    codes "campaign.create.tenant"
    ∷ codes "campaign.read.tenant"
    ∷ codes "campaign.manage.tenant"
    ∷ codes "campaign.review.tenant"
    ∷ codes "campaign.test.tenant"
    ∷ codes "subscriber.read.tenant"
    ∷ codes "subscriber.manage.tenant"
    ∷ codes "subscriber.import.tenant"
    ∷ codes "list.read.tenant"
    ∷ codes "list.manage.tenant"
    ∷ codes "template.read.tenant"
    ∷ codes "template.manage.tenant"
    ∷ codes "media.read.tenant"
    ∷ codes "media.manage.tenant"
    ∷ []

abbrev analyst : List Bytes
analyst =
    codes "campaign.read.tenant"
    ∷ codes "analytics.read.tenant"
    ∷ codes "subscriber.read.tenant"
    ∷ codes "subscriber.export.tenant"
    ∷ codes "list.read.tenant"
    ∷ codes "template.read.tenant"
    ∷ codes "media.read.tenant"
    ∷ codes "bounce.read.tenant"
    ∷ codes "audit.read.tenant"
    ∷ codes "security.read.tenant"
    ∷ []

abbrev viewer : List Bytes
viewer =
    codes "campaign.read.tenant"
    ∷ codes "analytics.read.tenant"
    ∷ codes "subscriber.read.tenant"
    ∷ codes "list.read.tenant"
    ∷ codes "template.read.tenant"
    ∷ codes "media.read.tenant"
    ∷ codes "bounce.read.tenant"
    ∷ codes "security.read.tenant"
    ∷ []

abbrev billing_manager : List Bytes
billing_manager = codes "billing.read.tenant" ∷ codes "billing.manage.tenant" ∷ []

abbrev pub seed_roles : List Seed
seed_roles =
    (codes "Tenant Owner", seed_permissions)
    ∷ (codes "Tenant Admin", tenant_admin)
    ∷ (codes "Campaign Manager", campaign_manager)
    ∷ (codes "Operator", operator)
    ∷ (codes "Analyst", analyst)
    ∷ (codes "Viewer", viewer)
    ∷ (codes "Billing Manager", billing_manager)
    ∷ []

-- `ON CONFLICT (code) DO NOTHING`
abbrev pub insert_codes : List Bytes → List Bytes → List Bytes
insert_codes [] table = table
insert_codes (c ∷ cs) table =
    insert_codes cs (if any (str_eq c) table then table else table ++ c ∷ [])

abbrev pub grants : ℕ → List Bytes → List RolePermission
grants role [] = []
grants role (c ∷ cs) = record { role = role; code = c } ∷ grants role cs

-- The roles' rows, numbered from the first new id, and their permissions.
abbrev pub role_rows : ℕ → ℕ → List Seed → List Role
role_rows t id [] = []
role_rows t id ((name, permissions) ∷ rest) =
    record { id = id; tenant = some t; name = name; is_system = true } ∷ role_rows t (id + 1) rest

abbrev pub grant_rows : ℕ → List Seed → List RolePermission
grant_rows id [] = []
grant_rows id ((name, permissions) ∷ rest) = grants id permissions ++ grant_rows (id + 1) rest

-- `seedTenantRoles`; the new roles' ids follow the one given, the owner's first.
unfoldable pub seed_tenant_roles : ℕ → ℕ → Db → Db
seed_tenant_roles t first_id db = record db {
  permissions = insert_codes seed_permissions db.permissions;
  roles = db.roles ++ role_rows t first_id seed_roles;
  role_permissions = db.role_permissions ++ grant_rows first_id seed_roles;
}
