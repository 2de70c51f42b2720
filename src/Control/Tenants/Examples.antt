-- ===== src/Control/Tenants/Examples.antt =====
-- Runs of slugs.go and of the tenants of service.go, and the theorems at these runs.
use mailview.Prelude.{
  List, ℕ, ◌+◌, ◌*◌, ◌<◌, ◌≡◌, refl, true, false, some, [], ◌∷◌, Memᴰ, codes, any, all, str_eq,
  IsKeyed, trim_left, trim_right, to_lower, ok, arith,
}
use mailview.Control.Db.{Db, Actor, Tenant, TenantStatus, MembershipStatus, user_enabled}
use mailview.Control.Names.{normalize_slug, label_pattern, ends_alnum}
use mailview.Control.Seeds.{seed_tenant_roles, seed_permissions}
use mailview.Control.Rbac.{has_tenant_permission}
use mailview.Control.Slugs.{
  SlugInput, SlugChange, day, set_slug, change_body, change_tenant_slug, resolve_tenant_slug,
}
use mailview.Control.Slugs.Aliases.{IsSound}
use mailview.Control.Tenants.{
  NewIds, TenantInput, new_tenant, create_tenant_body, create_tenant, validate_roles, replace_body,
  replace_membership_roles,
}
use mailview.Control.Tenants.Roles.{
  same_role, is_role, roles_of, IsMember, replace_membership_roles_lem,
}
use mailview.Control.Slugs.Later.{SlugCall, change_all, change_tenant_slug_redirects}
use mailview.Control.Tenants.Owner.{IsFresh, create_tenant_owner}

abbrev actor : Actor
actor = record { user = 3 }

abbrev acme : Tenant
acme = record { id = 7; slug = codes "acme"; name = codes "Acme"; status = TenantStatus.active }

abbrev db : Db
db = record {
  tenants = acme ∷ [];
  reserved_slugs = codes "admin" ∷ [];
  slug_history = [];
  users = record { id = 3; enabled = true } ∷ [];
  memberships = record { id = 11; tenant = 7; user = 3; status = MembershipStatus.active } ∷ [];
  member_roles = record { membership = 11; role = 21 } ∷ [];
  roles =
      record { id = 21; tenant = some 7; name = codes "Viewer"; is_system = true }
      ∷ record { id = 22; tenant = some 7; name = codes "Analyst"; is_system = true }
      ∷ record { id = 23; tenant = some 8; name = codes "Viewer"; is_system = true }
      ∷ [];
  permissions = [];
  role_permissions = [];
  denials = [];
  audit = [];
}

abbrev input : SlugInput
input = record { slug = codes "Acme-Mail"; redirect_days = 0 }

abbrev renamed : Db
renamed = (change_tenant_slug 7 input actor 1000 db).1

abbrev change : SlugChange
change = record {
  tenant = set_slug (codes "acme-mail") acme;
  previous_slug = codes "acme";
  redirect_until = 1000 + 30 * day;
}

changed : change_tenant_slug 7 input actor 1000 db ≡ (ok change, renamed)
unfolding change_tenant_slug change_body set_slug normalize_slug label_pattern ends_alnum all any
    str_eq trim_left trim_right to_lower
changed = refl

db-IsSound : IsSound db
unfolding label_pattern ends_alnum any all
db-IsSound = record { unique = (refl, tt); normal = (refl, tt) }

soon : 2000 < change.redirect_until
soon = ground arith

-- The tenant changes its slug once more, and asks for the old one, which is refused.
abbrev more : List SlugCall
more =
    record {
      tenant = 7;
      input = record { slug = codes "acme-post"; redirect_days = 9 };
      actor = actor;
      now = 1500;
    }
    ∷ (record {
      tenant = 7;
      input = record { slug = codes "acme"; redirect_days = 9 };
      actor = actor;
      now = 1600;
    }
        ∷ [])

change_tenant_slug_redirects_example :
    (resolve_tenant_slug input.slug 2000 renamed ≡ some (change.tenant, true))
    × (w : Tenant) × (w.id ≡ 7)
    × (resolve_tenant_slug change.previous_slug 2000 (change_all more renamed) ≡ some (w, false))
change_tenant_slug_redirects_example =
    change_tenant_slug_redirects 7 input actor 1000 2000 db more db-IsSound changed soon

abbrev ids : NewIds
ids = record { tenant = 9; first_role = 40; membership = 50 }

abbrev hijack : TenantInput
hijack = record { slug = codes "acme"; name = codes "Other"; owner = 3 }

abbrev taken_over : Db
taken_over = (create_tenant ids hijack actor renamed).1

created :
    create_tenant ids hijack actor renamed
    ≡ (ok (new_tenant 9 (codes "acme") (codes "Other")), taken_over)
unfolding create_tenant create_tenant_body seed_tenant_roles user_enabled change_tenant_slug
    change_body set_slug normalize_slug label_pattern ends_alnum all any str_eq trim_left trim_right
    to_lower
created = refl

-- A new tenant may take the former slug of another while its redirection lasts: the slug then
-- resolves to the new tenant.
alias_taken :
    resolve_tenant_slug (codes "acme") 2000 taken_over
    ≡ some (new_tenant 9 (codes "acme") (codes "Other"), true)
unfolding resolve_tenant_slug create_tenant create_tenant_body seed_tenant_roles user_enabled
    change_tenant_slug change_body set_slug normalize_slug label_pattern ends_alnum all any str_eq
    trim_left trim_right to_lower
alias_taken = refl

ids-IsFresh : IsFresh ids renamed
unfolding change_tenant_slug change_body set_slug normalize_slug label_pattern ends_alnum all any
    str_eq trim_left trim_right to_lower
ids-IsFresh = record { tenant = refl; membership = refl; role = refl }

seeded : Memᴰ (codes "campaign.create.tenant") seed_permissions
seeded = Memᴰ.head refl

create_tenant_owner_example :
    has_tenant_permission taken_over 9 3 (codes "campaign.create.tenant") ≡ true
create_tenant_owner_example =
    create_tenant_owner ids hijack actor renamed (codes "campaign.create.tenant") ids-IsFresh
      created seeded

abbrev replaced : Db
replaced = (replace_membership_roles 7 11 (22 ∷ 21 ∷ []) actor db).1

replaced_ok : replace_membership_roles 7 11 (22 ∷ 21 ∷ []) actor db ≡ (ok 3, replaced)
unfolding replace_membership_roles replace_body validate_roles any
replaced_ok = refl

roles-IsKeyed : IsKeyed same_role db.roles
unfolding any
roles-IsKeyed = (refl, (refl, (refl, tt)))

replace_membership_roles_example :
    (roles_of 11 replaced.member_roles ≡ 22 ∷ 21 ∷ [])
    × ((i : ℕ) → Memᴰ i (22 ∷ 21 ∷ []) → any (is_role 7 i) replaced.roles ≡ true)
    × IsMember 7 11 3 db
replace_membership_roles_example =
    replace_membership_roles_lem 7 11 (22 ∷ 21 ∷ []) actor db roles-IsKeyed replaced_ok
