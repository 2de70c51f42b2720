-- ===== src/Control/Rbac/Examples.antt =====
-- Runs of rbac.go on a tenant with one member, and the theorems at these runs.
use mailview.Prelude.{
  ◌≡◌, ◌↔◌, refl, sym, true, false, some, [], ◌∷◌, Memᴰ, Bytes, codes, any, str_eq, mem-cases, inl,
  inr, ◌∙◌, ap,
}
use mailview.Control.Db.{Db, Actor, Membership, MembershipStatus, MemberRole}
use mailview.Control.Rbac.{
  has_tenant_permission, is_denied, is_granted, list_tenant_permissions, role_belongs,
  deny_role_permission, allow_role_permission,
}
use mailview.Control.Rbac.Spec.{Holds, has_tenant_permission_iff}
use mailview.Control.Rbac.Listing.{IsUniqueMember, mem-list_tenant_permissions}
use mailview.Control.Rbac.Denials.{deny_wins}

abbrev get : Bytes
get = codes "lists:get"

abbrev member : Membership
member = record { id = 11; tenant = 7; user = 3; status = MembershipStatus.active }

abbrev link : MemberRole
link = record { membership = 11; role = 21 }

-- Roles 21 and 22 grant `lists:get`; nothing is denied.
abbrev db : Db
db = record {
  tenants = [];
  reserved_slugs = [];
  slug_history = [];
  users = [];
  memberships = member ∷ [];
  member_roles = link ∷ record { membership = 11; role = 22 } ∷ [];
  roles = record { id = 21; tenant = some 7; name = codes "Editor"; is_system = true } ∷ [];
  permissions = get ∷ [];
  role_permissions = record { role = 21; code = get } ∷ record { role = 22; code = get } ∷ [];
  denials = [];
  audit = [];
}

abbrev actor : Actor
actor = record { user = 1 }

granted : has_tenant_permission db 7 3 get ≡ true
unfolding has_tenant_permission is_denied is_granted any str_eq
granted = refl

has_tenant_permission_iff_example :
    (has_tenant_permission db 7 3 get ≡ true)
    ↔ (Holds db db.role_permissions 7 3 get × ¬ Holds db db.denials 7 3 get)
has_tenant_permission_iff_example = has_tenant_permission_iff db 7 3 get

db-IsUniqueMember : IsUniqueMember db
db-IsUniqueMember m n mm mn t u = ap (λ (x : Membership). x.id) (only mm ∙ sym (only mn))
  where
    only : {x : Membership} → Memᴰ x (member ∷ []) → x ≡ member
    only h = elim (mem-cases h) [ inl e ↦ e | inr rest ↦ elim rest [ ] ]

mem-list_tenant_permissions_example :
    Memᴰ get (list_tenant_permissions db 7 3) ↔ (has_tenant_permission db 7 3 get ≡ true)
mem-list_tenant_permissions_example = mem-list_tenant_permissions db 7 3 get db-IsUniqueMember

belongs : role_belongs 21 7 db ≡ true
unfolding role_belongs any
belongs = refl

deny_wins_example : has_tenant_permission (deny_role_permission 7 21 get actor db).1 7 3 get ≡ false
deny_wins_example =
    deny_wins 7 21 3 get actor db member link belongs (Memᴰ.head refl) refl (Memᴰ.head refl) refl
      refl

foreign : role_belongs 22 7 db ≡ false
unfolding role_belongs any
foreign = refl

still_granted : has_tenant_permission (allow_role_permission 7 21 get actor db).1 7 3 get ≡ true
unfolding allow_role_permission has_tenant_permission is_denied is_granted any str_eq
still_granted = refl
