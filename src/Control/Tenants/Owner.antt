-- ===== src/Control/Tenants/Owner.antt =====
-- What the owner of a new tenant of service.go may do.
use mailview.Prelude.{
  ℕ, ◌≡◌, refl, sym, ap, subst, ◌∙◌, Bool, true, false, not, ◌&&◌, ◌||◌, List, [], ◌∷◌, ◌++◌, Memᴰ,
  ◌==◌, ==_iff, leb, Bytes, any, length, str_eq, trim_space, ok, arith, Bool-cases, inl, inr,
  mem-append_left, mem-append_right, mem-concat, is_empty, any-mem, mem-cases, in_tx_ok, guard_ok,
  some_or_ok,
}
use mailview.Control.Db.{Db, Tenant, RolePermission, Membership, MemberRole, Actor, user_enabled}
use mailview.Control.Names.{normalize_slug}
use mailview.Control.Seeds.{seed_tenant_roles, seed_permissions, seed_roles, grants, grant_rows}
use mailview.Control.Rbac.{has_tenant_permission}
use mailview.Control.Rbac.Spec.{Holds, has_tenant_permission_iff}
use mailview.Control.Tenants.{
  NewIds, TenantInput, create_tenant_body, create_tenant, new_member, links,
}

-- Ids that nothing refers to yet.
pub record IsFresh (ids : NewIds) (db : Db) : Type 0 where
  pub tenant : any (λ (m : Membership). m.tenant == ids.tenant) db.memberships ≡ false
  pub membership : any (λ (l : MemberRole). l.membership == ids.membership) db.member_roles ≡ false
  pub role : any (λ (p : RolePermission). p.role == ids.first_role) db.denials ≡ false

-- The tables of memberships, their roles, permissions and denials after a creation.
record Created (ids : NewIds) (owner : ℕ) (db db' : Db) : Type 0 where
  memberships : db'.memberships ≡ db.memberships ++ new_member ids.membership ids.tenant owner ∷ []
  member_roles : db'.member_roles ≡ db.member_roles ++ links ids.membership (ids.first_role ∷ [])
  role_permissions :
      db'.role_permissions ≡ db.role_permissions ++ grant_rows ids.first_role seed_roles
  denials : db'.denials ≡ db.denials

create_body-Created :
    (ids : NewIds) (slug name : Bytes) (owner : ℕ) (actor : Actor) (db : Db) {out : Tenant}
    {db' : Db}
    → create_tenant_body ids slug name owner actor db ≡ (ok out, db')
    → Created ids owner db db'
unfolding create_tenant_body seed_tenant_roles
create_body-Created ids slug name owner actor db h =
    let (enabled, h1) = guard_ok (user_enabled owner db) _ _ h in
    let (open_slug, h2) = guard_ok (not (any (str_eq slug) db.reserved_slugs)) _ _ h1 in
    let (free, h3) =
      guard_ok (not (any (λ (r : Tenant). str_eq r.slug slug || r.id == ids.tenant) db.tenants)) _ _
        h2 in
    record {
      memberships = sym (ap (λ r. r.1.memberships) h3);
      member_roles = sym (ap (λ r. r.1.member_roles) h3);
      role_permissions = sym (ap (λ r. r.1.role_permissions) h3);
      denials = sym (ap (λ r. r.1.denials) h3);
    }

mem-grants :
    (role : ℕ) (cs : List Bytes) {c : Bytes}
    → Memᴰ c cs
    → (p : RolePermission) × Memᴰ p (grants role cs) × (p.role ≡ role) × (p.code ≡ c)
mem-grants role [] m = elim m [ ]
mem-grants role (d ∷ cs) m = elim (mem-cases m) [
  | inl e ↦ (record { role = role; code = d }, Memᴰ.head refl, refl, sym e)
  | inr n ↦ let (p, pm, pr, pc) = mem-grants role cs n in (p, Memᴰ.tail pm, pr, pc)
]

not_any :
    {A : Type 0} (p : A → Bool) (xs : List A) {x : A} → any p xs ≡ false → Memᴰ x xs → p x ≡ false
not_any p xs {x} h m = elim (Bool-cases (p x)) [
  | inr e ↦ e
  | inl e ↦ absurd (ground (arith, any-mem p xs m e))
]

module _ {ids : NewIds} {owner : ℕ} {db db' : Db} (c : Created ids owner db db') where
  owner_granted :
      {code : Bytes}
      → Memᴰ code seed_permissions
      → Holds db' db'.role_permissions ids.tenant owner code
  owner_granted {code} m =
      let (p, pm, pr, pc) = mem-grants ids.first_role seed_permissions m in
      record {
        membership = new_member ids.membership ids.tenant owner;
        membership_mem =
            subst (λ z. Memᴰ (new_member ids.membership ids.tenant owner) z) (sym c.memberships)
              (mem-append_right db.memberships _ (Memᴰ.head refl));
        is_members = ground (arith, ==_iff ids.tenant ids.tenant, ==_iff owner owner);
        by = record {
          link = record { membership = ids.membership; role = ids.first_role };
          link_mem =
              subst (λ z. Memᴰ (record { membership = ids.membership; role = ids.first_role }) z)
                (sym c.member_roles) (mem-append_right db.member_roles _ (Memᴰ.head refl));
          link_of = refl;
          row = p;
          row_mem =
              subst (λ z. Memᴰ p z) (sym c.role_permissions)
                (mem-append_right db.role_permissions _
                  (mem-append_left (grants ids.first_role seed_permissions) _ pm));
          row_of = pr;
          row_code = pc;
        };
      }

  owner_not_denied : IsFresh ids db → {code : Bytes} → ¬ Holds db' db'.denials ids.tenant owner code
  owner_not_denied fresh {code} held =
      elim (mem-concat db.memberships (new_member ids.membership ids.tenant owner)
        (subst (Memᴰ held.membership) c.memberships held.membership_mem)) [
          | inl old ↦
              let other =
                not_any (λ (m : Membership). m.tenant == ids.tenant) db.memberships fresh.tenant
                  old in
              ground (arith, other, held.is_members)
          | inr new ↦
              let of_new : held.by.link.membership ≡ ids.membership =
                held.by.link_of ∙ ap (λ (m : Membership). m.id) new in
              elim (mem-concat db.member_roles _
                (subst (Memᴰ held.by.link) c.member_roles held.by.link_mem)) [
                  | inl old ↦
                      let other =
                        not_any (λ (l : MemberRole). l.membership == ids.membership) db.member_roles
                          fresh.membership old in
                      ground
                        (arith, other, (==_iff held.by.link.membership ids.membership).1 of_new)
                  | inr it ↦
                      let of_role : held.by.row.role ≡ ids.first_role =
                        held.by.row_of ∙ ap (λ (l : MemberRole). l.role) it in
                      let other =
                        not_any (λ (p : RolePermission). p.role == ids.first_role) db.denials
                          fresh.role (subst (Memᴰ held.by.row) c.denials held.by.row_mem) in
                      ground (arith, other, (==_iff held.by.row.role ids.first_role).1 of_role)
                ]
        ]

-- The owner named at the creation of a tenant holds every permission that is seeded, where the new
-- ids are fresh.
pub create_tenant_owner :
    (ids : NewIds) (input : TenantInput) (actor : Actor) (db : Db) (code : Bytes) {out : Tenant}
    {db' : Db}
    → IsFresh ids db
    → create_tenant ids input actor db ≡ (ok out, db')
    → Memᴰ code seed_permissions
    → has_tenant_permission db' ids.tenant input.owner code ≡ true
unfolding create_tenant
create_tenant_owner ids input actor db code {out} {db'} fresh h m =
    let (slug, norm, h1) = some_or_ok (normalize_slug input.slug) _ _ h in
    let name = trim_space input.name in
    let (named, h2) =
      guard_ok (not (is_empty name) && leb (length name) 160 && leb 1 input.owner) _ _ h1 in
    let c =
      create_body-Created ids slug name input.owner actor db
        (in_tx_ok (create_tenant_body ids slug name input.owner actor) h2) in
    (has_tenant_permission_iff db' ids.tenant input.owner code).1
      (owner_granted c m, owner_not_denied c fresh)
