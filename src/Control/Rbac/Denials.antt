-- ===== src/Control/Rbac/Denials.antt =====
-- `DenyRolePermission` and `AllowRolePermission` of rbac.go against the effective permissions.
use mailview.Prelude.{
  mem-append_right, ℕ, ◌≡◌, refl, sym, ◌∙◌, true, false, Bytes, some, List, Memᴰ, any, mem-any,
  str_eq_iff, ==_iff, &&-eq-true, Bool-cases, inl, inr, ok, err, invalid_role, codes,
}
use mailview.Control.Db.{Db, Actor, Membership, MemberRole, RolePermission, audited}
use mailview.Control.Rbac.{
  is_member, same_row, insert_row, role_belongs, has_tenant_permission, deny_role_permission,
  allow_role_permission,
}
use mailview.Control.Rbac.Spec.{Holds, has_tenant_permission_iff}

-- After the insertion the table has a row for the role and the code.
mem-insert_row :
    (r : ℕ) (code : Bytes) (rows : List RolePermission)
    → (p : RolePermission) × Memᴰ p (insert_row r code rows) × (p.role ≡ r) × (p.code ≡ code)
mem-insert_row r code rows = elim (Bool-cases (any (same_row r code) rows)) [
  | inl e ↦
      let (p, pm, ph) = mem-any (same_row r code) rows e in
      let (pr, pc) = &&-eq-true _ _ ph in rw e (p, pm, (==_iff _ _).0 pr, (str_eq_iff _ _).0 pc)
  | inr e ↦
      rw e (record { role = r; code = code }, mem-append_right rows _ (Memᴰ.head refl), refl, refl)
]

-- What a denial leaves behind: its row, and every other table but the audit log.
denied_db : ℕ → ℕ → Bytes → Actor → Db → Db
denied_db t r code actor db = record db {
  denials = insert_row r code db.denials;
  audit = audited (some t) actor (codes "role_permission.deny") r db.audit;
}

deny_role_permission_ok :
    (t r : ℕ) (code : Bytes) (actor : Actor) (db : Db)
    → role_belongs r t db ≡ true
    → deny_role_permission t r code actor db ≡ (ok tt, denied_db t r code actor db)
unfolding deny_role_permission denied_db
deny_role_permission_ok t r code actor db h = rw h

-- After a tenant's role is denied a permission, the permission is not effective for any active member
-- who has the role, whatever their other roles grant.
pub deny_wins :
    (t r u : ℕ) (code : Bytes) (actor : Actor) (db : Db) (m : Membership) (l : MemberRole)
    → role_belongs r t db ≡ true
    → Memᴰ m db.memberships
    → is_member t u m ≡ true
    → Memᴰ l db.member_roles
    → l.membership ≡ m.id
    → l.role ≡ r
    → has_tenant_permission (deny_role_permission t r code actor db).1 t u code ≡ false
unfolding denied_db
deny_wins t r u code actor db m l b mm member lm of_m of_r =
    let (p, pm, pr, pc) = mem-insert_row r code db.denials in
    let held : Holds (denied_db t r code actor db) (denied_db t r code actor db).denials t u code =
      record {
        membership = m;
        membership_mem = mm;
        is_members = member;
        by = record {
          link = l;
          link_mem = lm;
          link_of = of_m;
          row = p;
          row_mem = pm;
          row_of = pr ∙ sym of_r;
          row_code = pc;
        };
      } in
    rw (deny_role_permission_ok t r code actor db b)
      (elim (Bool-cases (has_tenant_permission (denied_db t r code actor db) t u code)) [
        | inl e ↦ absurd (((has_tenant_permission_iff _ t u code).0 e).1 held)
        | inr e ↦ e
      ])

-- A denial for a role that is not the tenant's is refused, and nothing is written, the audit log
-- included.
pub deny_foreign_role :
    (t r : ℕ) (code : Bytes) (actor : Actor) (db : Db)
    → role_belongs r t db ≡ false
    → deny_role_permission t r code actor db ≡ (err invalid_role, db)
unfolding deny_role_permission
deny_foreign_role t r code actor db h = rw h

-- Lifting a denial grants nothing by itself: what is effective afterwards was granted before.
pub allow_grants_nothing :
    (t r u : ℕ) (code c : Bytes) (actor : Actor) (db : Db)
    → has_tenant_permission (allow_role_permission t r code actor db).1 t u c ≡ true
    → Holds db db.role_permissions t u c
unfolding allow_role_permission
allow_grants_nothing t r u code c actor db h =
    let g = ((has_tenant_permission_iff _ t u c).0 h).0 in
    record {
      membership = g.membership;
      membership_mem = g.membership_mem;
      is_members = g.is_members;
      by = record {
        link = g.by.link;
        link_mem = g.by.link_mem;
        link_of = g.by.link_of;
        row = g.by.row;
        row_mem = g.by.row_mem;
        row_of = g.by.row_of;
        row_code = g.by.row_code;
      };
    }
