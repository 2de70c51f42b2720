-- ===== src/Control/Rbac/Spec.antt =====
-- What the permission queries of rbac.go mean, as relations between rows.
use mailview.Prelude.{
  ℕ, ◌≡◌, ◌↔◌, true, ◌&&◌, Bytes, List, Memᴰ, arith, ◌==◌, any, any-mem, mem-any, str_eq,
  str_eq_iff, ==_iff, &&-eq-true, Bool-cases, inl, inr,
}
use mailview.Control.Db.{Db, Membership, MemberRole, RolePermission}
use mailview.Control.Rbac.{is_member, carries, by_role, is_denied, has_tenant_permission}

-- A role of the membership `m` has the code in `rows`.
pub record ByRole (db : Db) (rows : List RolePermission) (code : Bytes) (m : Membership)
    : Type 0 where
  pub link : MemberRole
  pub link_mem : Memᴰ link db.member_roles
  pub link_of : link.membership ≡ m.id
  pub row : RolePermission
  pub row_mem : Memᴰ row rows
  pub row_of : row.role ≡ link.role
  pub row_code : row.code ≡ code

-- A role of an active membership of the user in the tenant has the code in `rows`.
pub record Holds (db : Db) (rows : List RolePermission) (t u : ℕ) (code : Bytes) : Type 0 where
  pub membership : Membership
  pub membership_mem : Memᴰ membership db.memberships
  pub is_members : is_member t u membership ≡ true
  pub by : ByRole db rows code membership

module _ (db : Db) (rows : List RolePermission) (code : Bytes) where
  pub by_role→ByRole : (m : Membership) → by_role db rows code m ≡ true → ByRole db rows code m
  by_role→ByRole m h =
      let (l, lm, lh) = mem-any (carries rows m.id code) db.member_roles h in
      let (of_m, has_row) = &&-eq-true _ _ lh in
      let (p, pm, ph) = mem-any (λ p. p.role == l.role && str_eq p.code code) rows has_row in
      let (pr, pc) = &&-eq-true _ _ ph in
      record {
        link = l;
        link_mem = lm;
        link_of = (==_iff _ _).0 of_m;
        row = p;
        row_mem = pm;
        row_of = (==_iff _ _).0 pr;
        row_code = (str_eq_iff _ _).0 pc;
      }

  pub ByRole→by_role : (m : Membership) → ByRole db rows code m → by_role db rows code m ≡ true
  ByRole→by_role m b =
      any-mem (carries rows m.id code) db.member_roles b.link_mem
        (ground (arith, ==_iff b.link.membership m.id, b.link_of, inner))
    where
      inner : any (λ p. p.role == b.link.role && str_eq p.code code) rows ≡ true
      inner =
          any-mem (λ p. p.role == b.link.role && str_eq p.code code) rows b.row_mem
            (ground (arith, b.row_of, b.row_code, str_eq_iff b.row.code code))

  query→Holds :
      (t u : ℕ)
      → any (λ m. is_member t u m && by_role db rows code m) db.memberships ≡ true
      → Holds db rows t u code
  query→Holds t u h =
      let (m, mm, mh) = mem-any (λ m. is_member t u m && by_role db rows code m) db.memberships h in
      let (is_m, b) = &&-eq-true _ _ mh in
      record { membership = m; membership_mem = mm; is_members = is_m; by = by_role→ByRole m b }

  Holds→query :
      (t u : ℕ)
      → Holds db rows t u code
      → any (λ m. is_member t u m && by_role db rows code m) db.memberships ≡ true
  Holds→query t u h =
      any-mem (λ m. is_member t u m && by_role db rows code m) db.memberships h.membership_mem
        (ground (arith, h.is_members, ByRole→by_role h.membership h.by))

-- A permission is effective for a user in a tenant exactly when some role of an active membership of
-- that user there grants it and no role of such a membership denies it.
pub has_tenant_permission_iff :
    (db : Db) (t u : ℕ) (code : Bytes)
    → (has_tenant_permission db t u code ≡ true)
      ↔ (Holds db db.role_permissions t u code × ¬ Holds db db.denials t u code)
unfolding has_tenant_permission
has_tenant_permission_iff db t u code = elim (Bool-cases (is_denied db t u code)) [
  | inl denied ↦
      (λ h. absurd (ground arith), λ g. absurd (g.1 (query→Holds db db.denials code t u denied)))
  | inr free ↦ (
    λ h. (
      query→Holds db db.role_permissions code t u (ground arith),
      λ d. ground (arith, Holds→query db db.denials code t u d),
    ),
    λ g. ground (arith, Holds→query db db.role_permissions code t u g.0),
  )
]
