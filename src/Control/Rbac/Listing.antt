-- ===== src/Control/Rbac/Listing.antt =====
-- `ListTenantPermissions` against `HasTenantPermission` of rbac.go: the list that the portal shows
-- and the test that guards a request are two queries, the second with its denial over all of the
-- user's memberships, the first with a denial per membership.
use mailview.Prelude.{
  ℕ, ◌≡◌, ◌↔◌, refl, sym, ap, ◌∙◌, Bool, true, false, ◌&&◌, Bytes, List, [], ◌∷◌, Memᴰ, arith, ◌==◌,
  any, any-mem, mem-any, mem-cases, subst, str_eq, str_eq_iff, ==_iff, &&-eq-true, Bool-cases, inl,
  inr,
}
use mailview.Control.Db.{Db, Membership, MemberRole, RolePermission}
use mailview.Control.Rbac.{
  is_member, by_role, listed_by, distinct, codes_of, has_tenant_permission, list_tenant_permissions,
}
use mailview.Control.Rbac.Spec.{
  ByRole, Holds, by_role→ByRole, ByRole→by_role, has_tenant_permission_iff,
}

distinct→mem : (cs : List Bytes) {c : Bytes} → Memᴰ c (distinct cs) → Memᴰ c cs
unfolding distinct
distinct→mem [] m = m
distinct→mem (x ∷ cs) {c} m = elim (Bool-cases (any (str_eq x) (distinct cs))) [
  | inl e ↦ Memᴰ.tail (distinct→mem cs (rw e at m))
  | inr e ↦
      let kept : Memᴰ c (x ∷ distinct cs) = rw e at m in
      elim (mem-cases kept) [ inl p ↦ Memᴰ.head p | inr q ↦ Memᴰ.tail (distinct→mem cs q) ]
]

mem→distinct : (cs : List Bytes) {c : Bytes} → Memᴰ c cs → Memᴰ c (distinct cs)
unfolding distinct
mem→distinct [] m = m
mem→distinct (x ∷ cs) {c} m = elim (Bool-cases (any (str_eq x) (distinct cs))) [
  | inl e ↦
      let (y, ym, yh) = mem-any (str_eq x) (distinct cs) e in
      rw e (elim (mem-cases m) [
        | inl p ↦ subst (λ z. Memᴰ z (distinct cs)) (sym ((str_eq_iff x y).0 yh) ∙ sym p) ym
        | inr q ↦ mem→distinct cs q
      ])
  | inr e ↦
      rw e (elim (mem-cases m) [ inl p ↦ Memᴰ.head p | inr q ↦ Memᴰ.tail (mem→distinct cs q) ])
]

-- One row for a user in a tenant: UNIQUE (tenant_id, user_id) of mv_memberships.
abbrev pub IsUniqueMember : Db → Type 0
IsUniqueMember db =
    (m n : Membership)
    → Memᴰ m db.memberships
    → Memᴰ n db.memberships
    → m.tenant ≡ n.tenant
    → m.user ≡ n.user
    → m.id ≡ n.id

module _ (db : Db) (t u : ℕ) where
  abbrev is_listed : RolePermission → Bool
  is_listed p = any (λ m. listed_by db t u m p) db.memberships

  codes_of→row :
      (ps : List RolePermission) {c : Bytes}
      → Memᴰ c (codes_of db t u ps)
      → (p : RolePermission) × Memᴰ p ps × (p.code ≡ c) × (is_listed p ≡ true)
  unfolding codes_of
  codes_of→row [] m = elim m [ ]
  codes_of→row (p ∷ ps) {c} m = elim (Bool-cases (is_listed p)) [
    | inl e ↦
        let kept : Memᴰ c (p.code ∷ codes_of db t u ps) = rw e at m in
        elim (mem-cases kept) [
          | inl q ↦ (p, Memᴰ.head refl, sym q, e)
          | inr q ↦ let (r, rm, rc, rl) = codes_of→row ps q in (r, Memᴰ.tail rm, rc, rl)
        ]
    | inr e ↦ let (r, rm, rc, rl) = codes_of→row ps (rw e at m) in (r, Memᴰ.tail rm, rc, rl)
  ]

  row→codes_of :
      (ps : List RolePermission) (p : RolePermission)
      → Memᴰ p ps
      → is_listed p ≡ true
      → Memᴰ p.code (codes_of db t u ps)
  unfolding codes_of
  row→codes_of [] p m h = elim m [ ]
  row→codes_of (q ∷ ps) p m h = elim (mem-cases m) [
    | inl e ↦ rw (ap is_listed (sym e) ∙ h) (Memᴰ.head (ap (λ x. x.code) e))
    | inr n ↦ elim (Bool-cases (is_listed q)) [
      | inl e ↦ rw e (Memᴰ.tail (row→codes_of ps p n h))
      | inr e ↦ rw e (row→codes_of ps p n h)
    ]
  ]

  row→Holds :
      IsUniqueMember db
      → (p : RolePermission) → Memᴰ p db.role_permissions
      → is_listed p ≡ true
      → Holds db db.role_permissions t u p.code × ¬ Holds db db.denials t u p.code
  row→Holds unique p pm h =
      let (m, mm, mh) = mem-any (λ m. listed_by db t u m p) db.memberships h in
      let (both, free) = &&-eq-true _ _ mh in
      let (member, linked) = &&-eq-true _ _ both in
      let (l, lm, lh) =
        mem-any (λ (mr : MemberRole). mr.membership == m.id && mr.role == p.role) db.member_roles
          linked in
      let (of_m, of_p) = &&-eq-true _ _ lh in
      (
        record {
          membership = m;
          membership_mem = mm;
          is_members = member;
          by = record {
            link = l;
            link_mem = lm;
            link_of = (==_iff _ _).0 of_m;
            row = p;
            row_mem = pm;
            row_of = sym ((==_iff _ _).0 of_p);
            row_code = refl;
          };
        },
        λ d.
            let here : ByRole db db.denials p.code m = move d m (same_id d m mm member) in
            ground (arith, ByRole→by_role db db.denials p.code m here),
      )
    where
      same_id :
          (d : Holds db db.denials t u p.code) (m : Membership)
          → Memᴰ m db.memberships
          → is_member t u m ≡ true
          → d.membership.id ≡ m.id
      same_id d m mm member =
          unique d.membership m d.membership_mem mm (ground (arith, d.is_members))
            (ground (arith, d.is_members))

      move :
          (d : Holds db db.denials t u p.code) (m : Membership)
          → d.membership.id ≡ m.id
          → ByRole db db.denials p.code m
      move d m e = record {
        link = d.by.link;
        link_mem = d.by.link_mem;
        link_of = d.by.link_of ∙ e;
        row = d.by.row;
        row_mem = d.by.row_mem;
        row_of = d.by.row_of;
        row_code = d.by.row_code;
      }

  Holds→row :
      {c : Bytes}
      → (g : Holds db db.role_permissions t u c) → ¬ Holds db db.denials t u c
      → is_listed g.by.row ≡ true
  Holds→row {c} g free =
      any-mem (λ m. listed_by db t u m g.by.row) db.memberships g.membership_mem
        (ground (arith, g.is_members, linked, not_denied))
    where
      linked :
          any
            (λ (mr : MemberRole). mr.membership == g.membership.id && mr.role == g.by.row.role)
            db.member_roles
          ≡ true
      linked =
          any-mem
            (λ (mr : MemberRole). mr.membership == g.membership.id && mr.role == g.by.row.role)
            db.member_roles g.by.link_mem (ground (arith, g.by.link_of, g.by.row_of))

      not_denied : by_role db db.denials g.by.row.code g.membership ≡ false
      not_denied = elim (Bool-cases (by_role db db.denials g.by.row.code g.membership)) [
        | inl e ↦ absurd (
            free (record {
              membership = g.membership;
              membership_mem = g.membership_mem;
              is_members = g.is_members;
              by =
                  subst (λ z. ByRole db db.denials z g.membership) g.by.row_code
                    (by_role→ByRole db db.denials g.by.row.code g.membership e);
            }))
        | inr e ↦ e
      ]

-- Where a user has one membership in a tenant, the portal's list holds exactly the codes that the
-- guard of a request lets through.
pub mem-list_tenant_permissions :
    (db : Db) (t u : ℕ) (code : Bytes)
    → IsUniqueMember db
    → Memᴰ code (list_tenant_permissions db t u) ↔ (has_tenant_permission db t u code ≡ true)
unfolding list_tenant_permissions
mem-list_tenant_permissions db t u code unique = (
  λ m.
      let (p, pm, pc, pl) =
        codes_of→row db t u db.role_permissions
          (distinct→mem (codes_of db t u db.role_permissions) m) in
      (has_tenant_permission_iff db t u code).1 (
        subst (λ c. Holds db db.role_permissions t u c × ¬ Holds db db.denials t u c) pc
          (row→Holds db t u unique p pm pl)),
  λ h.
      let (g, free) = (has_tenant_permission_iff db t u code).0 h in
      mem→distinct (codes_of db t u db.role_permissions) (
        subst (λ c. Memᴰ c (codes_of db t u db.role_permissions)) g.by.row_code
          (row→codes_of db t u db.role_permissions g.by.row g.by.row_mem
            (Holds→row db t u g free))),
)
