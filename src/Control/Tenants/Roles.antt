-- ===== src/Control/Tenants/Roles.antt =====
-- The roles of a member after `ReplaceMembershipRoles` of service.go.
use mailview.Prelude.{
  ℕ, ◌+◌, ◌≤◌, ◌≡◌, refl, sym, ap, subst, ◌∙◌, Bool, true, false, not, ◌&&◌, List, [], ◌∷◌, ◌++◌,
  map, Memᴰ, ◌==◌, ==_iff, leb, any, find, filter, length, ok, arith, Bool-cases, inl, inr, IsKeyed,
  any-weaken, mem-cases, mem-find, in_tx_ok, guard_ok, some_or_ok,
}
use mailview.Control.Db.{Db, Role, Membership, MemberRole, Actor, owned_by}
use mailview.Control.Tenants.{
  count, is_listed, validate_roles, links, is_link_of, replace_body, replace_membership_roles,
}

abbrev pub same_role : Role → Role → Bool
same_role r s = r.id == s.id

-- The tenant's role with the id.
abbrev pub is_role : ℕ → ℕ → Role → Bool
is_role t i r = owned_by r.tenant t && r.id == i

count_none : (p : Role → Bool) (rs : List Role) → any p rs ≡ false → count p rs ≡ 0
unfolding any
count_none p [] h = refl
count_none p (r ∷ rs) h = ground (arith, count_none p rs)

-- An id is that of one row at most.
count_role : (t i : ℕ) (rs : List Role) → IsKeyed same_role rs → count (is_role t i) rs ≤ 1
count_role t i [] k = omega arith
count_role t i (r ∷ rs) k = elim (Bool-cases (is_role t i r)) [
  | inr e ↦ rw e (count_role t i rs k.1)
  | inl e ↦
      let rest : any (is_role t i) rs ≡ false =
        any-weaken (same_role r) (is_role t i) (λ s q. ground arith) rs k.0 in
      rw e (omega (arith, count_none (is_role t i) rs rest))
]

count_split :
    (t i : ℕ) (ids : List ℕ) (rs : List Role)
    → count (is_listed t (i ∷ ids)) rs ≤ count (is_role t i) rs + count (is_listed t ids) rs
unfolding any
count_split t i ids [] = omega arith
count_split t i ids (r ∷ rs) = ground (arith, count_split t i ids rs)

count_empty : (t : ℕ) (rs : List Role) → count (is_listed t []) rs ≡ 0
unfolding any
count_empty t [] = refl
count_empty t (r ∷ rs) = ground (arith, count_empty t rs)

count-is_listed :
    (t : ℕ) (ids : List ℕ) (rs : List Role)
    → IsKeyed same_role rs
    → count (is_listed t ids) rs ≤ length ids
count-is_listed t [] rs k = omega (arith, count_empty t rs)
count-is_listed t (i ∷ ids) rs k =
    omega (arith, count_split t i ids rs, count_role t i rs k, count-is_listed t ids rs k)

-- If as many rows are listed as there are ids, every id is that of a row.
listed_all :
    (t : ℕ) (ids : List ℕ) (rs : List Role) {i : ℕ}
    → IsKeyed same_role rs
    → count (is_listed t ids) rs ≡ length ids
    → Memᴰ i ids
    → any (is_role t i) rs ≡ true
listed_all t [] rs k h m = elim m [ ]
listed_all t (j ∷ ids) rs {i} k h m = elim (mem-cases m) [
  | inl e ↦ elim (Bool-cases (any (is_role t i) rs)) [
    | inl found ↦ found
    | inr missing ↦
        let none_of : count (is_role t j) rs ≡ 0 =
          count_none (is_role t j) rs (subst (λ z. any (is_role t z) rs ≡ false) e missing) in
        absurd (omega (arith, count_split t j ids rs, count-is_listed t ids rs k))
  ]
  | inr n ↦
      listed_all t ids rs k
        (omega (arith, count_split t j ids rs, count_role t j rs k, count-is_listed t ids rs k)) n
]

-- The roles that a membership's links name.
unfoldable pub roles_of : ℕ → List MemberRole → List ℕ
roles_of m ls = map (λ (l : MemberRole). l.role) (filter (is_link_of m) ls)

roles_of-links : (m : ℕ) (ids : List ℕ) → roles_of m (links m ids) ≡ ids
unfolding roles_of
roles_of-links m [] = refl
roles_of-links m (i ∷ ids) = rw ((==_iff m m).1 refl) (ap (λ z. i ∷ z) (roles_of-links m ids))

roles_of-replaced :
    (m : ℕ) (ls new : List MemberRole)
    → roles_of m (filter (λ l. not (is_link_of m l)) ls ++ new) ≡ roles_of m new
unfolding roles_of
roles_of-replaced m [] new = refl
roles_of-replaced m (l ∷ ls) new = elim (Bool-cases (is_link_of m l)) [
  | inl e ↦ rw e (roles_of-replaced m ls new)
  | inr e ↦ rw e (rw e (roles_of-replaced m ls new))
]

-- A membership of the tenant has the id, and is the user's.
pub record IsMember (t m user : ℕ) (db : Db) : Type 0 where
  pub row : Membership
  pub present : Memᴰ row db.memberships
  pub named : row.id ≡ m
  pub own : row.tenant ≡ t
  pub of_user : row.user ≡ user

-- After a replacement that ended well the membership has exactly the given roles, and each of them is
-- a role of the tenant of the request. The membership is that tenant's too, and its user is the one
-- that is returned. Role ids are the key of their table.
pub replace_membership_roles_lem :
    (t m : ℕ) (ids : List ℕ) (actor : Actor) (db : Db) {user : ℕ} {db' : Db}
    → IsKeyed same_role db.roles
    → replace_membership_roles t m ids actor db ≡ (ok user, db')
    → (roles_of m db'.member_roles ≡ ids)
      × ((i : ℕ) → Memᴰ i ids → any (is_role t i) db'.roles ≡ true)
      × IsMember t m user db
unfolding replace_membership_roles replace_body validate_roles
replace_membership_roles_lem t m ids actor db {user} {db'} k h =
    let (many, h1) = guard_ok (leb 1 (length ids)) _ _ h in
    let (member, found, h2) =
      some_or_ok (find (λ (r : Membership). r.id == m && r.tenant == t) db.memberships) _ _
        (in_tx_ok (replace_body t m ids actor) h1) in
    let (valid, h3) = guard_ok (count (is_listed t ids) db.roles == length ids) _ _ h2 in
    (
      ap (λ r. roles_of m r.1.member_roles) (sym h3)
          ∙ roles_of-replaced m db.member_roles (links m ids)
          ∙ roles_of-links m ids,
      λ i mem.
          subst (λ (d : Db). any (is_role t i) d.roles ≡ true) (ap (λ r. r.1) h3)
            (listed_all t ids db.roles k
              ((==_iff (count (is_listed t ids) db.roles) (length ids)).0 valid) mem),
      record {
        row = member;
        present =
            (mem-find (λ (r : Membership). r.id == m && r.tenant == t) db.memberships found).0;
        named = ground (
          arith,
          (mem-find (λ (r : Membership). r.id == m && r.tenant == t) db.memberships found).1,
        );
        own = ground (
          arith,
          (mem-find (λ (r : Membership). r.id == m && r.tenant == t) db.memberships found).1,
        );
        of_user = cc h3;
      },
    )
