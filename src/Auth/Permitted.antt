-- ===== src/Auth/Permitted.antt =====
-- The functions of models.go that decide on lists agree with one another, on a user that
-- setupUserFields has prepared.
use mailview.Prelude.{
  ℕ, ◌<◌, ◌≡◌, refl, ap, sym, ◌∙◌, ◌⊎◌, Bool, true, false, ◌&&◌, ◌||◌, List, [], ◌∷◌, ◌++◌, ◌==◌,
  ltb, if◌then◌else◌, Bytes, any, filter, find, length, arith, Bool-cases, inl, inr, IsKeyed, All,
}
use mailview.Auth.Users.{
  ListPermission, UserRow, User, perm_list_get, perm_list_manage, asks_get, holds_perm, collect,
  ids_with, map_lists, role_lists, setup_user_fields, has_perm, entry, in_entry, has_one_list_perm,
  has_each_list_perm, has_list_perm, has_blanket, get_permitted_lists, passes, filter_lists,
  filter_lists_by_perm,
}

abbrev pub same_list : ListPermission → ListPermission → Bool
same_list a b = a.id == b.id

-- A permission on a list, by the rows of the list role.
abbrev pub gives : Bytes → ℕ → ListPermission → Bool
gives perm id l = l.id == id && holds_perm perm l.permissions

abbrev found_in : Bytes → ℕ → List (ℕ × List Bytes) → Bool
found_in perm id m = in_entry perm (find (λ (e : ℕ × List Bytes). e.0 == id) m)

abbrev is_list : ℕ → ListPermission → Bool
is_list id l = l.id == id

gives_none :
    (perm : Bytes) (id : ℕ) (ls : List ListPermission)
    → any (is_list id) ls ≡ false
    → any (gives perm id) ls ≡ false
unfolding any
gives_none perm id [] h = refl
gives_none perm id (l ∷ ls) h = ground (arith, gives_none perm id ls)

same_none :
    (l : ListPermission) (id : ℕ) (ls : List ListPermission)
    → l.id ≡ id
    → any (same_list l) ls ≡ any (is_list id) ls
unfolding any
same_none l id [] e = refl
same_none l id (x ∷ ls) e = ground (arith, same_none l id ls e)

-- The map answers as the rows do, where no list has two.
found-map_lists :
    (perm : Bytes) (id : ℕ) (done : List (ℕ × List Bytes)) (ls : List ListPermission)
    → IsKeyed same_list ls
    → found_in perm id (map_lists done ls)
      ≡ (if any (is_list id) ls then any (gives perm id) ls else found_in perm id done)
unfolding map_lists any
found-map_lists perm id done [] k = refl
found-map_lists perm id done (l ∷ ls) k = elim (Bool-cases (l.id == id)) [
  | inl e ↦
      let none_after : any (is_list id) ls ≡ false = sym (same_none l id ls (ground arith)) ∙ k.0 in
      found-map_lists perm id ((l.id, l.permissions) ∷ done) ls k.1
      ∙ ground (arith, gives_none perm id ls)
  | inr e ↦ found-map_lists perm id ((l.id, l.permissions) ∷ done) ls k.1 ∙ ground arith
]

abbrev pub is_id : ℕ → ℕ → Bool
is_id id j = j == id

any-append :
    (id : ℕ) (xs ys : List ℕ) → any (is_id id) (xs ++ ys) ≡ (any (is_id id) xs || any (is_id id) ys)
unfolding any
any-append id [] ys = refl
any-append id (x ∷ xs) ys = ground (arith, any-append id xs ys)

any-collect :
    (perm : Bytes) (id i : ℕ) (ps : List Bytes)
    → any (is_id id) (collect perm i ps) ≡ (i == id && holds_perm perm ps)
unfolding any collect
any-collect perm id i [] = ground arith
any-collect perm id i (p ∷ ps) = ground (arith, any-collect perm id i ps)

any-ids_with :
    (perm : Bytes) (id : ℕ) (ls : List ListPermission)
    → any (is_id id) (ids_with perm ls) ≡ any (gives perm id) ls
unfolding any ids_with
any-ids_with perm id [] = refl
any-ids_with perm id (l ∷ ls) =
    any-append id (collect perm l.id l.permissions) (ids_with perm ls)
    ∙ ground (arith, any-collect perm id l.id l.permissions, any-ids_with perm id ls)

module _ (r : UserRow) where
  abbrev user : User
  user = setup_user_fields r

  in_entry-gives :
      (perm : Bytes) (id : ℕ)
      → IsKeyed same_list (role_lists r)
      → in_entry perm (entry user id) ≡ any (gives perm id) (role_lists r)
  unfolding setup_user_fields
  in_entry-gives perm id k =
      found-map_lists perm id [] (role_lists r) k
      ∙ elim (Bool-cases (any (is_list id) (role_lists r))) [
        | inl e ↦ rw e
        | inr e ↦ rw e (sym (gives_none perm id (role_lists r) e))
      ]

  -- One list that is asked about: the blanket permission or the entry.
  has_list_perm_one :
      (types id : ℕ)
      → (types ≡ 1) ⊎ (types ≡ 2)
      → 0 < id
      → has_list_perm user types (id ∷ []) ≡ (has_blanket user types || passes user types id)
  unfolding has_list_perm has_each_list_perm has_one_list_perm has_perm setup_user_fields
  has_list_perm_one types id (inl e) h = rw e (ground arith)
  has_list_perm_one types id (inr e) h = rw e (ground arith)

  filter-has_list_perm :
      (types : ℕ)
      → (types ≡ 1) ⊎ (types ≡ 2)
      → (ids : List ℕ) → All (λ id. 0 < id) ids
      → filter (λ id. has_list_perm user types (id ∷ [])) ids
        ≡ (if has_blanket user types then ids else filter_lists user types ids)
  unfolding filter_lists
  filter-has_list_perm types one [] h = ground arith
  filter-has_list_perm types one (id ∷ ids) h =
      rw (has_list_perm_one types id one h.0, filter-has_list_perm types one ids h.1) (ground arith)

  -- For reading, or for managing, FilterListsByPerm keeps exactly the ids that HasListPerm accepts one
  -- by one, in their order, of ids that are positive.
  pub filter_lists_by_perm_lem :
      (types : ℕ)
      → (types ≡ 1) ⊎ (types ≡ 2)
      → (ids : List ℕ) → All (λ id. 0 < id) ids
      → filter_lists_by_perm user types ids ≡ filter (λ id. has_list_perm user types (id ∷ [])) ids
  unfolding filter_lists_by_perm
  filter_lists_by_perm_lem types one ids h =
      rw (filter-has_list_perm types one ids h) (asked types one)
    where
      asked :
          (t : ℕ)
          → (t ≡ 1) ⊎ (t ≡ 2)
          → filter_lists_by_perm user t ids
            ≡ (if has_blanket user t then ids else filter_lists user t ids)
      asked t (inl e) = rw e refl
      asked t (inr e) = rw e refl

  abbrev grants : Bool × List ℕ → ℕ → Bool
  grants p id = p.0 || any (is_id id) p.1

  permitted-grants :
      (types id : ℕ)
      → (types ≡ 1) ⊎ (types ≡ 2)
      → grants (get_permitted_lists user types) id ≡ (
          has_blanket user types
          || any (is_id id) (if asks_get types then user.get_list_ids else user.manage_list_ids))
  unfolding get_permitted_lists setup_user_fields any
  permitted-grants types id (inl e) = rw e (at_get (ids_with perm_list_get (role_lists r)))
    where
      at_get :
          (xs : List ℕ)
          → grants
              (if has_blanket user 1
                then (true, [])
                else if ltb 0 (length xs)
                then (false, xs)
                else (false, []))
              id
            ≡ (has_blanket user 1 || any (is_id id) xs)
      at_get [] = ground arith
      at_get (x ∷ xs) = ground arith
  permitted-grants types id (inr e) = rw e (ground arith)

  blanket_or :
      (types id : ℕ)
      → (types ≡ 1) ⊎ (types ≡ 2)
      → IsKeyed same_list (role_lists r)
      → (has_blanket user types || passes user types id) ≡ (
          has_blanket user types
          || any (is_id id) (if asks_get types then user.get_list_ids else user.manage_list_ids))
  unfolding setup_user_fields
  blanket_or types id (inl e) k = rw e (
      ap (λ z. has_blanket user 1 || z)
        (in_entry-gives perm_list_get id k ∙ sym (any-ids_with perm_list_get id (role_lists r))))
  blanket_or types id (inr e) k = rw e (
      ap (λ z. has_blanket user 2 || z)
        (in_entry-gives perm_list_manage id k
          ∙ sym (any-ids_with perm_list_manage id (role_lists r))))

  -- Where no list stands twice in the list role, a user who asks for reading, or for managing, has
  -- the permission on a list exactly when GetPermittedLists grants all lists or names that one.
  pub get_permitted_lists_lem :
      (types id : ℕ)
      → (types ≡ 1) ⊎ (types ≡ 2)
      → 0 < id
      → IsKeyed same_list (role_lists r)
      → has_list_perm user types (id ∷ [])
        ≡ ((get_permitted_lists user types).0 || any (is_id id) (get_permitted_lists user types).1)
  get_permitted_lists_lem types id one h k =
      has_list_perm_one types id one h
      ∙ blanket_or types id one k
      ∙ sym (permitted-grants types id one)
