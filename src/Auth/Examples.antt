-- ===== src/Auth/Examples.antt =====
-- A user with reading on one list and managing on another.
use mailview.Prelude.{
  ◌≡◌, ◌||◌, refl, inl, inr, true, false, some, none, [], ◌∷◌, codes, any, filter, str_eq, arith,
}
use mailview.Auth.Users.{
  UserRow, perm_list_get, perm_list_manage, setup_user_fields, has_perm, has_list_perm,
  filter_lists_by_perm, get_permitted_lists, filter_lists, has_each_list_perm, has_one_list_perm,
  map_lists, ids_with, ListIds, get_permitted_list_ids,
}
use mailview.Auth.Permitted.{is_id, filter_lists_by_perm_lem, get_permitted_lists_lem}

abbrev row : UserRow
row = record {
  user_role_id = 2;
  user_role_perms = codes "campaigns:get" ∷ [];
  list_role_id = some 7;
  list_perms =
      record { id = 3; permissions = perm_list_get ∷ [] }
      ∷ (record { id = 4; permissions = perm_list_manage ∷ [] } ∷ []);
}

abbrev super_admin : UserRow
super_admin = record {
  user_role_id = 1;
  user_role_perms = [];
  list_role_id = none;
  list_perms = [];
}

filter_lists_by_perm_example :
    filter_lists_by_perm (setup_user_fields row) 1 (3 ∷ 4 ∷ 5 ∷ [])
    ≡ filter (λ id. has_list_perm (setup_user_fields row) 1 (id ∷ [])) (3 ∷ 4 ∷ 5 ∷ [])
filter_lists_by_perm_example =
    filter_lists_by_perm_lem row 1 (inl refl) (3 ∷ 4 ∷ 5 ∷ []) (omega arith)

get_permitted_lists_example : has_list_perm (setup_user_fields row) 2 (4 ∷ []) ≡ (
    (get_permitted_lists (setup_user_fields row) 2).0
    || any (is_id 4) (get_permitted_lists (setup_user_fields row) 2).1)
unfolding any
get_permitted_lists_example =
    get_permitted_lists_lem row 2 4 (inr refl) (omega arith) (refl, (refl, tt))

reading : filter_lists_by_perm (setup_user_fields row) 1 (3 ∷ 4 ∷ 5 ∷ []) ≡ 3 ∷ []
unfolding filter_lists_by_perm filter_lists setup_user_fields map_lists any str_eq
reading = refl

-- Either of the two permissions: the list that the user only manages is not kept.
either : filter_lists_by_perm (setup_user_fields row) 3 (3 ∷ 4 ∷ 5 ∷ []) ≡ 3 ∷ []
unfolding filter_lists_by_perm filter_lists setup_user_fields map_lists any str_eq
either = refl

managing : has_list_perm (setup_user_fields row) 2 (4 ∷ []) ≡ true
unfolding has_list_perm has_each_list_perm has_one_list_perm has_perm setup_user_fields map_lists
    any str_eq
managing = refl

-- The role of the super admin, once its id was moved.
no_short_cut : has_perm (setup_user_fields super_admin) (codes "users:manage") ≡ false
unfolding has_perm setup_user_fields any
no_short_cut = refl

nothing_permitted :
    get_permitted_list_ids (setup_user_fields super_admin) (3 ∷ []) ≡ ListIds.no_list
unfolding get_permitted_list_ids filter_lists_by_perm filter_lists setup_user_fields map_lists any
    ids_with
nothing_permitted = refl
