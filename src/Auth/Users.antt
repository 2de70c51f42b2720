-- ===== src/Auth/Users.antt =====
-- internal/auth/models.go, and setupUserFields of internal/core/users.go: a user's permissions, and
-- those on single lists. A map is a list of its entries, the last one written first.
use mailview.Prelude.{
  ℕ, ◌/◌, ◌%◌, Bool, true, false, ◌&&◌, ◌||◌, Option, none, some, List, [], ◌∷◌, ◌++◌, ◌==◌, ltb,
  if◌then◌else◌, Bytes, codes, any, find, length, str_eq,
}

pub record ListPermission : Type 0 where
  pub id : ℕ
  pub permissions : List Bytes

-- A row of the query for users, with its JSON read: the columns that give permissions.
pub record UserRow : Type 0 where
  pub user_role_id : ℕ
  pub user_role_perms : List Bytes
  pub list_role_id : Option ℕ
  pub list_perms : List ListPermission

pub record User : Type 0 where
  pub user_role_id : ℕ
  pub role_id : ℕ
  pub permissions_map : List Bytes
  pub list_permissions_map : List (ℕ × List Bytes)
  pub get_list_ids : List ℕ
  pub manage_list_ids : List ℕ

abbrev pub super_admin_role_id : ℕ
super_admin_role_id = 1

abbrev pub perm_list_get_all : Bytes
perm_list_get_all = codes "lists:get_all"

abbrev pub perm_list_manage_all : Bytes
perm_list_manage_all = codes "lists:manage_all"

abbrev pub perm_list_get : Bytes
perm_list_get = codes "list:get"

abbrev pub perm_list_manage : Bytes
perm_list_manage = codes "list:manage"

abbrev pub perm_subscribers_get_all : Bytes
perm_subscribers_get_all = codes "subscribers:get_all"

-- `types & PermTypeGet != 0` and `types & PermTypeManage != 0`
abbrev pub asks_get : ℕ → Bool
asks_get types = types % 2 == 1

abbrev pub asks_manage : ℕ → Bool
asks_manage types = types / 2 % 2 == 1

abbrev pub holds_perm : Bytes → List Bytes → Bool
holds_perm perm perms = any (str_eq perm) perms

-- The loop over a list's permissions that collects its id.
unfoldable pub collect : Bytes → ℕ → List Bytes → List ℕ
collect perm id [] = []
collect perm id (p ∷ ps) =
    let rest = collect perm id ps in if str_eq perm p then id ∷ rest else rest

unfoldable pub ids_with : Bytes → List ListPermission → List ℕ
ids_with perm [] = []
ids_with perm (l ∷ ls) = collect perm l.id l.permissions ++ ids_with perm ls

unfoldable pub map_lists : List (ℕ × List Bytes) → List ListPermission → List (ℕ × List Bytes)
map_lists done [] = done
map_lists done (l ∷ ls) = map_lists ((l.id, l.permissions) ∷ done) ls

-- Without a list role the maps and the ids stay empty.
abbrev pub role_lists : UserRow → List ListPermission
role_lists r = elim r.list_role_id [ none ↦ [] | some _ ↦ r.list_perms ]

-- `setupUserFields`: the role's id moves to `UserRole.ID`, and `UserRoleID` is cleared.
unfoldable pub setup_user_fields : UserRow → User
setup_user_fields r = record {
  user_role_id = 0;
  role_id = r.user_role_id;
  permissions_map = r.user_role_perms;
  list_permissions_map = map_lists [] (role_lists r);
  get_list_ids = ids_with perm_list_get (role_lists r);
  manage_list_ids = ids_with perm_list_manage (role_lists r);
}

-- `HasPerm`
unfoldable pub has_perm : User → Bytes → Bool
has_perm u perm = u.user_role_id == super_admin_role_id || holds_perm perm u.permissions_map

abbrev pub entry : User → ℕ → Option (ℕ × List Bytes)
entry u id = find (λ (e : ℕ × List Bytes). e.0 == id) u.list_permissions_map

abbrev pub in_entry : Bytes → Option (ℕ × List Bytes) → Bool
in_entry perm none = false
in_entry perm (some e) = holds_perm perm e.1

-- `hasListPerm`
unfoldable pub has_one_list_perm : User → Bytes → ℕ → Bool
has_one_list_perm u perm id = u.user_role_id == super_admin_role_id || in_entry perm (entry u id)

-- The loop of `HasListPerm`, which passes over ids that are not positive.
unfoldable pub has_each_list_perm : User → Bytes → List ℕ → Bool
has_each_list_perm u perm [] = true
has_each_list_perm u perm (id ∷ ids) =
    let rest = has_each_list_perm u perm ids in
    if ltb 0 id then if has_one_list_perm u perm id then rest else false else rest

-- `HasListPerm`: whether it ends without an error.
unfoldable pub has_list_perm : User → ℕ → List ℕ → Bool
has_list_perm u types ids =
    if types == 0
    then false
    else if asks_get types
    then has_perm u perm_list_get_all || has_each_list_perm u perm_list_get ids
    else has_perm u (if asks_manage types then perm_list_manage_all else [])
      || has_each_list_perm u (if asks_manage types then perm_list_manage else []) ids

-- Whether the map has a blanket permission of one of the two kinds.
abbrev pub has_blanket : User → ℕ → Bool
has_blanket u types =
    (asks_get types && holds_perm perm_list_get_all u.permissions_map)
    || (asks_manage types && holds_perm perm_list_manage_all u.permissions_map)

-- `GetPermittedLists`
unfoldable pub get_permitted_lists : User → ℕ → Bool × List ℕ
get_permitted_lists u types =
    if types == 0
    then (false, [])
    else if u.user_role_id == super_admin_role_id
    then (true, [])
    else if has_blanket u types
    then (true, [])
    else if asks_get types && ltb 0 (length u.get_list_ids)
    then (false, u.get_list_ids)
    else if asks_manage types
    then (false, u.manage_list_ids)
    else (false, [])

-- The test of `FilterListsByPerm` on one id.
abbrev pub passes : User → ℕ → ℕ → Bool
passes u types id =
    if asks_get types
    then in_entry perm_list_get (entry u id)
    else asks_manage types && in_entry perm_list_manage (entry u id)

unfoldable pub filter_lists : User → ℕ → List ℕ → List ℕ
filter_lists u types [] = []
filter_lists u types (id ∷ ids) =
    let rest = filter_lists u types ids in if passes u types id then id ∷ rest else rest

-- `FilterListsByPerm`
unfoldable pub filter_lists_by_perm : User → ℕ → List ℕ → List ℕ
filter_lists_by_perm u types ids =
    if types == 0 then [] else if has_blanket u types then ids else filter_lists u types ids

-- What `GetPermittedListIDs` returns: ids, or the list of -1, which no list has.
pub data ListIds : Type 0 where
  these : List ℕ → ListIds
  no_list : ListIds

-- `GetPermittedListIDs`
unfoldable pub get_permitted_list_ids : User → List ℕ → ListIds
get_permitted_list_ids u ids =
    let kept = filter_lists_by_perm u 3 ids in
    if ltb 0 (length kept) || holds_perm perm_subscribers_get_all u.permissions_map
    then these kept
    else if ltb 0 (length u.get_list_ids)
    then these u.get_list_ids
    else no_list
