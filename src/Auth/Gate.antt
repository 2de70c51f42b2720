-- ===== src/Auth/Gate.antt =====
-- internal/auth/auth.go: API credentials and the two middlewares of a request, Middleware and Perm.
-- SHA-256, base64, the session store and the lookup of a user by its id are parameters.
use mailview.Prelude.{
  ℕ, Bool, not, ◌&&◌, ◌||◌, Option, none, some, List, [], ◌∷◌, ◌==◌, ltb, drop, if◌then◌else◌,
  Bytes, codes, any, str_eq, trim_space, has_prefix, contains, is_empty, hex_encode,
}
use mailview.Auth.Users.{User, super_admin_role_id, holds_perm}

-- A user with what authentication reads. The password of an API user is the hash of its token.
pub record Account : Type 0 where
  pub username : Bytes
  pub password : Bytes
  pub user : User

-- `apiUsers`
abbrev pub Cache : Type 0
Cache = Bytes → Option Account

abbrev pub cache_api_user : Account → Cache → Cache
cache_api_user u cache name = if str_eq name u.username then some u else cache name

abbrev pub cache_each : List Account → Cache → Cache
cache_each [] cache = cache
cache_each (u ∷ us) cache = cache_each us (cache_api_user u cache)

-- `CacheAPIUsers` wipes what was there.
abbrev pub cache_api_users : List Account → Cache → Cache
cache_api_users us cache = cache_each us (λ name. none)

abbrev pub hash_api_token : (Bytes → Bytes) → Bytes → Bytes
hash_api_token sha token = hex_encode (sha token)

-- `subtle.ConstantTimeCompare` is 1 for equal texts only.
abbrev pub check_token : (Bytes → Bytes) → Bytes → Account → Option Account
check_token sha token u =
    if not (str_eq u.password (hash_api_token sha token)) then none else some u

abbrev pub check_found : (Bytes → Bytes) → Bytes → Option Account → Option Account
check_found sha token none = none
check_found sha token (some u) = check_token sha token u

abbrev pub get_api_token : (Bytes → Bytes) → Cache → Bytes → Bytes → Option Account
get_api_token sha cache name token = check_found sha token (cache name)

-- `strings.Trim(s, " ")`
unfoldable pub trim_blanks_left : Bytes → Bytes
trim_blanks_left [] = []
trim_blanks_left (c ∷ cs) = if c == 32 then trim_blanks_left cs else c ∷ cs

unfoldable pub trim_blanks_right : Bytes → Bytes
trim_blanks_right [] = []
trim_blanks_right (c ∷ cs) =
    let rest = trim_blanks_right cs in if c == 32 && is_empty rest then [] else c ∷ rest

abbrev pub trim_blanks : Bytes → Bytes
trim_blanks s = trim_blanks_right (trim_blanks_left s)

abbrev pub put_front : ℕ → Option (Bytes × Bytes) → Option (Bytes × Bytes)
put_front c none = none
put_front c (some (key, token)) = some (c ∷ key, token)

-- `strings.SplitN(s, ":", 2)`; without a colon there is one part only.
unfoldable pub split_pair : Bytes → Option (Bytes × Bytes)
split_pair [] = none
split_pair (c ∷ cs) = if c == 58 then some ([], cs) else put_front c (split_pair cs)

-- Both parts have to be there.
abbrev pub both_given : Option (Bytes × Bytes) → Option (Bytes × Bytes)
both_given none = none
both_given (some (key, token)) = if is_empty key || is_empty token then none else some (key, token)

abbrev pub split_payload : Option Bytes → Option (Bytes × Bytes)
split_payload none = none
split_payload (some payload) = both_given (split_pair payload)

-- `decode` is the decoder of base64.
unfoldable pub parse_auth_header : (Bytes → Option Bytes) → Bytes → Option (Bytes × Bytes)
unfolding split_pair trim_blanks_left trim_blanks_right
parse_auth_header decode h =
    if has_prefix h (codes "token")
    then both_given (split_pair (trim_blanks (drop 5 h)))
    else if has_prefix h (codes "Basic")
    then split_payload (decode (trim_blanks (drop 5 h)))
    else none

-- What the session store answers: a session, its variables, and the user's id read as a number; an
-- id that is no number, or a negative one, is `none`.
pub record SessionAnswers : Type 0 where
  pub acquired : Bool
  pub read : Bool
  pub user_id : Option ℕ

pub record Request : Type 0 where
  pub authorization : Bytes
  pub cookie : Bytes
  pub session : SessionAnswers

abbrev pub fetch_user : (ℕ → Option Account) → Option ℕ → Option Account
fetch_user get_user none = none
fetch_user get_user (some id) = if ltb id 1 then none else get_user id

abbrev pub validate_session : (ℕ → Option Account) → SessionAnswers → Option Account
validate_session get_user s =
    if not s.acquired then none else if not s.read then none else fetch_user get_user s.user_id

-- The header that counts: none beside a session's cookie.
abbrev pub header_of : Request → Bytes
header_of r =
    if contains (trim_space r.cookie) (codes "session=") then [] else trim_space r.authorization

-- What is around the middleware.
pub record Setting : Type 0 where
  pub decode : Bytes → Option Bytes
  pub sha : Bytes → Bytes
  pub get_user : ℕ → Option Account

abbrev pub use_credentials : Setting → Cache → Option (Bytes × Bytes) → Option Account
use_credentials g cache none = none
use_credentials g cache (some (key, token)) = get_api_token g.sha cache key token

-- A header that is not empty decides, also where it is wrong.
unfoldable pub identify : Setting → Cache → SessionAnswers → Bytes → Option Account
identify g cache session [] = validate_session g.get_user session
identify g cache session (c ∷ cs) = use_credentials g cache (parse_auth_header g.decode (c ∷ cs))

-- `Middleware`: the user on the request's context, `none` for an error there.
unfoldable pub middleware : Setting → Cache → Request → Option Account
unfolding identify
middleware g cache r = identify g cache r.session (header_of r)

-- The handler runs, with what is on the context, or the request is refused.
pub data Verdict : Type 0 where
  passed : Option Account → Verdict
  denied : Verdict

abbrev pub has_any : List Bytes → User → Bool
has_any perms u = any (λ perm. holds_perm perm u.permissions_map) perms

unfoldable pub perm : List Bytes → Option Account → Verdict
perm perms none = passed none
perm perms (some a) =
    if a.user.role_id == super_admin_role_id
    then passed (some a)
    else if not (has_any perms a.user)
    then denied
    else passed (some a)

-- The middleware of the API's routes (cmd/handlers.go), which stops at an error on the context.
abbrev pub require_user : (Option Account → Verdict) → Option Account → Verdict
require_user next none = denied
require_user next (some a) = next (some a)

-- The three in the order in which a route of the API has them that is registered with Perm.
unfoldable pub guarded : Setting → Cache → List Bytes → Request → Verdict
unfolding middleware perm
guarded g cache perms r = require_user (perm perms) (middleware g cache r)
