-- ===== src/Auth/Entrance.antt =====
-- Requests with good and bad credentials at a route of the API.
use mailview.Prelude.{
  ◌≡◌, refl, true, false, none, some, [], ◌∷◌, Bytes, codes, any, str_eq, trim_left, trim_right,
  hex_encode, all,
}
use mailview.Auth.Gate.{
  Account, Cache, cache_api_user, cache_api_users, trim_blanks_left, trim_blanks_right, split_pair,
  parse_auth_header, Request, SessionAnswers, Setting, identify, middleware, passed, denied, perm,
  guarded,
}
use mailview.Auth.Credentials.{is_solid, in_name, token_header, middleware-cache_api_user}

-- The digest keeps the text, and nothing is base64.
abbrev setting : Setting
setting = record { decode = λ payload. none; sha = λ secret. secret; get_user = λ id. none }

abbrev robot : Account
robot = record {
  username = codes "robot";
  password = hex_encode (codes "s:3");
  user = record {
    user_role_id = 0;
    role_id = 4;
    permissions_map = codes "lists:get_all" ∷ (codes "settings:get" ∷ []);
    list_permissions_map = [];
    get_list_ids = [];
    manage_list_ids = [];
  };
}

abbrev no_session : SessionAnswers
no_session = record { acquired = false; read = false; user_id = none }

abbrev nobody : Cache
nobody name = none

abbrev sent : Bytes → Request
sent header = record { authorization = header; cookie = []; session = no_session }

abbrev cached : Cache
cached = cache_api_users (robot ∷ []) nobody

-- A wrong secret is refused.
wrong_secret :
    guarded setting cached (codes "settings:get" ∷ []) (sent (codes "token robot:s:4")) ≡ denied
unfolding guarded middleware identify parse_auth_header split_pair trim_blanks_left
    trim_blanks_right trim_left trim_right str_eq
wrong_secret = refl

no_permission :
    guarded setting cached (codes "settings:manage" ∷ []) (sent (codes "token robot:s:3")) ≡ denied
unfolding guarded perm middleware identify parse_auth_header split_pair trim_blanks_left
    trim_blanks_right trim_left trim_right str_eq any
no_permission = refl

let_in :
    guarded setting cached (codes "settings:get" ∷ []) (sent (codes "token robot:s:3"))
    ≡ passed (some robot)
unfolding guarded perm middleware identify parse_auth_header split_pair trim_blanks_left
    trim_blanks_right trim_left trim_right str_eq any
let_in = refl

name_good : all in_name (codes "robot") ≡ true
unfolding all
name_good = refl

secret_good : all is_solid (codes "s:3") ≡ true
unfolding all
secret_good = refl

middleware-cache_api_user_example :
    middleware setting (cache_api_user robot nobody) (record {
      authorization = token_header (codes "robot") (codes "s:3");
      cookie = codes "lang=en";
      session = no_session;
    })
    ≡ some robot
unfolding trim_left trim_right
middleware-cache_api_user_example =
    middleware-cache_api_user setting nobody robot (codes "s:3") (codes "lang=en") no_session refl
      name_good secret_good refl refl refl
