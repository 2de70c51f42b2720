-- ===== src/Auth/Access.antt =====
-- Who gets past the middlewares of internal/auth/auth.go.
use mathlib.Core.Option.{none-ne-some}
use mailview.Prelude.{
  ℕ, ◌≤◌, ltb, if◌then◌else◌, ◌≡◌, ◌⊎◌, refl, true, Option, none, some, List, [], ◌∷◌, Bytes,
  str_eq_iff, arith,
}
use mailview.Auth.Users.{User, super_admin_role_id}
use mailview.Auth.Gate.{
  Account, Cache, hash_api_token, check_token, parse_auth_header, Request, SessionAnswers,
  header_of, Setting, middleware, identify, has_any,
}

-- How a request shows who sends it: by a key that is cached, with a token whose hash is the
-- password; or, without a header that counts, by a session that was read and names a user.
pub data Login (g : Setting) (cache : Cache) (r : Request) (u : Account) : Type 0 where
  token :
      (key secret : Bytes)
      → parse_auth_header g.decode (header_of r) ≡ some (key, secret)
      → cache key ≡ some u
      → u.password ≡ hash_api_token g.sha secret
      → Login g cache r u
  session :
      (id : ℕ)
      → header_of r ≡ []
      → r.session.acquired ≡ true
      → r.session.read ≡ true
      → r.session.user_id ≡ some id
      → 1 ≤ id
      → g.get_user id ≡ some u
      → Login g cache r u

abbrev pub May : List Bytes → User → Type 0
May perms u = (u.role_id ≡ super_admin_role_id) ⊎ (has_any perms u ≡ true)

check_token-good :
    (sha : Bytes → Bytes) (secret : Bytes) (u : Account)
    → u.password ≡ hash_api_token sha secret
    → check_token sha secret u ≡ some u
check_token-good sha secret u e = rw ((str_eq_iff u.password (hash_api_token sha secret)).1 e) refl

if_up : (id : ℕ) (u : Account) → 1 ≤ id → (if ltb id 1 then none else some u) ≡ some u
if_up id u up = ground (arith, up)

-- No credentials come from an empty header.
identify-parse :
    (g : Setting) (cache : Cache) (answers : SessionAnswers) (hdr : Bytes) (key secret : Bytes)
    (u : Account)
    → parse_auth_header g.decode hdr ≡ some (key, secret)
    → cache key ≡ some u
    → u.password ≡ hash_api_token g.sha secret
    → identify g cache answers hdr ≡ some u
unfolding identify parse_auth_header
identify-parse g cache answers [] key secret u parsed found good =
    elim (none-ne-some (key, secret) parsed) [ ]
identify-parse g cache answers (c ∷ cs) key secret u parsed found good =
    rw (parsed, found) (check_token-good g.sha secret u good)

pub Login-middleware :
    (g : Setting) (cache : Cache) (r : Request) (u : Account)
    → Login g cache r u
    → middleware g cache r ≡ some u
unfolding middleware identify
Login-middleware g cache r u (token key secret parsed found good) =
    identify-parse g cache r.session (header_of r) key secret u parsed found good
Login-middleware g cache r u (session id h got read named up found) =
    rw (h, got, read, named, found) (if_up id u up)
