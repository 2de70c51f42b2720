-- ===== src/Auth/Credentials.antt =====
-- The header of an API client, and parseAuthHeader of internal/auth/auth.go.
use mailview.Prelude.{
  ℕ, ◌≡◌, refl, ap, ◌∙◌, Bool, true, false, not, ◌&&◌, Option, some, [], ◌∷◌, ◌++◌, ◌==◌, Bytes,
  codes, contains, all, str_eq_refl, is_empty, is_space, trim_left, trim_right, trim_space,
  &&-eq-true, arith,
}
use mailview.Auth.Gate.{
  Account, Cache, cache_api_user, hash_api_token, trim_blanks_left, trim_blanks_right, trim_blanks,
  split_pair, parse_auth_header, Request, SessionAnswers, header_of, Setting, middleware,
}
use mailview.Auth.Access.{token, Login-middleware}

abbrev pub is_solid : ℕ → Bool
is_solid c = not (is_space c)

abbrev pub in_name : ℕ → Bool
in_name c = is_solid c && not (c == 58)

-- `token api_key:access_token`
abbrev pub token_header : Bytes → Bytes → Bytes
token_header key secret = codes "token " ++ (key ++ 58 ∷ secret)

solid-space : (c : ℕ) → is_solid c ≡ true → (is_space c ≡ false) × ((c == 32) ≡ false)
solid-space c h = ground arith

name-solid : (c : ℕ) → in_name c ≡ true → (is_solid c ≡ true) × ((c == 58) ≡ false)
name-solid c h = ground arith

all-pair :
    (key secret : Bytes)
    → all in_name key ≡ true
    → all is_solid secret ≡ true
    → all is_solid (key ++ 58 ∷ secret) ≡ true
unfolding all
all-pair [] secret h h' = h'
all-pair (c ∷ key) secret h h' =
    let (first, rest) = &&-eq-true (in_name c) (all in_name key) h in
    rw ((name-solid c first).0, all-pair key secret rest h') refl

trim_right-solid : (s : Bytes) → all is_solid s ≡ true → trim_right s ≡ s
unfolding trim_right all
trim_right-solid [] h = refl
trim_right-solid (c ∷ cs) h =
    let (first, rest) = &&-eq-true (is_solid c) (all is_solid cs) h in
    rw ((solid-space c first).0, trim_right-solid cs rest) refl

append-filled : (a s : Bytes) → is_empty s ≡ false → is_empty (a ++ s) ≡ false
append-filled [] s e = e
append-filled (c ∷ a) s e = refl

&&-false : (b : Bool) → (b && false) ≡ false
&&-false b = ground arith

trim_right-append :
    (a s : Bytes) → all is_solid s ≡ true → is_empty s ≡ false → trim_right (a ++ s) ≡ a ++ s
unfolding trim_right
trim_right-append [] s h e = trim_right-solid s h
trim_right-append (c ∷ a) s h e =
    rw (trim_right-append a s h e, append-filled a s e, &&-false (is_space c)) refl

trim_blanks_right-solid : (s : Bytes) → all is_solid s ≡ true → trim_blanks_right s ≡ s
unfolding trim_blanks_right all
trim_blanks_right-solid [] h = refl
trim_blanks_right-solid (c ∷ cs) h =
    let (first, rest) = &&-eq-true (is_solid c) (all is_solid cs) h in
    rw ((solid-space c first).1, trim_blanks_right-solid cs rest) refl

split_pair-pair :
    (key secret : Bytes)
    → all in_name key ≡ true
    → split_pair (key ++ 58 ∷ secret) ≡ some (key, secret)
unfolding split_pair all
split_pair-pair [] secret h = refl
split_pair-pair (c ∷ key) secret h =
    let (first, rest) = &&-eq-true (in_name c) (all in_name key) h in
    rw ((name-solid c first).1, split_pair-pair key secret rest) refl

pair-filled : (key secret : Bytes) → is_empty (key ++ 58 ∷ secret) ≡ false
pair-filled key secret = append-filled key (58 ∷ secret) refl

-- The middleware's `strings.TrimSpace` leaves such a header as it is.
trim_space-header :
    (key secret : Bytes)
    → all in_name key ≡ true
    → all is_solid secret ≡ true
    → trim_space (token_header key secret) ≡ token_header key secret
unfolding trim_left
trim_space-header key secret h h' =
    trim_right-append (codes "token ") (key ++ 58 ∷ secret) (all-pair key secret h h')
      (pair-filled key secret)

trim_blanks-solid : (s : Bytes) → all is_solid s ≡ true → trim_blanks (32 ∷ s) ≡ s
unfolding trim_blanks_left trim_blanks_right all
trim_blanks-solid [] h = refl
trim_blanks-solid (c ∷ cs) h =
    let (first, _) = &&-eq-true (is_solid c) (all is_solid cs) h in
    rw (solid-space c first).1 (trim_blanks_right-solid (c ∷ cs) h)

parse-header :
    (decode : Bytes → Option Bytes) (key secret : Bytes)
    → all in_name key ≡ true
    → all is_solid secret ≡ true
    → is_empty key ≡ false
    → is_empty secret ≡ false
    → parse_auth_header decode (token_header key secret) ≡ some (key, secret)
unfolding parse_auth_header
parse-header decode key secret h h' e e' =
    rw
      (
        trim_blanks-solid (key ++ 58 ∷ secret) (all-pair key secret h h'),
        split_pair-pair key secret h,
        e,
        e',
      )
      refl

-- A client that sends the header `token name:secret`, with any cookies but a session's, is the user of that
-- name that was cached last, when that user's password is the hash of the secret. The name and the
-- secret are not empty and have no white space, and the name has no colon.
pub middleware-cache_api_user :
    (g : Setting) (cache : Cache) (u : Account) (secret cookie : Bytes) (answers : SessionAnswers)
    → contains (trim_space cookie) (codes "session=") ≡ false
    → all in_name u.username ≡ true
    → all is_solid secret ≡ true
    → is_empty u.username ≡ false
    → is_empty secret ≡ false
    → u.password ≡ hash_api_token g.sha secret
    → middleware g (cache_api_user u cache) (record {
      authorization = token_header u.username secret;
      cookie = cookie;
      session = answers;
    })
      ≡ some u
unfolding trim_left trim_right
middleware-cache_api_user g cache u secret cookie answers none_set h h' e e' good =
    let sent : Request = record {
      authorization = token_header u.username secret;
      cookie = cookie;
      session = answers;
    } in
    let kept : header_of sent ≡ token_header u.username secret =
      rw none_set (trim_space-header u.username secret h h') in
    Login-middleware g (cache_api_user u cache) sent u (
      token u.username secret
        (ap (parse_auth_header g.decode) kept ∙ parse-header g.decode u.username secret h h' e e')
        (rw (str_eq_refl u.username) refl) good)
