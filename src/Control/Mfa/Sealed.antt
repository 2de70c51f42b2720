-- ===== src/Control/Mfa/Sealed.antt =====
-- Reading back the secrets of mfa.go.
use mailview.Prelude.{
  ℕ, ◌≡◌, refl, ap, sym, ◌∙◌, Bool, true, false, not, ◌&&◌, Option, none, some, List, [], ◌∷◌, ◌++◌,
  ◌==◌, ==_iff, ltb, leb, Bytes, take, drop, filter, find, update, length, length-append, is_empty,
  trim_space, Result, ok, invalid, in_tx, guard_ok, Bool-cases, inl, inr, all, arith, &&-eq-true,
}
use mailview.Control.Db.{Actor}
use mailview.Control.Mfa.{
  Method, MfaDb, Aead, encrypt, decrypt, upsert, sealed_row, enable_body, enable_totp, open_row,
  totp_secret, mark_used, disable_totp, Call, enable, mark, disable, perform, perform_all,
}

abbrev cipher_of : Option Method → Option Bytes
cipher_of none = none
cipher_of (some m) = some m.secret_ciphertext

-- The ciphertext that is stored for a user.
abbrev stored : ℕ → List Method → Option Bytes
stored user ms = cipher_of (find (λ m. m.user == user) ms)

stored-upsert :
    (row : Method) (ms : List Method) → stored row.user (upsert row ms) ≡ some row.secret_ciphertext
unfolding upsert
stored-upsert row [] = rw ((==_iff row.user row.user).1 refl) refl
stored-upsert row (m ∷ ms) = elim (Bool-cases (m.user == row.user)) [
  | inl e ↦ rw (e, e) refl
  | inr e ↦ rw (e, e) (stored-upsert row ms)
]

apart : (a b c : ℕ) → (a == b) ≡ true → (b == c) ≡ false → (a == c) ≡ false
apart a b c e h = ground (arith, e, h)

-- A row in front of two tables that hold the same.
stored-front :
    (user : ℕ) (m : Method) (a b : List Method)
    → stored user a ≡ stored user b
    → stored user (m ∷ a) ≡ stored user (m ∷ b)
stored-front user m a b e = elim (Bool-cases (m.user == user)) [
  | inl h ↦ rw h refl
  | inr h ↦ rw h e
]

upsert-other :
    (user : ℕ) (row : Method) (ms : List Method)
    → (row.user == user) ≡ false
    → stored user (upsert row ms) ≡ stored user ms
unfolding upsert
upsert-other user row [] h = rw h refl
upsert-other user row (m ∷ ms) h = elim (Bool-cases (m.user == row.user)) [
  | inl e ↦ rw (e, apart m.user row.user user e h) refl
  | inr e ↦ rw e (stored-front user m (upsert row ms) ms (upsert-other user row ms h))
]

stored-filter :
    (user other : ℕ) (ms : List Method)
    → (other == user) ≡ false
    → stored user (filter (λ m. not (m.user == other)) ms) ≡ stored user ms
stored-filter user other [] h = refl
stored-filter user other (m ∷ ms) h = elim (Bool-cases (m.user == other)) [
  | inl e ↦ rw (e, apart m.user other user e h) (stored-filter user other ms h)
  | inr e ↦ rw e (
      stored-front user m (filter (λ r. not (r.user == other)) ms) ms
        (stored-filter user other ms h))
]

stored-mark :
    (user other now : ℕ) (ms : List Method)
    → stored user (update (λ m. m.user == other) (λ m. record m { last_used_at = some now }) ms)
      ≡ stored user ms
stored-mark user other now [] = refl
stored-mark user other now (m ∷ ms) = elim (Bool-cases (m.user == other)) [
  | inl e ↦ rw e (elim (Bool-cases (m.user == user)) [
    | inl h ↦ rw h refl
    | inr h ↦ rw h (stored-mark user other now ms)
  ])
  | inr e ↦ rw e (
      stored-front user m
        (update (λ r. r.user == other) (λ r. record r { last_used_at = some now }) ms) ms
        (stored-mark user other now ms))
]

-- The calls that do not set or delete a user's secret.
abbrev pub spares : ℕ → Call → Bool
spares user (enable nonce id other secret actor) = not (other == user)
spares user (mark other now) = true
spares user (disable other actor) = not (other == user)

take-append : (a b : Bytes) → take (length a) (a ++ b) ≡ a
take-append [] b = refl
take-append (x ∷ a) b = ap (λ l. x ∷ l) (take-append a b)

drop-append : (a b : Bytes) → drop (length a) (a ++ b) ≡ b
drop-append [] b = refl
drop-append (x ∷ a) b = drop-append a b

decrypt-encrypt :
    (a : Aead) (nonce plain : Bytes)
    → length nonce ≡ a.nonce_size
    → a.unseal nonce (a.seal nonce plain) ≡ some plain
    → decrypt a (encrypt a nonce plain) ≡ some plain
unfolding decrypt
decrypt-encrypt a nonce plain size law =
    let long : ltb (length (nonce ++ a.seal nonce plain)) (length nonce) ≡ false =
      ground (arith, length-append nonce (a.seal nonce plain)) in
    rw
      (
        sym size,
        long,
        take-append nonce (a.seal nonce plain),
        drop-append nonce (a.seal nonce plain),
      )
      law

enable-stored :
    (m : Option Aead) (nonce : Bytes) (id other : ℕ) (secret : Bytes) (actor : Actor) (user : ℕ)
    (db : MfaDb)
    → (other == user) ≡ false
    → stored user (enable_totp m nonce id other secret actor db).1.methods ≡ stored user db.methods
unfolding enable_totp
enable-stored none nonce id other secret actor user db h = refl
enable-stored (some a) nonce id other secret actor user db h =
    elim (Bool-cases (leb 1 other && not (is_empty (trim_space secret)))) [
      | inl e ↦ rw e (upsert-other user (sealed_row a nonce id other secret) db.methods h)
      | inr e ↦ rw e refl
    ]

perform-stored :
    (m : Option Aead) (user : ℕ) (c : Call) (db : MfaDb)
    → spares user c ≡ true
    → stored user (perform m c db).methods ≡ stored user db.methods
unfolding perform mark_used disable_totp
perform-stored m user (enable nonce id other secret actor) db h =
    enable-stored m nonce id other secret actor user db (ground (arith, h))
perform-stored m user (mark other now) db h = stored-mark user other now db.methods
perform-stored m user (disable other actor) db h =
    stored-filter user other db.methods (ground (arith, h))

perform_all-stored :
    (m : Option Aead) (user : ℕ) (cs : List Call) (db : MfaDb)
    → all (spares user) cs ≡ true
    → stored user (perform_all m cs db).methods ≡ stored user db.methods
unfolding perform_all all
perform_all-stored m user [] db h = refl
perform_all-stored m user (c ∷ cs) db h =
    let (first, rest) = &&-eq-true (spares user c) (all (spares user) cs) h in
    perform_all-stored m user cs (perform m c db) rest ∙ perform-stored m user c db first

enabled-stored :
    (a : Aead) (nonce : Bytes) (id user : ℕ) (secret : Bytes) (actor : Actor) (db : MfaDb)
    {db' : MfaDb}
    → enable_totp (some a) nonce id user secret actor db ≡ (ok tt, db')
    → stored user db'.methods ≡ some (encrypt a nonce secret)
unfolding enable_totp
enabled-stored a nonce id user secret actor db {db'} done =
    let (_, run) =
      guard_ok (leb 1 user && not (is_empty (trim_space secret))) invalid
        (λ _. in_tx (enable_body a nonce id user secret actor)) done in
    ap (λ (r : Result Unit × MfaDb). stored user r.1.methods) (sym run)
    ∙ stored-upsert (sealed_row a nonce id user secret) db.methods

open_row-cipher :
    (a : Aead) (o : Option Method) (c plain : Bytes)
    → cipher_of o ≡ some c
    → decrypt a c ≡ some plain
    → open_row a o ≡ ok (some plain)
open_row-cipher a none c plain e d = cc
open_row-cipher a (some m) c plain e d = rw (cipher_same m c e, d) refl
  where
    cipher_same : (m : Method) (c : Bytes) → cipher_of (some m) ≡ some c → m.secret_ciphertext ≡ c
    cipher_same m c e = ap (λ o. elim o [ none ↦ [] | some x ↦ x ]) e

-- A secret that was enabled is read back whatever calls follow, successful or not, unless one of them
-- enables or disables TOTP for the same user. Asked of the AEAD: it opens what it sealed with the
-- nonce, which has the AEAD's size.
pub totp_secret-enable_totp :
    (a : Aead) (nonce : Bytes) (id user : ℕ) (secret : Bytes) (actor : Actor) (db : MfaDb)
    {db' : MfaDb} (cs : List Call)
    → length nonce ≡ a.nonce_size
    → a.unseal nonce (a.seal nonce secret) ≡ some secret
    → enable_totp (some a) nonce id user secret actor db ≡ (ok tt, db')
    → all (spares user) cs ≡ true
    → totp_secret (some a) user (perform_all (some a) cs db') ≡ ok (some secret)
unfolding totp_secret
totp_secret-enable_totp a nonce id user secret actor db {db'} cs size law done spared =
    open_row-cipher a (find (λ m. m.user == user) (perform_all (some a) cs db').methods)
      (encrypt a nonce secret) secret
      (perform_all-stored (some a) user cs db' spared
        ∙ enabled-stored a nonce id user secret actor db done)
      (decrypt-encrypt a nonce secret size law)
