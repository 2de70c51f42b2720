-- ===== src/Control/Mfa.antt =====
-- internal/mailview/control/mfa.go: TOTP secrets, sealed by a key that may be missing. The AEAD, the
-- nonces, new ids and the time are parameters and arguments; a nonce is always drawn.
pub mod Sealed
mod Examples
use mailview.Prelude.{
  ℕ, zero, suc, ◌+◌, Bool, true, false, not, ◌&&◌, Option, none, some, List, [], ◌∷◌, ◌++◌, ◌==◌,
  ltb, leb, if◌then◌else◌, Bytes, codes, take, drop, filter, find, update, length, trim_space,
  is_empty, Tx, Result, ok, err, external_failure, invalid, encryption_unavailable, ◌>>=◌, ◌>>◌,
  exec, guard, raise, in_tx,
}
use mailview.Control.Db.{Actor, AuditEvent, audited}

-- mv_mfa_methods; its type is always 'totp', and a user has one row at most.
pub record Method : Type 0 where
  pub id : ℕ
  pub user : ℕ
  pub secret_ciphertext : Bytes
  pub key_version : ℕ
  pub last_used_at : Option ℕ

-- The columns of users for the second factor.
pub record Factor : Type 0 where
  pub id : ℕ
  pub twofa_type : Bytes
  pub twofa_key : Option Bytes

pub record MfaDb : Type 0 where
  pub methods : List Method
  pub users : List Factor
  pub audit : List AuditEvent

-- `cipher.AEAD` without additional data.
pub record Aead : Type 0 where
  pub nonce_size : ℕ
  pub seal : Bytes → Bytes → Bytes
  pub unseal : Bytes → Bytes → Option Bytes

-- `Seal` appends to the nonce.
abbrev pub encrypt : Aead → Bytes → Bytes → Bytes
encrypt a nonce plain = nonce ++ a.seal nonce plain

unfoldable pub decrypt : Aead → Bytes → Option Bytes
decrypt a ciphertext =
    if ltb (length ciphertext) a.nonce_size
    then none
    else a.unseal (take a.nonce_size ciphertext) (drop a.nonce_size ciphertext)

-- INSERT with ON CONFLICT (user_id, type) DO UPDATE
unfoldable pub upsert : Method → List Method → List Method
upsert row [] = row ∷ []
upsert row (m ∷ ms) =
    if m.user == row.user
    then record m {
      secret_ciphertext = row.secret_ciphertext;
      key_version = row.key_version;
      last_used_at = none;
    }
      ∷ ms
    else m ∷ upsert row ms

abbrev pub sealed_row : Aead → Bytes → ℕ → ℕ → Bytes → Method
sealed_row a nonce id user secret = record {
  id = id;
  user = user;
  secret_ciphertext = encrypt a nonce secret;
  key_version = 1;
  last_used_at = none;
}

abbrev pub set_factor : ℕ → Bytes → MfaDb → MfaDb
set_factor user kind db = record db {
  users =
      update (λ f. f.id == user) (λ f. record f { twofa_type = kind; twofa_key = none }) db.users;
}

abbrev pub log_factor : Actor → Bytes → ℕ → MfaDb → MfaDb
log_factor actor action user db = record db { audit = audited none actor action user db.audit }

abbrev pub enable_body : Aead → Bytes → ℕ → ℕ → Bytes → Actor → Tx MfaDb Unit
enable_body a nonce id user secret actor = do
  exec (λ db. record db { methods = upsert (sealed_row a nonce id user secret) db.methods })
  exec (set_factor user (codes "totp"))
  exec (log_factor actor (codes "mfa.totp.enable") user)

-- `EnableTOTP`; without a key it is refused.
unfoldable pub enable_totp : Option Aead → Bytes → ℕ → ℕ → Bytes → Actor → Tx MfaDb Unit
unfolding upsert
enable_totp none nonce id user secret actor = raise encryption_unavailable
enable_totp (some a) nonce id user secret actor = do
  guard (leb 1 user && not (is_empty (trim_space secret))) invalid
  in_tx (enable_body a nonce id user secret actor)

abbrev pub opened : Option Bytes → Result (Option Bytes)
opened none = err external_failure
opened (some plain) = ok (some plain)

abbrev pub open_row : Aead → Option Method → Result (Option Bytes)
open_row a none = ok none
open_row a (some row) = opened (decrypt a row.secret_ciphertext)

-- `TOTPSecret`: the secret, `ok none` for `found == false`.
unfoldable pub totp_secret : Option Aead → ℕ → MfaDb → Result (Option Bytes)
unfolding decrypt
totp_secret none user db = ok none
totp_secret (some a) user db = open_row a (find (λ m. m.user == user) db.methods)

unfoldable pub mark_used : ℕ → ℕ → MfaDb → MfaDb
mark_used user now db = record db {
  methods = update (λ m. m.user == user) (λ m. record m { last_used_at = some now }) db.methods;
}

-- `DisableTOTP`
unfoldable pub disable_totp : ℕ → Actor → Tx MfaDb Unit
disable_totp user actor = in_tx (do
  exec (λ db. record db { methods = filter (λ m. not (m.user == user)) db.methods })
  exec (set_factor user (codes "none"))
  exec (log_factor actor (codes "mfa.totp.disable") user))

-- The calls that change something, and a sequence of them.
pub data Call : Type 0 where
  enable : (nonce : Bytes) (id user : ℕ) (secret : Bytes) (actor : Actor) → Call
  mark : (user now : ℕ) → Call
  disable : (user : ℕ) (actor : Actor) → Call

unfoldable pub perform : Option Aead → Call → MfaDb → MfaDb
unfolding enable_totp mark_used disable_totp
perform m (enable nonce id user secret actor) db = (enable_totp m nonce id user secret actor db).1
perform m (mark user now) db = mark_used user now db
perform m (disable user actor) db = (disable_totp user actor db).1

unfoldable pub perform_all : Option Aead → List Call → MfaDb → MfaDb
unfolding perform
perform_all m [] db = db
perform_all m (c ∷ cs) db = perform_all m cs (perform m c db)
