-- ===== src/Control/Recovery.antt =====
-- internal/mailview/control/service.go: the recovery codes of users. SHA-256, base32 and bcrypt are
-- parameters; random bytes, salts, new ids and the time are arguments.
pub mod Uses
mod Examples
use mailview.Prelude.{
  ℕ, zero, suc, ◌+◌, ◌-◌, Bool, true, false, not, ◌&&◌, ◌||◌, Option, none, some, List, [], ◌∷◌,
  ◌++◌, ◌==◌, ltb, leb, if◌then◌else◌, Bytes, codes, take, drop, filter, update, length, trim_space,
  Tx, Result, ok, invalid, ◌>>=◌, ◌>>◌, exec, gets, guard, pure, in_tx, is_none,
}
use mailview.Control.Db.{Actor, AuditEvent, audited}

-- mv_mfa_recovery_codes
pub record RecoveryCode : Type 0 where
  pub id : ℕ
  pub user : ℕ
  pub code_hash : Bytes
  pub used_at : Option ℕ

pub record RecoveryDb : Type 0 where
  pub recovery_codes : List RecoveryCode
  pub audit : List AuditEvent

-- What one round of the generation draws.
pub record Draw : Type 0 where
  pub id : ℕ
  pub raw : Bytes
  pub salt : Bytes

pub record Attempt : Type 0 where
  pub user : ℕ
  pub code : Bytes
  pub now : ℕ
  pub actor : Actor

abbrev upper_byte : ℕ → ℕ
upper_byte c = if leb 97 c && leb c 122 then c - 32 else c

-- `strings.ToUpper`
unfoldable pub to_upper : Bytes → Bytes
to_upper [] = []
to_upper (c ∷ cs) = upper_byte c ∷ to_upper cs

abbrev pub is_unused : ℕ → RecoveryCode → Bool
is_unused user r = r.user == user && is_none r.used_at

abbrev log_user : Actor → Bytes → ℕ → RecoveryDb → RecoveryDb
log_user actor action user db = record db { audit = audited none actor action user db.audit }

abbrev code_parts : Bytes → Bytes
code_parts token =
    take 5 token ++ (codes "-" ++ (take 5 (drop 5 token) ++ (codes "-" ++ take 5 (drop 10 token))))

module _ (sha256 base32 : Bytes → Bytes) (bcrypt : Bytes → Bytes → Bytes) where
  -- `newRecoveryCode`
  abbrev pub new_recovery_code : Bytes → Bytes
  new_recovery_code raw = code_parts (base32 (take 10 (sha256 raw)))

  abbrev pub new_row : ℕ → Draw → RecoveryCode
  new_row user d = record {
    id = d.id;
    user = user;
    code_hash = bcrypt d.salt (new_recovery_code d.raw);
    used_at = none;
  }

  -- The loop over the new codes, with the rounds left and the number of the round.
  unfoldable pub new_rows : (ℕ → Draw) → ℕ → ℕ → ℕ → List RecoveryCode
  new_rows draw user zero i = []
  new_rows draw user (suc left) i = new_row user (draw i) ∷ new_rows draw user left (suc i)

  unfoldable pub new_codes : (ℕ → Draw) → ℕ → ℕ → List Bytes
  new_codes draw zero i = []
  new_codes draw (suc left) i = new_recovery_code (draw i).raw ∷ new_codes draw left (suc i)

  unfoldable pub generate_body : (ℕ → Draw) → ℕ → Actor → Tx RecoveryDb (List Bytes)
  generate_body draw user actor = do
    exec (λ db. record db {
      recovery_codes = filter (λ r. not (is_unused user r)) db.recovery_codes;
    })
    exec (λ db. record db { recovery_codes = db.recovery_codes ++ new_rows draw user 10 0 })
    exec (log_user actor (codes "mfa.recovery_codes.generate") user)
    pure (new_codes draw 10 0)

  -- `GenerateRecoveryCodes`
  unfoldable pub generate_recovery_codes : (ℕ → Draw) → ℕ → Actor → Tx RecoveryDb (List Bytes)
  unfolding generate_body
  generate_recovery_codes draw user actor = do
    guard (leb 1 user) invalid
    in_tx (generate_body draw user actor)

abbrev pub normal_code : Bytes → Bytes
normal_code code = to_upper (trim_space code)

abbrev pub valid_attempt : ℕ → Bytes → Bool
valid_attempt user code = leb 1 user && leb 8 (length code) && leb (length code) 32

abbrev pub is_same_unused : ℕ → RecoveryCode → Bool
is_same_unused id r = r.id == id && is_none r.used_at

abbrev pub consume : ℕ → ℕ → Actor → Option RecoveryCode → Tx RecoveryDb Bool
consume user now actor none = pure false
consume user now actor (some found) = do
  exec (λ db. record db {
    recovery_codes =
        update (is_same_unused found.id) (λ r. record r { used_at = some now }) db.recovery_codes;
  })
  exec (log_user actor (codes "mfa.recovery_code.use") user)
  pure true

abbrev pub accepted : Result Bool → ℕ
accepted (ok true) = 1
accepted _ = 0

abbrev pub accepted_for : ℕ → Attempt → Result Bool → ℕ
accepted_for user a r = if a.user == user then accepted r else 0

module _ (compares : Bytes → Bytes → Bool) where
  -- The loop over the candidates: the first one whose hash is the code's.
  unfoldable pub first_match : Bytes → List RecoveryCode → Option RecoveryCode
  first_match code [] = none
  first_match code (r ∷ rs) =
      let rest = first_match code rs in if compares r.code_hash code then some r else rest

  unfoldable pub use_body : ℕ → Bytes → ℕ → Actor → Tx RecoveryDb Bool
  use_body user code now actor = do
    candidates ← gets (λ db. filter (is_unused user) db.recovery_codes)
    consume user now actor (first_match code candidates)

  -- `UseRecoveryCode`
  unfoldable pub use_recovery_code : Attempt → Tx RecoveryDb Bool
  unfolding use_body
  use_recovery_code a =
      let code = normal_code a.code in
      if valid_attempt a.user code then in_tx (use_body a.user code a.now a.actor) else pure false

  -- Attempts one after the other, of any users: how many of one user's were accepted, and the table
  -- at the end.
  unfoldable pub use_all : ℕ → List Attempt → RecoveryDb → ℕ × RecoveryDb
  use_all user [] db = (0, db)
  use_all user (a ∷ attempts) db =
      let (r, db') = use_recovery_code a db in
      let (n, db'') = use_all user attempts db' in (accepted_for user a r + n, db'')
