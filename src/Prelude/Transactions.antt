-- ===== src/Prelude/Transactions.antt =====
-- Results with the errors of the program, and database transactions as state passing. A transaction
-- that returns an error is rolled back (`defer tx.Rollback()`), one that ends well is committed.
use mathlib.Core.Path.{◌≡◌, refl, ap}
use mathlib.Core.Bool.{Bool, true, false}
use mathlib.Core.Option.{Option, none, some}

-- The sentinel errors of internal/mailview.
pub data Error : Type 0 where
  not_found conflict invalid user_not_found invalid_role plan_denies_custom_roles : Error
  missing_context invalid_transition mfa_not_recent grant_expired grant_not_owned : Error
  grant_pending invalid_envelope signing_unavailable encryption_unavailable : Error
  job_cancelled signature_mismatch no_rows external_failure : Error

pub data Result {ℓ} (A : Type ℓ) : Type ℓ where
  ok : A → Result A
  err : Error → Result A

-- A statement or a sequence of statements inside a transaction.
abbrev pub Tx {ℓ} : Type ℓ → Type ℓ → Type ℓ
Tx S A = S → Result A × S

module _ {ℓ} {S A B : Type ℓ} where
  abbrev pub continue : Result A × S → (A → Tx S B) → Result B × S
  continue (ok a, s) f = f a s
  continue (err e, s) f = (err e, s)

  infixl 5 ◌>>=◌ ◌>>◌
  abbrev pub ◌>>=◌ : Tx S A → (A → Tx S B) → Tx S B
  ◌>>=◌ m f s = continue (m s) f

  abbrev pub ◌>>◌ : Tx S A → Tx S B → Tx S B
  ◌>>◌ m n s = continue (m s) (λ _. n)

module _ {ℓ} {S A : Type ℓ} where
  abbrev pub pure : A → Tx S A
  pure a s = (ok a, s)

  abbrev pub raise : Error → Tx S A
  raise e s = (err e, s)

  -- A `SELECT`.
  abbrev pub gets : (S → A) → Tx S A
  gets f s = (ok (f s), s)

  abbrev settle : S → Result A × S → Result A × S
  settle before (ok a, after) = (ok a, after)
  settle before (err e, after) = (err e, before)

  -- `BeginTxx`, the body, and `Commit` or the deferred `Rollback`.
  abbrev pub in_tx : Tx S A → Tx S A
  in_tx m s = settle s (m s)

-- A statement that changes rows.
abbrev pub exec {ℓ} : {S : Type ℓ} → (S → S) → S → Result (Unit {ℓ}) × S
exec f s = (ok tt, f s)

-- An early return with an error.
abbrev pub guard {ℓ} : {S : Type ℓ} → Bool → Error → S → Result (Unit {ℓ}) × S
guard true e s = (ok tt, s)
guard false e s = (err e, s)

-- Whatever its body did, a transaction that ends in an error leaves the database as it was.
pub in_tx_atomic {ℓ} :
    {S A : Type ℓ} (m : Tx S A) (s : S) {e : Error} → (in_tx m s).0 ≡ err e → (in_tx m s).1 ≡ s
in_tx_atomic {S = S} {A = A} m s h = at_end (m s) h
  where
    at_end : (r : Result A × S) {x : Error} → (settle s r).0 ≡ err x → (settle s r).1 ≡ s
    at_end (ok a, t) q = cc
    at_end (err x, t) q = refl

-- `sql.ErrNoRows` as the given error.
abbrev pub some_or {ℓ} : {S A : Type ℓ} → Option A → Error → S → Result A × S
some_or none e s = (err e, s)
some_or (some a) e s = (ok a, s)

-- A block that ended well passed each of its guards and found each of its rows.
module _ {ℓ} {S B : Type ℓ} {b : B} {s' : S} where
  pub continue_ok :
      {A : Type ℓ} (r : Result A × S) (f : A → Tx S B)
      → continue r f ≡ (ok b, s')
      → (a : A) × (t : S) × (r ≡ (ok a, t)) × (f a t ≡ (ok b, s'))
  continue_ok (ok a, t) f h = (a, t, refl, h)
  continue_ok (err e, t) f h = cc

module _ {ℓ} {S B : Type ℓ} {b : B} {s s' : S} where
  pub guard_ok :
      (test : Bool) (e : Error) (f : Unit {ℓ} → Tx S B)
      → continue (guard test e s) f ≡ (ok b, s')
      → (test ≡ true) × (f tt s ≡ (ok b, s'))
  guard_ok true e f h = (refl, h)
  guard_ok false e f h = cc

  pub some_or_ok :
      {A : Type ℓ} (o : Option A) (e : Error) (f : A → Tx S B)
      → continue (some_or o e s) f ≡ (ok b, s')
      → (a : A) × (o ≡ some a) × (f a s ≡ (ok b, s'))
  some_or_ok (some a) e f h = (a, refl, h)
  some_or_ok none e f h = cc

  pub in_tx_ok : (m : Tx S B) → in_tx m s ≡ (ok b, s') → m s ≡ (ok b, s')
  in_tx_ok m h = at_end (m s) h
    where
      at_end : (r : Result B × S) → settle s r ≡ (ok b, s') → r ≡ (ok b, s')
      at_end (ok a, t) q = q
      at_end (err e, t) q = cc

pub some_or_last {ℓ} :
    {S A : Type ℓ} {a : A} {s s' : S} (o : Option A) (e : Error)
    → some_or o e s ≡ (ok a, s')
    → (o ≡ some a) × (s ≡ s')
some_or_last (some x) e h = (cc h, ap (λ r. r.1) h)
some_or_last none e h = cc

pub some_or_state {ℓ} : {S A : Type ℓ} (o : Option A) (e : Error) (s : S) → (some_or o e s).1 ≡ s
some_or_state none e s = refl
some_or_state (some a) e s = refl

-- What held before and holds after the body holds after the transaction, committed or not.
pub in_tx_keeps {ℓ κ} :
    {S A : Type ℓ} (P : S → Type κ) (m : Tx S A) (s : S) → P s → P (m s).1 → P (in_tx m s).1
in_tx_keeps {S = S} {A = A} P m s before after = at_end (m s) after
  where
    at_end : (r : Result A × S) → P r.1 → P (settle s r).1
    at_end (ok a, t) q = q
    at_end (err e, t) q = before

module _ {ℓ κ} {S A : Type ℓ} (P : S → Type κ) {s : S} where
  -- A guard that fails leaves the state as it was.
  pub guard_keeps :
      (test : Bool) (e : Error) (f : Unit {ℓ} → Tx S A)
      → P s
      → P (f tt s).1
      → P (continue (guard test e s) f).1
  guard_keeps true e f before after = after
  guard_keeps false e f before after = before

  pub some_or_keeps :
      {B : Type ℓ} (o : Option B) (e : Error) (f : B → Tx S A)
      → P s
      → ((b : B) → o ≡ some b → P (f b s).1)
      → P (continue (some_or o e s) f).1
  some_or_keeps (some b) e f before after = after b refl
  some_or_keeps none e f before after = before

pub guard_state {ℓ} : {S : Type ℓ} (test : Bool) (e : Error) (s : S) → (guard test e s).1 ≡ s
guard_state true e s = refl
guard_state false e s = refl
