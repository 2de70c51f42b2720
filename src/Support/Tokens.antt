-- ===== src/Support/Tokens.antt =====
-- internal/tmptokens/tmptokens.go: one-time tokens in memory. The map is a function, the clock's
-- reading an argument, and each operation runs under the package's lock.
pub mod Uses
use mailview.Prelude.{
  ℕ, ◌+◌, ◌-◌, Bool, Option, none, some, List, [], ◌∷◌, ltb, if◌then◌else◌, Bytes, str_eq,
}

pub record Token {ℓ} (A : Type ℓ) : Type ℓ where
  pub ttl : ℕ
  pub created_at : ℕ
  pub count : ℕ
  pub value : A

abbrev pub max_tries : ℕ
max_tries = 15

module _ {ℓ} {A : Type ℓ} where
  abbrev pub put : Bytes → Option (Token A) → (Bytes → Option (Token A)) → Bytes → Option (Token A)
  put id t tokens k = if str_eq k id then t else tokens k

  -- `time.Since(token.CreatedAt) > token.TTL`
  abbrev pub is_expired : ℕ → Token A → Bool
  is_expired now t = ltb t.ttl (now - t.created_at)

  -- `Set`
  unfoldable pub set : Bytes → ℕ → A → ℕ → (Bytes → Option (Token A)) → Bytes → Option (Token A)
  unfolding str_eq
  set id ttl value now tokens =
      put id (some (record { ttl = ttl; created_at = now; count = 0; value = value })) tokens

  abbrev pub counted : Token A → Token A
  counted t = record t { count = t.count + 1 }

  -- What `Check` returns, and what it leaves under the id.
  unfoldable pub check_token : ℕ → Option (Token A) → Option A × Option (Token A)
  check_token now none = (none, none)
  check_token now (some t) =
      if is_expired now t
      then (none, none)
      else if ltb max_tries (t.count + 1)
      then (none, none)
      else (some t.value, some (counted t))

  -- `Check`: the data, or `none` for the package's `Err`.
  unfoldable pub check :
      Bytes → ℕ → (Bytes → Option (Token A)) → Option A × (Bytes → Option (Token A))
  unfolding check_token
  check id now tokens = let r = check_token now (tokens id) in (r.0, put id r.1 tokens)

  -- What `Get` returns
  unfoldable pub get_token : ℕ → Option (Token A) → Option A
  get_token now none = none
  get_token now (some t) = if is_expired now t then none else some t.value

  -- `Delete`
  unfoldable pub delete : Bytes → (Bytes → Option (Token A)) → Bytes → Option (Token A)
  delete id tokens = put id none tokens

  -- `Get`: the token is gone in each case.
  unfoldable pub get :
      Bytes → ℕ → (Bytes → Option (Token A)) → Option A × (Bytes → Option (Token A))
  unfolding get_token delete
  get id now tokens = (get_token now (tokens id), delete id tokens)

  abbrev pub unexpired : ℕ → Option (Token A) → Option (Token A)
  unexpired now none = none
  unexpired now (some t) = if is_expired now t then none else some t

  -- `Clean`
  unfoldable pub clean : ℕ → (Bytes → Option (Token A)) → Bytes → Option (Token A)
  clean now tokens k = unexpired now (tokens k)
