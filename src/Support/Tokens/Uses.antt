-- ===== src/Support/Tokens/Uses.antt =====
-- How often a token of tmptokens.go can be used.
use mailview.Prelude.{
  ℕ, suc, ◌+◌, ◌-◌, ◌≤◌, ◌≡◌, refl, sym, ap, subst, Bool, true, false, ◌&&◌, Option, none, some,
  List, [], ◌∷◌, if◌then◌else◌, Bytes, any, str_eq, str_eq_iff, str_eq_refl, arith, Bool-cases, inl,
  inr, is_some,
}
use mailview.Support.Tokens.{
  Token, set, check, check_token, get, get_token, delete, clean, unexpired, max_tries,
}

-- The operations of the package, each with the time at which it runs.
pub data Op {ℓ} (A : Type ℓ) : Type ℓ where
  set_op : Bytes → ℕ → A → ℕ → Op A
  check_op : Bytes → ℕ → Op A
  get_op : Bytes → ℕ → Op A
  delete_op : Bytes → Op A
  clean_op : ℕ → Op A

abbrev pub one_if : Bool → ℕ
one_if b = if b then 1 else 0

module _ {ℓ} {A : Type ℓ} where
  unfoldable pub after : Op A → (Bytes → Option (Token A)) → Bytes → Option (Token A)
  unfolding set check get delete clean
  after (set_op id ttl value now) tokens = set id ttl value now tokens
  after (check_op id now) tokens = (check id now tokens).1
  after (get_op id now) tokens = (get id now tokens).1
  after (delete_op id) tokens = delete id tokens
  after (clean_op now) tokens = clean now tokens

  -- Does the operation hand out the id's data? Checks and retrievals count where they are asked for.
  unfoldable pub hands_out : Bool → Bool → Bytes → Op A → (Bytes → Option (Token A)) → Bool
  unfolding str_eq check get
  hands_out checks gets id (check_op k now) tokens =
      str_eq id k && (checks && is_some (check k now tokens).0)
  hands_out checks gets id (get_op k now) tokens =
      str_eq id k && (gets && is_some (get k now tokens).0)
  hands_out checks gets id _ tokens = false

  -- How often a run of operations hands it out, by checks, by retrievals, or by both.
  unfoldable pub uses : Bool → Bool → Bytes → List (Op A) → (Bytes → Option (Token A)) → ℕ
  unfolding hands_out after
  uses checks gets id [] tokens = 0
  uses checks gets id (op ∷ ops) tokens =
      let rest = uses checks gets id ops (after op tokens) in
      if hands_out checks gets id op tokens then suc rest else rest

  abbrev pub sets : Bytes → Op A → Bool
  sets id (set_op k ttl value now) = str_eq id k
  sets id _ = false

  -- What is left of a token: its checks, and one retrieval.
  abbrev pub left : Bool → Bool → Option (Token A) → ℕ
  left checks gets none = 0
  left checks gets (some t) = (if checks then max_tries - t.count else 0) + one_if gets

  left-check_token :
      (checks gets : Bool) (now : ℕ) (o : Option (Token A))
      → left checks gets (check_token now o).1 + one_if (checks && is_some (check_token now o).0)
        ≤ left checks gets o
  unfolding check_token
  left-check_token checks gets now none = ground arith
  left-check_token true gets now (some t) = ground arith
  left-check_token false gets now (some t) = ground arith

  left-get_token :
      (checks gets : Bool) (now : ℕ) (o : Option (Token A))
      → one_if (gets && is_some (get_token now o)) ≤ left checks gets o
  unfolding get_token
  left-get_token checks gets now none = ground arith
  left-get_token checks true now (some t) = ground arith
  left-get_token checks false now (some t) = ground arith

  left-unexpired :
      (checks gets : Bool) (now : ℕ) (o : Option (Token A))
      → left checks gets (unexpired now o) ≤ left checks gets o
  left-unexpired checks gets now none = omega arith
  left-unexpired checks gets now (some t) = ground arith

  -- An operation that does not set the id takes from what is left at least what it hands out.
  left-after :
      (checks gets : Bool) (id : Bytes) (op : Op A) (tokens : Bytes → Option (Token A))
      → sets id op ≡ false
      → left checks gets (after op tokens id) + one_if (hands_out checks gets id op tokens)
        ≤ left checks gets (tokens id)
  unfolding after hands_out set check get delete clean
  left-after checks gets id (set_op k ttl value now) tokens h = rw h (omega arith)
  left-after checks gets id (check_op k now) tokens h = elim (Bool-cases (str_eq id k)) [
    | inr e ↦ rw e (omega arith)
    | inl e ↦ rw e (
        subst
          (λ o.
            left checks gets (check_token now (tokens k)).1
              + one_if (checks && is_some (check_token now (tokens k)).0)
            ≤ left checks gets o)
          (sym (ap tokens ((str_eq_iff id k).0 e))) (left-check_token checks gets now (tokens k)))
  ]
  left-after checks gets id (get_op k now) tokens h = elim (Bool-cases (str_eq id k)) [
    | inr e ↦ rw e (omega arith)
    | inl e ↦ rw e (
        subst (λ o. 0 + one_if (gets && is_some (get_token now (tokens k))) ≤ left checks gets o)
          (sym (ap tokens ((str_eq_iff id k).0 e)))
          (omega (arith, left-get_token checks gets now (tokens k))))
  ]
  left-after checks gets id (delete_op k) tokens h = elim (Bool-cases (str_eq id k)) [
    | inr e ↦ rw e (omega arith)
    | inl e ↦ rw e (omega arith)
  ]
  left-after checks gets id (clean_op now) tokens h =
      omega (arith, left-unexpired checks gets now (tokens id))

  uses-left :
      (checks gets : Bool) (id : Bytes) (ops : List (Op A)) (tokens : Bytes → Option (Token A))
      → any (sets id) ops ≡ false
      → uses checks gets id ops tokens ≤ left checks gets (tokens id)
  unfolding uses any
  uses-left checks gets id [] tokens h = omega arith
  uses-left checks gets id (op ∷ ops) tokens h =
      ground
        (arith, left-after checks gets id op tokens, uses-left checks gets id ops (after op tokens))

  -- However operations follow on one another, the data stored under an id is handed out by at most 15
  -- checks and at most one retrieval until the id is set again.
  pub set-uses :
      (id : Bytes) (ttl : ℕ) (value : A) (now : ℕ) (ops : List (Op A))
      (tokens : Bytes → Option (Token A))
      → any (sets id) ops ≡ false
      → (uses true false id ops (set id ttl value now tokens) ≤ 15)
        × (uses false true id ops (set id ttl value now tokens) ≤ 1)
  unfolding set
  set-uses id ttl value now ops tokens h =
      let tries : left true false (set id ttl value now tokens id) ≡ 15 =
        rw (str_eq_refl id) refl in
      let retrieval : left false true (set id ttl value now tokens id) ≡ 1 =
        rw (str_eq_refl id) refl in
      (
        omega (arith, uses-left true false id ops (set id ttl value now tokens) h),
        omega (arith, uses-left false true id ops (set id ttl value now tokens) h),
      )
