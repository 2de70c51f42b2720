-- ===== src/Control/Recovery/Uses.antt =====
-- How often the recovery codes of service.go let a user in.
use mailview.Prelude.{
  ℕ, zero, suc, ◌+◌, ◌≤◌, ◌≡◌, refl, ap, subst, ==_iff, Bool, true, not, some, List, [], ◌∷◌, ◌++◌,
  ◌==◌, if◌then◌else◌, Bytes, filter, update, total, total-append, Memᴰ, mem-cases, Option-cases,
  Bool-cases, inl, inr, arith, ok, Result, guard_ok, invalid, leb,
}
use mailview.Control.Db.{Actor}
use mailview.Control.Recovery.{
  RecoveryCode, RecoveryDb, Draw, Attempt, is_unused, new_rows, generate_body,
  generate_recovery_codes, first_match, normal_code, valid_attempt, is_same_unused, use_body,
  use_recovery_code, accepted_for, use_all,
}

abbrev one_unused : ℕ → RecoveryCode → ℕ
one_unused user r = if is_unused user r then 1 else 0

-- The codes that a user has left.
abbrev pub unused : ℕ → RecoveryDb → ℕ
unused user db = total (one_unused user) db.recovery_codes

abbrev mark : ℕ → RecoveryCode → RecoveryCode
mark now r = record r { used_at = some now }

total-update_le :
    (user id now : ℕ) (rows : List RecoveryCode)
    → total (one_unused user) (update (is_same_unused id) (mark now) rows)
      ≤ total (one_unused user) rows
total-update_le user id now [] = omega arith
total-update_le user id now (r ∷ rows) = ground (arith, total-update_le user id now rows)

-- A code that is marked as used is one code less.
total-update_lt :
    (user now : ℕ) (rows : List RecoveryCode) (found : RecoveryCode)
    → Memᴰ found rows
    → is_unused user found ≡ true
    → total (one_unused user) (update (is_same_unused found.id) (mark now) rows) + 1
      ≤ total (one_unused user) rows
total-update_lt user now [] found m h = elim m [ ]
total-update_lt user now (r ∷ rows) found m h = elim (mem-cases m) [
  | inl e ↦
      let spent : is_unused user r ≡ true = rw (← e) h in
      ground (arith, total-update_le user found.id now rows, ap (λ (x : RecoveryCode). x.id) e)
  | inr n ↦ ground (arith, total-update_lt user now rows found n h)
]

module _ (compares : Bytes → Bytes → Bool) where
  first_match-mem :
      (code : Bytes) (user : ℕ) (rows : List RecoveryCode) (r : RecoveryCode)
      → first_match compares code (filter (is_unused user) rows) ≡ some r
      → Memᴰ r rows × (is_unused user r ≡ true)
  unfolding first_match
  first_match-mem code user [] r h = cc
  first_match-mem code user (x ∷ rows) r h = elim (Bool-cases (is_unused user x)) [
    | inl e ↦ elim (Bool-cases (compares x.code_hash code)) [
      | inl c ↦
          let it : some x ≡ some r = rw (e, c) at h in
          let same_row : r ≡ x = cc in (Memᴰ.head same_row, rw same_row e)
      | inr c ↦
          let rest : first_match compares code (filter (is_unused user) rows) ≡ some r =
            rw (e, c) at h in
          let (m, q) = first_match-mem code user rows r rest in (Memᴰ.tail m, q)
    ]
    | inr e ↦
        let rest : first_match compares code (filter (is_unused user) rows) ≡ some r = rw e at h in
        let (m, q) = first_match-mem code user rows r rest in (Memᴰ.tail m, q)
  ]

  -- An attempt that is accepted takes a code from its user, and no attempt gives anyone one.
  use_recovery_code-spends :
      (user : ℕ) (a : Attempt) (db : RecoveryDb)
      → accepted_for user a (use_recovery_code compares a db).0
          + unused user (use_recovery_code compares a db).1
        ≤ unused user db
  unfolding use_recovery_code use_body
  use_recovery_code-spends user a db =
      elim (Bool-cases (valid_attempt a.user (normal_code a.code))) [
        | inr e ↦ rw e (ground arith)
        | inl e ↦
            elim (Option-cases (
              first_match compares (normal_code a.code)
                (filter (is_unused a.user) db.recovery_codes))) [
                  | inl f ↦ rw (e, f) (ground arith)
                  | inr found ↦
                      let (r, f) = found in
                      let (m, q) =
                        first_match-mem (normal_code a.code) a.user db.recovery_codes r f in
                      let less = total-update_lt a.user a.now db.recovery_codes r m q in
                      let most = total-update_le user r.id a.now db.recovery_codes in
                      let case_lt : a.user ≡ user
                          → total (one_unused user)
                                (update (is_same_unused r.id) (mark a.now) db.recovery_codes)
                              + 1
                            ≤ total (one_unused user) db.recovery_codes =
                        λ s.
                          subst
                            (λ u.
                              total (one_unused u)
                                  (update (is_same_unused r.id) (mark a.now) db.recovery_codes)
                                + 1
                              ≤ total (one_unused u) db.recovery_codes)
                            s less in
                      elim (Bool-cases (a.user == user)) [
                        | inl s ↦ rw (e, f, s) (omega (arith, case_lt ((==_iff a.user user).0 s)))
                        | inr s ↦ rw (e, f, s) (omega (arith, most))
                      ]
                ]
      ]

  use_all-spends :
      (user : ℕ) (attempts : List Attempt) (db : RecoveryDb)
      → (use_all compares user attempts db).0 + unused user (use_all compares user attempts db).1
        ≤ unused user db
  unfolding use_all
  use_all-spends user [] db = omega arith
  use_all-spends user (a ∷ attempts) db = omega (
    arith,
    use_recovery_code-spends user a db,
    use_all-spends user attempts (use_recovery_code compares a db).1,
  )

filtered-none :
    (user : ℕ) (rows : List RecoveryCode)
    → total (one_unused user) (filter (λ r. not (is_unused user r)) rows) ≡ 0
filtered-none user [] = refl
filtered-none user (r ∷ rows) = ground (arith, filtered-none user rows)

module _ (sha256 base32 : Bytes → Bytes) (bcrypt : Bytes → Bytes → Bytes) where
  total-new_rows :
      (draw : ℕ → Draw) (user left i : ℕ)
      → total (one_unused user) (new_rows sha256 base32 bcrypt draw user left i) ≡ left
  unfolding new_rows
  total-new_rows draw user zero i = refl
  total-new_rows draw user (suc left) i = ground (arith, total-new_rows draw user left (suc i))

  generate-unused :
      (draw : ℕ → Draw) (user : ℕ) (actor : Actor) (db db' : RecoveryDb) (made : List Bytes)
      → generate_recovery_codes sha256 base32 bcrypt draw user actor db ≡ (ok made, db')
      → unused user db' ≡ 10
  unfolding generate_recovery_codes generate_body
  generate-unused draw user actor db db' made h =
      let (_, h1) = guard_ok (leb 1 user) invalid _ h in
      let kept = filter (λ r. not (is_unused user r)) db.recovery_codes in
      let fresh = new_rows sha256 base32 bcrypt draw user 10 0 in
      let rows : kept ++ fresh ≡ db'.recovery_codes =
        ap (λ (x : Result (List Bytes) × RecoveryDb). x.1.recovery_codes) h1 in
      omega (
        arith,
        ap (total (one_unused user)) rows,
        total-append (one_unused user) kept fresh,
        filtered-none user db.recovery_codes,
        total-new_rows draw user 10 0,
      )

  -- After its codes were generated, and until the next generation, a user is let in by a recovery
  -- code at most ten times, whoever tries whatever codes, and whatever codes there were before.
  pub generated-uses :
      (compares : Bytes → Bytes → Bool) (draw : ℕ → Draw) (user : ℕ) (actor : Actor)
      (db db' : RecoveryDb) (made : List Bytes) (attempts : List Attempt)
      → generate_recovery_codes sha256 base32 bcrypt draw user actor db ≡ (ok made, db')
      → (use_all compares user attempts db').0 ≤ 10
  generated-uses compares draw user actor db db' made attempts h = omega (
    arith,
    use_all-spends compares user attempts db',
    generate-unused draw user actor db db' made h,
  )
