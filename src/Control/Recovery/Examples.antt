-- ===== src/Control/Recovery/Examples.antt =====
-- A user's codes, used twice.
use mailview.Prelude.{
  ℕ, ◌+◌, ◌≤◌, ◌≡◌, refl, List, [], ◌∷◌, Bytes, codes, ok, str_eq, trim_left, trim_right,
}
use mailview.Control.Db.{Actor}
use mailview.Control.Recovery.{
  RecoveryDb, Draw, Attempt, new_rows, new_codes, generate_body, generate_recovery_codes, to_upper,
  first_match, use_body, use_recovery_code, use_all,
}
use mailview.Control.Recovery.Uses.{generated-uses}

-- Any functions will do: here they keep the text, and the code is its own hash.
abbrev as_is : Bytes → Bytes
as_is b = b

abbrev unsalted : Bytes → Bytes → Bytes
unsalted salt code = code

-- The bytes of round `i` are fifteen times the letter 65 + i.
abbrev draw : ℕ → Draw
draw i = record { id = i; raw = (65 + i) ∷ []; salt = [] }

abbrev fifteen : Bytes → Bytes
fifteen [] = []
fifteen (b ∷ _) = b ∷ b ∷ b ∷ b ∷ b ∷ b ∷ b ∷ b ∷ b ∷ b ∷ b ∷ b ∷ b ∷ b ∷ b ∷ []

abbrev user : Actor
user = record { user = 3 }

abbrev empty : RecoveryDb
empty = record { recovery_codes = []; audit = [] }

abbrev after : RecoveryDb
after = (generate_recovery_codes as_is fifteen unsalted draw 3 user empty).1

abbrev made : List Bytes
made = new_codes as_is fifteen unsalted draw 10 0

generated : generate_recovery_codes as_is fifteen unsalted draw 3 user empty ≡ (ok made, after)
unfolding generate_recovery_codes generate_body
generated = refl

-- The second code, in small letters and with a space, and then again.
abbrev twice : List Attempt
twice =
    record { user = 3; code = codes " bbbbb-bbbbb-bbbbb"; now = 9; actor = user }
    ∷ (record { user = 3; code = codes "BBBBB-BBBBB-BBBBB"; now = 10; actor = user } ∷ [])

once : (use_all str_eq 3 twice after).0 ≡ 1
unfolding use_all use_recovery_code use_body first_match generate_recovery_codes generate_body
    new_rows str_eq to_upper trim_left trim_right
once = refl

generated-uses_example : (use_all str_eq 3 twice after).0 ≤ 10
generated-uses_example =
    generated-uses as_is fifteen unsalted str_eq draw 3 user empty after made twice generated
