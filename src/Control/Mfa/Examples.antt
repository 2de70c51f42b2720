-- ===== src/Control/Mfa/Examples.antt =====
-- Two users with TOTP.
use mailview.Prelude.{
  ◌≡◌, refl, true, Option, none, some, List, [], ◌∷◌, ◌==◌, if◌then◌else◌, Bytes, codes, all,
  trim_left, trim_right, ok, err, encryption_unavailable,
}
use mailview.Control.Db.{Actor}
use mailview.Control.Mfa.{
  MfaDb, Aead, upsert, enable_totp, totp_secret, disable_totp, Call, enable, mark, disable,
  perform_all,
}
use mailview.Control.Mfa.Sealed.{spares, totp_secret-enable_totp}

-- Seals by a zero byte in front, and opens such a text only.
abbrev open_zero : Bytes → Bytes → Option Bytes
open_zero nonce [] = none
open_zero nonce (b ∷ plain) = if b == 0 then some plain else none

abbrev aead : Aead
aead = record { nonce_size = 2; seal = λ nonce plain. 0 ∷ plain; unseal = open_zero }

abbrev empty : MfaDb
empty = record { methods = []; users = []; audit = [] }

abbrev admin : Actor
admin = record { user = 3 }

abbrev enabled : MfaDb
enabled = (enable_totp (some aead) (7 ∷ (8 ∷ [])) 20 3 (codes "JBSWY3DP") admin empty).1

enabled_ok :
    enable_totp (some aead) (7 ∷ (8 ∷ [])) 20 3 (codes "JBSWY3DP") admin empty ≡ (ok tt, enabled)
unfolding enable_totp trim_left trim_right
enabled_ok = refl

-- Another user comes and goes, and both are asked for a code.
abbrev later : List Call
later =
    enable (1 ∷ (2 ∷ [])) 21 4 (codes "MFRGG") admin
    ∷ (mark 3 50 ∷ (mark 4 51 ∷ (disable 4 admin ∷ [])))

spared : all (spares 3) later ≡ true
unfolding all
spared = refl

-- Without a key nothing is enabled, and nothing is found.
no_key : (enable_totp none [] 20 3 (codes "JBSWY3DP") admin empty).0 ≡ err encryption_unavailable
unfolding enable_totp
no_key = refl

gone : totp_secret (some aead) 3 (disable_totp 3 admin enabled).1 ≡ ok none
unfolding totp_secret disable_totp enable_totp upsert trim_left trim_right
gone = refl

totp_secret-enable_totp_example :
    totp_secret (some aead) 3 (perform_all (some aead) later enabled) ≡ ok (some (codes "JBSWY3DP"))
totp_secret-enable_totp_example =
    totp_secret-enable_totp aead (7 ∷ (8 ∷ [])) 20 3 (codes "JBSWY3DP") admin empty later refl refl
      enabled_ok spared
