-- ===== src/Jobs/Envelope/Examples.antt =====
-- An envelope that is signed and verified, and the theorems of envelope.go at this run.
use mailview.Prelude.{
  suc, ◌+◌, ◌%◌, ◌≤◌, ◌≡◌, refl, true, some, [], ◌∷◌, map, Bytes, codes, any, all, trim_left,
  trim_right, ok, arith,
}
use mailview.Jobs.Envelope.{Crypto, Envelope, message, signature, unsigned, signed, sign, verify}
use mailview.Jobs.Envelope.Hex.{is_byte}
use mailview.Jobs.Envelope.Message.{IsFormatted, SameClaims, message_injective}
use mailview.Jobs.Envelope.Authentic.{verify_authentic, verify-sign}

abbrev thirty_two : Bytes
thirty_two = codes "0123456789abcdef0123456789abcdef"

abbrev crypto : Crypto
crypto = record {
  mac = λ m. map (λ b. b % 256) m;
  sha256 = λ p. thirty_two;
  uuid_text = λ n. n ∷ codes "0000000-0000-4000-8000-000000000000";
  time_text = λ n. suc n ∷ [];
}

crypto-IsFormatted : IsFormatted crypto
unfolding any
crypto-IsFormatted = record {
  uuid_length = λ n. refl;
  uuid_injective = λ m n h. cc;
  time_plain = λ n. ground arith;
  time_injective = λ m n h. let same : suc m ≡ suc n = cc in omega arith;
  digest_length = λ p. refl;
}

abbrev envelope : Envelope
envelope =
    signed crypto (unsigned 5 7 (codes "subscriber_import.process") 100 (100 + 50) (codes "{}"))

made : sign crypto 100 5 7 (codes " subscriber_import.process") (some (codes "{}")) 50 ≡ ok envelope
unfolding sign trim_left trim_right
made = refl

bytes : all is_byte (crypto.mac (message crypto envelope)) ≡ true
unfolding all message
bytes = refl

early : 100 ≤ 120
early = ground arith

late : 120 ≤ 100 + 50
late = ground arith

verify-sign_example : verify crypto 120 envelope ≡ ok 7
verify-sign_example =
    verify-sign crypto 100 120 5 7 (codes " subscriber_import.process") (codes "{}") 50 bytes made
      early late

is_signed : envelope.signature ≡ signature crypto envelope
unfolding message signature
is_signed = refl

same_message :
    crypto.mac (message crypto envelope) ≡ crypto.mac (message crypto envelope)
    → message crypto envelope ≡ message crypto envelope
same_message h = refl

same_payload :
    crypto.sha256 envelope.payload ≡ crypto.sha256 envelope.payload
    → envelope.payload ≡ envelope.payload
same_payload h = refl

verify_authentic_example :
    SameClaims crypto envelope envelope
    × (envelope.payload ≡ envelope.payload)
    × (7 ≡ envelope.tenant)
    × (120 ≤ envelope.expires_at)
verify_authentic_example =
    verify_authentic crypto 120 envelope envelope crypto-IsFormatted bytes bytes same_message
      same_payload is_signed refl verify-sign_example

message_injective_example : SameClaims crypto envelope envelope
message_injective_example = message_injective crypto envelope envelope crypto-IsFormatted refl
