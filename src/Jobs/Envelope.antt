-- ===== src/Jobs/Envelope.antt =====
-- internal/mailview/job/envelope.go: signed job envelopes. HMAC under the signer's key, SHA-256, the
-- text of a UUID and of a time are given; a time is a number of nanoseconds, and the clock's reading is
-- an argument. The JSON of a payload is an argument, `none` where it cannot be written.
pub mod Hex
pub mod Message
pub mod Authentic
mod Examples
use mailview.Prelude.{
  hex_encode, ℕ, ◌+◌, ◌-◌, ◌*◌, ◌/◌, ◌%◌, Bool, true, false, not, ◌&&◌, ◌||◌, Option, none, some,
  List, [], ◌∷◌, ◌++◌, ◌==◌, ltb, leb, if◌then◌else◌, Bytes, codes, str_eq, trim_space, is_empty,
  Result, ok, err, Error, invalid_envelope, external_failure,
}

pub record Crypto : Type 0 where
  pub mac : Bytes → Bytes
  pub sha256 : Bytes → Bytes
  pub uuid_text : ℕ → Bytes
  pub time_text : ℕ → Bytes

pub record Envelope : Type 0 where
  pub version : ℕ
  pub job : ℕ
  pub tenant : ℕ
  pub type : Bytes
  pub issued_at : ℕ
  pub expires_at : ℕ
  pub payload : Bytes
  pub signature : Bytes

abbrev pub hex_value : ℕ → Option ℕ
hex_value c =
    if leb 48 c && leb c 57
    then some (c - 48)
    else if leb 97 c && leb c 102
    then some (c - 87)
    else if leb 65 c && leb c 70
    then some (c - 55)
    else none

abbrev pub join_digits : Option ℕ → Option ℕ → Option Bytes → Option Bytes
join_digits (some a) (some b) (some bs) = some ((a * 16 + b) ∷ bs)
join_digits _ _ _ = none

-- `hex.DecodeString`
unfoldable pub hex_decode : Bytes → Option Bytes
hex_decode [] = some []
hex_decode (c ∷ []) = none
hex_decode (c ∷ d ∷ cs) = join_digits (hex_value c) (hex_value d) (hex_decode cs)

abbrev pub max_ttl : ℕ
max_ttl = 7 * 24 * 3_600_000_000_000

abbrev pub clock_skew : ℕ
clock_skew = 5 * 60_000_000_000

-- What `signature` writes to the HMAC.
unfoldable pub message : Crypto → Envelope → Bytes
message c e =
    c.uuid_text e.job
    ++ 0
      ∷ (c.uuid_text e.tenant
          ++ 0
            ∷ (e.type
                ++ 0
                  ∷ (c.time_text e.issued_at
                      ++ 0 ∷ (c.time_text e.expires_at ++ c.sha256 e.payload))))

-- `signature`
unfoldable pub signature : Crypto → Envelope → Bytes
signature c e = hex_encode (c.mac (message c e))

abbrev pub unsigned : ℕ → ℕ → Bytes → ℕ → ℕ → Bytes → Envelope
unsigned job tenant type issued expires payload = record {
  version = 1;
  job = job;
  tenant = tenant;
  type = type;
  issued_at = issued;
  expires_at = expires;
  payload = payload;
  signature = [];
}

abbrev pub valid_claims : ℕ → ℕ → Bytes → Bool
valid_claims job tenant type =
    not (job == 0) && not (tenant == 0) && not (is_empty (trim_space type))

abbrev on_payload : Option Bytes → (Bytes → Envelope) → Result Envelope
on_payload none f = err external_failure
on_payload (some raw) f = ok (f raw)

abbrev pub signed : Crypto → Envelope → Envelope
signed c e = record e { signature = signature c e }

-- `Sign`; a time to live below zero is refused as 0 is.
unfoldable pub sign : Crypto → ℕ → ℕ → ℕ → Bytes → Option Bytes → ℕ → Result Envelope
sign c now job tenant type payload ttl =
    let out =
      on_payload payload
        (λ raw. signed c (unsigned job tenant (trim_space type) now (now + ttl) raw)) in
    if valid_claims job tenant type && leb 1 ttl && leb ttl max_ttl
    then out
    else err invalid_envelope

-- The times that `Verify` accepts
abbrev pub in_time : ℕ → Envelope → Bool
in_time now e =
    not (ltb e.expires_at now)
    && not (ltb (now + clock_skew) e.issued_at)
    && not (ltb max_ttl (e.expires_at - e.issued_at))

abbrev pub matches : Option Bytes → Option Bytes → Bool
matches (some expected) (some actual) = str_eq actual expected
matches _ _ = false

-- `Verify`
unfoldable pub verify : Crypto → ℕ → Envelope → Result ℕ
verify c now e =
    if e.version == 1
      && valid_claims e.job e.tenant e.type
      && in_time now e
      && matches (hex_decode (signature c e)) (hex_decode e.signature)
    then ok e.tenant
    else err invalid_envelope
