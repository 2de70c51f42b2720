-- ===== src/Jobs/Envelope/Authentic.antt =====
-- What an envelope that `Verify` of envelope.go accepts is worth.
use mailview.Prelude.{
  ℕ, ◌+◌, ◌≤◌, ◌≡◌, refl, sym, ap, subst, ◌∙◌, true, ◌&&◌, Option, none, some, ◌==◌, leb, Bytes,
  all, str_eq_iff, str_eq_refl, trim_space, ok, arith, Bool-cases, inl, inr, trim_space_kept,
}
use mailview.Jobs.Envelope.{
  Crypto, Envelope, hex_decode, message, signature, unsigned, signed, valid_claims, sign, in_time,
  matches, verify, max_ttl,
}
use mailview.Jobs.Envelope.Hex.{is_byte, hex_decode-hex_encode}
use mailview.Jobs.Envelope.Message.{IsFormatted, SameClaims, message_injective}

matches-some : (bs : Bytes) (o : Option Bytes) → matches (some bs) o ≡ true → o ≡ some bs
matches-some bs none h = cc
matches-some bs (some actual) h = ap some ((str_eq_iff actual bs).0 h)

-- The checks of an accepted envelope.
record Accepted (c : Crypto) (now : ℕ) (e : Envelope) (tenant : ℕ) : Type 0 where
  is_tenant : tenant ≡ e.tenant
  timely : in_time now e ≡ true
  genuine : matches (hex_decode (signature c e)) (hex_decode e.signature) ≡ true

verify_ok :
    (c : Crypto) (now : ℕ) (e : Envelope) {tenant : ℕ}
    → verify c now e ≡ ok tenant
    → Accepted c now e tenant
unfolding verify
verify_ok c now e {tenant} h =
    elim (Bool-cases (
      e.version == 1
      && valid_claims e.job e.tenant e.type
      && in_time now e
      && matches (hex_decode (signature c e)) (hex_decode e.signature))) [
        | inr bad ↦ absurd (ground (arith, rw bad at h))
        | inl good ↦
            let it : ok e.tenant ≡ ok tenant = rw good at h in
            record { is_tenant = cc; timely = ground (arith, good); genuine = ground (arith, good) }
      ]

-- An accepted envelope whose signature is that of a signed envelope carries the signed one's job,
-- tenant, type, times and payload, and the tenant that is returned is the one that was signed; the
-- HMAC's values being bytes, and neither the HMAC nor the digest colliding on the two.
pub verify_authentic :
    (c : Crypto) (now : ℕ) (e genuine : Envelope) {tenant : ℕ}
    → IsFormatted c
    → all is_byte (c.mac (message c e)) ≡ true
    → all is_byte (c.mac (message c genuine)) ≡ true
    → (c.mac (message c e) ≡ c.mac (message c genuine) → message c e ≡ message c genuine)
    → (c.sha256 e.payload ≡ c.sha256 genuine.payload → e.payload ≡ genuine.payload)
    → genuine.signature ≡ signature c genuine
    → e.signature ≡ genuine.signature
    → verify c now e ≡ ok tenant
    → SameClaims c e genuine
      × (e.payload ≡ genuine.payload)
      × (tenant ≡ genuine.tenant)
      × (now ≤ genuine.expires_at)
unfolding signature
verify_authentic c now e genuine {tenant} k be bg mac_free hash_free is_signed copied h =
    let a = verify_ok c now e h in
    let decoded : hex_decode e.signature ≡ some (c.mac (message c genuine)) =
      ap hex_decode (copied ∙ is_signed) ∙ hex_decode-hex_encode (c.mac (message c genuine)) bg in
    let expected : hex_decode e.signature ≡ some (c.mac (message c e)) =
      matches-some (c.mac (message c e)) (hex_decode e.signature) (
        subst (λ z. matches z (hex_decode e.signature) ≡ true)
          (hex_decode-hex_encode (c.mac (message c e)) be) a.genuine) in
    let macs : c.mac (message c e) ≡ c.mac (message c genuine) = cc in
    let same = message_injective c e genuine k (mac_free macs) in
    (
      same,
      hash_free same.digest,
      a.is_tenant ∙ same.tenant,
      ground (arith, a.timely, same.expires_at),
    )

signed_accepted :
    (c : Crypto) (now at job tenant : ℕ) (type raw : Bytes) (ttl : ℕ)
    → all is_byte (c.mac (message c (signed c (unsigned job tenant type now (now + ttl) raw))))
      ≡ true
    → valid_claims job tenant type ≡ true
    → now ≤ at
    → at ≤ now + ttl
    → leb ttl max_ttl ≡ true
    → verify c at (signed c (unsigned job tenant type now (now + ttl) raw)) ≡ ok tenant
unfolding verify signature message
signed_accepted c now at job tenant type raw ttl b valid early late short =
    rw (valid, timely, genuine) refl
  where
    e : Envelope
    e = signed c (unsigned job tenant type now (now + ttl) raw)

    timely : in_time at e ≡ true
    timely = ground arith

    genuine : matches (hex_decode (signature c e)) (hex_decode e.signature) ≡ true
    genuine =
        ap (λ o. matches o o) (hex_decode-hex_encode (c.mac (message c e)) b)
        ∙ str_eq_refl (c.mac (message c e))

trimmed_claims :
    (job tenant : ℕ) (type : Bytes)
    → valid_claims job tenant type ≡ true
    → valid_claims job tenant (trim_space type) ≡ true
trimmed_claims job tenant type h = ground (arith, h, trim_space_kept type)

-- What was signed is accepted until it expires, and its tenant returned; the HMAC's values being bytes.
pub verify-sign :
    (c : Crypto) (now at job tenant : ℕ) (type raw : Bytes) (ttl : ℕ) {e : Envelope}
    → all is_byte (c.mac (message c e)) ≡ true
    → sign c now job tenant type (some raw) ttl ≡ ok e
    → now ≤ at
    → at ≤ now + ttl
    → verify c at e ≡ ok tenant
unfolding sign verify signature
verify-sign c now at job tenant type raw ttl {e} b h early late =
    elim (Bool-cases (valid_claims job tenant type && leb 1 ttl && leb ttl max_ttl)) [
      | inr bad ↦ absurd (ground (arith, rw bad at h))
      | inl good ↦
          let it : ok (signed c (unsigned job tenant (trim_space type) now (now + ttl) raw))
              ≡ ok e =
            rw good at h in
          let made : signed c (unsigned job tenant (trim_space type) now (now + ttl) raw) ≡ e =
            cc in
          subst (λ z. verify c at z ≡ ok tenant) made
            (signed_accepted c now at job tenant (trim_space type) raw ttl
              (subst (λ z. all is_byte (c.mac (message c z)) ≡ true) (sym made) b)
              (trimmed_claims job tenant type (ground (arith, good))) early late
              (ground (arith, good)))
    ]
