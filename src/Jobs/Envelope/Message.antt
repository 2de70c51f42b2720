-- ===== src/Jobs/Envelope/Message.antt =====
-- What the signature of envelope.go covers, and how it is written to the HMAC.
use mailview.Prelude.{
  ℕ, suc, ◌≡◌, refl, sym, ap, ◌∙◌, true, false, [], ◌∷◌, ◌++◌, ◌==◌, Bytes, any, length,
  length-append, arith,
}
use mailview.Jobs.Envelope.{Crypto, Envelope, message}

-- What the texts and the digest are: UUIDs have 36 bytes, a digest 32, a time has no zero byte, and
-- different UUIDs or times have different texts.
pub record IsFormatted (c : Crypto) : Type 0 where
  pub uuid_length : (n : ℕ) → length (c.uuid_text n) ≡ 36
  pub uuid_injective : (m n : ℕ) → c.uuid_text m ≡ c.uuid_text n → m ≡ n
  pub time_plain : (n : ℕ) → any (λ b. b == 0) (c.time_text n) ≡ false
  pub time_injective : (m n : ℕ) → c.time_text m ≡ c.time_text n → m ≡ n
  pub digest_length : (p : Bytes) → length (c.sha256 p) ≡ 32

-- Texts whose first parts have one length agree part by part.
split_left : (a b x y : Bytes) → length a ≡ length b → a ++ x ≡ b ++ y → (a ≡ b) × (x ≡ y)
split_left [] [] x y l h = (refl, h)
split_left [] (c ∷ b) x y l h = absurd (omega arith)
split_left (c ∷ a) [] x y l h = absurd (omega arith)
split_left (c ∷ a) (d ∷ b) x y l h =
    let tails : a ++ x ≡ b ++ y = cc in
    let heads : c ≡ d = cc in
    let (p, q) = split_left a b x y (omega arith) tails in (cc (heads, p), q)

length_equal : (a b x y : Bytes) → length x ≡ length y → a ++ x ≡ b ++ y → length a ≡ length b
length_equal a b x y l h = omega (arith, length-append a x, length-append b y, ap length h)

-- And so do texts whose last parts have one length.
split_right : (a b x y : Bytes) → length x ≡ length y → a ++ x ≡ b ++ y → (a ≡ b) × (x ≡ y)
split_right a b x y l h = split_left a b x y (length_equal a b x y l h) h

any-zero : (a x : Bytes) → any (λ n. n == 0) (a ++ 0 ∷ x) ≡ true
unfolding any
any-zero [] x = refl
any-zero (c ∷ a) x = ground (arith, any-zero a x)

append_assoc : (a b d : Bytes) → (a ++ b) ++ d ≡ a ++ (b ++ d)
append_assoc [] b d = refl
append_assoc (c ∷ a) b d = ap (λ z. c ∷ z) (append_assoc a b d)

-- A part without a zero byte ends at the last zero before it.
split_zero :
    (a b x y : Bytes)
    → any (λ n. n == 0) x ≡ false
    → any (λ n. n == 0) y ≡ false
    → a ++ 0 ∷ x ≡ b ++ 0 ∷ y
    → (a ≡ b) × (x ≡ y)
unfolding any
split_zero [] [] x y p q h = (refl, cc)
split_zero [] (c ∷ b) x y p q h =
    let tails : x ≡ b ++ 0 ∷ y = cc in
    absurd (ground (arith, any-zero b y, p, ap (any (λ n. n == 0)) tails))
split_zero (c ∷ a) [] x y p q h =
    let tails : a ++ 0 ∷ x ≡ y = cc in
    absurd (ground (arith, any-zero a x, q, ap (any (λ n. n == 0)) tails))
split_zero (c ∷ a) (d ∷ b) x y p q h =
    let tails : a ++ 0 ∷ x ≡ b ++ 0 ∷ y = cc in
    let heads : c ≡ d = cc in let (r, s) = split_zero a b x y p q tails in (cc (heads, r), s)

-- The claims of an envelope that its signature covers.
pub record SameClaims (c : Crypto) (e f : Envelope) : Type 0 where
  pub job : e.job ≡ f.job
  pub tenant : e.tenant ≡ f.tenant
  pub type : e.type ≡ f.type
  pub issued_at : e.issued_at ≡ f.issued_at
  pub expires_at : e.expires_at ≡ f.expires_at
  pub digest : c.sha256 e.payload ≡ c.sha256 f.payload

-- The part after the two UUIDs, its last part set apart.
claims : Crypto → Envelope → Bytes
claims c e = (e.type ++ 0 ∷ c.time_text e.issued_at) ++ 0 ∷ c.time_text e.expires_at

message-claims :
    (c : Crypto) (e : Envelope)
    → message c e
      ≡ c.uuid_text e.job ++ 0 ∷ (c.uuid_text e.tenant ++ 0 ∷ (claims c e ++ c.sha256 e.payload))
unfolding message claims
message-claims c e =
    ap (λ z. c.uuid_text e.job ++ 0 ∷ (c.uuid_text e.tenant ++ 0 ∷ z))
      (sym (
        append_assoc (e.type ++ 0 ∷ c.time_text e.issued_at) (0 ∷ c.time_text e.expires_at)
          (c.sha256 e.payload)
        ∙ append_assoc e.type (0 ∷ c.time_text e.issued_at)
            (0 ∷ (c.time_text e.expires_at ++ c.sha256 e.payload))))

-- Two envelopes whose claims are written alike have one job, one tenant, one type, the same times and
-- the same digest of the payload, whatever bytes their types have.
pub message_injective :
    (c : Crypto) (e f : Envelope) → IsFormatted c → message c e ≡ message c f → SameClaims c e f
unfolding claims
message_injective c e f k h =
    let (jobs, h1) =
      split_left (c.uuid_text e.job) (c.uuid_text f.job) _ _
        (k.uuid_length e.job ∙ sym (k.uuid_length f.job))
        (sym (message-claims c e) ∙ h ∙ message-claims c f) in
    let (tenants, h2) =
      split_left (0 ∷ c.uuid_text e.tenant) (0 ∷ c.uuid_text f.tenant) _ _
        (ap suc (k.uuid_length e.tenant ∙ sym (k.uuid_length f.tenant))) h1 in
    let h3 : claims c e ++ c.sha256 e.payload ≡ claims c f ++ c.sha256 f.payload = cc in
    let (rest, digests) =
      split_right (claims c e) (claims c f) (c.sha256 e.payload) (c.sha256 f.payload)
        (k.digest_length e.payload ∙ sym (k.digest_length f.payload)) h3 in
    let (head, ends) =
      split_zero (e.type ++ 0 ∷ c.time_text e.issued_at) (f.type ++ 0 ∷ c.time_text f.issued_at)
        (c.time_text e.expires_at) (c.time_text f.expires_at) (k.time_plain e.expires_at)
        (k.time_plain f.expires_at) rest in
    let (types, starts) =
      split_zero e.type f.type (c.time_text e.issued_at) (c.time_text f.issued_at)
        (k.time_plain e.issued_at) (k.time_plain f.issued_at) head in
    let tenant_texts : c.uuid_text e.tenant ≡ c.uuid_text f.tenant = cc in
    record {
      job = k.uuid_injective e.job f.job jobs;
      tenant = k.uuid_injective e.tenant f.tenant tenant_texts;
      type = types;
      issued_at = k.time_injective e.issued_at f.issued_at starts;
      expires_at = k.time_injective e.expires_at f.expires_at ends;
      digest = digests;
    }
