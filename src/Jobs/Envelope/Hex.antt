-- ===== src/Jobs/Envelope/Hex.antt =====
-- The hexadecimal text of a signature of envelope.go and its decoding.
use mailview.Prelude.{
  ℕ, ◌/◌, ◌%◌, ◌<◌, ◌≡◌, refl, ap, Bool, true, some, [], ◌∷◌, ltb, Bytes, all, arith,
}
use mailview.Prelude.{hex_digit, hex_encode}
use mailview.Jobs.Envelope.{hex_value, hex_decode}

abbrev pub is_byte : ℕ → Bool
is_byte b = ltb b 256

hex_value-hex_digit : (n : ℕ) → n < 16 → hex_value (hex_digit n) ≡ some n
hex_value-hex_digit n h = ground arith

pub hex_decode-hex_encode :
    (bs : Bytes) → all is_byte bs ≡ true → hex_decode (hex_encode bs) ≡ some bs
unfolding hex_decode all
hex_decode-hex_encode [] h = refl
hex_decode-hex_encode (b ∷ bs) h =
    let small : b < 256 = ground arith in
    rw
      (
        hex_value-hex_digit (b / 16) (omega arith),
        hex_value-hex_digit (b % 16) (omega arith),
        hex_decode-hex_encode bs (ground arith),
      )
      (ap (λ n. some (n ∷ bs)) (omega arith))
