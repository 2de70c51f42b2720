-- ===== src/Prelude/Text.antt =====
-- Texts as lists of bytes, with `strings.TrimSpace`, `strings.ToLower`, prefixes and suffixes as
-- they act on ASCII text.
use Prim.Native.Nat.{ℕ, ◌+◌, ◌/◌, ◌%◌}
use Prim.Native.Char.{code}
use Prim.Native.String.{String}
use mathlib.Core.Path.{◌≡◌, refl, ap, ◌∙◌}
use mathlib.Core.Logic.{◌↔◌, ◌⊎◌, inl, inr}
use mathlib.Core.Bool.{Bool, true, false, not, ◌&&◌, ◌||◌}
use mathlib.Core.List.{List, [], ◌∷◌}
use native.Mathlib.Omega.{arith}
use mailview.Prelude.Tests.{leb, ltb, ◌==◌, if◌then◌else◌, Bool-cases}
use mailview.Prelude.Lists.{all}

abbrev pub Bytes : Type 0
Bytes = List ℕ

-- A text literal as the bytes that the source writes.
abbrev pub codes : String → Bytes
codes String.[] = []
codes (String.◌∷◌ c s) = code c ∷ codes s

-- `==` on two texts.
unfoldable pub str_eq : Bytes → Bytes → Bool
str_eq [] [] = true
str_eq (x ∷ xs) (y ∷ ys) = x == y && str_eq xs ys
str_eq _ _ = false

pub str_eq_iff : (a b : Bytes) → (str_eq a b ≡ true) ↔ (a ≡ b)
unfolding str_eq
str_eq_iff [] [] = ground arith
str_eq_iff (x ∷ xs) [] = ground arith
str_eq_iff [] (y ∷ ys) = ground arith
str_eq_iff (x ∷ xs) (y ∷ ys) = ground (arith, str_eq_iff xs ys)

pub str_eq_refl : (a : Bytes) → str_eq a a ≡ true
str_eq_refl a = (str_eq_iff a a).1 refl

abbrev pub is_empty : Bytes → Bool
is_empty [] = true
is_empty (_ ∷ _) = false

-- The ASCII white space of `unicode.IsSpace`: tab, newline, vertical tab, form feed, return, space.
abbrev pub is_space : ℕ → Bool
is_space c = (leb 9 c && leb c 13) || c == 32

unfoldable pub trim_left : Bytes → Bytes
trim_left [] = []
trim_left (c ∷ cs) = if is_space c then trim_left cs else c ∷ cs

unfoldable pub trim_right : Bytes → Bytes
trim_right [] = []
trim_right (c ∷ cs) =
    let rest = trim_right cs in if is_space c && is_empty rest then [] else c ∷ rest

-- `strings.TrimSpace`
abbrev pub trim_space : Bytes → Bytes
trim_space s = trim_right (trim_left s)

abbrev pub lower_byte : ℕ → ℕ
lower_byte c = if leb 65 c && leb c 90 then c + 32 else c

-- `strings.ToLower`
unfoldable pub to_lower : Bytes → Bytes
to_lower [] = []
to_lower (c ∷ cs) = lower_byte c ∷ to_lower cs

-- Neither white space nor an upper-case letter: what trimming and lowering leave alone.
abbrev pub is_plain : ℕ → Bool
is_plain c = not (is_space c) && not (leb 65 c && leb c 90)

trim_right_plain : (s : Bytes) → all is_plain s ≡ true → trim_right s ≡ s
unfolding trim_right all
trim_right_plain [] h = refl
trim_right_plain (c ∷ cs) h = ground (arith, trim_right_plain cs)

trim_left_plain : (s : Bytes) → all is_plain s ≡ true → trim_left s ≡ s
unfolding trim_left all
trim_left_plain [] h = refl
trim_left_plain (c ∷ cs) h = ground arith

to_lower_plain : (s : Bytes) → all is_plain s ≡ true → to_lower s ≡ s
unfolding to_lower all
to_lower_plain [] h = refl
to_lower_plain (c ∷ cs) h = ground (arith, to_lower_plain cs)

-- Normalising a text that is normal already changes nothing.
pub to_lower-trim_space_plain : (s : Bytes) → all is_plain s ≡ true → to_lower (trim_space s) ≡ s
to_lower-trim_space_plain s h =
    ap to_lower (ap trim_right (trim_left_plain s h) ∙ trim_right_plain s h) ∙ to_lower_plain s h

trim_left_cases :
    (s : Bytes)
    → (trim_left s ≡ []) ⊎ ((c : ℕ) × (cs : Bytes) × (trim_left s ≡ c ∷ cs) × (is_space c ≡ false))
unfolding trim_left
trim_left_cases [] = inl refl
trim_left_cases (c ∷ cs) = elim (Bool-cases (is_space c)) [
  | inl e ↦ rw e (trim_left_cases cs)
  | inr e ↦ rw e (inr (c, cs, refl, e))
]

trim_space_head : (c : ℕ) (cs : Bytes) → is_space c ≡ false → is_empty (trim_space (c ∷ cs)) ≡ false
unfolding trim_left trim_right
trim_space_head c cs e = rw e (rw e refl)

trim_right_head :
    (c : ℕ) (cs : Bytes) → is_space c ≡ false → trim_right (c ∷ cs) ≡ c ∷ trim_right cs
unfolding trim_right
trim_right_head c cs e = rw e refl

-- A text that is not blank is not blank once trimmed.
pub trim_space_kept :
    (s : Bytes) → is_empty (trim_space s) ≡ false → is_empty (trim_space (trim_space s)) ≡ false
unfolding trim_right
trim_space_kept s h = elim (trim_left_cases s) [
  | inl e ↦ absurd (ground (arith, rw e at h))
  | inr found ↦
      let (c, cs, e, solid) = found in
      let trimmed : trim_space s ≡ c ∷ trim_right cs =
        ap trim_right e ∙ trim_right_head c cs solid in
      ap (λ z. is_empty (trim_space z)) trimmed ∙ trim_space_head c (trim_right cs) solid
]

-- `strings.HasPrefix`
abbrev pub has_prefix : Bytes → Bytes → Bool
has_prefix s [] = true
has_prefix [] (p ∷ ps) = false
has_prefix (c ∷ cs) (p ∷ ps) = c == p && has_prefix cs ps

-- `strings.Contains`
abbrev pub contains : Bytes → Bytes → Bool
contains [] p = is_empty p
contains (c ∷ cs) p = has_prefix (c ∷ cs) p || contains cs p

-- `strings.HasSuffix`
abbrev pub has_suffix : Bytes → Bytes → Bool
has_suffix [] p = is_empty p
has_suffix (c ∷ cs) p = str_eq (c ∷ cs) p || has_suffix cs p

abbrev pub hex_digit : ℕ → ℕ
hex_digit n = if ltb n 10 then 48 + n else 87 + n

-- `hex.EncodeToString`
abbrev pub hex_encode : Bytes → Bytes
hex_encode [] = []
hex_encode (b ∷ bs) = hex_digit (b / 16) ∷ hex_digit (b % 16) ∷ hex_encode bs
