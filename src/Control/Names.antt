-- ===== src/Control/Names.antt =====
-- Slugs (`NormalizeSlug` of internal/mailview/control/service.go) and hostnames
-- (`validTenantHostname` of internal/mailview/control/domains.go), their regular expressions as
-- tests on bytes.
use mailview.Prelude.{
  ℕ, ◌≤◌, ◌≡◌, refl, Bool, true, false, not, ◌&&◌, ◌||◌, Option, none, some, List, [], ◌∷◌, ◌==◌,
  ltb, leb, if◌then◌else◌, Bytes, codes, any, all, length, str_eq, trim_space, to_lower, arith,
  Bool-cases, inl, inr, &&-eq-true, is_plain, to_lower-trim_space_plain, contains, has_suffix,
}

-- `[a-z0-9]`
abbrev pub is_alnum : ℕ → Bool
is_alnum c = (leb 97 c && leb c 122) || (leb 48 c && leb c 57)

-- `[a-z0-9-]`
abbrev pub is_label_byte : ℕ → Bool
is_label_byte c = is_alnum c || c == 45

abbrev pub starts_alnum : Bytes → Bool
starts_alnum [] = false
starts_alnum (c ∷ cs) = is_alnum c

unfoldable pub ends_alnum : Bytes → Bool
ends_alnum [] = false
ends_alnum (c ∷ []) = is_alnum c
ends_alnum (c ∷ d ∷ cs) = ends_alnum (d ∷ cs)

-- A text of label bytes between two alphanumeric ones, at most 63 in all.
unfoldable pub label_pattern : ℕ → Bytes → Bool
unfolding ends_alnum all
label_pattern least s =
    leb least (length s)
    && leb (length s) 63
    && starts_alnum s
    && ends_alnum s
    && all is_label_byte s

-- `slugPattern`
abbrev pub slug_pattern : Bytes → Bool
slug_pattern s = label_pattern 3 s

abbrev pub reserved_slugs : List Bytes
reserved_slugs =
    codes "admin"
    ∷ codes "api"
    ∷ codes "app"
    ∷ codes "assets"
    ∷ codes "auth"
    ∷ codes "billing"
    ∷ codes "help"
    ∷ codes "mail"
    ∷ codes "status"
    ∷ codes "support"
    ∷ codes "www"
    ∷ []

-- `NormalizeSlug`; its error is always `ErrInvalid`, here `none`.
unfoldable pub normalize_slug : Bytes → Option Bytes
normalize_slug value =
    let slug = to_lower (trim_space value) in
    if not (slug_pattern slug)
    then none
    else if any (str_eq slug) reserved_slugs
    then none
    else some slug

abbrev add_byte : ℕ → List Bytes → List Bytes
add_byte c [] = (c ∷ []) ∷ []
add_byte c (l ∷ ls) = if c == 46 then [] ∷ l ∷ ls else (c ∷ l) ∷ ls

-- The labels between the dots.
unfoldable pub labels : Bytes → List Bytes
labels [] = [] ∷ []
labels (c ∷ cs) = add_byte c (labels cs)

-- `hostnamePattern`: two labels or more.
unfoldable pub hostname_pattern : Bytes → Bool
unfolding labels label_pattern all
hostname_pattern s = leb 2 (length (labels s)) && all (label_pattern 1) (labels s)

-- `validTenantHostname`; `net.ParseIP` succeeding is the argument.
unfoldable pub valid_tenant_hostname : (Bytes → Bool) → Bytes → Bool
unfolding hostname_pattern
valid_tenant_hostname is_ip h =
    if ltb (length h) 4 || ltb 253 (length h) || contains h (codes "*") || is_ip h
    then false
    else if str_eq h (codes "localhost")
        || has_suffix h (codes ".localhost")
        || has_suffix h (codes ".local")
    then false
    else hostname_pattern h

all-is_plain : (s : Bytes) → all is_label_byte s ≡ true → all is_plain s ≡ true
unfolding all
all-is_plain [] h = refl
all-is_plain (c ∷ cs) h = ground (arith, all-is_plain cs)

-- What a slug that was accepted is: it fits the pattern and is not reserved.
pub normalize_slug_ok :
    (value : Bytes) {s : Bytes}
    → normalize_slug value ≡ some s
    → (slug_pattern s ≡ true)
      × (any (str_eq s) reserved_slugs ≡ false)
      × (to_lower (trim_space value) ≡ s)
unfolding normalize_slug
normalize_slug_ok value {s} h = elim (Bool-cases (slug_pattern slug)) [
  | inr bad ↦ absurd (ground arith)
  | inl fits ↦ elim (Bool-cases (any (str_eq slug) reserved_slugs)) [
    | inl bad ↦ absurd (ground arith)
    | inr free ↦ let it : slug ≡ s = ground arith in (cc, cc, it)
  ]
]
  where
    slug : Bytes
    slug = to_lower (trim_space value)

-- A text that fits the pattern is its own normal form.
pub slug_lookup : (s : Bytes) → slug_pattern s ≡ true → to_lower (trim_space s) ≡ s
unfolding label_pattern
slug_lookup s h = to_lower-trim_space_plain s (all-is_plain s (&&-eq-true _ _ h).1)

accepted :
    (s : Bytes)
    → slug_pattern s ≡ true
    → any (str_eq s) reserved_slugs ≡ false
    → normalize_slug s ≡ some s
unfolding normalize_slug
accepted s fits free = rw (slug_lookup s fits) (rw (fits, free) refl)

-- A slug that was accepted is 3 to 63 bytes long, is not reserved, and is accepted again unchanged.
pub normalize_slug_idem :
    (value : Bytes) {s : Bytes}
    → normalize_slug value ≡ some s
    → (3 ≤ length s)
      × (length s ≤ 63)
      × (any (str_eq s) reserved_slugs ≡ false)
      × (normalize_slug s ≡ some s)
unfolding label_pattern
normalize_slug_idem value {s} h =
    let (fits, free, it) = normalize_slug_ok value h in
    (ground (arith, fits), ground (arith, fits), free, accepted s fits free)
