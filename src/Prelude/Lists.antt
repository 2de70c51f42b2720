-- ===== src/Prelude/Lists.antt =====
-- Lists measured by native numbers, the tests `any` and `all`, and the first row that fits.
use Prim.Native.Nat.{ℕ, zero, suc, ◌+◌, ◌≤◌, ◌<◌}
use mathlib.Core.Path.{◌≡◌, refl, ap}
use mathlib.Core.Logic.{◌⊎◌, inl, inr}
use mathlib.Core.Bool.{Bool, true, false, ◌&&◌, ◌||◌}
use mathlib.Core.List.{List, [], ◌∷◌, ◌++◌, Memᴰ}
use mathlib.Core.Option.{Option, none, some}
use native.Mathlib.Omega.{arith}
use mailview.Prelude.Tests.{if◌then◌else◌, Bool-cases, ltb}

module _ {ℓ} {A : Type ℓ} where
  abbrev pub length : List A → ℕ
  length [] = 0
  length (x ∷ xs) = suc (length xs)

  abbrev pub take : ℕ → List A → List A
  take zero xs = []
  take (suc n) [] = []
  take (suc n) (x ∷ xs) = x ∷ take n xs

  abbrev pub drop : ℕ → List A → List A
  drop zero xs = xs
  drop (suc n) [] = []
  drop (suc n) (x ∷ xs) = drop n xs

  pub length-append : (xs ys : List A) → length (xs ++ ys) ≡ length xs + length ys
  length-append [] ys = omega arith
  length-append (x ∷ xs) ys = omega (arith, length-append xs ys)

  unfoldable pub any : (A → Bool) → List A → Bool
  any p [] = false
  any p (x ∷ xs) = p x || any p xs

  unfoldable pub all : (A → Bool) → List A → Bool
  all p [] = true
  all p (x ∷ xs) = p x && all p xs

  -- The first row that passes the test, or nothing (`sql.ErrNoRows`).
  abbrev pub find : (A → Bool) → List A → Option A
  find p [] = none
  find p (x ∷ xs) = if p x then some x else find p xs

  abbrev pub filter : (A → Bool) → List A → List A
  filter p [] = []
  filter p (x ∷ xs) = let rest = filter p xs in if p x then x ∷ rest else rest

  -- `UPDATE … WHERE p`: every row that passes the test is changed.
  abbrev pub update : (A → Bool) → (A → A) → List A → List A
  update p f [] = []
  update p f (x ∷ xs) = (if p x then f x else x) ∷ update p f xs

module _ {ℓ} {A : Type ℓ} (p : A → Bool) where
  pub any-mem : (xs : List A) {x : A} → Memᴰ x xs → p x ≡ true → any p xs ≡ true
  unfolding any
  any-mem [] m h = elim m [ ]
  any-mem (y ∷ xs) (Memᴰ.head e) h = ground (arith, ap p e)
  any-mem (y ∷ xs) (Memᴰ.tail m) h = ground (arith, any-mem xs m h)

  pub mem-any : (xs : List A) → any p xs ≡ true → (x : A) × Memᴰ x xs × (p x ≡ true)
  unfolding any
  mem-any [] h = cc
  mem-any (x ∷ xs) h = elim (Bool-cases (p x)) [
    | inl e ↦ (x, Memᴰ.head refl, e)
    | inr e ↦
        let rest : any p xs ≡ true = ground arith in
        let (y, m, q) = mem-any xs rest in (y, Memᴰ.tail m, q)
  ]

  pub mem-find : (xs : List A) {x : A} → find p xs ≡ some x → Memᴰ x xs × (p x ≡ true)
  mem-find [] h = ground arith
  mem-find (y ∷ xs) {x} h = elim (Bool-cases (p y)) [
    | inl e ↦
        let e' : some y ≡ some x = ground arith in
        let same : x ≡ y = cc in (Memᴰ.head same, cc (e, ap p same))
    | inr e ↦
        let rest : find p xs ≡ some x = ground arith in
        let (m, q) = mem-find xs rest in (Memᴰ.tail m, q)
  ]

  pub all-mem : (xs : List A) {x : A} → all p xs ≡ true → Memᴰ x xs → p x ≡ true
  unfolding all
  all-mem [] h m = elim m [ ]
  all-mem (y ∷ xs) h (Memᴰ.head e) = ground (arith, ap p e)
  all-mem (y ∷ xs) h (Memᴰ.tail m) = all-mem xs (ground arith) m

-- A weaker test that no row passes, and a stronger one.
pub any-weaken {ℓ} :
    {A : Type ℓ} (p q : A → Bool)
    → ((x : A) → q x ≡ true → p x ≡ true)
    → (xs : List A) → any p xs ≡ false
    → any q xs ≡ false
unfolding any
any-weaken p q sub [] h = refl
any-weaken p q sub (x ∷ xs) h = ground (arith, sub x, any-weaken p q sub xs)

pub length-take {ℓ} : {A : Type ℓ} (n : ℕ) (xs : List A) → length (take n xs) ≤ n
length-take zero xs = omega arith
length-take (suc n) [] = omega arith
length-take (suc n) (x ∷ xs) = omega (arith, length-take n xs)

pub mem-cases {ℓ} : {A : Type ℓ} {a b : A} {xs : List A} → Memᴰ a (b ∷ xs) → (a ≡ b) ⊎ Memᴰ a xs
mem-cases (Memᴰ.head e) = inl e
mem-cases (Memᴰ.tail m) = inr m

module _ {ℓ} {A : Type ℓ} (p q : A → Bool) (f : A → A) where
  -- A row that is changed in place is found again, changed.
  pub find-update_self :
      (xs : List A) {x : A}
      → ((y : A) → p y ≡ true → p (f y) ≡ true)
      → find p xs ≡ some x
      → find p (update p f xs) ≡ some (f x)
  find-update_self [] keep h = cc
  find-update_self (y ∷ xs) {x} keep h = elim (Bool-cases (p y)) [
    | inl e ↦
        let first : some y ≡ some x = rw e at h in
        let same : y ≡ x = cc in rw (e, keep y e) (ap (λ z. some (f z)) same)
    | inr e ↦ let rest : find p xs ≡ some x = rw e at h in rw (e, e) (find-update_self xs keep rest)
  ]

  -- A query that tells the changed rows apart sees no change.
  pub find-update_ne :
      (xs : List A)
      → ((y : A) → p y ≡ true → (q y ≡ false) × (q (f y) ≡ false))
      → find q (update p f xs) ≡ find q xs
  find-update_ne [] apart = refl
  find-update_ne (y ∷ xs) apart = elim (Bool-cases (p y)) [
    | inl e ↦ let (old, new) = apart y e in rw e (rw (old, new) (find-update_ne xs apart))
    | inr e ↦ rw e (ap (λ z. if q y then some y else z) (find-update_ne xs apart))
  ]

module _ {ℓ} {A : Type ℓ} (p : A → Bool) where
  pub find-concat_new :
      (xs : List A) (x : A) → find p xs ≡ none → p x ≡ true → find p (xs ++ x ∷ []) ≡ some x
  find-concat_new [] x h e = rw e
  find-concat_new (y ∷ xs) x h e = elim (Bool-cases (p y)) [
    | inl q ↦ absurd (ground (arith, h))
    | inr q ↦ rw q (find-concat_new xs x (rw q at h) e)
  ]

  pub find-concat_other : (xs : List A) (x : A) → p x ≡ false → find p (xs ++ x ∷ []) ≡ find p xs
  find-concat_other [] x e = rw e
  find-concat_other (y ∷ xs) x e = ap (λ z. if p y then some y else z) (find-concat_other xs x e)

  pub find-any : (xs : List A) {x : A} → find p xs ≡ some x → any p xs ≡ true
  unfolding any
  find-any [] h = cc
  find-any (y ∷ xs) {x} h = elim (Bool-cases (p y)) [
    | inl e ↦ rw e
    | inr e ↦ let rest : find p xs ≡ some x = rw e at h in rw e (find-any xs rest)
  ]

  pub any-find : (xs : List A) → any p xs ≡ false → find p xs ≡ none
  unfolding any
  any-find [] h = refl
  any-find (y ∷ xs) h = ground (arith, any-find xs)

-- An update that keeps what a query reads changes the row that the query finds, if at all.
pub find-update {ℓ} :
    {A : Type ℓ} (p q : A → Bool) (f : A → A)
    → ((y : A) → q (f y) ≡ q y)
    → (xs : List A) {x : A} → find q xs ≡ some x
    → find q (update p f xs) ≡ some (if p x then f x else x)
find-update p q f keep [] h = cc
find-update p q f keep (y ∷ xs) {x} h = elim (Bool-cases (q y)) [
  | inl e ↦
      let first : some y ≡ some x = rw e at h in
      let same : y ≡ x = cc in
      elim (Bool-cases (p y)) [
        | inl t ↦ rw (← same) (rw (t, keep y, e))
        | inr t ↦ rw (← same) (rw (t, e))
      ]
  | inr e ↦
      let rest : find q xs ≡ some x = rw e at h in
      elim (Bool-cases (p y)) [
        | inl t ↦ rw (t, keep y, e) (find-update p q f keep xs rest)
        | inr t ↦ rw (t, e) (find-update p q f keep xs rest)
      ]
]

-- A row at the end is found only where none stands before it.
pub find-concat {ℓ} :
    {A : Type ℓ} (q : A → Bool) (xs ys : List A) {x : A}
    → find q xs ≡ some x
    → find q (xs ++ ys) ≡ some x
find-concat q [] ys h = cc
find-concat q (y ∷ xs) ys {x} h = elim (Bool-cases (q y)) [
  | inl e ↦ rw e (rw e at h)
  | inr e ↦ let rest : find q xs ≡ some x = rw e at h in rw e (find-concat q xs ys rest)
]

module _ {ℓ} {A : Type ℓ} where
  pub mem-append_left : (xs ys : List A) {x : A} → Memᴰ x xs → Memᴰ x (xs ++ ys)
  mem-append_left [] ys m = elim m [ ]
  mem-append_left (y ∷ xs) ys m = elim (mem-cases m) [
    | inl e ↦ Memᴰ.head e
    | inr n ↦ Memᴰ.tail (mem-append_left xs ys n)
  ]

  pub mem-append_right : (xs ys : List A) {x : A} → Memᴰ x ys → Memᴰ x (xs ++ ys)
  mem-append_right [] ys m = m
  mem-append_right (y ∷ xs) ys m = Memᴰ.tail (mem-append_right xs ys m)

  -- A row of a table with one more row is an old row or the new one.
  pub mem-concat : (xs : List A) (x : A) {y : A} → Memᴰ y (xs ++ x ∷ []) → Memᴰ y xs ⊎ (y ≡ x)
  mem-concat [] x m = elim (mem-cases m) [ inl e ↦ inr e | inr n ↦ elim n [ ] ]
  mem-concat (z ∷ xs) x m = elim (mem-cases m) [
    | inl e ↦ inl (Memᴰ.head e)
    | inr n ↦ elim (mem-concat xs x n) [ inl o ↦ inl (Memᴰ.tail o) | inr e ↦ inr e ]
  ]

-- The sum of a quantity over a list.
abbrev pub total {ℓ} : {A : Type ℓ} → (A → ℕ) → List A → ℕ
total f [] = 0
total f (x ∷ xs) = f x + total f xs

module _ {ℓ} {A : Type ℓ} (f : A → ℕ) where
  pub total-append : (xs ys : List A) → total f (xs ++ ys) ≡ total f xs + total f ys
  total-append [] ys = omega arith
  total-append (x ∷ xs) ys = omega (arith, total-append xs ys)

  pub total-take-drop :
      (n : ℕ) (xs : List A) → total f (take n xs) + total f (drop n xs) ≡ total f xs
  total-take-drop zero xs = omega arith
  total-take-drop (suc n) [] = omega arith
  total-take-drop (suc n) (x ∷ xs) = omega (arith, total-take-drop n xs)

  -- A positive sum has a positive term.
  pub total_pos :
      (xs : List A)
      → 0 < total f xs
      → (before : List A) × (x : A) × (after : List A) × (xs ≡ before ++ x ∷ after) × (0 < f x)
  total_pos [] h = absurd (omega arith)
  total_pos (x ∷ xs) h = elim (Bool-cases (ltb 0 (f x))) [
    | inl e ↦ ([], x, xs, refl, ground arith)
    | inr e ↦
        let (before, y, after, s, p) = total_pos xs (ground arith) in
        (x ∷ before, y, after, ap (λ z. x ∷ z) s, p)
  ]
