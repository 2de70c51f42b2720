-- ===== src/Prelude/Rows.antt =====
-- Tables with a key: at most one row for each key, and predicates that hold of every row.
use mathlib.Core.Path.{◌≡◌, refl, sym, ap, ◌∙◌, subst, fun_ext}
use mathlib.Core.Logic.{inl, inr}
use mathlib.Core.Bool.{Bool, true, false}
use mathlib.Core.List.{List, [], ◌∷◌, ◌++◌, Memᴰ}
use mathlib.Core.Option.{some}
use native.Mathlib.Omega.{arith}
use mailview.Prelude.Tests.{Bool-cases, if◌then◌else◌}
use mailview.Prelude.Lists.{any, any-mem, filter, find, update, mem-cases}

abbrev pub All {ℓ κ} : {A : Type ℓ} → (A → Type κ) → List A → Type κ
All P [] = Unit
All P (x ∷ xs) = P x × All P xs

-- No two rows have the same key; `same` compares keys.
abbrev pub IsKeyed {ℓ} : {A : Type ℓ} → (A → A → Bool) → List A → Type 0
IsKeyed same [] = Unit
IsKeyed same (x ∷ xs) = (any (same x) xs ≡ false) × IsKeyed same xs

module _ {ℓ κ} {A : Type ℓ} (P : A → Type κ) where
  pub All-concat : (xs : List A) (x : A) → All P xs → P x → All P (xs ++ x ∷ [])
  All-concat [] x h p = (p, tt)
  All-concat (y ∷ xs) x h p = (h.0, All-concat xs x h.1 p)

  pub All-mem : (xs : List A) {x : A} → All P xs → Memᴰ x xs → P x
  All-mem [] h m = elim m [ ]
  All-mem (y ∷ xs) h m = elim (mem-cases m) [
    | inl e ↦ subst P (sym e) h.0
    | inr n ↦ All-mem xs h.1 n
  ]

module _ {ℓ} {A : Type ℓ} (p : A → Bool) (f : A → A) where
  pub update_none : (xs : List A) → any p xs ≡ false → update p f xs ≡ xs
  unfolding any
  update_none [] h = refl
  update_none (x ∷ xs) h = elim (Bool-cases (p x)) [
    | inl e ↦ absurd (ground arith)
    | inr e ↦ rw e (ap (λ r. x ∷ r) (update_none xs (ground arith)))
  ]

  pub any-update :
      (q : A → Bool) (xs : List A) → ((x : A) → q (f x) ≡ q x) → any q (update p f xs) ≡ any q xs
  unfolding any
  any-update q [] keep = refl
  any-update q (x ∷ xs) keep = elim (Bool-cases (p x)) [
    | inl e ↦ rw e (rw (keep x, any-update q xs keep))
    | inr e ↦ rw e (rw (any-update q xs keep))
  ]

module _ {ℓ} {A : Type ℓ} (same : A → A → Bool) where
  pub IsKeyed-concat :
      (xs : List A) (x : A)
      → any (λ y. same y x) xs ≡ false
      → IsKeyed same xs
      → IsKeyed same (xs ++ x ∷ [])
  unfolding any
  IsKeyed-concat [] x h k = (refl, tt)
  IsKeyed-concat (y ∷ xs) x h k =
      (any_append xs (ground arith) (ground (arith, k.0)), IsKeyed-concat xs x (ground arith) k.1)
    where
      any_append :
          (zs : List A)
          → same y x ≡ false
          → any (same y) zs ≡ false
          → any (same y) (zs ++ x ∷ []) ≡ false
      any_append [] a b = ground arith
      any_append (z ∷ zs) a b = ground (arith, any_append zs a)

  pub IsKeyed-update :
      (p : A → Bool) (f : A → A)
      → ((x z : A) → same (f x) z ≡ same x z)
      → ((x z : A) → same z (f x) ≡ same z x)
      → (xs : List A) → IsKeyed same xs
      → IsKeyed same (update p f xs)
  IsKeyed-update p f left right [] k = tt
  IsKeyed-update p f left right (x ∷ xs) k = elim (Bool-cases (p x)) [
    | inl e ↦ rw e (
      rw (fun_ext (left x)) (any-update p f (same x) xs (λ z. right z x) ∙ k.0),
      IsKeyed-update p f left right xs k.1,
    )
    | inr e ↦
        rw e
          (any-update p f (same x) xs (λ z. right z x) ∙ k.0, IsKeyed-update p f left right xs k.1)
  ]

module _ {ℓ κ} {A : Type ℓ} (P : A → Type κ) (same : A → A → Bool) (p : A → Bool) (f : A → A) where
  -- With a key, an update of the row that a query found changes that row alone.
  pub All-update :
      ((y z : A) → p y ≡ true → p z ≡ same y z)
      → (xs : List A) {w : A} → IsKeyed same xs
      → find p xs ≡ some w
      → All P xs
      → P (f w)
      → All P (update p f xs)
  unfolding any
  All-update agree [] k h all q = tt
  All-update agree (x ∷ xs) {w} k h all q = elim (Bool-cases (p x)) [
    | inl e ↦
        let first : some x ≡ some w = rw e at h in
        let it : w ≡ x = cc in
        let alone : any p xs ≡ false = rw (fun_ext (λ z. agree x z e)) k.0 in
        rw e (rw (update_none p f xs alone) (subst (λ z. P (f z)) it q, all.1))
    | inr e ↦
        let rest : find p xs ≡ some w = rw e at h in
        rw e (all.0, All-update agree xs k.1 rest all.1 q)
  ]

-- An update that keeps a predicate on each row that it changes keeps it on every row.
pub All-update_each {ℓ κ} :
    {A : Type ℓ} (P : A → Type κ) (p : A → Bool) (f : A → A)
    → ((x : A) → p x ≡ true → P x → P (f x))
    → (xs : List A) → All P xs
    → All P (update p f xs)
All-update_each P p f keep [] h = tt
All-update_each P p f keep (x ∷ xs) h = elim (Bool-cases (p x)) [
  | inl e ↦ rw e (keep x e h.0, All-update_each P p f keep xs h.1)
  | inr e ↦ rw e (h.0, All-update_each P p f keep xs h.1)
]

-- Two rows with one key are one row.
pub keyed_unique {ℓ} :
    {A : Type ℓ} (same : A → A → Bool)
    → ((x y : A) → same x y ≡ true → same y x ≡ true)
    → (xs : List A) {a b : A} → IsKeyed same xs
    → Memᴰ a xs
    → Memᴰ b xs
    → same a b ≡ true
    → a ≡ b
keyed_unique same flip [] k ma mb h = elim ma [ ]
keyed_unique same flip (x ∷ xs) {a} {b} k ma mb h = elim (mem-cases ma) [
  | inl ea ↦ elim (mem-cases mb) [
    | inl eb ↦ ea ∙ sym eb
    | inr nb ↦
        let hit : any (same x) xs ≡ true =
          any-mem (same x) xs nb (subst (λ z. same z b ≡ true) ea h) in
        absurd (ground (arith, k.0))
  ]
  | inr na ↦ elim (mem-cases mb) [
    | inl eb ↦
        let hit : any (same x) xs ≡ true =
          any-mem (same x) xs na (subst (λ z. same z a ≡ true) eb (flip a b h)) in
        absurd (ground (arith, k.0))
    | inr nb ↦ keyed_unique same flip xs k.1 na nb h
  ]
]

module _ {ℓ} {A : Type ℓ} (p q : A → Bool) (f : A → A) where
  -- A query that no row passed finds the row that an update makes pass it.
  pub find-update_new :
      (xs : List A) {w : A}
      → any q xs ≡ false
      → ((y : A) → p y ≡ true → q (f y) ≡ true)
      → find p xs ≡ some w
      → find q (update p f xs) ≡ some (f w)
  unfolding any
  find-update_new [] free make h = cc
  find-update_new (x ∷ xs) {w} free make h = elim (Bool-cases (p x)) [
    | inl e ↦
        let first : some x ≡ some w = rw e at h in
        let it : x ≡ w = cc in rw e (rw (make x e) (ap (λ z. some (f z)) it))
    | inr e ↦
        let old : q x ≡ false = ground arith in
        rw e (rw old (find-update_new xs (ground arith) make (rw e at h)))
  ]

  -- An update that reaches every row that passes a query, and makes it fail, leaves none.
  pub any-update_clear :
      (xs : List A)
      → ((y : A) → Memᴰ y xs → q y ≡ true → p y ≡ true)
      → ((y : A) → p y ≡ true → q (f y) ≡ false)
      → any q (update p f xs) ≡ false
  unfolding any
  any-update_clear [] reach clear = refl
  any-update_clear (x ∷ xs) reach clear =
      let rest = any-update_clear xs (λ y m. reach y (Memᴰ.tail m)) clear in
      elim (Bool-cases (p x)) [
        | inl e ↦ rw e (rw (clear x e, rest) refl)
        | inr e ↦
            let fails : q x ≡ false = ground (arith, reach x (Memᴰ.head refl)) in
            rw e (rw (fails, rest) refl)
      ]

-- What a query selects is not touched by a statement on other rows.
module _ {ℓ} {A : Type ℓ} (q : A → Bool) where
  pub filter-concat_other :
      (xs : List A) (x : A) → q x ≡ false → filter q (xs ++ x ∷ []) ≡ filter q xs
  filter-concat_other [] x e = rw e
  filter-concat_other (y ∷ xs) x e =
      ap (λ (r : List A). if q y then y ∷ r else r) (filter-concat_other xs x e)

  pub filter-update_other :
      (p : A → Bool) (f : A → A)
      → ((y : A) → p y ≡ true → (q y ≡ false) × (q (f y) ≡ false))
      → (xs : List A) → filter q (update p f xs) ≡ filter q xs
  filter-update_other p f apart [] = refl
  filter-update_other p f apart (y ∷ xs) = elim (Bool-cases (p y)) [
    | inl e ↦ let (old, new) = apart y e in rw e (rw (old, new) (filter-update_other p f apart xs))
    | inr e ↦
        rw e (ap (λ (r : List A). if q y then y ∷ r else r) (filter-update_other p f apart xs))
  ]

  pub filter-filter_other :
      (p : A → Bool)
      → ((y : A) → p y ≡ false → q y ≡ false)
      → (xs : List A) → filter q (filter p xs) ≡ filter q xs
  filter-filter_other p apart [] = refl
  filter-filter_other p apart (y ∷ xs) = elim (Bool-cases (p y)) [
    | inl e ↦ rw e (ap (λ (r : List A). if q y then y ∷ r else r) (filter-filter_other p apart xs))
    | inr e ↦ rw e (rw (apart y e) (filter-filter_other p apart xs))
  ]

  -- A row that a deletion leaves is found where it was.
  pub any-filter_kept :
      (p : A → Bool)
      → ((y : A) → q y ≡ true → p y ≡ true)
      → (xs : List A) → any q xs ≡ true
      → any q (filter p xs) ≡ true
  unfolding any
  any-filter_kept p keep [] h = cc
  any-filter_kept p keep (y ∷ xs) h = ground (arith, keep y, any-filter_kept p keep xs)

  pub any-concat_kept : (xs : List A) (x : A) → any q xs ≡ true → any q (xs ++ x ∷ []) ≡ true
  unfolding any
  any-concat_kept [] x h = cc
  any-concat_kept (y ∷ xs) x h = ground (arith, any-concat_kept xs x)
