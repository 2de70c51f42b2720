-- ===== src/Control/Workflow/Decimal.antt =====
-- `stringInt` of campaign_workflow.go: the decimal digits of a number in a buffer of 20 bytes.
use mailview.Prelude.{
  ℕ, zero, suc, ◌+◌, ◌-◌, ◌*◌, ◌/◌, ◌%◌, ◌^◌, ◌<◌, ◌≡◌, sym, ap, ◌∙◌, Option, none, some, [], ◌∷◌,
  ◌==◌, ==_iff, if◌then◌else◌, Bytes, codes, arith, Bool-cases, inl, inr,
}
use native.Mathlib.Nat.{pow-suc}

-- The loop: `acc` is `buf[i:]`. A write below the buffer's start is a fault, `none`.
unfoldable pub string_loop : ℕ → ℕ → Bytes → Option Bytes
string_loop zero value acc = if value == 0 then some acc else none
string_loop (suc i) value acc =
    let rest = string_loop i (value / 10) ((48 + value % 10) ∷ acc) in
    if value == 0 then some acc else rest

unfoldable pub string_int : ℕ → Option Bytes
string_int value = if value == 0 then some (codes "0") else string_loop 20 value []

-- The number that a text of digits stands for, read after the digits of `n`.
abbrev pub decimal : ℕ → Bytes → ℕ
decimal n [] = n
decimal n (c ∷ cs) = decimal (n * 10 + (c - 48)) cs

string_loop_lem :
    (i value : ℕ) (acc : Bytes)
    → value < 10 ^ i
    → (s : Bytes) × (string_loop i value acc ≡ some s) × (decimal 0 s ≡ decimal value acc)
unfolding string_loop
string_loop_lem zero value acc h =
    let none_left : value ≡ 0 = omega arith in
    (acc, ground arith, ap (λ n. decimal n acc) (sym none_left))
string_loop_lem (suc i) value acc h = elim (Bool-cases (value == 0)) [
  | inl e ↦ (acc, rw e, ap (λ n. decimal n acc) (sym ((==_iff value 0).0 e)))
  | inr e ↦
      let (s, runs, reads) =
        string_loop_lem i (value / 10) ((48 + value % 10) ∷ acc) (omega (arith, pow-suc 10 i)) in
      (s, rw e runs, reads ∙ ap (λ n. decimal n acc) (omega arith))
]

-- For every value of an `int` that is not negative the buffer is large enough, and the text that comes
-- out reads back as the value.
decimal-string_int :
    (value : ℕ) → value < 2 ^ 63 → (s : Bytes) × (string_int value ≡ some s) × (decimal 0 s ≡ value)
unfolding string_int
decimal-string_int value h = elim (Bool-cases (value == 0)) [
  | inl e ↦ (codes "0", rw e, sym ((==_iff value 0).0 e))
  | inr e ↦
      let (s, runs, reads) = string_loop_lem 20 value [] (omega arith) in (s, rw e runs, reads)
]
