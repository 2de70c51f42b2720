-- ===== src/Support/BufLog/LastLines.antt =====
-- What the buffer of buflog.go holds after any writes.
use mailview.Prelude.{
  ℕ, zero, suc, ◌-◌, ◌≤◌, ◌<◌, ◌≡◌, refl, sym, ap, ◌∙◌, some, List, [], ◌∷◌, ◌++◌, map, leb, Bytes,
  length, length-append, drop, trim_space, arith, Bool-cases, inl, inr,
}
use mailview.Support.BufLog.{
  Buffer, new, drop_oldest, append_line, write, then_write_all, write_all,
}

-- The last `n` of a sequence of lines.
unfoldable pub last : ℕ → List Bytes → List Bytes
last n ls = drop (length ls - n) ls

drop_append : (n : ℕ) (xs ys : List Bytes) → n ≤ length xs → drop n (xs ++ ys) ≡ drop n xs ++ ys
drop_append zero xs ys h = refl
drop_append (suc n) [] ys h = absurd (omega arith)
drop_append (suc n) (x ∷ xs) ys h = drop_append n xs ys (omega arith)

drop-drop_oldest :
    (n : ℕ) (xs : List Bytes) → n < length xs → drop_oldest (drop n xs) ≡ some (drop (suc n) xs)
drop-drop_oldest zero [] h = absurd (omega arith)
drop-drop_oldest zero (x ∷ xs) h = refl
drop-drop_oldest (suc n) [] h = absurd (omega arith)
drop-drop_oldest (suc n) (x ∷ xs) h = drop-drop_oldest n xs (omega arith)

length-drop : (n : ℕ) (xs : List Bytes) → length (drop n xs) ≡ length xs - n
length-drop zero xs = omega arith
length-drop (suc n) [] = omega arith
length-drop (suc n) (x ∷ xs) = omega (arith, length-drop n xs)

length-last : (n : ℕ) (ls : List Bytes) → length (last n ls) ≡ length ls - (length ls - n)
unfolding last
length-last n ls = length-drop (length ls - n) ls

-- A buffer that holds the last lines of `seen`.
holds : ℕ → List Bytes → Buffer
holds max seen = record { max_lines = max; lines = last max seen }

last-room :
    (max : ℕ) (seen : List Bytes) (l : Bytes)
    → length seen < max
    → (last max seen ≡ seen) × (last max (seen ++ l ∷ []) ≡ seen ++ l ∷ [])
unfolding last
last-room max seen l h =
    let before : length seen - max ≡ 0 = omega arith in
    let after : length (seen ++ l ∷ []) - max ≡ 0 = omega (arith, length-append seen (l ∷ [])) in
    (ap (λ n. drop n seen) before, ap (λ n. drop n (seen ++ l ∷ [])) after)

last-full :
    (max : ℕ) (seen : List Bytes) (l : Bytes)
    → 1 ≤ max
    → max ≤ length seen
    → last max (seen ++ l ∷ []) ≡ drop (suc (length seen - max)) seen ++ l ∷ []
unfolding last
last-full max seen l h full =
    let next : length (seen ++ l ∷ []) - max ≡ suc (length seen - max) =
      omega (arith, length-append seen (l ∷ [])) in
    ap (λ n. drop n (seen ++ l ∷ [])) next
    ∙ drop_append (suc (length seen - max)) seen (l ∷ []) (omega arith)

oldest :
    (max : ℕ) (seen : List Bytes)
    → 1 ≤ max
    → max ≤ length seen
    → drop_oldest (last max seen) ≡ some (drop (suc (length seen - max)) seen)
unfolding last
oldest max seen h many = drop-drop_oldest (length seen - max) seen (omega arith)

write-holds :
    (max : ℕ) (seen : List Bytes) (b : Bytes)
    → 1 ≤ max
    → write b (holds max seen) ≡ some (holds max (seen ++ trim_space b ∷ []))
unfolding write holds
write-holds max seen b h = elim (Bool-cases (leb max (length (last max seen)))) [
  | inr room ↦
      let few : length seen < max = ground (arith, room, length-last max seen) in
      let (old, new) = last-room max seen (trim_space b) few in
      rw room (
        ap (λ ls. some (record { max_lines = max; lines = ls }))
          (ap (λ z. z ++ trim_space b ∷ []) old ∙ sym new))
  | inl full ↦
      let many : max ≤ length seen = ground (arith, full, length-last max seen) in
      rw full (
        ap (append_line (holds max seen) b) (oldest max seen h many)
        ∙ ap (λ ls. some (record { max_lines = max; lines = ls }))
            (sym (last-full max seen (trim_space b) h many)))
]

append_assoc : (xs ys zs : List Bytes) → (xs ++ ys) ++ zs ≡ xs ++ (ys ++ zs)
append_assoc [] ys zs = refl
append_assoc (x ∷ xs) ys zs = ap (λ z. x ∷ z) (append_assoc xs ys zs)

write_all-holds :
    (max : ℕ) (seen bs : List Bytes)
    → 1 ≤ max
    → write_all bs (holds max seen) ≡ some (holds max (seen ++ map trim_space bs))
unfolding write_all
write_all-holds max seen [] h = ap (λ z. some (holds max z)) (append-nil seen)
  where
    append-nil : (xs : List Bytes) → xs ≡ xs ++ []
    append-nil [] = refl
    append-nil (x ∷ xs) = ap (λ z. x ∷ z) (append-nil xs)
write_all-holds max seen (b ∷ bs) h =
    ap (then_write_all (write_all bs)) (write-holds max seen b h)
    ∙ write_all-holds max (seen ++ trim_space b ∷ []) bs h
    ∙ ap (λ z. some (holds max z)) (append_assoc seen (trim_space b ∷ []) (map trim_space bs))

-- Where at least one line is kept, no sequence of writes faults, and the buffer then holds the last
-- lines that were written, trimmed, in their order, up to its capacity.
pub write_all-last :
    (max : ℕ) (bs : List Bytes)
    → 1 ≤ max
    → write_all bs (new max)
      ≡ some (record { max_lines = max; lines = last max (map trim_space bs) })
unfolding holds
write_all-last max bs h =
    ap (λ ls. write_all bs (record { max_lines = max; lines = ls })) (sym (last-room max [] [] h).0)
    ∙ write_all-holds max [] bs h
