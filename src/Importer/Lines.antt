-- ===== src/Importer/Lines.antt =====
-- internal/subimporter/importer.go: countLines, on the chunks that the reader hands out.
use native.Mathlib.Nat.{zero-add}
use mailview.Prelude.{
  ℕ, ◌+◌, ◌≡◌, refl, ap, ◌∙◌, not, ◌&&◌, List, [], ◌∷◌, ◌++◌, ◌==◌, if◌then◌else◌, Bytes, arith,
}

-- `bytes.Count(buf, "\n")`
unfoldable pub breaks : Bytes → ℕ
breaks [] = 0
breaks (c ∷ cs) = (if c == 10 then 1 else 0) + breaks cs

-- The last byte of a chunk, the old one where the chunk is empty.
unfoldable pub last_byte : ℕ → Bytes → ℕ
last_byte old [] = old
last_byte old (c ∷ cs) = last_byte c cs

abbrev pub finish_count : ℕ → ℕ → ℕ
finish_count count last = if not (last == 0) && not (last == 10) then count + 1 else count

unfoldable pub count_loop : List Bytes → ℕ → ℕ → ℕ
count_loop [] count last = finish_count count last
count_loop (chunk ∷ chunks) count last =
    count_loop chunks (count + breaks chunk) (last_byte last chunk)

-- `countLines`, where no read fails
unfoldable pub count_lines : List Bytes → ℕ
unfolding count_loop
count_lines chunks = count_loop chunks 0 0

unfoldable pub joined : List Bytes → Bytes
joined [] = []
joined (chunk ∷ chunks) = chunk ++ joined chunks

breaks-append : (a b : Bytes) → breaks (a ++ b) ≡ breaks a + breaks b
unfolding breaks
breaks-append [] b = omega arith
breaks-append (c ∷ a) b = ground (arith, breaks-append a b)

last_byte-append : (old : ℕ) (a b : Bytes) → last_byte old (a ++ b) ≡ last_byte (last_byte old a) b
unfolding last_byte
last_byte-append old [] b = refl
last_byte-append old (c ∷ a) b = last_byte-append c a b

count_loop-joined :
    (chunks : List Bytes) (count last : ℕ)
    → count_loop chunks count last
      ≡ finish_count (count + breaks (joined chunks)) (last_byte last (joined chunks))
unfolding count_loop joined breaks last_byte
count_loop-joined [] count last = ground arith
count_loop-joined (chunk ∷ chunks) count last =
    count_loop-joined chunks (count + breaks chunk) (last_byte last chunk)
    ∙ rw (breaks-append chunk (joined chunks), last_byte-append last chunk (joined chunks))
        (ap (λ (n : ℕ). finish_count n (last_byte (last_byte last chunk) (joined chunks)))
          (omega arith))

-- The count does not depend on how the reader cuts the file: it is the number of line breaks, and one
-- more for a last line without a break that does not end in a zero byte.
pub count_lines_lem :
    (chunks : List Bytes)
    → count_lines chunks ≡ finish_count (breaks (joined chunks)) (last_byte 0 (joined chunks))
unfolding count_lines
count_lines_lem chunks = count_loop-joined chunks 0 0 ∙ rw zero-add refl
