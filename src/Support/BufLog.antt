-- ===== src/Support/BufLog.antt =====
-- internal/buflog/buflog.go: the last lines of a log. A write that indexes an empty slice is a fault,
-- `none`.
pub mod LastLines
use mailview.Prelude.{
  ℕ, Bool, Option, none, some, List, [], ◌∷◌, ◌++◌, leb, if◌then◌else◌, Bytes, length, trim_space,
}

pub record Buffer : Type 0 where
  pub max_lines : ℕ
  pub lines : List Bytes

abbrev pub new : ℕ → Buffer
new max = record { max_lines = max; lines = [] }

-- The oldest line is dropped: `lines[0] = ""` and `lines[1:]`.
abbrev pub drop_oldest : List Bytes → Option (List Bytes)
drop_oldest [] = none
drop_oldest (l ∷ ls) = some ls

abbrev pub append_line : Buffer → Bytes → Option (List Bytes) → Option Buffer
append_line bu b none = none
append_line bu b (some ls) = some (record bu { lines = ls ++ trim_space b ∷ [] })

-- `Write`
unfoldable pub write : Bytes → Buffer → Option Buffer
write b bu =
    append_line bu b
      (if leb bu.max_lines (length bu.lines) then drop_oldest bu.lines else some bu.lines)

abbrev pub then_write_all : (Buffer → Option Buffer) → Option Buffer → Option Buffer
then_write_all f none = none
then_write_all f (some bu) = f bu

-- A sequence of writes.
unfoldable pub write_all : List Bytes → Buffer → Option Buffer
unfolding write
write_all [] bu = some bu
write_all (b ∷ bs) bu = then_write_all (write_all bs) (write b bu)
