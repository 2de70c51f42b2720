-- ===== src/Importer/Session.antt =====
-- internal/subimporter/importer.go: the loop of Start, which writes the queued subscribers in batches.
-- The answers of the database and of the random source come with the rows.
pub mod Kept
pub mod Batches
pub mod Whole
use mailview.Prelude.{
  ℕ, ◌+◌, ◌%◌, Bool, true, false, not, ◌&&◌, ◌||◌, List, [], ◌∷◌, ◌==◌, if◌then◌else◌,
}
use mailview.Importer.Table.{Options, SubReq, Tables, exec_row}

pub data ImportStatus : Type 0 where
  nothing importing stopping finished failed : ImportStatus

-- What `Begin`, `NewV4`, `Exec` and `Commit` answer while a row is handled.
pub record Answers : Type 0 where
  pub begun : Bool
  pub drawn : Bool
  pub inserted : Bool
  pub committed : Bool

-- The local variables of `Start`, the tables as they are stored and as the transaction has them.
-- `rolled` tells that the transaction was rolled back before the loop was left.
pub record Progress : Type 0 where
  pub stored : Tables
  pub working : Tables
  pub cur : ℕ
  pub rolled : Bool
  pub imported : ℕ
  pub status : ImportStatus

-- The variables at the beginning of `Start`, in a session as `NewSession` makes it.
abbrev pub fresh : Tables → Progress
fresh stored = record {
  stored = stored;
  working = stored;
  cur = 0;
  rolled = false;
  imported = 0;
  status = importing;
}

abbrev pub begin_batch : Progress → Progress
begin_batch p = if p.cur == 0 then record p { working = p.stored } else p

abbrev pub keep_batch : Progress → Progress
keep_batch p = record p { stored = p.working; cur = 0; imported = p.imported + p.cur }

abbrev pub drop_batch : Progress → Progress
drop_batch p = record p { working = p.stored; cur = 0 }

abbrev pub with_row : Options → SubReq → Progress → Progress
with_row o r p = record p { working = exec_row o r p.working; cur = p.cur + 1 }

-- The commit of a full batch.
abbrev pub close_batch : ℕ → Bool → Progress → Progress
close_batch size committed p =
    if p.cur % size == 0 then if committed then keep_batch p else drop_batch p else p

-- One round: whether the loop goes on, and what it leaves.
abbrev pub one_row : Options → ℕ → SubReq → Answers → Progress → Bool × Progress
one_row o size r a p =
    if p.cur == 0 && not a.begun
    then (true, p)
    else if not a.drawn || not a.inserted
    then (false, record p { working = p.stored; rolled = true })
    else (true, close_batch size a.committed (with_row o r (begin_batch p)))

-- The rest of the loop runs unless the round left it.
abbrev pub go_on : (Progress → Progress) → Bool × Progress → Progress
go_on rest (true, p) = rest p
go_on rest (false, p) = p

unfoldable pub batch_loop : Options → ℕ → List (SubReq × Answers) → Progress → Progress
batch_loop o size [] p = p
batch_loop o size ((r, a) ∷ rows) p = go_on (batch_loop o size rows) (one_row o size r a p)

-- What follows the loop: a transaction that was rolled back cannot be committed.
abbrev pub finish : Bool → Progress → Progress
finish committed p =
    if p.cur == 0
    then record p { status = finished }
    else if committed && not p.rolled
    then record (keep_batch p) { status = finished }
    else record (drop_batch p) { status = failed }

-- `Start`, with the size of a batch, the rows of the queue and the answer to the last commit.
unfoldable pub start : Options → ℕ → List (SubReq × Answers) → Bool → Progress → Progress
unfolding batch_loop
start o size rows committed p = finish committed (batch_loop o size rows p)
