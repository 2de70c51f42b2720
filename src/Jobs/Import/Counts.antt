-- ===== src/Jobs/Import/Counts.antt =====
-- The numbers of an import of importjob/service.go.
use mailview.Prelude.{
  ℕ, ◌+◌, ◌-◌, ◌≤◌, ◌≡◌, sym, ap, not, Option, none, some, List, [], ◌∷◌, ◌++◌, leb, Bytes, codes,
  find, length, length-append, trim_space, to_lower, ok, arith, Bool-cases, Option-cases, inl, inr,
  in_tx_ok, continue, continue_ok, guard_ok, some_or_ok,
}
use mailview.Jobs.Import.{
  ImportDb, Totals, import_each, batch_body, import_batch, is_job, flush, import_loop, import_rows,
  batch_size, nth, one_more, name_at, column, upsert, subscribe, is_cancelled, is_processing,
}

import_each_count :
    (t : ℕ) (lists : List ℕ) (rows : List (Bytes × Bytes)) (db : ImportDb)
    → (import_each t lists rows db).0 ≤ length rows
unfolding import_each
import_each_count t lists [] db = omega arith
import_each_count t lists ((email, name) ∷ rows) db = ground (
  arith,
  import_each_count t lists rows db,
  import_each_count t lists rows (record db {
    subscribers = upsert t email name db.subscribers;
    subscriptions = subscribe t (to_lower email) lists db.lists db.subscriptions;
  }),
)

import_batch_count :
    (t id : ℕ) (rows : List (Bytes × Bytes)) (lists : List ℕ) (db : ImportDb) {n : ℕ}
    {db' : ImportDb}
    → import_batch t id rows lists db ≡ (ok n, db')
    → n ≤ length rows
unfolding import_batch
import_batch_count t id rows lists db {n} h =
    let (job, found, h1) =
      some_or_ok (find (is_job t id) db.jobs) _ _ (in_tx_ok (batch_body t id rows lists) h) in
    let (alive, h2) = guard_ok (not (is_cancelled job.status)) _ _ h1 in
    let (going, h3) = guard_ok (is_processing job.status) _ _ h2 in
    let it : (import_each t lists rows db).0 ≡ n = cc h3 in
    omega (arith, import_each_count t lists rows db)

-- What a flush adds up to.
flush_count :
    (t id : ℕ) (lists : List ℕ) (batch : List (Bytes × Bytes)) (c : Totals) (db : ImportDb)
    {d : Totals} {db' : ImportDb}
    → flush t id lists batch c db ≡ (ok d, db')
    → (d.total ≡ c.total) × (d.imported + d.errored ≡ c.imported + c.errored + length batch)
unfolding flush
flush_count t id lists [] c db {d} h =
    let it : c ≡ d = cc in
    (
      ap (λ (z : Totals). z.total) (sym it),
      omega (arith, ap (λ (z : Totals). z.imported + z.errored) it),
    )
flush_count t id lists (r ∷ rows) c db {d} h =
    let (n, s, done, h1) = continue_ok (import_batch t id (r ∷ rows) lists db) _ h in
    let it : record c { imported = c.imported + n; errored = c.errored + (length (r ∷ rows) - n) }
        ≡ d =
      cc h1 in
    (
      ap (λ (z : Totals). z.total) (sym it),
      omega (
        arith,
        import_batch_count t id (r ∷ rows) lists db done,
        ap (λ (z : Totals). z.imported + z.errored) it,
      ),
    )

import_loop_count :
    (t id : ℕ) (lists : List ℕ) (email : ℕ) (name : Option ℕ) (rows : List (Option (List Bytes)))
    (batch : List (Bytes × Bytes)) (c : Totals) (db : ImportDb) {d : Totals} {db' : ImportDb}
    → import_loop t id lists email name rows batch c db ≡ (ok d, db')
    → (d.total ≡ c.total + length rows)
      × (d.imported + d.errored ≡ c.imported + c.errored + length batch + length rows)
unfolding import_loop
import_loop_count t id lists email name [] batch c db h =
    let (total, sum) = flush_count t id lists batch c db h in
    (omega (arith, total), omega (arith, sum))
import_loop_count t id lists email name (none ∷ rows) batch c db h = cc
import_loop_count t id lists email name (some row ∷ rows) batch c db {d} {db'} h =
    elim (Option-cases (nth email row)) [
      | inl missing ↦
          let (total, sum) =
            import_loop_count t id lists email name rows batch
              (record c { total = c.total + 1; errored = c.errored + 1 }) db (rw missing at h) in
          (omega (arith, total), omega (arith, sum))
      | inr found ↦
          let (e, at_email) = found in
          let grown = batch ++ (trim_space e, name_at name row) ∷ [] in
          let longer : length grown ≡ length batch + 1 =
            length-append batch ((trim_space e, name_at name row) ∷ []) in
          elim (Bool-cases (leb batch_size (length batch + 1))) [
            | inr room ↦
                let (total, sum) =
                  import_loop_count t id lists email name rows grown (one_more c) db
                    (rw (at_email, room) at h) in
                (omega (arith, total), omega (arith, sum, longer))
            | inl full ↦
                let h1 : continue (flush t id lists grown (one_more c) db)
                      (import_loop t id lists email name rows [])
                    ≡ (ok d, db') =
                  rw (at_email, full) at h in
                let (c1, s1, flushed, h2) =
                  continue_ok (flush t id lists grown (one_more c) db)
                    (import_loop t id lists email name rows []) h1 in
                let (total1, sum1) =
                  flush_count t id lists grown (one_more c) db {d = c1} {db' = s1} flushed in
                let (total, sum) = import_loop_count t id lists email name rows [] c1 s1 h2 in
                (omega (arith, total, total1), omega (arith, sum, sum1, longer))
          ]
    ]

-- An import that ends well counts every row of its file, and each of them as imported or as an error.
pub import_rows_totals :
    (t id : ℕ) (lists : List ℕ) (header : Option (List Bytes)) (rows : List (Option (List Bytes)))
    (db : ImportDb) {d : Totals} {db' : ImportDb}
    → import_rows t id lists header rows db ≡ (ok d, db')
    → (d.total ≡ length rows) × (d.imported + d.errored ≡ d.total)
unfolding import_rows
import_rows_totals t id lists header rows db {d} h =
    let (titles, read, h1) = some_or_ok header _ _ h in
    let (email, found, h2) = some_or_ok (column (codes "email") 0 titles) _ _ h1 in
    let (total, sum) =
      import_loop_count t id lists email (column (codes "name") 0 titles) rows []
        (record { total = 0; imported = 0; errored = 0 }) db h2 in
    (omega (arith, total), omega (arith, total, sum))
