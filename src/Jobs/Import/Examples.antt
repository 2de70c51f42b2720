-- ===== src/Jobs/Import/Examples.antt =====
-- Runs of importjob/service.go on a file of three rows, and the theorems at these runs.
use mailview.Prelude.{
  ◌+◌, ◌≡◌, err, signature_mismatch, refl, Option, some, List, [], ◌∷◌, Bytes, codes, any, length,
  str_eq, trim_left, trim_right, to_lower, ok,
}
use mailview.Jobs.Import.{
  Job, Status, ImportDb, Totals, Worker, sign, claim_job, set_status, import_each, import_batch,
  batch_body, upsert, flush, import_loop, import_rows, process_job,
}
use mailview.Jobs.Import.Counts.{import_rows_totals}

abbrev job : Status → Job
job s = record {
  tenant = 7;
  id = 5;
  status = s;
  list_ids = 1 ∷ [];
  total_rows = 0;
  processed_rows = 0;
  imported_rows = 0;
  error_rows = 0;
}

abbrev db : Status → ImportDb
db s = record {
  jobs = job s ∷ [];
  files = [];
  lists = record { tenant = 7; id = 1 } ∷ [];
  subscribers = [];
  subscriptions = [];
}

abbrev header : Option (List Bytes)
header = some (codes "Name" ∷ codes " E-Mail" ∷ codes "email " ∷ [])

abbrev rows : List (Option (List Bytes))
rows =
    some (codes "Ann" ∷ [] ∷ codes "Ann@x.org" ∷ [])
    ∷ some (codes "Bob" ∷ [] ∷ codes "nobody" ∷ [])
    ∷ some (codes "Anna" ∷ [] ∷ codes " ann@x.org" ∷ [])
    ∷ []

abbrev imported : ImportDb
imported = (import_rows 7 5 (1 ∷ []) header rows (db Status.processing)).1

abbrev totals : Totals
totals = record { total = 3; imported = 2; errored = 1 }

imported_ok : import_rows 7 5 (1 ∷ []) header rows (db Status.processing) ≡ (ok totals, imported)
unfolding import_rows import_loop flush import_batch batch_body import_each upsert any str_eq
    trim_left trim_right to_lower
imported_ok = refl

import_rows_totals_example :
    (totals.total ≡ length rows) × (totals.imported + totals.errored ≡ totals.total)
import_rows_totals_example =
    import_rows_totals 7 5 (1 ∷ []) header rows (db Status.processing) imported_ok

-- The MAC keeps its text, and the file is one line whatever it holds.
abbrev worker : Bytes → Worker
worker content = record {
  mac = λ text. text;
  uuid_text = λ id. id ∷ [];
  read_file = λ key. some content;
  parse = λ text. (header, rows);
}

abbrev waiting : ImportDb
waiting = record (db Status.pending) {
  files =
      record {
        tenant = 7;
        job = 5;
        storage_key = codes "file";
        signature = sign (worker (codes "a")) 7 5 (codes "a");
      }
      ∷ [];
}

-- The file that was signed is imported, another one is not.
signed : (process_job (worker (codes "a")) 7 5 waiting).0 ≡ ok tt
unfolding process_job claim_job sign import_rows import_loop flush import_batch batch_body
    import_each upsert any str_eq trim_left trim_right to_lower set_status
signed = refl

replaced : (process_job (worker (codes "b")) 7 5 waiting).0 ≡ err signature_mismatch
unfolding process_job claim_job sign str_eq
replaced = refl
