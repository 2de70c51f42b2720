-- ===== src/Jobs/Import.antt =====
-- internal/mailview/importjob/service.go: the import of subscribers. `encoding/csv` is given as the
-- rows that it reads, `none` for a row that it refuses; HMAC, the texts of UUIDs and the files of the
-- disk are given too. A subscriber is known by tenant and lowered e-mail, the key of the table.
pub mod Counts
pub mod Refusals
mod Examples
use mailview.Prelude.{
  ℕ, ◌+◌, ◌-◌, Bool, true, false, not, ◌&&◌, ◌||◌, Option, none, some, List, [], ◌∷◌, ◌++◌, ◌==◌,
  ltb, leb, suc, zero, if◌then◌else◌, Bytes, codes, any, find, update, length, str_eq, contains,
  hex_encode, to_lower, trim_space, Tx, Result, ok, err, Error, job_cancelled, invalid, no_rows,
  not_found, external_failure, signature_mismatch, ◌>>=◌, ◌>>◌, exec, gets, guard, pure, raise,
  some_or, in_tx, is_some,
}

pub data Status : Type 0 where
  pending processing completed failed cancelled : Status

pub record Job : Type 0 where
  pub tenant : ℕ
  pub id : ℕ
  pub status : Status
  pub list_ids : List ℕ
  pub total_rows : ℕ
  pub processed_rows : ℕ
  pub imported_rows : ℕ
  pub error_rows : ℕ

pub record Subscriber : Type 0 where
  pub tenant : ℕ
  pub email : Bytes
  pub name : Bytes

-- subscriber_lists
pub record Subscription : Type 0 where
  pub tenant : ℕ
  pub email : Bytes
  pub list : ℕ

pub record MailingList : Type 0 where
  pub tenant : ℕ
  pub id : ℕ

-- mv_import_files
pub record JobFile : Type 0 where
  pub tenant : ℕ
  pub job : ℕ
  pub storage_key : Bytes
  pub signature : Bytes

pub record ImportDb : Type 0 where
  pub files : List JobFile
  pub jobs : List Job
  pub lists : List MailingList
  pub subscribers : List Subscriber
  pub subscriptions : List Subscription

abbrev pub is_job : ℕ → ℕ → Job → Bool
is_job t id j = j.tenant == t && j.id == id

abbrev pub is_pending : Status → Bool
is_pending Status.pending = true
is_pending _ = false

abbrev pub is_processing : Status → Bool
is_processing Status.processing = true
is_processing _ = false

abbrev pub is_cancelled : Status → Bool
is_cancelled Status.cancelled = true
is_cancelled _ = false

-- `status IN ('pending','processing')`
abbrev pub is_open : Status → Bool
is_open s = is_pending s || is_processing s

abbrev pub is_subscriber : ℕ → Bytes → Subscriber → Bool
is_subscriber t email s = s.tenant == t && str_eq (to_lower s.email) (to_lower email)

-- `INSERT … ON CONFLICT (tenant_id, lower(email)) DO UPDATE SET name`
unfoldable pub upsert : ℕ → Bytes → Bytes → List Subscriber → List Subscriber
upsert t email name subs =
    if any (is_subscriber t email) subs
    then update (is_subscriber t email) (λ s. record s { name = name }) subs
    else subs ++ record { tenant = t; email = to_lower email; name = name } ∷ []

abbrev pub is_subscription : ℕ → Bytes → ℕ → Subscription → Bool
is_subscription t email l s = s.tenant == t && str_eq s.email email && s.list == l

-- One row for each list of the tenant, `ON CONFLICT DO NOTHING`
abbrev pub subscribe : ℕ → Bytes → List ℕ → List MailingList → List Subscription → List Subscription
subscribe t email [] lists subs = subs
subscribe t email (l ∷ ls) lists subs = subscribe t email ls lists (
    if any (λ (m : MailingList). m.id == l && m.tenant == t) lists
      && not (any (is_subscription t email l) subs)
    then subs ++ record { tenant = t; email = email; list = l } ∷ []
    else subs)

-- The rows of a batch, an e-mail and a name each; the number of those imported.
unfoldable pub import_each : ℕ → List ℕ → List (Bytes × Bytes) → ImportDb → ℕ × ImportDb
import_each t lists [] db = (0, db)
import_each t lists ((email, name) ∷ rows) db =
    let kept = import_each t lists rows db in
    let done = import_each t lists rows (record db {
      subscribers = upsert t email name db.subscribers;
      subscriptions = subscribe t (to_lower email) lists db.lists db.subscriptions;
    }) in
    if contains email (codes "@") then (suc done.0, done.1) else kept

-- The `UPDATE` at the end of `importBatch`
abbrev pub add_counts : ℕ → ℕ → Job → Job
add_counts rows imported j = record j {
  processed_rows = j.processed_rows + rows;
  imported_rows = j.imported_rows + imported;
  error_rows = j.error_rows + (rows - imported);
}

abbrev pub running_job : ℕ → ℕ → Job → Bool
running_job t id j = is_job t id j && is_processing j.status

-- The transaction of `importBatch`
unfoldable pub batch_body : ℕ → ℕ → List (Bytes × Bytes) → List ℕ → Tx ImportDb ℕ
batch_body t id rows lists = do
  found ← gets (λ db. find (is_job t id) db.jobs)
  job ← some_or found no_rows
  guard (not (is_cancelled job.status)) job_cancelled
  guard (is_processing job.status) invalid
  n ← gets (λ db. (import_each t lists rows db).0)
  exec (λ db. (import_each t lists rows db).1)
  exec (λ db. record db { jobs = update (running_job t id) (add_counts (length rows) n) db.jobs })
  pure n

-- `importBatch`, for a request of the tenant
unfoldable pub import_batch : ℕ → ℕ → List (Bytes × Bytes) → List ℕ → Tx ImportDb ℕ
unfolding batch_body
import_batch t id rows lists = in_tx (batch_body t id rows lists)

pub record Totals : Type 0 where
  pub total : ℕ
  pub imported : ℕ
  pub errored : ℕ

abbrev pub batch_size : ℕ
batch_size = 500

abbrev pub nth : ℕ → List Bytes → Option Bytes
nth n [] = none
nth zero (x ∷ xs) = some x
nth (suc n) (x ∷ xs) = nth n xs

abbrev trimmed : Option Bytes → Bytes
trimmed none = []
trimmed (some s) = trim_space s

-- A missing name column, or a row too short for it, gives no name.
abbrev pub name_at : Option ℕ → List Bytes → Bytes
name_at none row = []
name_at (some n) row = trimmed (nth n row)

-- `flush`: an empty batch is not written.
unfoldable pub flush : ℕ → ℕ → List ℕ → List (Bytes × Bytes) → Totals → Tx ImportDb Totals
flush t id lists [] c = pure c
flush t id lists (r ∷ rows) c = do
  n ← import_batch t id (r ∷ rows) lists
  pure (record c { imported = c.imported + n; errored = c.errored + (length (r ∷ rows) - n) })

abbrev pub one_more : Totals → Totals
one_more c = record c { total = c.total + 1 }

abbrev by_email :
    Option Bytes → Tx ImportDb Totals → (Bytes → Tx ImportDb Totals) → Tx ImportDb Totals
by_email none missing present = missing
by_email (some e) missing present = present e

abbrev by_size : Bool → Tx ImportDb Totals → Tx ImportDb Totals → Tx ImportDb Totals
by_size true full more = full
by_size false full more = more

-- The loop over the rows. A row without the e-mail column counts as an error; a full batch is written.
unfoldable pub import_loop :
    ℕ
    → ℕ
    → List ℕ
    → ℕ
    → Option ℕ
    → List (Option (List Bytes))
    → List (Bytes × Bytes)
    → Totals
    → Tx ImportDb Totals
import_loop t id lists email name [] batch c = flush t id lists batch c
import_loop t id lists email name (none ∷ rows) batch c = raise external_failure
import_loop t id lists email name (some row ∷ rows) batch c =
    by_email (nth email row)
      (import_loop t id lists email name rows batch
        (record c { total = c.total + 1; errored = c.errored + 1 }))
      (λ e.
        by_size (leb batch_size (length batch + 1))
          (flush t id lists (batch ++ (trim_space e, name_at name row) ∷ []) (one_more c)
            >>= import_loop t id lists email name rows [])
          (import_loop t id lists email name rows (batch ++ (trim_space e, name_at name row) ∷ [])
            (one_more c)))

-- The last column with the title, counted from `n`
abbrev pub column : Bytes → ℕ → List Bytes → Option ℕ
column title n [] = none
column title n (h ∷ hs) = later (column title (n + 1) hs) (str_eq (to_lower (trim_space h)) title) n
  where
    later : Option ℕ → Bool → ℕ → Option ℕ
    later (some k) here n = some k
    later none here n = if here then some n else none

-- `importRows`
unfoldable pub import_rows :
    ℕ → ℕ → List ℕ → Option (List Bytes) → List (Option (List Bytes)) → Tx ImportDb Totals
unfolding import_loop
import_rows t id lists header rows = do
  titles ← some_or header external_failure
  email ← some_or (column (codes "email") 0 titles) invalid
  import_loop t id lists email (column (codes "name") 0 titles) rows []
      (record { total = 0; imported = 0; errored = 0 })

unfoldable pub set_status : Status → Job → Job
set_status s j = record j { status = s }

abbrev pub open_job : ℕ → ℕ → Job → Bool
open_job t id j = is_job t id j && is_open j.status

-- `CancelJob`
unfoldable pub cancel_job : ℕ → ℕ → ImportDb → Result {0} Unit × ImportDb
cancel_job t id db =
    if any (open_job t id) db.jobs
    then (ok tt, record db { jobs = update (open_job t id) (set_status Status.cancelled) db.jobs })
    else (err not_found, db)

abbrev pub is_file : ℕ → ℕ → JobFile → Bool
is_file t id f = f.tenant == t && f.job == id

-- The job's lists, and where its file is and how it was signed.
pub record Claim : Type 0 where
  pub lists : List ℕ
  pub storage_key : Bytes
  pub signature : Bytes

-- The first transaction of `ProcessJob`: the row of the job and that of its file are read, and the
-- job is processing.
unfoldable pub claim_job : ℕ → ℕ → Tx ImportDb Claim
claim_job t id = do
  found ← gets (λ db. find (is_job t id) db.jobs)
  job ← some_or found no_rows
  guard (is_pending job.status) invalid
  present ← gets (λ db. find (is_file t id) db.files)
  file ← some_or present no_rows
  exec (λ db. record db { jobs = update (is_job t id) (set_status Status.processing) db.jobs })
  pure (record { lists = job.list_ids; storage_key = file.storage_key; signature = file.signature })

-- `fail`: whatever the job's status is.
unfoldable pub fail_job : ℕ → ℕ → ImportDb → ImportDb
fail_job t id db = record db { jobs = update (is_job t id) (set_status Status.failed) db.jobs }

abbrev pub completed_with : Totals → Job → Job
completed_with c j = record j {
  status = Status.completed;
  total_rows = c.total;
  processed_rows = c.total;
  imported_rows = c.imported;
  error_rows = c.errored;
}

-- The last transaction of `ProcessJob`
unfoldable pub complete_job : ℕ → ℕ → Totals → ImportDb → ImportDb
complete_job t id c db = record db { jobs = update (running_job t id) (completed_with c) db.jobs }

abbrev after_import : ℕ → ℕ → Result Totals × ImportDb → Result {0} Unit × ImportDb
after_import t id (ok c, db) = (ok tt, complete_job t id c db)
after_import t id (err job_cancelled, db) = (ok tt, db)
after_import t id (err e, db) = (err e, fail_job t id db)

-- What the worker uses: HMAC under the service's key, the text of a UUID, `os.ReadFile`, and the
-- header and the rows that `encoding/csv` reads of a file.
pub record Worker : Type 0 where
  pub mac : Bytes → Bytes
  pub uuid_text : ℕ → Bytes
  pub read_file : Bytes → Option Bytes
  pub parse : Bytes → Option (List Bytes) × List (Option (List Bytes))

-- `sign`
unfoldable pub sign : Worker → ℕ → ℕ → Bytes → Bytes
sign k t id content = hex_encode (k.mac (k.uuid_text t ++ (k.uuid_text id ++ content)))

abbrev pub import_signed : Worker → ℕ → ℕ → Claim → Bytes → ImportDb → Result {0} Unit × ImportDb
import_signed k t id c content db =
    if not (str_eq (sign k t id content) c.signature)
    then (err signature_mismatch, fail_job t id db)
    else after_import t id (import_rows t id c.lists (k.parse content).0 (k.parse content).1 db)

abbrev pub import_content :
    Worker → ℕ → ℕ → Claim → Option Bytes → ImportDb → Result {0} Unit × ImportDb
import_content k t id c none db = (err external_failure, fail_job t id db)
import_content k t id c (some content) db = import_signed k t id c content db

abbrev pub import_file : Worker → ℕ → ℕ → Result Claim × ImportDb → Result {0} Unit × ImportDb
import_file k t id (err e, db) = (err e, db)
import_file k t id (ok c, db) = import_content k t id c (k.read_file c.storage_key) db

-- `ProcessJob`, for a request of the tenant; no other request comes between its transactions.
unfoldable pub process_job : Worker → ℕ → ℕ → ImportDb → Result {0} Unit × ImportDb
unfolding claim_job complete_job fail_job import_rows sign
process_job k t id db = import_file k t id (in_tx (claim_job t id) db)
