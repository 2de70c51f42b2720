-- ===== src/Jobs/Import/Refusals.antt =====
-- What `ProcessJob` of importjob/service.go imports, and what it refuses.
use mailview.Prelude.{◌≡◌, ◌≢◌, ℕ, true, some, Bytes, find, update, ok, Result, hex_encode, ◌++◌}
use mailview.Jobs.Import.{
  Job, JobFile, Status, ImportDb, Claim, Worker, is_job, is_file, is_pending, set_status,
}

-- The job waits, its file is recorded, and what the disk has for it is signed as recorded: for this
-- tenant, this job and this content.
pub record IsAccepted (k : Worker) (t id : ℕ) (db : ImportDb) : Type 0 where
  pub job : Job
  pub job_row : find (is_job t id) db.jobs ≡ some job
  pub waiting : is_pending job.status ≡ true
  pub file : JobFile
  pub file_row : find (is_file t id) db.files ≡ some file
  pub content : Bytes
  pub on_disk : k.read_file file.storage_key ≡ some content
  pub signed : file.signature ≡ hex_encode (k.mac (k.uuid_text t ++ (k.uuid_text id ++ content)))

-- An error, with the subscribers and their lists as they were.
pub record IsRefused (db : ImportDb) (r : Result {0} Unit × ImportDb) : Type 0 where
  pub no_subscriber : r.1.subscribers ≡ db.subscribers
  pub no_subscription : r.1.subscriptions ≡ db.subscriptions
  pub fails : r.0 ≢ ok tt

abbrev claimed : ℕ → ℕ → ImportDb → ImportDb
claimed t id db = record db { jobs = update (is_job t id) (set_status Status.processing) db.jobs }

abbrev claim_of : Job → JobFile → Claim
claim_of j f = record { lists = j.list_ids; storage_key = f.storage_key; signature = f.signature }
