-- ===== src/Sending/System.antt =====
-- The threads of one campaign, interleaved in any order: the workers, `Run`, the goroutine of
-- `newPipe`, the scan, and requests that change the campaign's status or stop it.
pub mod Ending
pub mod Holding
pub mod Steps
pub mod Progress
pub mod Schedule
pub mod Delivery
use mailview.Prelude.{ℕ, zero, suc, ◌≡◌, Bool, Option, some, List, [], ◌∷◌, ◌++◌}
use mailview.Sending.Pipe.{Config, new_pipe, Status, running, ready, waiting, resting, World}
use mailview.Sending.Worker.{Worker, idle, work}
use mailview.Sending.Feeder.{feed}
use mailview.Sending.Cleaner.{clean, stop_campaign, scan}

pub record System : Type 0 where
  pub world : World
  pub workers : List Worker

-- `Run` starts `Concurrency` workers.
abbrev pub idle_workers : ℕ → List Worker
idle_workers zero = []
idle_workers (suc n) = idle ∷ idle_workers n

-- A new pipe of a campaign that has these subscribers.
abbrev pub init : Config → List ℕ → System
init c ids = record {
  world = record {
    pipe = new_pipe;
    queue = [];
    pushes = [];
    unfetched = ids;
    status = running;
    feeder = ready;
    cleaner = waiting;
    scanner = resting;
    db_sent = 0;
    db_last_id = 0;
  };
  workers = idle_workers c.concurrency;
}

-- The steps that send the campaign and end it.
pub data Own (c : Config) (s t : System) : Type 0 where
  by_worker :
      (before after : List Worker) (p q : Worker) (good : Bool)
      → s.workers ≡ before ++ p ∷ after
      → t.workers ≡ before ++ q ∷ after
      → work c.max_send_errors good p s.world ≡ some (q, t.world)
      → Own c s t
  by_feeder : (good : Bool) → feed c good s.world ≡ some t.world → t.workers ≡ s.workers → Own c s t
  by_cleaner : (good : Bool) → clean good s.world ≡ some t.world → t.workers ≡ s.workers → Own c s t

-- The steps that come from elsewhere.
pub data Outside (s t : System) : Type 0 where
  by_stop : t.world ≡ stop_campaign s.world → t.workers ≡ s.workers → Outside s t
  by_status :
      (to : Status) → t.world ≡ record s.world { status = to } → t.workers ≡ s.workers → Outside s t
  by_scan : (good : Bool) → t.world ≡ scan good s.world → t.workers ≡ s.workers → Outside s t

-- A run from `s`, with the number of its own steps.
pub data Run (c : Config) (s : System) : System → ℕ → Type 0 where
  here : Run c s s 0
  own : {t u : System} {n : ℕ} → Run c s t n → Own c t u → Run c s u (suc n)
  outside : {t u : System} {n : ℕ} → Run c s t n → Outside t u → Run c s u n
