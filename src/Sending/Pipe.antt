-- ===== src/Sending/Pipe.antt =====
-- internal/manager/pipe.go and manager.go: what the threads of a campaign share. A message is the id
-- of its subscriber.
use mailview.Prelude.{ℕ, ◌-◌, ◌*◌, Bool, true, false, List, ltb, if◌then◌else◌}

-- `Config`, the numbers that the loops read
pub record Config : Type 0 where
  pub batch_size : ℕ
  pub concurrency : ℕ
  pub message_rate : ℕ
  pub max_send_errors : ℕ

-- The defaults that `New` puts in the place of zeros.
unfoldable pub checked : Config → Config
checked c = record c {
  batch_size = if ltb c.batch_size 1 then 1000 else c.batch_size;
  concurrency = if ltb c.concurrency 1 then 1 else c.concurrency;
  message_rate = if ltb c.message_rate 1 then 1 else c.message_rate;
}

-- The size of the channel `campMsgQ`, in a checked configuration.
abbrev pub capacity : Config → ℕ
capacity c = c.concurrency * c.message_rate * 2

-- `pipe`, without the campaign, the rate counter and the manager; `wg` is the wait group's counter.
pub record Pipe : Type 0 where
  pub wg : ℕ
  pub sent : ℕ
  pub last_id : ℕ
  pub errors : ℕ
  pub stopped : Bool
  pub with_errors : Bool

-- The pipe that `newPipe` makes, with its wait group at one.
abbrev pub new_pipe : Pipe
new_pipe = record {
  wg = 1;
  sent = 0;
  last_id = 0;
  errors = 0;
  stopped = false;
  with_errors = false;
}

pub data Status : Type 0 where
  draft running scheduled paused cancelled finished : Status

-- Where `Run` stands with the pipe: the pipe waits in `nextPipes`; `NextSubscribers` is in its loop,
-- with the subscribers that it has not come to; a message was made and waits for room in `campMsgQ`;
-- the batch is through; the pipe was stopped and `wg.Done` is due; the pipe was released.
pub data Feeder : Type 0 where
  ready : Feeder
  batch : List ℕ → Feeder
  sending : ℕ → List ℕ → Feeder
  more : Feeder
  failing : Feeder
  released : Feeder

-- Where the goroutine of `newPipe` stands: in `wg.Wait`, or before the next access of `cleanup`, with
-- what it has loaded of `sent` and `lastID` for the update of the counts.
pub data Cleaner : Type 0 where
  waiting starting counted pausing unfailed asking finishing ended : Cleaner
  loaded_sent : ℕ → Cleaner
  updating : ℕ → ℕ → Cleaner

-- Where `getCurrentCampaigns` and `NextCampaigns` stand: not running, between the load of `sent` and
-- the store of zero, and before the query that adds the count.
pub data Scanner : Type 0 where
  resting : Scanner
  loaded : ℕ → Scanner
  counting : ℕ → Scanner

-- What the threads share. `pushes` has each message that the messenger was given, the last one first,
-- with its answer; `unfetched` the campaign's subscribers past the checkpoint of the database.
pub record World : Type 0 where
  pub pipe : Pipe
  pub queue : List ℕ
  pub pushes : List (ℕ × Bool)
  pub unfetched : List ℕ
  pub status : Status
  pub feeder : Feeder
  pub cleaner : Cleaner
  pub scanner : Scanner
  pub db_sent : ℕ
  pub db_last_id : ℕ

-- `wg.Done()`
abbrev pub done : Pipe → Pipe
done p = record p { wg = p.wg - 1 }

-- `Stop(false)`: without the other flag, the test and the store are one step.
abbrev pub stop : Pipe → Pipe
stop p = record p { stopped = true }
