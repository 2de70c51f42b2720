-- ===== src/Sending/Cleaner.antt =====
-- internal/manager/pipe.go and manager.go: `cleanup`, `StopCampaign`, and the counts that a scan takes.
use mailview.Prelude.{ℕ, ◌+◌, Bool, true, false, Option, none, some, ◌==◌, if◌then◌else◌}
use mailview.Sending.Pipe.{
  Status, running, scheduled, paused, finished, Cleaner, waiting, starting, loaded_sent, updating,
  counted, pausing, unfailed, asking, finishing, ended, Scanner, resting, loaded, counting, World,
  stop,
}

-- `UpdateCampaignCounts`, with what was loaded of `sent` and of `lastID`
abbrev pub record_counts : ℕ → ℕ → World → World
record_counts n last w = record w {
  db_sent = w.db_sent + n;
  db_last_id = if last == 0 then w.db_last_id else last;
}

abbrev pub is_open : Status → Bool
is_open running = true
is_open scheduled = true
is_open _ = false

abbrev pub to : Cleaner → World → World
to c w = record w { cleaner = c }

-- The choice is whether the store's call succeeds.
abbrev pub clean_at : Bool → Cleaner → World → Option World
clean_at good waiting w = if w.pipe.wg == 0 then some (to starting w) else none
clean_at good starting w = some (to (loaded_sent w.pipe.sent) w)
clean_at good (loaded_sent n) w = some (to (updating n w.pipe.last_id) w)
clean_at good (updating n last) w = some (to counted (if good then record_counts n last w else w))
clean_at good counted w = some (to (if w.pipe.with_errors then pausing else unfailed) w)
clean_at good pausing w = some (to ended (if good then record w { status = paused } else w))
clean_at good unfailed w = some (to (if w.pipe.stopped then ended else asking) w)
clean_at good asking w =
    some (to (if good then if is_open w.status then finishing else ended else ended) w)
clean_at good finishing w = some (to ended (if good then record w { status = finished } else w))
clean_at good ended w = none

-- One step of the goroutine that waits for the pipe; `none` while it waits, and at its end.
unfoldable pub clean : Bool → World → Option World
clean good w = clean_at good w.cleaner w

abbrev pub is_gone : Cleaner → Bool
is_gone ended = true
is_gone _ = false

-- `StopCampaign`: a pipe that was cleaned up is not in the map any more.
unfoldable pub stop_campaign : World → World
stop_campaign w = if is_gone w.cleaner then w else record w { pipe = stop w.pipe }

abbrev pub scan_at : Bool → Scanner → World → World
scan_at good resting w = if is_gone w.cleaner then w else record w { scanner = loaded w.pipe.sent }
scan_at good (loaded n) w = record w { pipe = record w.pipe { sent = 0 }; scanner = counting n }
scan_at good (counting n) w = record w {
  db_sent = if good then w.db_sent + n else w.db_sent;
  scanner = resting;
}

-- One step of `scanCampaigns` with this pipe's count.
unfoldable pub scan : Bool → World → World
scan good w = scan_at good w.scanner w
