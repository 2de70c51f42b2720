-- ===== src/Sending/Feeder.antt =====
-- internal/manager/pipe.go and manager.go: the loop of `Run` over one pipe, and `NextSubscribers`.
use mailview.Prelude.{
  ℕ, ◌+◌, Bool, true, false, Option, none, some, List, [], ◌∷◌, ◌++◌, ltb, if◌then◌else◌, length,
  take, drop,
}
use mailview.Sending.Pipe.{
  Config, capacity, Status, running, Feeder, ready, batch, sending, more, failing, released, World,
  done, stop,
}

abbrev pub is_running : Status → Bool
is_running running = true
is_running _ = false

-- `store.NextSubscribers`: the first rows past the checkpoint, of a campaign that is running.
abbrev pub next_subscribers : Config → World → List ℕ
next_subscribers c w = if is_running w.status then take c.batch_size w.unfetched else []

abbrev pub release : World → World
release w = record w { pipe = done w.pipe; feeder = released }

-- An empty batch ends the campaign; any other moves the checkpoint and enters the loop.
abbrev pub start : Config → List ℕ → World → World
start c [] w = release w
start c (id ∷ ids) w = record w {
  feeder = batch (id ∷ ids);
  unfetched = drop c.batch_size w.unfetched;
}

abbrev pub fail : World → World
fail w = record w { pipe = stop w.pipe; feeder = failing }

-- The choice is the store's answer to the query, whether the message renders, and whether there is
-- room in `nextPipes`.
abbrev pub feed_at : Config → Bool → Feeder → World → Option World
feed_at c true ready w = some (start c (next_subscribers c w) w)
feed_at c false ready w = some (fail w)
feed_at c good (batch []) w = some (record w { feeder = more })
feed_at c true (batch (id ∷ rest)) w =
    some (record w { pipe = record w.pipe { wg = w.pipe.wg + 1 }; feeder = sending id rest })
feed_at c false (batch (id ∷ rest)) w = some (record w { feeder = batch rest })
feed_at c good (sending id rest) w =
    if ltb (length w.queue) (capacity c)
    then some (record w { queue = w.queue ++ id ∷ []; feeder = batch rest })
    else none
feed_at c true more w = some (record w { feeder = ready })
feed_at c false more w = some (fail w)
feed_at c good failing w = some (release w)
feed_at c good released w = none

-- One step of `Run` with this pipe; `none` where it waits for room in the queue, or is through.
unfoldable pub feed : Config → Bool → World → Option World
feed c good w = feed_at c good w.feeder w
