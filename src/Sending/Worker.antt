-- ===== src/Sending/Worker.antt =====
-- internal/manager/manager.go: a worker and the campaign messages that it takes, an access to what it
-- shares at a time. `OnError` and `Stop(true)` of pipe.go run in the worker.
use mailview.Prelude.{ℕ, ◌+◌, Bool, true, Option, none, some, List, [], ◌∷◌, ltb, if◌then◌else◌}
use mailview.Sending.Pipe.{Pipe, World, done}

-- Where a worker stands; `idle` is the head of its loop, and what it does for other campaigns.
pub data Worker : Type 0 where
  idle : Worker
  taken : ℕ → Worker  -- before `stopped.Load`
  skipping : Worker  -- before the `wg.Done` of a message that is ignored
  pushing : ℕ → Worker  -- before `Push`
  pushed : ℕ → Bool → Worker  -- before the `wg.Done` after it
  failed : Worker  -- start of `OnError`
  stopping : Worker  -- start of `Stop(true)`
  marking : Worker  -- before `withErrors.Store`
  halting : Worker  -- before `stopped.Store`
  comparing : ℕ → Worker  -- before `lastID.Load`
  storing : ℕ → Worker  -- before `lastID.Store`
  tallying : Worker  -- before `sent.Add`

-- `msg := <-m.campMsgQ`
abbrev pub receive : List ℕ → World → Option (Worker × World)
receive [] w = none
receive (id ∷ rest) w = some (taken id, record w { queue = rest })

abbrev pub set_pipe : World → Pipe → World
set_pipe w p = record w { pipe = p }

-- `OnError`, up to its call of `Stop`
abbrev pub on_error : ℕ → World → Worker × World
on_error max w = if ltb max 1 then (idle, w) else (
  if ltb (w.pipe.errors + 1) max then idle else stopping,
  set_pipe w (record w.pipe { errors = w.pipe.errors + 1 }),
)

-- One step, from the configured `MaxSendErrors` and the messenger's answer; `none` where the worker
-- waits for a message.
unfoldable pub work : ℕ → Bool → Worker → World → Option (Worker × World)
work max good idle w = receive w.queue w
work max good (taken id) w = some (if w.pipe.stopped then skipping else pushing id, w)
work max good skipping w = some (idle, set_pipe w (done w.pipe))
work max good (pushing id) w = some (pushed id good, record w { pushes = (id, good) ∷ w.pushes })
work max good (pushed id answer) w =
    some (if answer then comparing id else failed, set_pipe w (done w.pipe))
work max good failed w = some (on_error max w)
work max good stopping w = some (if w.pipe.stopped then idle else marking, w)
work max good marking w = some (halting, set_pipe w (record w.pipe { with_errors = true }))
work max good halting w = some (idle, set_pipe w (record w.pipe { stopped = true }))
work max good (comparing id) w = some (if ltb w.pipe.last_id id then storing id else tallying, w)
work max good (storing id) w = some (tallying, set_pipe w (record w.pipe { last_id = id }))
work max good tallying w = some (idle, set_pipe w (record w.pipe { sent = w.pipe.sent + 1 }))
