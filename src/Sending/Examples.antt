-- ===== src/Sending/Examples.antt =====
-- A campaign with two subscribers and two workers, played from the start to its end.
use mailview.Prelude.{
  ℕ, zero, suc, ◌+◌, ◌≤◌, ◌<◌, ◌≡◌, refl, true, false, Option, none, some, List, [], ◌∷◌, ◌++◌,
  length, total, ◌⊎◌,
}
use mailview.Sending.Pipe.{Config, checked, ended, released, finished}
use mailview.Sending.Worker.{work}
use mailview.Sending.Feeder.{feed}
use mailview.Sending.Cleaner.{clean, stop_campaign}
use mailview.Sending.System.{System, init, Own, Run}
use mailview.Sending.System.Ending.{own_steps_bound}
use mailview.Sending.System.Holding.{
  holds, failure, is_waiting, is_pausing, cleanup_drained, paused-failures,
}
use mailview.Sending.System.Delivery.{push_for, passing, sent_once, pushes_after_stop}
use mailview.Sending.System.Progress.{cleanup_reached}
use mailview.Sending.System.Schedule.{
  Turn, worker, feeder, cleaner, work_nth, take_turn, play, play-Run,
}

abbrev small : Config
small = record { batch_size = 1; concurrency = 2; message_rate = 0; max_send_errors = 1 }

abbrev two : List ℕ
two = 5 ∷ 8 ∷ []

abbrev start : System
start = init (checked small) two

abbrev times : ℕ → Turn → List Turn
times zero turn = []
times (suc n) turn = turn ∷ times n turn

abbrev reached : Option System → System
reached none = start
reached (some s) = s

-- A batch is fetched, its message queued, and the pipe queued again.
abbrev one_batch : List Turn
one_batch = times 5 (feeder true)

abbrev all_sent : List Turn
all_sent =
    one_batch
    ++ (one_batch
        ++ (times 7 (worker 0 true) ++ (times 7 (worker 1 true) ++ times 1 (feeder true))))

abbrev sent_turns : List Turn
sent_turns = all_sent ++ times 8 (cleaner true)

abbrev at_end : System
at_end = reached (play (checked small) sent_turns start)

at_end_reached : play (checked small) sent_turns start ≡ some at_end
unfolding play take_turn work_nth work feed clean checked
at_end_reached = refl

at_end_status : at_end.world.status ≡ finished
unfolding play take_turn work_nth work feed clean checked
at_end_status = refl

at_end_sent : at_end.world.db_sent ≡ 2
unfolding play take_turn work_nth work feed clean checked
at_end_sent = refl

at_end_last_id : at_end.world.db_last_id ≡ 8
unfolding play take_turn work_nth work feed clean checked
at_end_last_id = refl

abbrev to_end : (n : ℕ) × Run (checked small) start at_end n
to_end = play-Run (checked small) sent_turns start at_end at_end_reached

own_steps_bound_example : to_end.0 ≤ 36
own_steps_bound_example = own_steps_bound small two to_end.1

sent_once_example : total (push_for 8) at_end.world.pushes ≤ 1
sent_once_example = sent_once (checked small) two 8 to_end.1

not_waiting : is_waiting at_end.world.cleaner ≡ false
unfolding play take_turn work_nth work feed clean checked
not_waiting = refl

cleanup_drained_example :
    (at_end.world.feeder ≡ released) × (at_end.world.queue ≡ []) × (total holds at_end.workers ≡ 0)
cleanup_drained_example = cleanup_drained to_end.1 not_waiting

-- The first push fails, and the worker stops the pipe before anything else happens.
abbrev failing_turns : List Turn
failing_turns =
    one_batch
    ++ ((worker 0 true ∷ worker 0 true ∷ worker 0 false ∷ times 5 (worker 0 true))
        ++ (times 2 (feeder false) ++ times 5 (cleaner true)))

abbrev at_pause : System
at_pause = reached (play (checked small) failing_turns start)

at_pause_reached : play (checked small) failing_turns start ≡ some at_pause
unfolding play take_turn work_nth work feed clean checked
at_pause_reached = refl

abbrev to_pause : (n : ℕ) × Run (checked small) start at_pause n
to_pause = play-Run (checked small) failing_turns start at_pause at_pause_reached

pausing_there : is_pausing at_pause.world.cleaner ≡ true
unfolding play take_turn work_nth work feed clean checked
pausing_there = refl

paused-failures_example : (0 < 1) × (1 ≤ total failure at_pause.world.pushes)
unfolding checked
paused-failures_example = paused-failures to_pause.1 pausing_there

-- The same failure as the last message of a campaign: `wg.Done` comes before `OnError`, the campaign
-- is taken to be finished, and the threshold is met afterwards.
abbrev late_turns : List Turn
late_turns =
    one_batch
    ++ (one_batch
        ++ (times 7 (worker 0 true)
            ++ ((worker 1 true ∷ worker 1 true ∷ worker 1 false ∷ worker 1 true ∷ [])
                ++ (feeder true ∷ (times 8 (cleaner true) ++ times 4 (worker 1 true))))))

abbrev at_late : System
at_late = reached (play (checked small) late_turns start)

late_status : at_late.world.status ≡ finished
unfolding play take_turn work_nth work feed clean checked
late_status = refl

late_errors : at_late.world.pipe.with_errors ≡ true
unfolding play take_turn work_nth work feed clean checked
late_errors = refl

-- A worker has a message past the test when the pipe is stopped: it is still sent.
abbrev in_flight : List Turn
in_flight = one_batch ++ times 2 (worker 0 true)

abbrev stopped_there : System
stopped_there =
    let s = reached (play (checked small) in_flight start) in
    record s { world = stop_campaign s.world }

stopped_there_IsStopped : stopped_there.world.pipe.stopped ≡ true
unfolding play take_turn work_nth work feed clean checked stop_campaign
stopped_there_IsStopped = refl

abbrev after_push : System
after_push = reached (take_turn (checked small) (worker 0 true) stopped_there)

after_push_reached : play (checked small) (worker 0 true ∷ []) stopped_there ≡ some after_push
unfolding play take_turn work_nth work feed clean checked stop_campaign
after_push_reached = refl

abbrev to_push : (n : ℕ) × Run (checked small) stopped_there after_push n
to_push = play-Run (checked small) (worker 0 true ∷ []) stopped_there after_push after_push_reached

pushes_after_stop_example :
    (after_push.world.pipe.stopped ≡ true)
    × (length after_push.world.pushes
        ≤ length stopped_there.world.pushes + total passing stopped_there.workers)
pushes_after_stop_example = pushes_after_stop (checked small) stopped_there_IsStopped to_push.1

cleanup_reached_example :
    ((t : System) × (m : ℕ) × Run (checked small) at_pause t m × (t.world.cleaner ≡ ended))
    × ((at_pause.world.cleaner ≡ ended) ⊎ ((t : System) × Own (checked small) at_pause t))
cleanup_reached_example = cleanup_reached small two to_pause.1
