-- ===== src/Sending/System/Ending.antt =====
-- A measure of what the threads of a campaign still have to do: every own step of System.antt takes
-- from it, and the steps from elsewhere leave it alone.
use mailview.Prelude.{
  ℕ, zero, suc, ◌+◌, ◌*◌, ◌≤◌, ◌<◌, ◌≡◌, refl, ap, Bool, List, [], ◌∷◌, some, length, length-append,
  take, drop, total, total-append, arith,
}
use mailview.Sending.Pipe.{
  Config, checked, Feeder, ready, batch, sending, more, failing, released, Cleaner, waiting,
  starting, loaded_sent, updating, counted, pausing, unfailed, asking, finishing, ended, World,
}
use mailview.Sending.Worker.{
  Worker, idle, taken, skipping, pushing, pushed, failed, stopping, marking, halting, comparing,
  storing, tallying, work,
}
use mailview.Sending.Feeder.{feed, feed_at}
use mailview.Sending.Cleaner.{clean, stop_campaign, scan}
use mailview.Sending.System.{
  System, init, idle_workers, Own, by_worker, by_feeder, by_cleaner, Outside, by_stop, by_status,
  by_scan, Run, here, own, outside,
}

-- The steps that are left at most, for a worker with the message in its hand.
abbrev pub worker_work : Worker → ℕ
worker_work idle = 0
worker_work (taken _) = 7
worker_work skipping = 1
worker_work (pushing _) = 6
worker_work (pushed _ _) = 5
worker_work failed = 4
worker_work stopping = 3
worker_work marking = 2
worker_work halting = 1
worker_work (comparing _) = 3
worker_work (storing _) = 2
worker_work tallying = 1

abbrev pub feeder_work : Feeder → ℕ
feeder_work ready = 2
feeder_work (batch rest) = 4 + 10 * length rest
feeder_work (sending _ rest) = 13 + 10 * length rest
feeder_work more = 3
feeder_work failing = 1
feeder_work released = 0

abbrev pub cleaner_work : Cleaner → ℕ
cleaner_work waiting = 8
cleaner_work starting = 7
cleaner_work (loaded_sent _) = 6
cleaner_work (updating _ _) = 5
cleaner_work counted = 4
cleaner_work unfailed = 3
cleaner_work asking = 2
cleaner_work pausing = 1
cleaner_work finishing = 1
cleaner_work ended = 0

abbrev pub world_work : World → ℕ
world_work w =
    13 * length w.unfetched + feeder_work w.feeder + 8 * length w.queue + cleaner_work w.cleaner

abbrev pub work_left : System → ℕ
work_left s = world_work s.world + total worker_work s.workers

length-take-drop {ℓ} :
    {A : Type ℓ} (n : ℕ) (xs : List A) → length (take n xs) + length (drop n xs) ≡ length xs
length-take-drop zero xs = omega arith
length-take-drop (suc n) [] = omega arith
length-take-drop (suc n) (x ∷ xs) = omega (arith, length-take-drop n xs)

work-decreases :
    (max : ℕ) (good : Bool) (p q : Worker) (w w' : World)
    → work max good p w ≡ some (q, w')
    → world_work w' + worker_work q < world_work w + worker_work p
unfolding work
work-decreases max good idle q w w' h = ground arith
work-decreases max good p q w w' h = ground arith

feed_at-decreases :
    (c : Config) (good : Bool) (f : Feeder) (w w' : World)
    → 0 < c.batch_size
    → w.feeder ≡ f
    → feed_at c good f w ≡ some w'
    → world_work w' < world_work w
feed_at-decreases c good (sending id rest) w w' b e h =
    ground (arith, length-append w.queue (id ∷ []))
feed_at-decreases c good f w w' b e h = ground (arith, length-take-drop c.batch_size w.unfetched)

feed-decreases :
    (c : Config) (good : Bool) (w w' : World)
    → 0 < c.batch_size
    → feed c good w ≡ some w'
    → world_work w' < world_work w
unfolding feed
feed-decreases c good w w' b h = feed_at-decreases c good w.feeder w w' b refl h

clean-decreases :
    (good : Bool) (w w' : World) → clean good w ≡ some w' → world_work w' < world_work w
unfolding clean
clean-decreases good w w' h = ground arith

-- A step of one worker takes from the whole as it takes from the worker and the world.
pub Own-decreases :
    {c : Config} {s t : System} → 0 < c.batch_size → Own c s t → work_left t < work_left s
Own-decreases {c} {s} {t} b (by_worker before after p q good es et h) = omega (
  arith,
  work-decreases c.max_send_errors good p q s.world t.world h,
  ap (total worker_work) es,
  ap (total worker_work) et,
  total-append worker_work before (p ∷ after),
  total-append worker_work before (q ∷ after),
)
Own-decreases {c} {s} {t} b (by_feeder good h e) =
    omega (arith, feed-decreases c good s.world t.world b h, ap (total worker_work) e)
Own-decreases {c} {s} {t} b (by_cleaner good h e) =
    omega (arith, clean-decreases good s.world t.world h, ap (total worker_work) e)

scan-keeps : (good : Bool) (w : World) → world_work (scan good w) ≡ world_work w
unfolding scan
scan-keeps good w = ground arith

stop-keeps : (w : World) → world_work (stop_campaign w) ≡ world_work w
unfolding stop_campaign
stop-keeps w = ground arith

Outside-keeps : {s t : System} → Outside s t → work_left t ≡ work_left s
Outside-keeps {s} {t} (by_stop h e) =
    omega (arith, ap world_work h, stop-keeps s.world, ap (total worker_work) e)
Outside-keeps {s} {t} (by_status to h e) = omega (arith, ap world_work h, ap (total worker_work) e)
Outside-keeps {s} {t} (by_scan good h e) =
    omega (arith, ap world_work h, scan-keeps good s.world, ap (total worker_work) e)

Run-work_left :
    {c : Config} {s t : System} {n : ℕ}
    → 0 < c.batch_size
    → Run c s t n
    → n + work_left t ≤ work_left s
Run-work_left b here = omega arith
Run-work_left b (own r st) = omega (arith, Run-work_left b r, Own-decreases b st)
Run-work_left b (outside r st) = omega (arith, Run-work_left b r, Outside-keeps st)

idle-work : (n : ℕ) → total worker_work (idle_workers n) ≡ 0
idle-work zero = refl
idle-work (suc n) = omega (arith, idle-work n)

pub batch_size_pos : (c : Config) → 0 < (checked c).batch_size
unfolding checked
batch_size_pos c = ground arith

-- Whatever requests come between, the threads of a campaign take at most 13 steps for each of its
-- subscribers and 10 more before they have nothing left to do.
pub own_steps_bound :
    (c : Config) (ids : List ℕ) {t : System} {n : ℕ}
    → Run (checked c) (init (checked c) ids) t n
    → n ≤ 13 * length ids + 10
own_steps_bound c ids r =
    omega (arith, Run-work_left (batch_size_pos c) r, idle-work (checked c).concurrency)
