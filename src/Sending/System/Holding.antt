-- ===== src/Sending/System/Holding.antt =====
-- What the wait group of a campaign's pipe counts, and that errors are counted behind the failures.
use mailview.Prelude.{
  ℕ, zero, suc, ◌+◌, ◌≤◌, ◌<◌, ◌≡◌, refl, ap, Bool, true, false, List, [], ◌∷◌, ◌++◌, some, length,
  length-append, total, total-append, arith,
}
use mailview.Sending.Pipe.{Config, Feeder, sending, released, Cleaner, waiting, pausing, World}
use mailview.Sending.Worker.{
  Worker, idle, taken, skipping, pushing, pushed, failed, stopping, marking, halting, work,
}
use mailview.Sending.Feeder.{feed, feed_at}
use mailview.Sending.Cleaner.{clean, clean_at, stop_campaign, scan}
use mailview.Sending.System.{
  System, init, idle_workers, Own, by_worker, by_feeder, by_cleaner, Outside, by_stop, by_status,
  by_scan, Run, here, own, outside,
}

-- A message whose `wg.Done` is due.
abbrev pub holds : Worker → ℕ
holds (taken _) = 1
holds skipping = 1
holds (pushing _) = 1
holds (pushed _ _) = 1
holds _ = 0

-- The pipe's own count until it is released, and a message that is not in the queue yet.
abbrev pub feeder_holds : Feeder → ℕ
feeder_holds released = 0
feeder_holds (sending _ _) = 2
feeder_holds _ = 1

-- A failure that `OnError` has not counted yet.
abbrev pub uncounted : Worker → ℕ
uncounted (pushed _ false) = 1
uncounted failed = 1
uncounted _ = 0

-- The error threshold was met.
abbrev pub alarmed : Worker → ℕ
alarmed stopping = 1
alarmed marking = 1
alarmed halting = 1
alarmed _ = 0

abbrev pub failure : ℕ × Bool → ℕ
failure (_, true) = 0
failure (_, false) = 1

abbrev pub is_waiting : Cleaner → Bool
is_waiting waiting = true
is_waiting _ = false

abbrev pub flag : Bool → ℕ
flag true = 1
flag false = 0

abbrev pub is_pausing : Cleaner → Bool
is_pausing pausing = true
is_pausing _ = false

-- The invariant, over the world and the sums over the workers.
pub record Holds (max : ℕ) (w : World) (held waits alarms : ℕ) : Type 0 where
  pub group : w.pipe.wg ≡ held + length w.queue + feeder_holds w.feeder
  pub drained : is_waiting w.cleaner ≡ false → w.pipe.wg ≡ 0
  pub behind : w.pipe.errors + waits ≤ total failure w.pushes
  pub met : 0 < alarms + flag w.pipe.with_errors → (0 < max) × (max ≤ w.pipe.errors)
  pub pause : is_pausing w.cleaner ≡ true → w.pipe.with_errors ≡ true

abbrev pub IsHeld : ℕ → System → Type 0
IsHeld max s =
    Holds max s.world (total holds s.workers) (total uncounted s.workers) (total alarmed s.workers)

work-Holds :
    (max held waits alarms : ℕ) (good : Bool) (p q : Worker) (w w' : World)
    → Holds max w (held + holds p) (waits + uncounted p) (alarms + alarmed p)
    → work max good p w ≡ some (q, w')
    → Holds max w' (held + holds q) (waits + uncounted q) (alarms + alarmed q)
unfolding work
work-Holds max held waits alarms good idle q w w' v h = ground arith
work-Holds max held waits alarms good (pushing id) q w w' v h = ground arith
work-Holds max held waits alarms good failed q w w' v h = ground arith
work-Holds max held waits alarms good p q w w' v h = ground arith

feed-Holds :
    (c : Config) (max held waits alarms : ℕ) (good : Bool) (f : Feeder) (w w' : World)
    → Holds max w held waits alarms
    → w.feeder ≡ f
    → feed_at c good f w ≡ some w'
    → Holds max w' held waits alarms
feed-Holds c max held waits alarms good (sending id rest) w w' v e h =
    ground (arith, length-append w.queue (id ∷ []))
feed-Holds c max held waits alarms good f w w' v e h = ground arith

clean-Holds :
    (max held waits alarms : ℕ) (good : Bool) (k : Cleaner) (w w' : World)
    → Holds max w held waits alarms
    → w.cleaner ≡ k
    → clean_at good k w ≡ some w'
    → Holds max w' held waits alarms
clean-Holds max held waits alarms good k w w' v e h = ground arith

scan-Holds :
    (max held waits alarms : ℕ) (good : Bool) (w : World)
    → Holds max w held waits alarms
    → Holds max (scan good w) held waits alarms
unfolding scan
scan-Holds max held waits alarms good w v = ground arith

stop-Holds :
    (max held waits alarms : ℕ) (w : World)
    → Holds max w held waits alarms
    → Holds max (stop_campaign w) held waits alarms
unfolding stop_campaign
stop-Holds max held waits alarms w v = ground arith

-- A sum over the workers, with one of them taken out.
abbrev pub others : (Worker → ℕ) → List Worker → List Worker → ℕ
others f before after = total f before + total f after

pub total_split :
    (f : Worker → ℕ) (ws before after : List Worker) (p : Worker)
    → ws ≡ before ++ p ∷ after
    → total f ws ≡ others f before after + f p
total_split f ws before after p e = omega (arith, ap (total f) e, total-append f before (p ∷ after))

module _ {max : ℕ} where
  pub Own-IsHeld :
      {c : Config} {s t : System}
      → Own c s t
      → c.max_send_errors ≡ max
      → IsHeld max s
      → IsHeld max t
  Own-IsHeld {c} {s} {t} (by_worker before after p q good es et h) m v =
      rw
        (
          total_split holds t.workers before after q et,
          total_split uncounted t.workers before after q et,
          total_split alarmed t.workers before after q et,
        )
        (work-Holds max _ _ _ good p q s.world t.world
          (rw
            (
              total_split holds s.workers before after p es,
              total_split uncounted s.workers before after p es,
              total_split alarmed s.workers before after p es,
            )
            at v)
          (rw m at h))
  Own-IsHeld {c} {s} {t} (by_feeder good h e) m v =
      rw e (feed-Holds c max _ _ _ good s.world.feeder s.world t.world v refl (unfold feed in h))
  Own-IsHeld {c} {s} {t} (by_cleaner good h e) m v =
      rw e (clean-Holds max _ _ _ good s.world.cleaner s.world t.world v refl (unfold clean in h))

  Outside-IsHeld : {s t : System} → Outside s t → IsHeld max s → IsHeld max t
  Outside-IsHeld {s} {t} (by_stop h e) v = rw (h, e) (stop-Holds max _ _ _ s.world v)
  Outside-IsHeld {s} {t} (by_status to h e) v = rw (h, e) (ground arith)
  Outside-IsHeld {s} {t} (by_scan good h e) v = rw (h, e) (scan-Holds max _ _ _ good s.world v)

pub idle-none : (f : Worker → ℕ) → f idle ≡ 0 → (n : ℕ) → total f (idle_workers n) ≡ 0
idle-none f e zero = refl
idle-none f e (suc n) = omega (arith, e, idle-none f e n)

init-IsHeld : (c : Config) (ids : List ℕ) → IsHeld c.max_send_errors (init c ids)
init-IsHeld c ids =
    rw
      (
        idle-none holds refl c.concurrency,
        idle-none uncounted refl c.concurrency,
        idle-none alarmed refl c.concurrency,
      )
      (ground arith)

pub Run-IsHeld :
    {c : Config} {ids : List ℕ} {t : System} {n : ℕ}
    → Run c (init c ids) t n
    → IsHeld c.max_send_errors t
Run-IsHeld {c} {ids} here = init-IsHeld c ids
Run-IsHeld (own r st) = Own-IsHeld st refl (Run-IsHeld r)
Run-IsHeld (outside r st) = Outside-IsHeld st (Run-IsHeld r)

-- When the goroutine that ends a campaign is past its wait, `Run` has released the pipe, no message
-- of the campaign is in the queue, and no worker holds one that it has not sent or skipped.
pub cleanup_drained :
    {c : Config} {ids : List ℕ} {t : System} {n : ℕ}
    → Run c (init c ids) t n
    → is_waiting t.world.cleaner ≡ false
    → (t.world.feeder ≡ released) × (t.world.queue ≡ []) × (total holds t.workers ≡ 0)
cleanup_drained {t = t} r past =
    let v = Run-IsHeld r in
    let zero_group : t.world.pipe.wg ≡ 0 = v.drained past in ground (arith, v.group)

-- A campaign is paused for its errors only where a threshold is configured, and at least as many
-- pushes to its messenger have failed.
pub paused-failures :
    {c : Config} {ids : List ℕ} {t : System} {n : ℕ}
    → Run c (init c ids) t n
    → is_pausing t.world.cleaner ≡ true
    → (0 < c.max_send_errors) × (c.max_send_errors ≤ total failure t.world.pushes)
paused-failures {t = t} r at_pause =
    let v = Run-IsHeld r in
    let flagged : t.world.pipe.with_errors ≡ true = v.pause at_pause in
    let (some_limit, reached) = v.met (ground arith) in (some_limit, omega (arith, v.behind))
