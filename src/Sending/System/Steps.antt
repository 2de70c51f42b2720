-- ===== src/Sending/System/Steps.antt =====
-- Which thread of a campaign can take the next step.
use mailview.Prelude.{
  ℕ, ◌+◌, ◌<◌, ◌≡◌, refl, ap, Bool, true, false, List, [], ◌∷◌, ◌++◌, ◌⊎◌, some, ltb, if◌then◌else◌,
  length, total, total_pos, arith, Bool-cases, inl, inr, ◌==◌,
}
use mailview.Sending.Pipe.{
  Config, Feeder, ready, batch, sending, more, failing, released, Cleaner, waiting, starting,
  loaded_sent, updating, counted, pausing, unfailed, asking, finishing, ended, paused, finished,
  World, capacity,
}
use mailview.Sending.Worker.{
  Worker, idle, taken, skipping, pushing, pushed, failed, stopping, marking, halting, comparing,
  storing, tallying, work,
}
use mailview.Sending.Feeder.{feed, next_subscribers, start, release}
use mailview.Sending.Cleaner.{clean, is_gone, is_open, to, record_counts}
use mailview.Sending.System.{System, Own, by_worker, by_feeder, by_cleaner}
use mailview.Sending.System.Holding.{holds, feeder_holds, IsHeld}

abbrev has_message : Worker → List ℕ → Bool
has_message idle [] = false
has_message _ _ = true

-- A worker goes on unless it waits for a message.
work-some :
    (max : ℕ) (p : Worker) (queue : List ℕ) (w : World)
    → w.queue ≡ queue
    → has_message p queue ≡ true
    → (r : Worker × World) × (work max true p w ≡ some r)
unfolding work
work-some max idle [] w e h = cc
work-some max idle (id ∷ rest) w e h = ((taken id, record w { queue = rest }), rw e)
work-some max (taken id) queue w e h = (_, refl)
work-some max skipping queue w e h = (_, refl)
work-some max (pushing id) queue w e h = (_, refl)
work-some max (pushed id answer) queue w e h = (_, refl)
work-some max failed queue w e h = (_, refl)
work-some max stopping queue w e h = (_, refl)
work-some max marking queue w e h = (_, refl)
work-some max halting queue w e h = (_, refl)
work-some max (comparing id) queue w e h = (_, refl)
work-some max (storing id) queue w e h = (_, refl)
work-some max tallying queue w e h = (_, refl)

abbrev pub Goes : Config → System → Type 0
Goes c s = (t : System) × Own c s t

worker-Goes :
    (c : Config) (s : System) (before after : List Worker) (p : Worker)
    → s.workers ≡ before ++ p ∷ after
    → has_message p s.world.queue ≡ true
    → Goes c s
worker-Goes c s before after p e h =
    let ((q, w), step) = work-some c.max_send_errors p s.world.queue s.world refl h in
    (
      record { world = w; workers = before ++ q ∷ after },
      by_worker before after p q true e refl step,
    )

-- With a message in the queue, the first worker can take it or is at work.
queue-Goes :
    (c : Config) (s : System) (id : ℕ) (rest : List ℕ) (ws : List Worker)
    → s.world.queue ≡ id ∷ rest
    → s.workers ≡ ws
    → 0 < length ws
    → Goes c s
queue-Goes c s id rest [] eq ew h = absurd (omega arith)
queue-Goes c s id rest (p ∷ ws) eq ew h = worker-Goes c s [] ws p ew (rw eq (any_worker p))
  where
    any_worker : (p : Worker) → has_message p (id ∷ rest) ≡ true
    any_worker idle = refl
    any_worker p = refl

-- A worker with a message in its hand is at work.
holder-Goes : (c : Config) (s : System) → 0 < total holds s.workers → Goes c s
holder-Goes c s h =
    let (before, p, after, e, held) = total_pos holds s.workers h in
    worker-Goes c s before after p e (at_work p s.world.queue held)
  where
    at_work : (p : Worker) (queue : List ℕ) → 0 < holds p → has_message p queue ≡ true
    at_work idle queue h = absurd (omega arith)
    at_work p queue h = refl

feeder-Goes : (c : Config) (s : System) (w : World) → feed c true s.world ≡ some w → Goes c s
feeder-Goes c s w e = (record { world = w; workers = s.workers }, by_feeder true e refl)

cleaner-Goes : (c : Config) (s : System) (w : World) → clean true s.world ≡ some w → Goes c s
cleaner-Goes c s w e = (record { world = w; workers = s.workers }, by_cleaner true e refl)

queue-cases : (xs : List ℕ) → (xs ≡ []) ⊎ ((x : ℕ) × (r : List ℕ) × (xs ≡ x ∷ r))
queue-cases [] = inl refl
queue-cases (x ∷ xs) = inr (x, xs, refl)

-- With an empty queue, `Run` is never held up by it.
feeder_free :
    (c : Config) (s : System) (f : Feeder)
    → s.world.feeder ≡ f
    → s.world.queue ≡ []
    → 0 < capacity c
    → 0 < feeder_holds f
    → Goes c s
unfolding feed
feeder_free c s ready e q room h =
    feeder-Goes c s (start c (next_subscribers c s.world) s.world) (rw e)
feeder_free c s (batch []) e q room h = feeder-Goes c s (record s.world { feeder = more }) (rw e)
feeder_free c s (batch (id ∷ rest)) e q room h =
    feeder-Goes c s
      (record s.world {
        pipe = record s.world.pipe { wg = s.world.pipe.wg + 1 };
        feeder = sending id rest;
      })
      (rw e)
feeder_free c s (sending id rest) e q room h =
    let fits : ltb (length s.world.queue) (capacity c) ≡ true = rw q (ground arith) in
    feeder-Goes c s (record s.world { queue = s.world.queue ++ id ∷ []; feeder = batch rest })
      (rw e (rw fits))
feeder_free c s more e q room h = feeder-Goes c s (record s.world { feeder = ready }) (rw e)
feeder_free c s failing e q room h = feeder-Goes c s (release s.world) (rw e)
feeder_free c s released e q room h = absurd (omega arith)

cleaner_free :
    (c : Config) (s : System) (k : Cleaner)
    → s.world.cleaner ≡ k
    → (s.world.pipe.wg == 0) ≡ true
    → is_gone k ≡ false
    → Goes c s
unfolding clean
cleaner_free c s waiting e z h = cleaner-Goes c s (to starting s.world) (rw e (rw z))
cleaner_free c s starting e z h =
    cleaner-Goes c s (to (loaded_sent s.world.pipe.sent) s.world) (rw e)
cleaner_free c s (loaded_sent n) e z h =
    cleaner-Goes c s (to (updating n s.world.pipe.last_id) s.world) (rw e)
cleaner_free c s (updating n last) e z h =
    cleaner-Goes c s (to counted (record_counts n last s.world)) (rw e)
cleaner_free c s counted e z h =
    cleaner-Goes c s (to (if s.world.pipe.with_errors then pausing else unfailed) s.world) (rw e)
cleaner_free c s pausing e z h =
    cleaner-Goes c s (to ended (record s.world { status = paused })) (rw e)
cleaner_free c s unfailed e z h =
    cleaner-Goes c s (to (if s.world.pipe.stopped then ended else asking) s.world) (rw e)
cleaner_free c s asking e z h =
    cleaner-Goes c s (to (if is_open s.world.status then finishing else ended) s.world) (rw e)
cleaner_free c s finishing e z h =
    cleaner-Goes c s (to ended (record s.world { status = finished })) (rw e)
cleaner_free c s ended e z h = cc

module _ (c : Config) (s : System) (v : IsHeld c.max_send_errors s)
    (going : is_gone s.world.cleaner ≡ false) where
  -- With nothing in the queue and the pipe released, a message is in some hand, or the wait is over.
  released-Goes : s.world.queue ≡ [] → feeder_holds s.world.feeder ≡ 0 → Goes c s
  released-Goes q f = elim (Bool-cases (s.world.pipe.wg == 0)) [
    | inl z ↦ cleaner_free c s s.world.cleaner refl z going
    | inr n ↦ holder-Goes c s (omega (arith, v.group, ap length q, pos (s.world.pipe.wg) n))
  ]
    where
      pos : (k : ℕ) → (k == 0) ≡ false → 0 < k
      pos k h = ground arith

  -- Until the campaign has ended, some thread of it can take a step.
  pub not_stuck : 0 < length s.workers → 0 < capacity c → Goes c s
  not_stuck some_worker room = elim (queue-cases s.world.queue) [
    | inr found ↦ let (id, rest, q) = found in queue-Goes c s id rest s.workers q refl some_worker
    | inl q ↦ elim (Bool-cases (ltb 0 (feeder_holds s.world.feeder))) [
      | inl h ↦ feeder_free c s s.world.feeder refl q room (ground arith)
      | inr h ↦ released-Goes q (ground arith)
    ]
  ]
