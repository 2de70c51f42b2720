-- ===== src/Sending/System/Delivery.antt =====
-- To whom the threads of a campaign send in the life of one pipe, and what they send after a stop.
use mailview.Prelude.{
  ℕ, ◌+◌, ◌≤◌, ◌≡◌, refl, ap, subst, sym, Bool, true, List, [], ◌∷◌, some, if◌then◌else◌, length,
  total, total-append, total-take-drop, arith, ◌==◌,
}
use mailview.Sending.Pipe.{Config, Status, Feeder, batch, sending, World}
use mailview.Sending.Worker.{Worker, idle, taken, pushing, work}
use mailview.Sending.Feeder.{feed, feed_at}
use mailview.Sending.Cleaner.{clean, stop_campaign, scan}
use mailview.Sending.System.{
  System, init, Own, by_worker, by_feeder, by_cleaner, Outside, by_stop, by_status, by_scan, Run,
  here, own, outside,
}
use mailview.Sending.System.Holding.{total_split, idle-none}

abbrev pub is_for : ℕ → ℕ → ℕ
is_for x id = if id == x then 1 else 0

-- How often `x` was sent to, in `pushes`.
abbrev pub push_for : ℕ → ℕ × Bool → ℕ
push_for x (id, _) = is_for x id

-- A message to `x` that the worker has not pushed.
abbrev pub worker_for : ℕ → Worker → ℕ
worker_for x (taken id) = is_for x id
worker_for x (pushing id) = is_for x id
worker_for x _ = 0

abbrev pub feeder_for : ℕ → Feeder → ℕ
feeder_for x (batch rest) = total (is_for x) rest
feeder_for x (sending id rest) = is_for x id + total (is_for x) rest
feeder_for x _ = 0

-- How often `x` was sent to, and how often it still may be.
abbrev pub world_for : ℕ → World → ℕ
world_for x w =
    total (push_for x) w.pushes
    + total (is_for x) w.queue
    + feeder_for x w.feeder
    + total (is_for x) w.unfetched

work-for :
    (x max : ℕ) (good : Bool) (p q : Worker) (w w' : World)
    → work max good p w ≡ some (q, w')
    → world_for x w' + worker_for x q ≤ world_for x w + worker_for x p
unfolding work
work-for x max good idle q w w' h = ground arith
work-for x max good (taken id) q w w' h = ground arith
work-for x max good (pushing id) q w w' h = ground arith
work-for x max good p q w w' h = ground arith

feed-for :
    (x : ℕ) (c : Config) (good : Bool) (f : Feeder) (w w' : World)
    → w.feeder ≡ f
    → feed_at c good f w ≡ some w'
    → world_for x w' ≤ world_for x w
feed-for x c good (sending id rest) w w' e h =
    ground (arith, total-append (is_for x) w.queue (id ∷ []))
feed-for x c good f w w' e h = ground (arith, total-take-drop (is_for x) c.batch_size w.unfetched)

clean-for :
    (x : ℕ) (good : Bool) (w w' : World) → clean good w ≡ some w' → world_for x w' ≤ world_for x w
unfolding clean
clean-for x good w w' h = ground arith

scan-for : (x : ℕ) (good : Bool) (w : World) → world_for x (scan good w) ≤ world_for x w
unfolding scan
scan-for x good w = ground arith

stop-for : (x : ℕ) (w : World) → world_for x (stop_campaign w) ≤ world_for x w
unfolding stop_campaign
stop-for x w = ground arith

-- A quantity of the world and of each worker that no step of a thread raises, from a state in which
-- `P` holds.
record IsSpent {ℓ} (c : Config) (P : World → Type ℓ) (f : World → ℕ) (g : Worker → ℕ) : Type ℓ where
  by_work :
      (good : Bool) (p q : Worker) (w w' : World)
      → P w
      → work c.max_send_errors good p w ≡ some (q, w')
      → f w' + g q ≤ f w + g p
  by_feed : (good : Bool) (w w' : World) → P w → feed c good w ≡ some w' → f w' ≤ f w
  by_clean : (good : Bool) (w w' : World) → P w → clean good w ≡ some w' → f w' ≤ f w
  by_others :
      (to : Status) (good : Bool) (w : World)
      → (f (stop_campaign w) ≤ f w) × (f (record w { status = to }) ≤ f w) × (f (scan good w) ≤ f w)

module _ {ℓ} {c : Config} {P : World → Type ℓ} {f : World → ℕ} {g : Worker → ℕ}
    (k : IsSpent c P f g) where
  abbrev amount : System → ℕ
  amount s = f s.world + total g s.workers

  Own-spends : {s t : System} → Own c s t → P s.world → amount t ≤ amount s
  Own-spends {s} {t} (by_worker before after p q good es et h) v = omega (
    arith,
    k.by_work good p q s.world t.world v h,
    total_split g s.workers before after p es,
    total_split g t.workers before after q et,
  )
  Own-spends {s} {t} (by_feeder good h e) v =
      omega (arith, k.by_feed good s.world t.world v h, ap (total g) e)
  Own-spends {s} {t} (by_cleaner good h e) v =
      omega (arith, k.by_clean good s.world t.world v h, ap (total g) e)

  Outside-spends : {s t : System} → Outside s t → amount t ≤ amount s
  Outside-spends {s} {t} (by_stop h e) =
      omega (arith, ap f h, (k.by_others Status.draft true s.world).0, ap (total g) e)
  Outside-spends {s} {t} (by_status to h e) =
      omega (arith, ap f h, (k.by_others to true s.world).1, ap (total g) e)
  Outside-spends {s} {t} (by_scan good h e) =
      omega (arith, ap f h, (k.by_others Status.draft good s.world).2, ap (total g) e)

  -- Where `P` is kept, a run from a state in which it holds spends.
  Run-spends :
      ((s t : System) → Own c s t → P s.world → P t.world)
      → ((s t : System) → Outside s t → P s.world → P t.world)
      → {s t : System} {n : ℕ} → P s.world
      → Run c s t n
      → P t.world × (amount t ≤ amount s)
  Run-spends keep keep' v here = (v, omega arith)
  Run-spends keep keep' v (own {t} {u = w} r st) =
      let (u, le) = Run-spends keep keep' v r in (keep t w st u, omega (arith, le, Own-spends st u))
  Run-spends keep keep' v (outside {t} {u = w} r st) =
      let (u, le) = Run-spends keep keep' v r in
      (keep' t w st u, omega (arith, le, Outside-spends st))

sending-IsSpent :
    (c : Config) (x : ℕ) → IsSpent c (λ (_ : World). Unit {0}) (world_for x) (worker_for x)
sending-IsSpent c x = record {
  by_work = λ good p q w w' _ h. work-for x c.max_send_errors good p q w w' h;
  by_feed = λ good w w' _ h. feed-for x c good w.feeder w w' refl (unfold feed in h);
  by_clean = λ good w w' _ h. clean-for x good w w' h;
  by_others = λ to good w. (stop-for x w, omega arith, scan-for x good w);
}

-- Within one pipe, from its creation on: however its threads interleave, and whatever requests come
-- between, the messenger is given no more messages for a subscriber, sent or failed, than the rows
-- that the pipe was created with have for it. A pipe that a resumed campaign gets later is another run.
pub sent_once :
    (c : Config) (ids : List ℕ) (x : ℕ) {t : System} {n : ℕ}
    → Run c (init c ids) t n
    → total (push_for x) t.world.pushes ≤ total (is_for x) ids
sent_once c ids x r =
    let spent = sending-IsSpent c x in
    let (_, le) = Run-spends spent (λ s t _ _. tt) (λ s t _ _. tt) tt r in
    omega (arith, le, idle-none (worker_for x) refl c.concurrency)

-- A worker that is past the test of `stopped`.
abbrev pub passing : Worker → ℕ
passing (pushing _) = 1
passing _ = 0

abbrev pub IsStopped : World → Type 0
IsStopped w = w.pipe.stopped ≡ true

abbrev pushed_count : World → ℕ
pushed_count w = length w.pushes

work-passing :
    (max : ℕ) (good : Bool) (p q : Worker) (w w' : World)
    → IsStopped w
    → work max good p w ≡ some (q, w')
    → IsStopped w' × (pushed_count w' + passing q ≤ pushed_count w + passing p)
unfolding work
work-passing max good idle q w w' v h = ground arith
work-passing max good (taken id) q w w' v h = ground arith
work-passing max good p q w w' v h = ground arith

feed-passing :
    (c : Config) (good : Bool) (w w' : World)
    → IsStopped w
    → feed c good w ≡ some w'
    → IsStopped w' × (pushed_count w' ≤ pushed_count w)
unfolding feed
feed-passing c good w w' v h = ground arith

clean-passing :
    (good : Bool) (w w' : World)
    → IsStopped w
    → clean good w ≡ some w'
    → IsStopped w' × (pushed_count w' ≤ pushed_count w)
unfolding clean
clean-passing good w w' v h = ground arith

scan-passing :
    (good : Bool) (w : World)
    → (IsStopped w → IsStopped (scan good w)) × (pushed_count (scan good w) ≤ pushed_count w)
unfolding scan
scan-passing good w = ground arith

stop-passing :
    (w : World)
    → (IsStopped w → IsStopped (stop_campaign w))
      × (pushed_count (stop_campaign w) ≤ pushed_count w)
unfolding stop_campaign
stop-passing w = ground arith

passing-IsSpent : (c : Config) → IsSpent c IsStopped pushed_count passing
passing-IsSpent c = record {
  by_work = λ good p q w w' v h. (work-passing c.max_send_errors good p q w w' v h).1;
  by_feed = λ good w w' v h. (feed-passing c good w w' v h).1;
  by_clean = λ good w w' v h. (clean-passing good w w' v h).1;
  by_others = λ to good w. ((stop-passing w).1, omega arith, (scan-passing good w).1);
}

Own-IsStopped : (c : Config) (s t : System) → Own c s t → IsStopped s.world → IsStopped t.world
Own-IsStopped c s t (by_worker before after p q good es et h) v =
    (work-passing c.max_send_errors good p q s.world t.world v h).0
Own-IsStopped c s t (by_feeder good h e) v = (feed-passing c good s.world t.world v h).0
Own-IsStopped c s t (by_cleaner good h e) v = (clean-passing good s.world t.world v h).0

Outside-IsStopped : (s t : System) → Outside s t → IsStopped s.world → IsStopped t.world
Outside-IsStopped s t (by_stop h e) v = subst IsStopped (sym h) ((stop-passing s.world).0 v)
Outside-IsStopped s t (by_status to h e) v = subst IsStopped (sym h) v
Outside-IsStopped s t (by_scan good h e) v =
    subst IsStopped (sym h) ((scan-passing good s.world).0 v)

-- A pipe that was stopped stays stopped, and its messenger is given at most one more message for each
-- worker that had passed the test before.
pub pushes_after_stop :
    (c : Config) {s t : System} {n : ℕ}
    → s.world.pipe.stopped ≡ true
    → Run c s t n
    → (t.world.pipe.stopped ≡ true)
      × (length t.world.pushes ≤ length s.world.pushes + total passing s.workers)
pushes_after_stop c v r =
    let (still, le) = Run-spends (passing-IsSpent c) (Own-IsStopped c) Outside-IsStopped v r in
    (still, omega (arith, le))
