-- ===== src/Sending/System/Schedule.antt =====
-- Schedules that can be run: each turn names the thread that takes the next step, and the choice that
-- is made for it.
use mathlib.Core.Option.{Option, none, some}
use mailview.Prelude.{
  ℕ, zero, suc, ◌≡◌, refl, subst, Bool, List, [], ◌∷◌, ◌++◌, Option-cases, inl, inr, arith,
}
use mailview.Sending.Pipe.{Config, World}
use mailview.Sending.Worker.{Worker, work}
use mailview.Sending.Feeder.{feed}
use mailview.Sending.Cleaner.{clean}
use mailview.Sending.System.{System, Own, by_worker, by_feeder, by_cleaner, Run, here, own}

pub data Turn : Type 0 where
  worker : ℕ → Bool → Turn
  feeder : Bool → Turn
  cleaner : Bool → Turn

abbrev in_front : Worker → Option (List Worker × World) → Option (List Worker × World)
in_front p none = none
in_front p (some (ps, w)) = some (p ∷ ps, w)

abbrev with_rest : List Worker → Option (Worker × World) → Option (List Worker × World)
with_rest ps none = none
with_rest ps (some (p, w)) = some (p ∷ ps, w)

unfoldable pub work_nth : ℕ → Bool → ℕ → List Worker → World → Option (List Worker × World)
work_nth max good i [] w = none
work_nth max good zero (p ∷ ps) w = with_rest ps (work max good p w)
work_nth max good (suc i) (p ∷ ps) w = in_front p (work_nth max good i ps w)

abbrev with_workers : List Worker → Option World → Option System
with_workers ws none = none
with_workers ws (some w) = some (record { world = w; workers = ws })

abbrev as_system : Option (List Worker × World) → Option System
as_system none = none
as_system (some (ws, w)) = some (record { world = w; workers = ws })

unfoldable pub take_turn : Config → Turn → System → Option System
take_turn c (worker i good) s = as_system (work_nth c.max_send_errors good i s.workers s.world)
take_turn c (feeder good) s = with_workers s.workers (feed c good s.world)
take_turn c (cleaner good) s = with_workers s.workers (clean good s.world)

abbrev then_play : Option System → (System → Option System) → Option System
then_play none f = none
then_play (some s) f = f s

unfoldable pub play : Config → List Turn → System → Option System
play c [] s = some s
play c (turn ∷ turns) s = then_play (take_turn c turn s) (play c turns)

record Worked (max : ℕ) (good : Bool) (ws vs : List Worker) (w w' : World) : Type 0 where
  before : List Worker
  after : List Worker
  p : Worker
  q : Worker
  from : ws ≡ before ++ p ∷ after
  to : vs ≡ before ++ q ∷ after
  step : work max good p w ≡ some (q, w')

Worked-in_front :
    (max : ℕ) (good : Bool) (x : Worker) (ws vs : List Worker) (w w' : World)
    → Worked max good ws vs w w'
    → Worked max good (x ∷ ws) (x ∷ vs) w w'
Worked-in_front max good x ws vs w w' r = record {
  before = x ∷ r.before;
  after = r.after;
  p = r.p;
  q = r.q;
  from = rw r.from;
  to = rw r.to;
  step = r.step;
}

work_nth-Worked :
    (max : ℕ) (good : Bool) (i : ℕ) (ws vs : List Worker) (w w' : World)
    → work_nth max good i ws w ≡ some (vs, w')
    → Worked max good ws vs w w'
unfolding work_nth
work_nth-Worked max good i [] vs w w' h = cc
work_nth-Worked max good zero (p ∷ ps) vs w w' h = elim (Option-cases (work max good p w)) [
  | inl e ↦ absurd (ground (arith, rw e at h))
  | inr found ↦
      let ((q, u), e) = found in
      let h' : ◌≡◌ {A = Option (List Worker × World)} (some (q ∷ ps, u)) (some (vs, w')) =
        rw e at h in
      let same_world : u ≡ w' = cc in
      record { before = []; after = ps; p = p; q = q; from = refl; to = cc; step = cc }
]
work_nth-Worked max good (suc i) (p ∷ ps) vs w w' h =
    elim (Option-cases (work_nth max good i ps w)) [
      | inl e ↦ absurd (ground (arith, rw e at h))
      | inr found ↦
          let ((us, u), e) = found in
          let h' : ◌≡◌ {A = Option (List Worker × World)} (some (p ∷ us, u)) (some (vs, w')) =
            rw e at h in
          let same_world : u ≡ w' = cc in
          let same_workers : p ∷ us ≡ vs = cc in
          let r = work_nth-Worked max good i ps us w w' (rw same_world at e) in
          subst (λ z. Worked max good (p ∷ ps) z w w') same_workers
            (Worked-in_front max good p ps us w w' r)
    ]

with_workers-some :
    (ws : List Worker) (o : Option World) (t : System)
    → with_workers ws o ≡ some t
    → (o ≡ some t.world) × (t.workers ≡ ws)
with_workers-some ws o t h = ground arith

as_system-some :
    (o : Option (List Worker × World)) (t : System)
    → as_system o ≡ some t
    → o ≡ some (t.workers, t.world)
as_system-some none t h = cc
as_system-some (some (ws, w)) t h = ground arith

take_turn-Own : (c : Config) (turn : Turn) (s t : System) → take_turn c turn s ≡ some t → Own c s t
unfolding take_turn
take_turn-Own c (worker i good) s t h =
    let r = work_nth-Worked _ good i s.workers t.workers s.world t.world (as_system-some _ t h) in
    by_worker r.before r.after r.p r.q good r.from r.to r.step
take_turn-Own c (feeder good) s t h =
    let (e, same_workers) = with_workers-some s.workers _ t h in by_feeder good e same_workers
take_turn-Own c (cleaner good) s t h =
    let (e, same_workers) = with_workers-some s.workers _ t h in by_cleaner good e same_workers

-- A schedule that can be played is a run.
play_on :
    (c : Config) (turns : List Turn) {r s t : System} {n : ℕ}
    → Run c r s n
    → play c turns s ≡ some t
    → (m : ℕ) × Run c r t m
unfolding play
play_on c [] {s} {t} {n} run h = let same_state : s ≡ t = cc in (n, rw (← same_state) run)
play_on c (turn ∷ turns) {s} {t} run h = elim (Option-cases (take_turn c turn s)) [
  | inl e ↦ absurd (ground (arith, rw e at h))
  | inr found ↦
      let (u, e) = found in play_on c turns (own run (take_turn-Own c turn s u e)) (rw e at h)
]

pub play-Run :
    (c : Config) (turns : List Turn) (s t : System)
    → play c turns s ≡ some t
    → (m : ℕ) × Run c s t m
play-Run c turns s t h = play_on c turns here h
