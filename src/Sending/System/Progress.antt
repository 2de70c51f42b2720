-- ===== src/Sending/System/Progress.antt =====
-- The threads of a campaign are never stuck before its end, and so every campaign comes to its
-- `cleanup`.
use mailview.Prelude.{
  ℕ, zero, suc, ◌*◌, ◌<◌, ◌≡◌, refl, ap, ◌∙◌, List, ◌∷◌, ◌⊎◌, length, length-append, arith,
  Bool-cases, inl, inr,
}
use mailview.Sending.Pipe.{Config, checked, ended, capacity}
use mailview.Sending.Cleaner.{is_gone, to}
use mailview.Sending.System.{
  System, init, idle_workers, Own, by_worker, by_feeder, by_cleaner, Outside, by_stop, by_status,
  by_scan, Run, here, own, outside,
}
use mailview.Sending.System.Holding.{IsHeld, Own-IsHeld, Run-IsHeld}
use mailview.Sending.System.Steps.{not_stuck}
use mailview.Sending.System.Ending.{work_left, Own-decreases, batch_size_pos}

Own-workers : {c : Config} {s t : System} → Own c s t → length t.workers ≡ length s.workers
Own-workers (by_worker before after p q good es et h) = omega (
  arith,
  ap length es,
  ap length et,
  length-append before (p ∷ after),
  length-append before (q ∷ after),
)
Own-workers (by_feeder good h e) = ap length e
Own-workers (by_cleaner good h e) = ap length e

Outside-workers : {s t : System} → Outside s t → length t.workers ≡ length s.workers
Outside-workers (by_stop h e) = ap length e
Outside-workers (by_status to h e) = ap length e
Outside-workers (by_scan good h e) = ap length e

length-idle_workers : (n : ℕ) → length (idle_workers n) ≡ n
length-idle_workers zero = refl
length-idle_workers (suc n) = ap suc (length-idle_workers n)

Run-workers :
    {c : Config} {ids : List ℕ} {t : System} {n : ℕ}
    → Run c (init c ids) t n
    → length t.workers ≡ c.concurrency
Run-workers {c} here = length-idle_workers c.concurrency
Run-workers (own r st) = Own-workers st ∙ Run-workers r
Run-workers (outside r st) = Outside-workers st ∙ Run-workers r

concurrency_pos : (c : Config) → 0 < (checked c).concurrency
unfolding checked
concurrency_pos c = ground arith

capacity_pos : (c : Config) → 0 < capacity (checked c)
unfolding checked
capacity_pos c =
    let rate : 0 < (checked c).message_rate = ground arith in
    product_pos _ _ (concurrency_pos c) rate
  where
    product_pos : (a b : ℕ) → 0 < a → 0 < b → 0 < a * b * 2
    product_pos a b p q = grind arith

-- By induction on a bound of what is left to do.
run_on :
    (k : ℕ) (c : Config) {s t : System} {n : ℕ}
    → work_left t < k
    → IsHeld (checked c).max_send_errors t
    → length t.workers ≡ (checked c).concurrency
    → Run (checked c) s t n
    → (u : System) × (m : ℕ) × Run (checked c) s u m × (u.world.cleaner ≡ ended)
run_on zero c h v ws r = absurd (omega arith)
run_on (suc k) c {s} {t} {n} h v ws r = elim (Bool-cases (is_gone t.world.cleaner)) [
  | inl gone ↦ (t, n, r, ground arith)
  | inr going ↦
      let (u, st) =
        not_stuck (checked c) t v going (omega (arith, concurrency_pos c)) (capacity_pos c) in
      run_on k c (omega (arith, Own-decreases (batch_size_pos c) st)) (Own-IsHeld st refl v)
        (Own-workers st ∙ ws) (own r st)
]

-- From every state that a campaign can come to, whatever was stopped, failed or changed on the way,
-- its threads can go on to the end of `cleanup`; and until that end some thread of the campaign can
-- take a step.
pub cleanup_reached :
    (c : Config) (ids : List ℕ) {s : System} {n : ℕ}
    → Run (checked c) (init (checked c) ids) s n
    → ((t : System) × (m : ℕ) × Run (checked c) s t m × (t.world.cleaner ≡ ended))
      × ((s.world.cleaner ≡ ended) ⊎ ((t : System) × Own (checked c) s t))
cleanup_reached c ids {s} r = (
  run_on (suc (work_left s)) c (omega arith) (Run-IsHeld r) (Run-workers r) here,
  elim (Bool-cases (is_gone s.world.cleaner)) [
    | inl gone ↦ inl (ground arith)
    | inr going ↦ inr (
        not_stuck (checked c) s (Run-IsHeld r) going
          (omega (arith, concurrency_pos c, Run-workers r)) (capacity_pos c))
  ],
)
