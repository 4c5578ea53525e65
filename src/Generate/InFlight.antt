-- ===== src/Generate/InFlight.antt =====
-- How many tasks are in flight.
use lumen_horizon.Prelude.{
  ℕ, ◌≤◌, ◌≡◌, arith, false, List, [], length, Option, none, some, ok, inl, inr, Result-cases,
  ok_injective, ap, refl,
}
use lumen_horizon.Float.{Floating}
use lumen_horizon.Generate.Jobs.{Job}
use lumen_horizon.Generate.JoinSet.{
  Indexed, take_at, Joined, LoopState, spawn_jobs, round, is_done, joined, tile_of_task,
}
use lumen_horizon.Generate.Completion.{spawn_jobs_bounded, take_at-length}

module _ (F : Floating) (render : Job → Joined F) (schedule : ℕ → ℕ) (n : ℕ) (jobs : List Job) where
  -- The states that the outer loop goes through
  pub data Reachable : LoopState F → Type 0 where
    start : Reachable (record { jobs = jobs; running = []; tiles = [] })
    next :
        {s t : LoopState F}
        → Reachable s
        → is_done F s ≡ false
        → round F render schedule n s ≡ ok t
        → Reachable t

  kept-le :
      (rest running : List Job) (tiles : List Indexed) (taken : Option (Job × List Job))
      (t : LoopState F)
      → take_at (schedule (length tiles)) running ≡ taken
      → joined F render schedule rest tiles taken running ≡ ok t
      → length t.running ≤ length running
  kept-le rest running tiles none t e h =
      omega (arith, ap length (ap (λ (s : LoopState F). s.running) (ok_injective h)))
  kept-le rest running tiles (some (job, others)) t e h =
      elim (Result-cases (tile_of_task F (render job))) [
        | inl (x, f) ↦ cc (rw f at h)
        | inr (x, f) ↦
            let same = ok_injective (rw f at h) in
            omega (
              arith,
              take_at-length _ running others job e,
              ap length (ap (λ (s : LoopState F). s.running) same),
            )
      ]

  running-le : {s : LoopState F} → Reachable s → length s.running ≤ n
  unfolding round
  running-le start = omega arith
  running-le (next {s} {t} r more e) =
      let before = spawn_jobs_bounded F n s.jobs s.running (running-le r) in
      omega (arith, kept-le _ _ s.tiles _ t refl e)

  -- In every state that the loop reaches, the tasks in flight once the inner loop has spawned are at
  -- most the parallelism.
  pub in_flight_bounded :
      {s : LoopState F} → Reachable s → length (spawn_jobs F n s.jobs s.running).1 ≤ n
  in_flight_bounded {s} r = spawn_jobs_bounded F n s.jobs s.running (running-le r)
