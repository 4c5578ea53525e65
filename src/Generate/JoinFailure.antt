-- ===== src/Generate/JoinFailure.antt =====
-- A job whose task fails ends the loop with the error of a task.
use lumen_horizon.Prelude.{
  ℕ, zero, suc, ◌≤◌, ◌≡◌, arith, Bool, true, false, Bool-cases, inl, inr, List, [], ◌∷◌, ◌++◌,
  length, any, All, some, Result, ok, err, refl, ap, sym, ◌∙◌, Result-cases,
}
use mathlib.Core.Path.{subst}
use lumen_horizon.Float.{Floating}
use lumen_horizon.Generate.Types.{GenerateError}
use lumen_horizon.Generate.Jobs.{Job}
use lumen_horizon.Generate.JoinSet.{Joined, LoopState, is_done, rounds}
use lumen_horizon.Publish.Types.{RenderedTile}
use lumen_horizon.Generate.Completion.{
  task, done-empty, joins_one_task, IsRound-length, rounds-round, rounds-error,
}

module _ (F : Floating) (render : Job → Joined F) where
  abbrev is_error : Result (GenerateError F) RenderedTile → Bool
  is_error (ok t) = false
  is_error (err e) = true

  abbrev pub fails : Job → Bool
  fails job = is_error (task F render job)

  any-without :
      (before : List Job) (job : Job) (behind : List Job)
      → fails job ≡ false
      → any fails (before ++ job ∷ behind) ≡ true
      → any fails (before ++ behind) ≡ true
  any-without [] job behind fine h = rw fine at h
  any-without (x ∷ before) job behind fine h = elim (Bool-cases (fails x)) [
    | inl bad ↦ rw bad refl
    | inr well ↦ rw well (any-without before job behind fine (rw well at h))
  ]

  All-without :
      (P : Job → Type 0) (before : List Job) (job : Job) (behind : List Job)
      → All P (before ++ job ∷ behind)
      → P job × All P (before ++ behind)
  All-without P [] job behind (h, hs) = (h, hs)
  All-without P (x ∷ before) job behind (h, hs) =
      let (g, gs) = All-without P before job behind hs in (g, (h, gs))

  -- `P` is what is known of the jobs.
  module _ (P : Job → Type 0) (n : ℕ) (room : 1 ≤ n) (schedule : ℕ → ℕ) where
    record Fails (s : LoopState F) : Type 0 where
      failing : any fails (s.running ++ s.jobs) ≡ true
      known : All P (s.running ++ s.jobs)

    abbrev pub EndsFailing : ℕ → LoopState F → Type 0
    EndsFailing fuel s =
        (e : GenerateError F) × (job : Job) × P job
        × (task F render job ≡ err e)
        × (rounds F render schedule n fuel s ≡ some (err e))

    not_done : (s : LoopState F) → Fails s → is_done F s ≡ false
    not_done s h = elim (Bool-cases (is_done F s)) [
      | inr more ↦ more
      | inl done ↦
          let empty = done-empty F render schedule s.jobs s.running s.tiles done in
          let none_fails : any fails (s.running ++ s.jobs) ≡ false = ap (any fails) empty in
          cc (h.failing, none_fails)
    ]

    rounds-Failing :
        (fuel : ℕ) (s : LoopState F)
        → length (s.running ++ s.jobs) ≤ fuel
        → Fails s
        → EndsFailing fuel s
    rounds-Failing zero s enough h =
        let r = joins_one_task F render schedule n s room (not_done s h) in
        absurd (omega (arith, IsRound-length F render schedule n s r))
    rounds-Failing (suc fuel) s enough h =
        let more = not_done s h in
        let r = joins_one_task F render schedule n s room more in
        let count = IsRound-length F render schedule n s r in
        let (p, ps) = All-without P r.before r.job r.behind (subst (All P) r.whole h.known) in
        elim (Result-cases (task F render r.job)) [
          | inl (e, f) ↦
              (e, r.job, p, f, rounds-error F render schedule n fuel s more (r.opened ∙ rw f refl))
          | inr (t, f) ↦
              let fine : fails r.job ≡ false = rw f refl in
              let left : any fails (r.others ++ r.rest) ≡ true =
                ap (any fails) r.left
                ∙ any-without r.before r.job r.behind fine
                    (sym (ap (any fails) r.whole) ∙ h.failing) in
              let held : Fails (record {
                jobs = r.rest;
                running = r.others;
                tiles = s.tiles ++ (r.job.index, t) ∷ [];
              }) =
                record { failing = left; known = subst (All P) (sym r.left) ps } in
              let (e, job, q, g, last) = rounds-Failing fuel _ (omega arith) held in
              (
                e,
                job,
                q,
                g,
                rounds-round F render schedule n fuel s _ more (r.opened ∙ rw f refl) ∙ last,
              )
        ]

    pub rounds-EndsFailing :
        (fuel : ℕ) (s : LoopState F)
        → length (s.running ++ s.jobs) ≤ fuel
        → any fails (s.running ++ s.jobs) ≡ true
        → All P (s.running ++ s.jobs)
        → EndsFailing fuel s
    rounds-EndsFailing fuel s enough h k =
        rounds-Failing fuel s enough (record { failing = h; known = k })
