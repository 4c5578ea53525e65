-- ===== src/Generate/Completion.antt =====
-- What the loops of the join set do to the lists of jobs.
use lumen_horizon.Prelude.{
  ℕ, zero, suc, ◌≤◌, ◌≡◌, arith, ltb, true, false, Bool-cases, inl, inr, List, [], ◌∷◌, ◌++◌,
  length, length-append, some, Result, ok, err, refl, ap, sym, ◌∙◌,
}
use mathlib.Core.List.{append_assoc}
use lumen_horizon.Float.{Floating}
use lumen_horizon.Publish.Types.{RenderedTile}
use lumen_horizon.Generate.Types.{GenerateError}
use lumen_horizon.Generate.Jobs.{Job}
use lumen_horizon.Generate.JoinSet.{
  Indexed, take_at, Joined, tile_of_task, LoopState, spawn_jobs, round, is_done, rounds, keep_tile,
}

-- The lists that a task is taken from, and what is left of them.
record IsSplit (running others : List Job) (job : Job) : Type 0 where
  before : List Job
  behind : List Job
  whole : running ≡ before ++ job ∷ behind
  left : others ≡ before ++ behind

IsSplit-cons :
    (x : Job) {running others : List Job} {job : Job}
    → IsSplit running others job
    → IsSplit (x ∷ running) (x ∷ others) job
IsSplit-cons x s = record {
  before = x ∷ s.before;
  behind = s.behind;
  whole = ap (λ l. x ∷ l) s.whole;
  left = ap (λ l. x ∷ l) s.left;
}

-- There is always a task to join, where one is running.
take_at-IsSplit :
    (k : ℕ) (x : Job) (xs : List Job)
    → (job : Job) × (others : List Job) × (take_at k (x ∷ xs) ≡ some (job, others))
      × IsSplit (x ∷ xs) others job
take_at-IsSplit zero x xs =
    (x, xs, refl, record { before = []; behind = xs; whole = refl; left = refl })
take_at-IsSplit (suc k) x [] =
    (x, [], refl, record { before = []; behind = []; whole = refl; left = refl })
take_at-IsSplit (suc k) x (y ∷ ys) =
    let (job, others, e, s) = take_at-IsSplit k y ys in
    (job, x ∷ others, rw e refl, IsSplit-cons x s)

IsSplit-length :
    {running others : List Job} {job : Job}
    → IsSplit running others job
    → length running ≡ suc (length others)
IsSplit-length s =
    rw (s.whole, s.left)
      (omega (arith, length-append s.before (_ ∷ s.behind), length-append s.before s.behind))

pub take_at-length :
    (k : ℕ) (running others : List Job) (job : Job)
    → take_at k running ≡ some (job, others)
    → length running ≡ suc (length others)
take_at-length k [] others job h = cc
take_at-length k (x ∷ xs) others job h =
    let (job', others', e, s) = take_at-IsSplit k x xs in
    let same : others' ≡ others = cc in IsSplit-length s ∙ ap (λ l. suc (length l)) same

module _ (F : Floating) where
  -- Spawning moves jobs into the join set and changes nothing else, and fills it.
  spawn_jobs-append :
      (n : ℕ) (jobs running : List Job)
      → (let (jobs', running') = spawn_jobs F n jobs running in running' ++ jobs') ≡ running ++ jobs
  unfolding spawn_jobs
  spawn_jobs-append n [] running = refl
  spawn_jobs-append n (job ∷ jobs) running = elim (Bool-cases (ltb (length running) n)) [
    | inl room ↦
        rw room
          (spawn_jobs-append n jobs (running ++ job ∷ []) ∙ append_assoc running (job ∷ []) jobs)
    | inr full ↦ rw full refl
  ]

  pub spawn_jobs_bounded :
      (n : ℕ) (jobs running : List Job)
      → length running ≤ n
      → length (spawn_jobs F n jobs running).1 ≤ n
  unfolding spawn_jobs
  spawn_jobs_bounded n [] running h = h
  spawn_jobs_bounded n (job ∷ jobs) running h = elim (Bool-cases (ltb (length running) n)) [
    | inl room ↦ rw room (
        spawn_jobs_bounded n jobs (running ++ job ∷ [])
          (ground (arith, length-append running (job ∷ []))))
    | inr full ↦ rw full h
  ]

  spawn_jobs-first :
      (n : ℕ) (jobs : List Job) (x : Job) (xs : List Job)
      → (ys : List Job) × ((spawn_jobs F n jobs (x ∷ xs)).1 ≡ x ∷ ys)
  unfolding spawn_jobs
  spawn_jobs-first n [] x xs = (xs, refl)
  spawn_jobs-first n (job ∷ jobs) x xs = elim (Bool-cases (ltb (length (x ∷ xs)) n)) [
    | inl room ↦ rw room (spawn_jobs-first n jobs x (xs ++ job ∷ []))
    | inr full ↦ rw full (xs, refl)
  ]

  -- With room for a task, one is running after the inner loop, unless all is done.
  spawn_jobs-some :
      (n : ℕ) (jobs running : List Job) (tiles : List Indexed)
      → 1 ≤ n
      → is_done F (record { jobs = jobs; running = running; tiles = tiles }) ≡ false
      → (y : Job) × (ys : List Job) × ((spawn_jobs F n jobs running).1 ≡ y ∷ ys)
  unfolding spawn_jobs
  spawn_jobs-some n [] [] tiles room h = cc
  spawn_jobs-some n [] (x ∷ xs) tiles room h = (x, xs, refl)
  spawn_jobs-some n (job ∷ jobs) (x ∷ xs) tiles room h =
      let (ys, e) = spawn_jobs-first n (job ∷ jobs) x xs in (x, ys, e)
  spawn_jobs-some n (job ∷ jobs) [] tiles room h =
      let space : ltb 0 n ≡ true = ground arith in
      let (ys, e) = spawn_jobs-first n jobs job [] in rw space (job, ys, e)

  -- What the task of a job comes to
  abbrev pub task : (Job → Joined F) → Job → Result (GenerateError F) RenderedTile
  task render job = tile_of_task F (render job)

  module _ (render : Job → Joined F) (schedule : ℕ → ℕ) where
    pub done-empty :
        (jobs running : List Job) (tiles : List Indexed)
        → is_done F (record { jobs = jobs; running = running; tiles = tiles }) ≡ true
        → running ++ jobs ≡ []
    done-empty [] [] tiles h = refl
    done-empty [] (x ∷ xs) tiles h = cc
    done-empty (job ∷ jobs) running tiles h = cc

    -- A round joins one task and leaves the others.
    pub record IsRound (n : ℕ) (s : LoopState F) : Type 0 where
      pub job : Job
      pub rest : List Job
      pub others : List Job
      pub before : List Job
      pub behind : List Job
      pub opened :
          round F render schedule n s
          ≡ keep_tile F render schedule rest others s.tiles job (task render job)
      pub whole : s.running ++ s.jobs ≡ before ++ job ∷ behind
      pub left : others ++ rest ≡ before ++ behind

    pub joins_one_task : (n : ℕ) (s : LoopState F) → 1 ≤ n → is_done F s ≡ false → IsRound n s
    unfolding round
    joins_one_task n s room h =
        let (y, ys, first) = spawn_jobs-some n s.jobs s.running s.tiles room h in
        let rest = (spawn_jobs F n s.jobs s.running).0 in
        let (job, others, taken, split) = take_at-IsSplit (schedule (length s.tiles)) y ys in
        record {
          job = job;
          rest = rest;
          others = others;
          before = split.before;
          behind = split.behind ++ rest;
          opened = rw first (rw taken refl);
          whole =
              sym (spawn_jobs-append n s.jobs s.running)
              ∙ ap (λ l. l ++ rest) (first ∙ split.whole)
              ∙ append_assoc split.before (job ∷ split.behind) rest;
          left = ap (λ l. l ++ rest) split.left ∙ append_assoc split.before split.behind rest;
        }

    pub IsRound-length :
        (n : ℕ) (s : LoopState F) (r : IsRound n s)
        → length (s.running ++ s.jobs) ≡ suc (length (r.others ++ r.rest))
    IsRound-length n s r =
        rw (r.whole, r.left)
          (omega
            (arith, length-append r.before (r.job ∷ r.behind), length-append r.before r.behind))

    pub rounds-done :
        (n fuel : ℕ) (s : LoopState F)
        → is_done F s ≡ true
        → rounds F render schedule n fuel s ≡ some (ok s.tiles)
    unfolding rounds
    rounds-done n zero s h = rw (h, rounds) refl
    rounds-done n (suc fuel) s h = rw (h, rounds) refl

    pub rounds-round :
        (n fuel : ℕ) (s next : LoopState F)
        → is_done F s ≡ false
        → round F render schedule n s ≡ ok next
        → rounds F render schedule n (suc fuel) s ≡ rounds F render schedule n fuel next
    unfolding rounds
    rounds-round n fuel s next h e = rw (h, e, rounds) refl

    pub rounds-error :
        (n fuel : ℕ) (s : LoopState F) {e : GenerateError F}
        → is_done F s ≡ false
        → round F render schedule n s ≡ err e
        → rounds F render schedule n (suc fuel) s ≡ some (err e)
    unfolding rounds
    rounds-error n fuel s h f = rw (h, f, rounds) refl
