-- ===== src/Generate/InOrder.antt =====
-- Rendering by tasks against rendering one job after the other.
use lumen_horizon.Prelude.{
  ℕ, zero, suc, ◌≤◌, ◌≡◌, arith, true, Bool-cases, inl, inr, List, [], ◌∷◌, ◌++◌, length, map, All,
  All-append, some, Result, ok, err, refl, ap, sym, ◌∙◌,
}
use mathlib.Core.List.{append-nil, append_assoc, map-append}
use mathlib.Core.Path.{subst}
use lumen_horizon.Float.{Floating}
use lumen_horizon.Publish.Types.{RenderedTile}
use lumen_horizon.Generate.Types.{GenerateError}
use lumen_horizon.Generate.Jobs.{Job}
use lumen_horizon.Generate.JoinSet.{
  Indexed, sort_by_index, insert_by_index, Joined, LoopState, is_done, rounds,
}
use lumen_horizon.Generate.Sorting.{Agrees, sort-middle, no_tile}
use lumen_horizon.Generate.Completion.{
  task, done-empty, IsRound, joins_one_task, IsRound-length, rounds-done, rounds-round,
}

All-first : (P : Job → Type 0) (xs ys : List Job) → All P (xs ++ ys) → All P xs
All-first P [] ys _ = tt
All-first P (x ∷ xs) ys (p, ps) = (p, All-first P xs ys ps)

module _ (F : Floating) (render : Job → Joined F) where
  -- What a job's task leaves, where it has not failed.
  abbrev pub value_of : Result (GenerateError F) RenderedTile → RenderedTile
  value_of (ok t) = t
  value_of (err e) = no_tile

  abbrev pub pair : Job → Indexed
  pair job = (job.index, value_of (task F render job))

  module _ (value : ℕ → RenderedTile) (expected : List Indexed) where
    abbrev pub IsGood : Job → Type 0
    IsGood job = ((t : RenderedTile) × (task F render job ≡ ok t)) × Agrees value (pair job)

    -- The tiles so far, and those of the jobs that are left, are the expected ones in some order.
    pub record Holds (s : LoopState F) : Type 0 where
      pub sorts : sort_by_index (s.tiles ++ map pair (s.running ++ s.jobs)) ≡ expected
      pub agree : All (Agrees value) s.tiles
      pub good : All IsGood (s.running ++ s.jobs)

    agree-map : (jobs : List Job) → All IsGood jobs → All (Agrees value) (map pair jobs)
    agree-map [] _ = tt
    agree-map (job ∷ jobs) ((_, a), hs) = (a, agree-map jobs hs)

    IsGood-split :
        (before : List Job) (job : Job) (behind : List Job)
        → All IsGood (before ++ job ∷ behind)
        → IsGood job × All IsGood (before ++ behind)
    IsGood-split [] job behind (h, hs) = (h, hs)
    IsGood-split (x ∷ before) job behind (h, hs) =
        let (g, gs) = IsGood-split before job behind hs in (g, (h, gs))

    -- Moving one element of the rest to the end of the tiles
    sort-moved :
        (tiles : List Indexed) (before : List Job) (job : Job) (behind : List Job)
        → All (Agrees value) tiles
        → All IsGood (before ++ job ∷ behind)
        → sort_by_index ((tiles ++ pair job ∷ []) ++ map pair (before ++ behind))
          ≡ sort_by_index (tiles ++ map pair (before ++ job ∷ behind))
    sort-moved tiles before job behind agree good =
        let (g, gs) = IsGood-split before job behind good in
        let ahead = agree-map before (All-first IsGood before behind gs) in
        let l : map pair (before ++ job ∷ behind) ≡ map pair before ++ pair job ∷ map pair behind =
          map-append pair before (job ∷ behind) in
        ap sort_by_index (append_assoc tiles (pair job ∷ []) (map pair (before ++ behind)))
        ∙ sort-middle value tiles (pair job) (map pair (before ++ behind)) agree g.1
        ∙ ap (λ l. insert_by_index (pair job) (sort_by_index (tiles ++ l)))
            (map-append pair before behind)
        ∙ ap (λ l. insert_by_index (pair job) (sort_by_index l))
            (sym (append_assoc tiles (map pair before) (map pair behind)))
        ∙ sym (
            sort-middle value (tiles ++ map pair before) (pair job) (map pair behind)
              (All-append (Agrees value) tiles (map pair before) agree ahead) g.1)
        ∙ ap sort_by_index (append_assoc tiles (map pair before) (pair job ∷ map pair behind))
        ∙ ap (λ l. sort_by_index (tiles ++ l)) (sym l)

    module _ (n : ℕ) (room : 1 ≤ n) (schedule : ℕ → ℕ) where
      Holds-round :
          (s : LoopState F)
          → Holds s
          → (r : IsRound F render schedule n s)
          → (t : RenderedTile) × (task F render r.job ≡ ok t)
            × Holds (record {
              jobs = r.rest;
              running = r.others;
              tiles = s.tiles ++ (r.job.index, t) ∷ [];
            })
      Holds-round s h r =
          let good = subst (All IsGood) r.whole h.good in
          let (g, gs) = IsGood-split r.before r.job r.behind good in
          let (t, e) = g.0 in
          let same : pair r.job ≡ (r.job.index, t) = rw e refl in
          (
            t,
            e,
            subst
                (λ p.
                  Holds (record { jobs = r.rest; running = r.others; tiles = s.tiles ++ p ∷ [] }))
                same
                (record {
                  sorts =
                      ap (λ l. sort_by_index ((s.tiles ++ pair r.job ∷ []) ++ map pair l)) r.left
                      ∙ sort-moved s.tiles r.before r.job r.behind h.agree good
                      ∙ ap (λ l. sort_by_index (s.tiles ++ map pair l)) (sym r.whole)
                      ∙ h.sorts;
                  agree = All-append (Agrees value) s.tiles (pair r.job ∷ []) h.agree (g.1, tt);
                  good = subst (All IsGood) (sym r.left) gs;
                }),
          )

      abbrev pub Ends : ℕ → LoopState F → Type 0
      Ends fuel s =
          (tiles : List Indexed) × (rounds F render schedule n fuel s ≡ some (ok tiles))
          × (sort_by_index tiles ≡ expected)

      done-Ends : (fuel : ℕ) (s : LoopState F) → Holds s → is_done F s ≡ true → Ends fuel s
      done-Ends fuel s h done =
          let empty = done-empty F render schedule s.jobs s.running s.tiles done in
          let all : s.tiles ++ map pair (s.running ++ s.jobs) ≡ s.tiles =
            ap (λ l. s.tiles ++ map pair l) empty ∙ append-nil s.tiles in
          (
            s.tiles,
            rounds-done F render schedule n fuel s done,
            sym (ap sort_by_index all) ∙ h.sorts,
          )

      -- A run with fuel for one round to each job that is left ends with the expected tiles.
      pub rounds-Ends :
          (fuel : ℕ) (s : LoopState F) → length (s.running ++ s.jobs) ≤ fuel → Holds s → Ends fuel s
      rounds-Ends zero s enough h = elim (Bool-cases (is_done F s)) [
        | inl done ↦ done-Ends zero s h done
        | inr more ↦
            let r = joins_one_task F render schedule n s room more in
            absurd (omega (arith, IsRound-length F render schedule n s r))
      ]
      rounds-Ends (suc fuel) s enough h = elim (Bool-cases (is_done F s)) [
        | inl done ↦ done-Ends (suc fuel) s h done
        | inr more ↦
            let r = joins_one_task F render schedule n s room more in
            let count = IsRound-length F render schedule n s r in
            let (t, e, held) = Holds-round s h r in
            let (tiles, f, g) = rounds-Ends fuel _ (omega arith) held in
            (tiles, rounds-round F render schedule n fuel s _ more (r.opened ∙ rw e refl) ∙ f, g)
      ]
