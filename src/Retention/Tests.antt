-- ===== src/Retention/Tests.antt =====
-- A blob store that obeys the laws, an old tile set that is selected, and the witnesses.
use lumen_horizon.Prelude.{
  ℕ, Text, codes, Bool, true, false, Result, ok, List, [], ◌∷◌, ◌≡◌, ◌≢◌, ◌⊎◌, inl, inr, refl,
  if◌then◌else◌, Bool-cases, All, ◌&&◌, arith, suc,
}
use lumen_horizon.Text.{text_eq, text_eq_iff, starts_with}
use lumen_horizon.Text.Decimal.{decimal}
use lumen_horizon.Action.{Preserves}
use mathlib.Core.Path.{subst}
use lumen_horizon.Tiles.Coord.{TileCoord, validate_tile_coord}
use lumen_horizon.Tiles.Paths.{
  tile_blob_path, manifest_blob_path, latest_manifest_blob_path, validate_tile_set_id,
}
use lumen_horizon.Retention.Types.{
  TileSetRetentionCandidate, RawBlobRetentionCandidate, RetentionConfig, RetentionServices,
  RetentionError, BlobListPage, blob_deleted,
}
use lumen_horizon.Retention.Cleanup.{
  run_retention_cleanup, validate_manifest_path, tile_set_prefix, execute_tile_set_cleanup,
}
use lumen_horizon.Retention.Safety.{IsQuiet, IsListed}
use lumen_horizon.Retention.Run.{selection, BlobLaws, dry_run-Preserves}
use lumen_horizon.Retention.Survival.{unselected_tile-Preserves, latest_manifest-Preserves}

record World : Type 0 where
  present : Text → Text → Bool
  paths : List Text
  events : ℕ

abbrev keep_prefix : Text → List Text → List Text
keep_prefix prefix [] = []
keep_prefix prefix (p ∷ ps) =
    let rest = keep_prefix prefix ps in if starts_with prefix p then p ∷ rest else rest

abbrev old_set : TileSetRetentionCandidate (Unit {0})
old_set = record {
  tile_set_id = codes "old";
  classification_version = codes "v1";
  manifest_blob_path = codes "manifests/old.json";
  created_at = tt;
  tile_count = 1;
}

abbrev old_granule : RawBlobRetentionCandidate (Unit {0})
old_granule = record {
  blob_path = codes "VNP46A2/2024-01-01/h11v06.h5";
  oldest_created_at = tt;
  record_count = 1;
}

abbrev config : RetentionConfig
config = record {
  raw_viirs_container = codes "raw-viirs";
  processed_tiles_container = codes "processed-tiles";
  raw_granule_retention_days = 90;
  processed_tile_set_retention_days = 180;
  retention_protected_prior_tile_sets = 2;
  retention_batch_limit = 500;
  retention_tile_blob_limit = 5000;
}

abbrev without : Text → Text → (Text → Text → Bool) → Text → Text → Bool
without container path present c p =
    if text_eq c container && text_eq p path then false else present c p

abbrev services : RetentionServices World (Unit {0}) (Unit {0})
services = record {
  connect = λ w. (ok tt, w);
  new_blob_client = λ w. (ok tt, w);
  select_raw = λ days limit w. (ok (old_granule ∷ []), w);
  select_tile_sets = λ days prior limit w. (ok (old_set ∷ []), w);
  record_event = λ e w. (ok tt, record w { events = suc w.events });
  delete_blob = λ container path w.
      (ok blob_deleted, record w { present = without container path w.present });
  list_blobs = λ container prefix limit w.
      (ok (record { blob_paths = keep_prefix prefix w.paths; has_more = false }), w);
  mark_deleted = λ id reason w. (ok tt, w);
}

abbrev IsPresent : Text → Text → World → Type 0
IsPresent container path w = w.present container path ≡ true

quiet : (container path : Text) → IsQuiet services (IsPresent container path)
quiet container path = record {
  connection = λ w h. h;
  client = λ w h. h;
  raw_selection = λ _ _ w h. h;
  tile_set_selection = λ _ _ _ w h. h;
  event = λ e w h. h;
}

keep_prefix-All :
    (prefix : Text) (ps : List Text)
    → All (λ p. starts_with prefix p ≡ true) (keep_prefix prefix ps)
keep_prefix-All prefix [] = tt
keep_prefix-All prefix (p ∷ ps) = elim (Bool-cases (starts_with prefix p)) [
  | inl e ↦ rw e (e, keep_prefix-All prefix ps)
  | inr e ↦ rw e (keep_prefix-All prefix ps)
]

honest : IsListed services
honest container prefix limit w page e =
    subst (λ p. All (λ path. starts_with prefix path ≡ true) p.blob_paths) (page_of _ page e)
      (keep_prefix-All prefix w.paths)
  where
    page_of :
        (p q : BlobListPage)
        → (let r : Result RetentionError BlobListPage = ok p in r) ≡ ok q
        → p ≡ q
    page_of p q h = cc

deletes_one :
    (container path container' path' : Text) (w : World)
    → IsPresent container path w
    → IsPresent container path (services.delete_blob container' path' w).1
      ⊎ ((container ≡ container') × (path ≡ path'))
deletes_one container path container' path' w h = elim (Bool-cases (text_eq container container')) [
  | inr e ↦ inl (rw e h)
  | inl e ↦ elim (Bool-cases (text_eq path path')) [
    | inr f ↦ inl (rw (e, f) h)
    | inl f ↦ inr ((text_eq_iff container container').0 e, (text_eq_iff path path').0 f)
  ]
]

laws : BlobLaws config services tt IsPresent
laws = record {
  stable = λ container path. record {
    quiet = quiet container path;
    listing = λ _ _ _ w h. h;
    mark = λ _ _ w h. h;
  };
  deletes_one = deletes_one;
  honest = honest;
}

apart : config.processed_tiles_container ≢ config.raw_viirs_container
apart h = cc

coord : TileCoord
coord = record { z = 5; x = 8; y = 12 }

new_tile : tile_blob_path (codes "new") coord ≡ ok (codes "tiles/new/5/8/12.png")
unfolding tile_blob_path coord validate_tile_coord decimal validate_tile_set_id
new_tile = refl

dry_run-Preserves_example :
    Preserves
      (IsPresent (codes "raw-viirs") (codes "a.h5"))
      (run_retention_cleanup config services tt false)
dry_run-Preserves_example =
    dry_run-Preserves config services tt (IsPresent (codes "raw-viirs") (codes "a.h5"))
      (quiet (codes "raw-viirs") (codes "a.h5"))

unselected :
    (w : World) (cs : List (TileSetRetentionCandidate (Unit {0})))
    → (selection config services tt w).0 ≡ ok cs
    → All (λ c. c.tile_set_id ≢ codes "new") cs
unselected w [] e = tt
unselected w (c ∷ []) e = (ground arith, tt)
unselected w (c ∷ d ∷ cs) e = cc

-- The store with one tile of each set
abbrev before : World
before = record {
  present = λ c p. true;
  paths = codes "tiles/new/5/8/12.png" ∷ codes "tiles/old/5/8/12.png" ∷ [];
  events = 0;
}

unselected_tile-Preserves_example :
    IsPresent
      (codes "processed-tiles")
      (codes "tiles/new/5/8/12.png")
      (run_retention_cleanup config services tt true before).1
unselected_tile-Preserves_example =
    unselected_tile-Preserves config services tt IsPresent laws apart (codes "new")
      (codes "tiles/new/5/8/12.png") coord new_tile true before (unselected before) refl

latest_manifest-Preserves_example :
    Preserves
      (IsPresent (codes "processed-tiles") latest_manifest_blob_path)
      (run_retention_cleanup config services tt true)
latest_manifest-Preserves_example =
    latest_manifest-Preserves config services tt IsPresent laws apart true

-- The run deletes the old set's tile and leaves the new set's.
old_deleted :
    ((run_retention_cleanup config services tt true before).1.present
        (codes "processed-tiles")
        (codes "tiles/old/5/8/12.png")
      ≡ false)
    × ((run_retention_cleanup config services tt true before).1.present
          (codes "processed-tiles")
          (codes "tiles/new/5/8/12.png")
        ≡ true)
unfolding run_retention_cleanup text_eq starts_with manifest_blob_path validate_tile_set_id
    tile_set_prefix validate_manifest_path execute_tile_set_cleanup
old_deleted = (refl, refl)
