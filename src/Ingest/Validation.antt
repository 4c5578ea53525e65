-- ===== src/Ingest/Validation.antt =====
-- The check of a granule's raw bytes.
use lumen_horizon.Prelude.{
  ℕ, ltb, List, [], ◌∷◌, length, not, if◌then◌else◌, Result, ok, err, ◌++◌, ◌≡◌, arith, ◌↔◌,
  Bool-cases, inl, inr, true, false, refl,
}
use lumen_horizon.Text.{starts_with, starts_with_elim}

pub data RawGranuleValidationError : Type 0 where
  missing_hdf5_magic : RawGranuleValidationError
  too_small : ℕ → ℕ → RawGranuleValidationError

-- `\x89HDF\r\n\x1A\n`
abbrev pub hdf5_magic : List ℕ
hdf5_magic = 0x89 ∷ b'H' ∷ b'D' ∷ b'F' ∷ 13 ∷ 10 ∷ 0x1a ∷ 10 ∷ []

unfoldable pub validate_raw_granule_bytes : List ℕ → Result RawGranuleValidationError (Unit {0})
unfolding starts_with
validate_raw_granule_bytes bytes =
    if ltb (length bytes) (length hdf5_magic)
    then err (too_small (length bytes) (length hdf5_magic))
    else if not (starts_with hdf5_magic bytes)
    then err missing_hdf5_magic
    else ok tt

long_enough : (rest : List ℕ) → ltb (length (hdf5_magic ++ rest)) (length hdf5_magic) ≡ false
long_enough rest = ground arith

accepts : (rest : List ℕ) → validate_raw_granule_bytes (hdf5_magic ++ rest) ≡ ok tt
unfolding validate_raw_granule_bytes
accepts rest = rw (long_enough rest) refl

accepted :
    (bytes : List ℕ)
    → validate_raw_granule_bytes bytes ≡ ok tt
    → starts_with hdf5_magic bytes ≡ true
unfolding validate_raw_granule_bytes
accepted bytes h = elim (Bool-cases (ltb (length bytes) (length hdf5_magic))) [
  | inl short ↦ absurd (cc (rw short at h))
  | inr long ↦ elim (Bool-cases (starts_with hdf5_magic bytes)) [
    | inl e ↦ e
    | inr e ↦ absurd (cc (rw (long, e) at h))
  ]
]

-- The check accepts exactly the magic number followed by any bytes.
pub validate_raw_granule_bytes_iff :
    (bytes : List ℕ)
    → (validate_raw_granule_bytes bytes ≡ ok tt) ↔ ((rest : List ℕ) × (bytes ≡ hdf5_magic ++ rest))
validate_raw_granule_bytes_iff bytes =
    (λ h. starts_with_elim hdf5_magic bytes (accepted bytes h), λ (rest, e). rw e (accepts rest))
