-- ===== src/Consensus/Header.antt =====
-- The checks of `ValidateHeader` that come before the proof of work.
use colossusx.Prelude.{
  ◌+◌, ◌*◌, ◌%◌, ◌≡◌, ◌≢◌, refl, not, ◌==◌, if◌then◌else◌, Go, ok, err, panic, stuck, refuse, ◌>>=◌,
  ◌>>◌, Error, arith,
}
use colossusx.Prelude.Keys.{bytes_eq, bytes_eq_iff}
use colossusx.Prelude.Int.{ℤ, ltb_ℤ, leb_ℤ, ◌<ℤ◌, add_int64}
use colossusx.Crypto.{Crypto}
use colossusx.Spec.{dag_size_for_height, u64_mod}
use colossusx.Types.{BlockHeader, ChainConfig, zero_hash, epoch_seed_for_height}
use colossusx.Chain.{MemoryStore, get_header}

-- `fmt.Errorf("%w: %v", ErrInvalidParent, err)` for a parent that the store does not return
abbrev pub parent_or_invalid : Go BlockHeader → Go BlockHeader
parent_or_invalid (ok h) = ok h
parent_or_invalid (err e) = err Error.invalid_parent
parent_or_invalid panic = panic
parent_or_invalid stuck = stuck

-- the branch on the height
unfoldable pub check_linkage : MemoryStore → BlockHeader → Go (Unit {0})
check_linkage store h =
    if h.height == 0
    then refuse (not (bytes_eq h.parent_hash zero_hash)) Error.invalid_parent
    else (do
      parent ← parent_or_invalid (get_header store h.parent_hash)
      refuse (not ((parent.height + 1) % u64_mod == h.height)) Error.invalid_parent
      refuse (leb_ℤ h.timestamp parent.timestamp) Error.invalid_timestamp)

-- `ValidateHeader` up to the call of `validatePoW`; `now` is `v.now().Unix()`
unfoldable pub check_header : Crypto → ChainConfig → MemoryStore → BlockHeader → ℤ → Go (Unit {0})
check_header c config store h now = do
  refuse (not (h.algorithm_version == config.spec.algorithm_version)) Error.invalid_epoch
  expected_size ← dag_size_for_height config.spec h.height
  refuse (not (h.dag_size_bytes == expected_size)) Error.invalid_epoch
  expected_seed ← epoch_seed_for_height c config.spec h.height
  refuse (not (bytes_eq expected_seed h.epoch_seed)) Error.invalid_epoch
  refuse (bytes_eq h.target zero_hash) Error.invalid_target
  check_linkage store h
  refuse (ltb_ℤ (add_int64 now (2 * 60 * 60)) h.timestamp) Error.invalid_timestamp

-- What a header that passes has to do with its parent.
pub record IsLinked (store : MemoryStore) (h : BlockHeader) : Type 0 where
  pub genesis : h.height ≡ 0 → h.parent_hash ≡ zero_hash
  pub child :
      h.height ≢ 0
      → (parent : BlockHeader) × (get_header store h.parent_hash ≡ ok parent)
        × ((parent.height + 1) % u64_mod ≡ h.height)
        × (parent.timestamp <ℤ h.timestamp)

check_linkage-genesis :
    (store : MemoryStore) (h : BlockHeader)
    → check_linkage store h ≡ ok tt
    → h.height ≡ 0
    → h.parent_hash ≡ zero_hash
unfolding check_linkage
check_linkage-genesis store h e z = ground (arith, bytes_eq_iff h.parent_hash zero_hash)

check_linkage-child :
    (store : MemoryStore) (h : BlockHeader)
    → check_linkage store h ≡ ok tt
    → h.height ≢ 0
    → (parent : BlockHeader) × (get_header store h.parent_hash ≡ ok parent)
      × ((parent.height + 1) % u64_mod ≡ h.height)
      × (parent.timestamp <ℤ h.timestamp)
unfolding check_linkage
check_linkage-child store h e nz = go (get_header store h.parent_hash) refl
  where
    go :
        (r : Go BlockHeader)
        → get_header store h.parent_hash ≡ r
        → (parent : BlockHeader) × (get_header store h.parent_hash ≡ ok parent)
          × ((parent.height + 1) % u64_mod ≡ h.height)
          × (parent.timestamp <ℤ h.timestamp)
    go (ok parent) p = (parent, p, ground arith, ground arith)
    go (err x) p = absurd (ground arith)
    go panic p = absurd (ground arith)
    go stuck p = absurd (ground arith)

pub check_linkage-IsLinked :
    (store : MemoryStore) (h : BlockHeader) → check_linkage store h ≡ ok tt → IsLinked store h
check_linkage-IsLinked store h e = record {
  genesis = check_linkage-genesis store h e;
  child = check_linkage-child store h e;
}
