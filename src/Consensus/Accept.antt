-- ===== src/Consensus/Accept.antt =====
-- Exactly which headers pass the checks before the proof of work.
use colossusx.Prelude.{
  ℕ, ◌*◌, ◌/◌, ◌≡◌, ◌≢◌, ◌↔◌, sym, true, false, ◌==◌, ok, Bool-cases, either, arith,
}
use colossusx.Prelude.Keys.{bytes_eq, bytes_eq_iff}
use colossusx.Prelude.Slices.{Bytes}
use colossusx.Prelude.Int.{ℤ, ◌≤ℤ◌, add_int64}
use colossusx.Crypto.{Crypto}
use colossusx.Spec.Valid.{IsTyped, IsSized}
use colossusx.Spec.Size.{planned_size, dag_size_for_height-planned}
use colossusx.Types.{BlockHeader, ChainConfig, zero_hash}
use colossusx.Types.Seed.{planned_seed, epoch_seed-planned}
use colossusx.Chain.{MemoryStore}
use colossusx.Consensus.Header.{check_header, check_linkage, IsLinked, check_linkage-IsLinked}

pub record IsAcceptable (c : Crypto) (config : ChainConfig) (store : MemoryStore) (h : BlockHeader)
    (now : ℤ) : Type 0 where
  pub version_matches : h.algorithm_version ≡ config.spec.algorithm_version
  pub size_matches :
      h.dag_size_bytes ≡ planned_size config.spec (h.height / config.spec.epoch_blocks)
  pub seed_matches : h.epoch_seed ≡ planned_seed c config.spec (h.height / config.spec.epoch_blocks)
  pub some_target : h.target ≢ zero_hash
  pub linked : IsLinked store h
  pub in_time : h.timestamp ≤ℤ add_int64 now (2 * 60 * 60)

IsLinked-check_linkage :
    (store : MemoryStore) (h : BlockHeader) → IsLinked store h → check_linkage store h ≡ ok tt
unfolding check_linkage
IsLinked-check_linkage store h l =
    either (Bool-cases (h.height == 0))
      (λ zero. ground (arith, l.genesis (ground arith), bytes_eq_iff h.parent_hash zero_hash))
      (λ pos.
        let (parent, found, next, later) = l.child (ground arith) in rw (pos, found) (ground arith))

module _ (c : Crypto) (config : ChainConfig) (store : MemoryStore) (h : BlockHeader) (now : ℤ)
    (t : IsTyped config.spec) (z : IsSized config.spec) where
  abbrev size_now : ℕ
  size_now = planned_size config.spec (h.height / config.spec.epoch_blocks)

  abbrev seed_now : Bytes
  seed_now = planned_seed c config.spec (h.height / config.spec.epoch_blocks)

  -- What the tests come to, with the planned size and seed in place.
  check_header-tests :
      check_header c config store h now ≡ ok tt
      → (h.algorithm_version ≡ config.spec.algorithm_version)
        × (h.dag_size_bytes ≡ size_now)
        × (bytes_eq seed_now h.epoch_seed ≡ true)
        × (bytes_eq h.target zero_hash ≡ false)
        × (check_linkage store h ≡ ok tt)
        × (h.timestamp ≤ℤ add_int64 now (2 * 60 * 60))
  unfolding check_header
  check_header-tests e = ground (
    arith,
    dag_size_for_height-planned config.spec h.height t z,
    epoch_seed-planned c config.spec h.height t z,
  )

  tests-check_header :
      h.algorithm_version ≡ config.spec.algorithm_version
      → h.dag_size_bytes ≡ size_now
      → bytes_eq seed_now h.epoch_seed ≡ true
      → bytes_eq h.target zero_hash ≡ false
      → check_linkage store h ≡ ok tt
      → h.timestamp ≤ℤ add_int64 now (2 * 60 * 60)
      → check_header c config store h now ≡ ok tt
  unfolding check_header
  tests-check_header v s d g l i = ground (
    arith,
    dag_size_for_height-planned config.spec h.height t z,
    epoch_seed-planned c config.spec h.height t z,
  )

  check_header_sound : check_header c config store h now ≡ ok tt → IsAcceptable c config store h now
  check_header_sound e =
      let (version, size, seed, target, linkage, time) = check_header-tests e in
      record {
        version_matches = version;
        size_matches = size;
        seed_matches = sym ((bytes_eq_iff seed_now h.epoch_seed).0 seed);
        some_target = λ zero. cc ((bytes_eq_iff h.target zero_hash).1 zero);
        linked = check_linkage-IsLinked store h linkage;
        in_time = time;
      }

  bytes_ne : (a b : Bytes) → a ≢ b → bytes_eq a b ≡ false
  bytes_ne a b ne = ground (arith, bytes_eq_iff a b)

  check_header_complete :
      IsAcceptable c config store h now → check_header c config store h now ≡ ok tt
  check_header_complete a =
      tests-check_header a.version_matches a.size_matches
        ((bytes_eq_iff seed_now h.epoch_seed).1 (sym a.seed_matches))
        (bytes_ne h.target zero_hash a.some_target) (IsLinked-check_linkage store h a.linked)
        a.in_time

  -- For a valid configuration, a header passes every check before the proof of work exactly if it
  -- has the configured version, the planned DAG size and seed of its epoch, a target that is not
  -- zero, and a timestamp at most two hours ahead of the clock; and at height 0 the zero parent, else
  -- a stored parent of the height below and an earlier timestamp.
  pub check_header_iff :
      (check_header c config store h now ≡ ok tt) ↔ IsAcceptable c config store h now
  check_header_iff = (check_header_sound, check_header_complete)
