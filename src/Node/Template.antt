-- ===== src/Node/Template.antt =====
-- The header that the node mines on passes the validator's checks.
use colossusx.Prelude.{
  ℕ, ◌+◌, ◌*◌, ◌/◌, ◌%◌, ◌<◌, ◌^◌, ◌≡◌, ◌≢◌, refl, either, Bool-cases, ok, arith,
}
use colossusx.Prelude.Slices.{Bytes}
use colossusx.Prelude.Int.{ℤ, IsInt64, pos_part, ltb_ℤ, ◌<ℤ◌, ◌≤ℤ◌, add_int64, add_int64-exact}
use colossusx.Prelude.Hex.{hex_encode}
use colossusx.Crypto.{Crypto}
use colossusx.Spec.{u64_mod}
use colossusx.Spec.Valid.{IsTyped, IsSized}
use colossusx.Spec.Size.{planned_size}
use colossusx.Spec.Epoch.{resolved_for_height-resolved}
use colossusx.Types.{Block, BlockHeader, ChainConfig, block_hash, zero_hash}
use colossusx.Types.Seed.{planned_seed, epoch_seed-planned, epoch_seed-resolved}
use colossusx.Chain.{MemoryStore, get_header}
use colossusx.Consensus.Accept.{IsAcceptable}
use colossusx.Node.{max, next_header}

-- The clock and the parent's timestamp leave room for the additions, and the parent is less than
-- two hours ahead of the clock.
pub record IsTimely (now parent : ℤ) : Type 0 where
  pub clock : IsInt64 now
  pub clock_room : pos_part now + 2 * 60 * 60 < 2 ^ 63
  pub before : IsInt64 parent
  pub before_room : pos_part parent + 1 < 2 ^ 63
  pub near : parent <ℤ add_int64 now (2 * 60 * 60)

max-timely :
    (now parent : ℤ)
    → IsTimely now parent
    → (parent <ℤ max now (add_int64 parent 1))
      × (max now (add_int64 parent 1) ≤ℤ add_int64 now (2 * 60 * 60))
unfolding max
max-timely now parent t =
    let later = add_int64-exact now (2 * 60 * 60) t.clock t.clock_room in
    let next = add_int64-exact parent 1 t.before t.before_room in
    either (Bool-cases (ltb_ℤ (add_int64 parent 1) now))
      (λ less. rw less (ground (arith, later, next), ground (arith, later, next)))
      (λ more. rw more (ground (arith, later, next), ground (arith, later, next, t.near)))

module _ (c : Crypto) (config : ChainConfig) (store : MemoryStore) (bits : Bytes)
    (height_text : ℕ → Bytes) (now : ℤ) (tip : Block) where
  abbrev pub next_height : ℕ
  next_height = tip.header.height + 1

  abbrev pub made_header : BlockHeader
  made_header = record {
    version = 1;
    algorithm_version = config.spec.algorithm_version;
    height = next_height;
    parent_hash = block_hash c tip;
    timestamp = max now (add_int64 tip.header.timestamp 1);
    target = bits;
    nonce = 0;
    epoch_seed = planned_seed c config.spec (next_height / config.spec.epoch_blocks);
    dag_size_bytes = planned_size config.spec (next_height / config.spec.epoch_blocks);
    tx_root = c.sha256 (height_text next_height);
    state_root = c.sha256 (hex_encode (block_hash c tip));
  }

  pub next_header-made :
      IsTyped config.spec
      → IsSized config.spec
      → config.spec.initial_dag_size_bytes ≢ 0
      → next_height < u64_mod
      → next_header c config.spec bits height_text now tip ≡ ok made_header
  unfolding next_header
  next_header-made t z set low =
      let same : (tip.header.height + 1) % u64_mod ≡ next_height = ground arith in
      rw
        (
          same,
          resolved_for_height-resolved config.spec next_height t z,
          epoch_seed-resolved c config.spec next_height next_height set,
          epoch_seed-planned c config.spec next_height t z,
        )
        refl

  -- With valid parameters whose initial size is given, a target that is not zero and a tip that is
  -- stored, below the largest height and timely, `mineNextBlock` makes a header on the tip that
  -- passes every check of the validator before the proof of work.
  pub next_header-IsAcceptable :
      IsTyped config.spec
      → IsSized config.spec
      → config.spec.initial_dag_size_bytes ≢ 0
      → bits ≢ zero_hash
      → get_header store (block_hash c tip) ≡ ok tip.header
      → tip.header.height + 1 < u64_mod
      → IsTimely now tip.header.timestamp
      → (h : BlockHeader) × (next_header c config.spec bits height_text now tip ≡ ok h)
        × (h.parent_hash ≡ block_hash c tip)
        × IsAcceptable c config store h now
  next_header-IsAcceptable t z set some_bits stored low timely =
      let (after, near) = max-timely now tip.header.timestamp timely in
      (
        made_header,
        next_header-made t z set low,
        refl,
        record {
          version_matches = refl;
          size_matches = refl;
          seed_matches = refl;
          some_target = some_bits;
          linked = record {
            genesis = λ zero_height. absurd (omega arith);
            child = λ _. (tip.header, stored, ground arith, after);
          };
          in_time = near;
        },
      )
