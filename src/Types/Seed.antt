-- ===== src/Types/Seed.antt =====
-- The epoch seed: what it depends on, and that resolved parameters give the same one.
use colossusx.Prelude.{ℕ, ◌/◌, ◌≡◌, ◌≢◌, ◌++◌, ok, arith}
use colossusx.Prelude.Slices.{Bytes}
use colossusx.Prelude.Endian.{be}
use colossusx.Crypto.{Crypto}
use colossusx.Spec.{Spec}
use colossusx.Spec.Valid.{IsTyped, IsSized}
use colossusx.Spec.Size.{planned_size, dag_size_for_height-planned}
use colossusx.Spec.Epoch.{resolved, size_of_resolved}
use colossusx.Types.{epoch_seed_for_height}

module _ (c : Crypto) where
  -- The seed of an epoch, from its number and the size of its DAG.
  abbrev pub planned_seed : Spec → ℕ → Bytes
  planned_seed s epoch = c.sha256 (be 8 epoch ++ be 8 (planned_size s epoch))

  pub epoch_seed-planned :
      (s : Spec) (height : ℕ)
      → IsTyped s
      → IsSized s
      → epoch_seed_for_height c s height ≡ ok (planned_seed s (height / s.epoch_blocks))
  unfolding epoch_seed_for_height
  epoch_seed-planned s height t z =
      ground (arith, dag_size_for_height-planned s height t z, z.epoch_pos)

  -- All blocks of one epoch have one seed.
  epoch_seed-same_epoch :
      (s : Spec) (h k : ℕ)
      → IsTyped s
      → IsSized s
      → h / s.epoch_blocks ≡ k / s.epoch_blocks
      → epoch_seed_for_height c s h ≡ epoch_seed_for_height c s k
  epoch_seed-same_epoch s h k t z e = rw (epoch_seed-planned s h t z, epoch_seed-planned s k t z, e)

  -- The miner takes the seed from resolved parameters and the validator from the configured ones:
  -- if the initial size is given, the two agree at every height.
  pub epoch_seed-resolved :
      (s : Spec) (h k : ℕ)
      → s.initial_dag_size_bytes ≢ 0
      → epoch_seed_for_height c (resolved s k) h ≡ epoch_seed_for_height c s h
  unfolding epoch_seed_for_height
  epoch_seed-resolved s h k set = rw (size_of_resolved s h k set)
