-- ===== src/Consensus/Invariant.antt =====
-- What holds of a store between two insertions, and the cases of the step that stores a block.
pub mod Stored
pub mod Tip
pub mod Result
use colossusx.Prelude.{ℕ, ◌+◌, ◌%◌, ◌≡◌, ◌≢◌, ◌⊎◌, Option, none, some}
use colossusx.Prelude.Maps.{lookup}
use colossusx.Prelude.Keys.{bytes_key}
use colossusx.Prelude.Slices.{Bytes}
use colossusx.Prelude.Int.{◌<ℤ◌}
use colossusx.Crypto.{Crypto}
use colossusx.Spec.{u64_mod}
use colossusx.Types.{Block, block_hash, zero_hash}
use colossusx.Chain.{MemoryStore}
use colossusx.Consensus.Work.{calc_block_work, Beats}

-- The total work of a stored block: its own at height 0, else its own and that of its parent, which
-- is stored, one height below and earlier.
pub record IsWork (s : MemoryStore) (b : Block) (w : ℕ) : Type 0 where
  pub at_genesis : b.header.height ≡ 0 → w ≡ calc_block_work b.header.target
  pub above :
      b.header.height ≢ 0
      → (p : Block) × (v : ℕ) × (lookup b.header.parent_hash s.blocks ≡ some p)
        × (lookup b.header.parent_hash s.total_work ≡ some v)
        × (w ≡ calc_block_work b.header.target + v)
        × ((p.header.height + 1) % u64_mod ≡ b.header.height)
        × (p.header.timestamp <ℤ b.header.timestamp)

-- Every block is stored under its hash and beside its total work, and nothing else has work.
pub record IsChain (c : Crypto) (s : MemoryStore) : Type 0 where
  pub keyed : (k : Bytes) (b : Block) → lookup k s.blocks ≡ some b → block_hash c b ≡ k
  pub no_zero : lookup zero_hash s.blocks ≡ none
  pub worked :
      (k : Bytes) (b : Block)
      → lookup k s.blocks ≡ some b
      → (w : ℕ) × (lookup k s.total_work ≡ some w) × IsWork s b w
  pub only_blocks :
      (k : Bytes) (w : ℕ)
      → lookup k s.total_work ≡ some w
      → (b : Block) × (lookup k s.blocks ≡ some b)

-- The tip is a stored block that beats every other stored block.
pub record IsBestTip (s : MemoryStore) : Type 0 where
  pub tip_block : Block
  pub tip_work : ℕ
  pub stored : lookup s.current_tip s.blocks ≡ some tip_block
  pub worked : lookup s.current_tip s.total_work ≡ some tip_work
  pub best :
      (k : Bytes) (w : ℕ)
      → lookup k s.total_work ≡ some w
      → (k ≡ s.current_tip) ⊎ Beats s.current_tip tip_work k w

-- An empty store has the zero tip.
pub record IsEmpty (s : MemoryStore) : Type 0 where
  pub zero_tip : s.current_tip ≡ zero_hash
  pub nothing : (k : Bytes) → lookup k s.total_work ≡ none

pub record IsConsistent (c : Crypto) (s : MemoryStore) : Type 0 where
  pub chain : IsChain c s
  pub tip : IsEmpty s ⊎ IsBestTip s
