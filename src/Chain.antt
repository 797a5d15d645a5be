-- ===== src/Chain.antt =====
-- pkg/chain/memory.go: the block store. A method that takes the lock runs as one step, and returns
-- the new store. Total work is a `*big.Int`, a number.
pub mod Laws
use colossusx.Prelude.{
  ℕ, ◌≡◌, Bool, true, false, not, ◌&&◌, ◌==◌, if◌then◌else◌, List, [], Option, none, some, Go, ok,
  err, ◌>>=◌, Error,
}
use colossusx.Prelude.Keys.{bytes_eq, number_eq, bytes_key}
use colossusx.Prelude.Maps.{Map, lookup, insert, has}
use colossusx.Prelude.Slices.{Bytes}
use colossusx.Prelude.Int.{pos}
use colossusx.Crypto.{Crypto}
use colossusx.Types.{Block, BlockHeader, block_hash, zero_hash}

pub record MemoryStore : Type 0 where
  pub genesis_hash : Bytes
  pub current_tip : Bytes
  pub blocks : Map Bytes Block
  pub heights : Map ℕ Bytes
  pub total_work : Map Bytes ℕ

-- What `StoreBlock` and `SetCurrentTip` of a store return when its fields are changed: nothing for a
-- `MemoryStore`; for a `DiskStore`, whose fields are the same, the error of the write of its file.
-- `InsertBlock` and `InitGenesis` call each of them once at most, so that a function of the store is
-- any course of a run.
pub record Writes : Type 0 where
  pub stored : MemoryStore → Option Error
  pub moved : MemoryStore → Option Error

abbrev pub in_memory : Writes
in_memory = record { stored = λ s. none; moved = λ s. none }

-- Every write succeeds.
pub record Succeeds (ws : Writes) : Type 0 where
  pub stored : (s : MemoryStore) → ws.stored s ≡ none
  pub moved : (s : MemoryStore) → ws.moved s ≡ none

-- `if err != nil { return err }`, of an error that may be nil
abbrev pub unless_error : {A : Type 0} → Option Error → Go A → Go A
unless_error none r = r
unless_error (some x) r = err x

-- the zero value that a missing key of a map yields
abbrev pub zero_block : Block
zero_block = record {
  header = record {
    version = 0;
    algorithm_version = 0;
    height = 0;
    parent_hash = zero_hash;
    timestamp = pos 0;
    target = zero_hash;
    nonce = 0;
    epoch_seed = zero_hash;
    dag_size_bytes = 0;
    tx_root = zero_hash;
    state_root = zero_hash;
  };
  transactions = [];
}

-- `NewMemoryStore`
unfoldable pub new_memory_store : MemoryStore
new_memory_store = record {
  genesis_hash = zero_hash;
  current_tip = zero_hash;
  blocks = [];
  heights = [];
  total_work = [];
}

abbrev pub or_not_found : {A : Type 0} → Option A → Go A
or_not_found none = err Error.block_not_found
or_not_found (some a) = ok a

-- `StoreBlock`, which never fails in memory
unfoldable pub store_block : Crypto → Block → ℕ → MemoryStore → MemoryStore
store_block c block work m =
    let hash = block_hash c block in
    record m {
      blocks = insert hash block m.blocks;
      heights = insert block.header.height hash m.heights;
      total_work = insert hash work m.total_work;
      genesis_hash =
          if block.header.height == 0 && bytes_eq m.genesis_hash zero_hash
          then hash
          else m.genesis_hash;
      current_tip = if bytes_eq m.current_tip zero_hash then hash else m.current_tip;
    }

-- `GetBlock`
unfoldable pub get_block : MemoryStore → Bytes → Go Block
get_block m hash = or_not_found (lookup hash m.blocks)

-- `GetHeader`
unfoldable pub get_header : MemoryStore → Bytes → Go BlockHeader
unfolding get_block
get_header m hash = do block ← get_block m hash; ok block.header

-- `m.blocks[hash]` with no test for presence
abbrev pub block_or_zero : Option Block → Block
block_or_zero none = zero_block
block_or_zero (some b) = b

abbrev pub work_or_zero : Option ℕ → ℕ
work_or_zero none = 0
work_or_zero (some w) = w

-- `GetBlockByHeight`
unfoldable pub get_block_by_height : MemoryStore → ℕ → Go Block
get_block_by_height m height = do
  hash ← or_not_found (lookup height m.heights)
  ok (block_or_zero (lookup hash m.blocks))

-- `CurrentTip`
unfoldable pub current_tip : MemoryStore → Go (Block × ℕ)
current_tip m =
    if bytes_eq m.current_tip zero_hash
    then err Error.block_not_found
    else ok (
      block_or_zero (lookup m.current_tip m.blocks),
      work_or_zero (lookup m.current_tip m.total_work),
    )

-- `SetCurrentTip`
unfoldable pub set_current_tip : MemoryStore → Bytes → Go MemoryStore
set_current_tip m hash =
    if not (has hash m.blocks)
    then err Error.block_not_found
    else ok (record m { current_tip = hash })

-- `TotalWork`
unfoldable pub total_work : MemoryStore → Bytes → Go ℕ
total_work m hash = or_not_found (lookup hash m.total_work)

-- `HasBlock`
unfoldable pub has_block : MemoryStore → Bytes → Bool
has_block m hash = has hash m.blocks
