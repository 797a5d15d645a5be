-- ===== src/Node/Mined.antt =====
-- A round of the node's loop extends the chain: the block that it mines becomes the tip.
use colossusx.Prelude.{
  ℕ, ◌+◌, ◌*◌, ◌/◌, ◌<◌, ◌≤◌, ◌^◌, ◌≡◌, ◌≢◌, sym, ◌⊎◌, Bool, true, false, [], none, some, Go, ok,
  err, panic, stuck, Error,
}
use colossusx.Prelude.Keys.{bytes_key}
use colossusx.Prelude.Endian.{be_value}
use colossusx.Prelude.Slices.{Bytes}
use colossusx.Prelude.Int.{ℤ, IsInt64, pos_part, ◌≤ℤ◌}
use colossusx.Crypto.{Crypto}
use colossusx.Spec.{u64_mod}
use colossusx.Target.{IsHash}
use colossusx.Types.{Block, BlockHeader, block_hash, zero_hash}
use colossusx.Chain.{MemoryStore, Writes, Succeeds, has_block, current_tip}
use colossusx.Chain.Laws.{current_tip-found}
use colossusx.Consensus.Cache.{Env, cpu_hash}
use colossusx.Consensus.Cache.Verdict.{IsSound, Serves}
use colossusx.Consensus.Invariant.{IsBestTip, IsConsistent}
use colossusx.Consensus.Invariant.Result.{Inserts}
use colossusx.Consensus.Answer.{light_verdict}
use colossusx.Consensus.Seal.{with_nonce}
use colossusx.Consensus.Seal.Search.{MayTry}
use colossusx.Node.Template.{IsTimely, made_header}

-- The clock has not gone back when the block is inserted.
pub record IsLater (now later : ℤ) : Type 0 where
  pub after : now ≤ℤ later
  pub clock : IsInt64 later
  pub clock_room : pos_part later + 2 * 60 * 60 < 2 ^ 63

-- A stored tip is what `CurrentTip` and `GetHeader` return, and is not the zero hash.
module _ (c : Crypto) (s : MemoryStore) (con : IsConsistent c s) (tip : IsBestTip s) where
  tip_nonzero : s.current_tip ≢ zero_hash
  tip_nonzero e = let none_there = con.chain.no_zero in cc (tip.stored, none_there)

  pub tip_found : current_tip s ≡ ok (tip.tip_block, tip.tip_work)
  tip_found = current_tip-found s tip_nonzero tip.stored tip.worked

  pub tip_hash : block_hash c tip.tip_block ≡ s.current_tip
  tip_hash = con.chain.keyed s.current_tip tip.tip_block tip.stored

module _ (e : Env) (sound : IsSound e) (cpu : e.backend_hash ≡ cpu_hash e.crypto) (ws : Writes)
    (writes : Succeeds ws) (bits : Bytes) (height_text : ℕ → Bytes) (max_nonces : ℕ)
    (store : MemoryStore) (now later : ℤ) (con : IsConsistent e.crypto store)
    (tip : IsBestTip store) where
  open e use {crypto, config}

  -- The header that the node mines on, on the store's tip.
  abbrev pub mined_header : BlockHeader
  mined_header = made_header crypto config store bits height_text now tip.tip_block

  abbrev pub unsealed : Block
  unsealed = record { header = mined_header; transactions = [] }

  abbrev pub sealed_block : ℕ → Block
  sealed_block n = record { header = with_nonce mined_header n; transactions = [] }

  -- The node can mine: the initial size is given, the target is not zero, the height and the clocks
  -- leave room, both allocators serve the DAG size planned for the height, and the hash of no header that may be tried is zero or the hash of a stored block.
  pub record IsMineable : Type 0 where
    pub given_size : config.spec.initial_dag_size_bytes ≢ 0
    pub target : IsHash bits
    pub some_target : be_value bits ≢ 0
    pub room : tip.tip_block.header.height + 1 < u64_mod
    pub timely : IsTimely now tip.tip_block.header.timestamp
    pub clock : IsLater now later
    pub served : Serves e (tip.tip_block.header.height + 1)
    pub nonzero :
        (n : ℕ) → MayTry e sound cpu max_nonces n → block_hash crypto (sealed_block n) ≢ zero_hash
    pub new :
        (n : ℕ)
        → MayTry e sound cpu max_nonces n
        → has_block store (block_hash crypto (sealed_block n)) ≡ false

  module _ (able : IsMineable) where
    -- What a round comes to.
    abbrev pub Round : MemoryStore → Go Bool → Type 0
    Round s' r =
        ((n : ℕ) × (w : ℕ) × MayTry e sound cpu max_nonces n
          × (r ≡ ok true)
          × (s'.current_tip ≡ block_hash crypto (sealed_block n))
          × Inserts crypto ws store (sealed_block n) s' w true)
        ⊎ ((r ≡ err Error.no_solution)
            × (s' ≡ store)
            × ((n : ℕ)
                → MayTry e sound cpu max_nonces n
                → light_verdict e sound cpu (with_nonce mined_header n) ≡ err Error.invalid_pow))
