-- ===== src/Node/Receive.antt =====
-- A block of a peer cannot break the node's state.
use colossusx.Prelude.{
  ◌≡◌, ◌≢◌, ap, ◌∙◌, ◌⊎◌, inl, inr, Error, either, Bool, true, false, Bool-cases, if-true, if-false,
}
use colossusx.Prelude.Keys.{bytes_eq, bytes_eq_iff}
use colossusx.Prelude.Int.{ℤ}
use colossusx.Types.{Block, block_hash, zero_hash}
use colossusx.Chain.{MemoryStore, Writes, has_block}
use colossusx.Consensus.Accept.{IsAcceptable}
use colossusx.Consensus.Cache.{Env, Caches, cpu_hash}
use colossusx.Consensus.Cache.Verdict.{IsSound, Serves, AreFresh}
use colossusx.Consensus.Insert.{Inserted}
use colossusx.Consensus.Invariant.{IsConsistent}
use colossusx.Consensus.Invariant.Result.{Unwritten}
use colossusx.Consensus.Validate.{insert_block}
use colossusx.Consensus.Answer.{insert_block-Answer}
use colossusx.Node.{Received, sends_status, on_new_block}

module _ (e : Env) (sound : IsSound e) (cpu : e.backend_hash ≡ cpu_hash e.crypto)
    (ws : Writes) where
  abbrev received : Caches × Inserted → Received
  received p = (p.0, p.1.0, sends_status p.1.1)

  on_new_block-zero :
      (m : Caches) (s : MemoryStore) (block : Block) (now : ℤ)
      → bytes_eq (block_hash e.crypto block) zero_hash ≡ true
      → on_new_block e ws m s block now ≡ (m, s, false)
  unfolding on_new_block
  on_new_block-zero m s block now z = if-true _ _ _ z

  on_new_block-known :
      (m : Caches) (s : MemoryStore) (block : Block) (now : ℤ)
      → bytes_eq (block_hash e.crypto block) zero_hash ≡ false
      → has_block s (block_hash e.crypto block) ≡ true
      → on_new_block e ws m s block now ≡ (m, s, false)
  unfolding on_new_block
  on_new_block-known m s block now nz known = if-false _ _ _ nz ∙ if-true _ _ _ known

  on_new_block-new :
      (m : Caches) (s : MemoryStore) (block : Block) (now : ℤ)
      → bytes_eq (block_hash e.crypto block) zero_hash ≡ false
      → has_block s (block_hash e.crypto block) ≡ false
      → on_new_block e ws m s block now ≡ received (insert_block e ws m s block now)
  unfolding on_new_block
  on_new_block-new m s block now nz new = if-false _ _ _ nz ∙ if-false _ _ _ new

  -- What is left behind a block of a peer: a consistent store, or the store with the new block whose
  -- write failed in its maps.
  abbrev pub Handled : MemoryStore → Block → MemoryStore → Type 0
  Handled s block s' = IsConsistent e.crypto s' ⊎ ((x : Error) × Unwritten e.crypto ws s block s' x)

  -- In a sound environment with the CPU backend, `onNewBlock` takes fresh caches and a consistent
  -- store of any kind to fresh caches and a consistent store, for every block that a peer sends, with
  -- no other call beside it,
  -- unless the block is new and its write fails. If its header passes all checks, both allocators
  -- must serve the DAG size planned for its height. If the write fails, the error is dropped, the caches are fresh, and
  -- the block and its total work are in the store's maps, whose chain keeps all laws, but no tip was
  -- chosen.
  pub on_new_block-Handled :
      (m : Caches) (s : MemoryStore) (block : Block) (now : ℤ)
      → AreFresh e m
      → IsConsistent e.crypto s
      → (IsAcceptable e.crypto e.config s block.header now → Serves e block.header.height)
      → (m' : Caches) × (s' : MemoryStore) × (sent : Bool) × (on_new_block e ws m s block now
          ≡ (m', s', sent))
        × AreFresh e m'
        × Handled s block s'
  on_new_block-Handled m s block now fresh con served =
      either (Bool-cases (bytes_eq (block_hash e.crypto block) zero_hash))
        (λ z. (m, s, false, on_new_block-zero m s block now z, fresh, inl con))
        (λ nz.
          either (Bool-cases (has_block s (block_hash e.crypto block)))
            (λ known. (m, s, false, on_new_block-known m s block now nz known, fresh, inl con))
            (λ new.
              let nonzero : block_hash e.crypto block ≢ zero_hash =
                λ z. cc ((bytes_eq_iff (block_hash e.crypto block) zero_hash).1 z) in
              let (m', s', r, a) =
                insert_block-Answer e sound cpu ws m s block now fresh con served nonzero in
              (
                m',
                s',
                sends_status r,
                on_new_block-new m s block now nz new ∙ ap received a.run,
                a.fresh,
                either a.outcome (λ (con', _). inl con')
                    (λ failed. inr (failed.error, failed.unwritten)),
              )))
