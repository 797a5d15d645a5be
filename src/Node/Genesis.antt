-- ===== src/Node/Genesis.antt =====
-- `InitGenesis` on a store without a tip: the genesis block is sealed, stored and made the tip.
use colossusx.Prelude.{
  ℕ, ◌/◌, ◌≡◌, ◌≢◌, refl, sym, ap, subst, ◌∙◌, ◌⊎◌, inl, inr, either, if-true, Option-cases, none,
  some, List, [], ◌++◌, Error, Go, ok, err, arith,
}
use colossusx.Prelude.Keys.{bytes_eq_iff, bytes_key, number_eq}
use colossusx.Prelude.Maps.{lookup}
use colossusx.Prelude.Slices.{Bytes}
use colossusx.Prelude.Endian.{be}
use colossusx.Crypto.{Crypto}
use colossusx.Spec.{Spec}
use colossusx.Spec.Valid.{IsTyped, IsSized, validate-IsSized}
use colossusx.Spec.Size.{planned_size}
use colossusx.Spec.Epoch.{resolved_for_height-resolved}
use colossusx.Types.{GenesisConfig, new_genesis_block, Block, block_hash, zero_hash}
use colossusx.Types.Seed.{planned_seed, epoch_seed-planned, epoch_seed-resolved}
use colossusx.Chain.{MemoryStore, Writes, Succeeds, store_block, current_tip}
use colossusx.Chain.Laws.{insert-split, set_current_tip-found}
use colossusx.Consensus.Work.{calc_block_work}
use colossusx.Consensus.Cache.{Env, Caches, cpu_hash}
use colossusx.Consensus.Cache.Verdict.{IsSound, Serves, IsPlanned, AreFresh}
use colossusx.Consensus.Answer.{light_verdict}
use colossusx.Consensus.Seal.{cpu_backend, seal_block, with_nonce}
use colossusx.Consensus.Seal.Search.{MayTry, EnoughTurns, seal_block-Sealed}
use colossusx.Consensus.Invariant.{IsChain, IsEmpty, IsBestTip, IsConsistent}
use colossusx.Consensus.Invariant.Stored.{new_work, new_block, after-IsChain}
use colossusx.Consensus.Invariant.Tip.{with_tip}
use colossusx.Consensus.Invariant.Result.{with_tip-IsChain}
use colossusx.Node.{init_genesis, make_genesis, store_genesis}

module _ (c : Crypto) (s : MemoryStore) (con : IsConsistent c s) where
  -- A store with the zero tip is empty.
  pub zero_tip-IsEmpty : s.current_tip ≡ zero_hash → IsEmpty s
  zero_tip-IsEmpty z =
      either con.tip (λ empty. empty)
        (λ tip. let stored = tip.stored in let none_there = con.chain.no_zero in absurd (cc))

  module _ (empty : IsEmpty s) (block : Block) (nz : block_hash c block ≢ zero_hash)
      (first : block.header.height ≡ 0) where
    work : ℕ
    work = calc_block_work block.header.target

    no_block : (k : Bytes) → lookup k s.blocks ≡ none
    no_block k =
        either (Option-cases (lookup k s.blocks)) (λ nothing. nothing)
          (λ (b, there).
            let (w, worked, _) = con.chain.worked k b there in
            let nothing = empty.nothing k in absurd (cc))

    -- What `StoreBlock` and `SetCurrentTip` make of an empty store.
    abbrev pub begun : MemoryStore
    begun =
        with_tip (store_block c block (calc_block_work block.header.target) s) (block_hash c block)

    begun-IsChain : IsChain c begun
    begun-IsChain =
        with_tip-IsChain c (store_block c block (calc_block_work block.header.target) s)
          (block_hash c block)
          (after-IsChain c s block (calc_block_work block.header.target)
            (no_block (block_hash c block)) con.chain nz
            (record { at_genesis = λ z. refl; above = λ high. absurd (high first) }))

    begun-IsBestTip : IsBestTip begun
    unfolding store_block
    begun-IsBestTip = record {
      tip_block = block;
      tip_work = calc_block_work block.header.target;
      stored =
          new_block c s block (calc_block_work block.header.target) (no_block (block_hash c block));
      worked =
          new_work c s block (calc_block_work block.header.target) (no_block (block_hash c block));
      best = λ k w found.
          either
            (insert-split (block_hash c block) k (calc_block_work block.header.target) s.total_work
              found)
            (λ (same, _). inl (sym same))
            (λ (_, old). let nothing = empty.nothing k in absurd (cc));
    }

    pub begun-IsConsistent : IsConsistent c begun
    begun-IsConsistent = record { chain = begun-IsChain; tip = inr begun-IsBestTip }

    pub begun-stored : lookup (block_hash c block) begun.blocks ≡ some block
    begun-stored =
        new_block c s block (calc_block_work block.header.target) (no_block (block_hash c block))

    pub store_genesis-run :
        (ws : Writes) (writes : Succeeds ws) (m : Caches)
        → store_genesis c ws s (m, ok block) ≡ (m, begun, ok block)
    unfolding store_genesis
    store_genesis-run ws writes m =
        let found =
          set_current_tip-found (store_block c block (calc_block_work block.header.target) s)
            (block_hash c block)
            (new_block c s block (calc_block_work block.header.target)
              (no_block (block_hash c block))) in
        rw
          (
            writes.stored (store_block c block (calc_block_work block.header.target) s),
            found,
            writes.moved begun,
            store_genesis,
          )
          refl

-- The block of `NewGenesisBlock` for a configuration.
abbrev pub genesis_block : Crypto → GenesisConfig → Block
genesis_block c g = record {
  header = record {
    version = 1;
    algorithm_version = g.spec.algorithm_version;
    height = 0;
    parent_hash = zero_hash;
    timestamp = g.timestamp;
    target = g.bits;
    nonce = 0;
    epoch_seed = planned_seed c g.spec (0 / g.spec.epoch_blocks);
    dag_size_bytes = planned_size g.spec (0 / g.spec.epoch_blocks);
    tx_root = c.sha256 g.message;
    state_root = c.sha256 g.extra_data;
  };
  transactions = [];
}

genesis_made :
    (c : Crypto) (g : GenesisConfig)
    → IsTyped g.spec
    → IsSized g.spec
    → g.spec.initial_dag_size_bytes ≢ 0
    → new_genesis_block c g ≡ ok (genesis_block c g)
unfolding new_genesis_block
genesis_made c g t z set =
    rw
      (
        resolved_for_height-resolved g.spec 0 t z,
        epoch_seed-resolved c g.spec 0 0 set,
        epoch_seed-planned c g.spec 0 t z,
      )
      refl

module _ (e : Env) (sound : IsSound e) (cpu : e.backend_hash ≡ cpu_hash e.crypto) (ws : Writes)
    (writes : Succeeds ws) (g : GenesisConfig) (same : g.spec ≡ e.config.spec) (max_nonces : ℕ)
    (s : MemoryStore) (con : IsConsistent e.crypto s) (no_tip : s.current_tip ≡ zero_hash)
    (served : Serves e 0) where
  open e use {crypto, config}

  abbrev pub first : Block
  first = genesis_block crypto g

  abbrev pub sealed_first : ℕ → Block
  sealed_first n = record first { header = with_nonce first.header n }

  first-IsPlanned : IsPlanned e first.header
  first-IsPlanned = record {
    served = served;
    size = ap (λ (p : Spec). planned_size p (0 / p.epoch_blocks)) same;
    some_seed = λ empty. absurd (
        ground (
          arith,
          crypto.length-sha256 (
              be 8 (0 / g.spec.epoch_blocks)
              ++ be 8 (planned_size g.spec (0 / g.spec.epoch_blocks))),
        ));
  }

  -- What `InitGenesis` leaves on a store with no tip.
  abbrev pub Begins : MemoryStore → Go Block → Type 0
  Begins s' r =
      ((n : ℕ) × MayTry e sound cpu max_nonces n
        × (r ≡ ok (sealed_first n))
        × (light_verdict e sound cpu (with_nonce first.header n) ≡ ok tt)
        × (s'.current_tip ≡ block_hash crypto (sealed_first n))
        × (lookup (block_hash crypto (sealed_first n)) s'.blocks ≡ some (sealed_first n)))
      ⊎ ((r ≡ err Error.no_solution)
          × (s' ≡ s)
          × ((n : ℕ)
              → MayTry e sound cpu max_nonces n
              → light_verdict e sound cpu (with_nonce first.header n) ≡ err Error.invalid_pow))

  no_current : (x : Error) × (current_tip s ≡ err x)
  unfolding current_tip
  no_current = (_, if-true _ _ _ ((bytes_eq_iff s.current_tip zero_hash).1 no_tip))

  init_at_none :
      (order : List ℕ) (m : Caches)
      → init_genesis e ws (cpu_backend crypto) g order max_nonces m s
        ≡ make_genesis e ws (cpu_backend crypto) g order max_nonces m s
  unfolding init_genesis
  init_at_none order m = rw (no_current.1, init_genesis) refl

  init_run :
      (order : List ℕ) (m : Caches)
      → g.spec.initial_dag_size_bytes ≢ 0
      → init_genesis e ws (cpu_backend crypto) g order max_nonces m s
        ≡ store_genesis crypto ws s (seal_block e (cpu_backend crypto) order m first max_nonces)
  unfolding make_genesis
  init_run order m set =
      let typed = subst IsTyped (sym same) sound.typed in
      let sized = subst IsSized (sym same) (validate-IsSized config.spec sound.valid) in
      init_at_none order m ∙ rw (genesis_made crypto g typed sized set, make_genesis) refl

  -- In a sound environment (valid parameters, which are those of the genesis configuration and have
  -- the initial size, both allocators serve the size planned for height 0, the scheduler runs every
  -- goroutine), with
  -- the CPU backend for mining and validation and fresh caches, `InitGenesis` on a consistent store
  -- without a tip, whose writes succeed, returns if every worker gets enough turns, in any order, and
  -- no block that may be tried has the hash zero. Either the genesis block with a nonce that a light
  -- verifier accepts is returned, is stored and is the tip. Or there is no solution, a light verifier
  -- refuses every nonce that may be tried, and the store is as it was. The caches are fresh and the
  -- store is consistent then.
  pub init_genesis-Begins :
      (order : List ℕ) (m : Caches)
      → g.spec.initial_dag_size_bytes ≢ 0
      → ((n : ℕ) → MayTry e sound cpu max_nonces n → block_hash crypto (sealed_first n) ≢ zero_hash)
      → AreFresh e m
      → EnoughTurns e sound cpu order max_nonces
      → (m' : Caches) × (s' : MemoryStore) × (r : Go Block) × (init_genesis e ws
            (cpu_backend crypto)
            g
            order
            max_nonces
            m
            s
          ≡ (m', s', r))
        × AreFresh e m'
        × IsConsistent crypto s'
        × Begins s' r
  init_genesis-Begins order m set nonzero fresh enough =
      let (m', r, run, fresh', sealed) =
        seal_block-Sealed e sound cpu order m first max_nonces first-IsPlanned fresh enough in
      let empty = zero_tip-IsEmpty crypto s con no_tip in
      let start = init_run order m set ∙ ap (store_genesis crypto ws s) run in
      either sealed
        (λ (n, found, may, light).
          let b = sealed_first n in
          let nz = nonzero n may in
          (
            m',
            begun crypto s con empty b nz refl,
            ok b,
            start
                ∙ (ap (λ (x : Go Block). store_genesis crypto ws s (m', x)) found
                    ∙ store_genesis-run crypto s con empty b nz refl ws writes m'),
            fresh',
            begun-IsConsistent crypto s con empty b nz refl,
            inl (n, may, refl, light, refl, begun-stored crypto s con empty b nz refl),
          ))
        (λ (nothing, all). (
          m',
          s,
          err Error.no_solution,
          start
              ∙ (ap (λ (x : Go Block). store_genesis crypto ws s (m', x)) nothing
                  ∙ unfold store_genesis in refl),
          fresh',
          con,
          inr (refl, refl, all),
        ))
