-- ===== src/Node.antt =====
-- pkg/node/node.go: the header that the node mines on, and what it does with a block of a peer.
-- Messages to peers are the result of the handler.
pub mod Template
pub mod Receive
pub mod Mined
pub mod Genesis
pub mod Status
use colossusx.Prelude.{
  ℕ, ◌+◌, ◌%◌, Bool, true, false, if◌then◌else◌, List, [], none, some, Go, ok, err, panic, stuck,
  ◌>>=◌, ◌>>◌,
}
use colossusx.Prelude.Keys.{bytes_eq}
use colossusx.Prelude.Slices.{Bytes}
use colossusx.Prelude.Int.{ℤ, pos, ltb_ℤ, add_int64}
use colossusx.Prelude.Decimal.{format_uint}
use colossusx.Prelude.Hex.{hex_encode}
use colossusx.Crypto.{Crypto}
use colossusx.Spec.{Spec, u64_mod, resolved_for_height}
use colossusx.Types.{
  Block, GenesisConfig, new_genesis_block, BlockHeader, block_hash, zero_hash,
  epoch_seed_for_height,
}
use colossusx.Chain.{
  MemoryStore, Writes, unless_error, has_block, current_tip, store_block, set_current_tip,
}
use colossusx.Peers.{PeerStatus}
use colossusx.Consensus.Work.{calc_block_work}
use colossusx.Consensus.Cache.{Env, Caches}
use colossusx.Consensus.Insert.{Inserted}
use colossusx.Consensus.Seal.{Backend, seal_block}
use colossusx.Consensus.Validate.{insert_block}

-- `max`
unfoldable pub max : ℤ → ℤ → ℤ
max a b = if ltb_ℤ b a then a else b

-- The header of `mineNextBlock` before it is sealed, on the block of the tip. `height_text` is
-- `fmt.Sprintf("height:%d", …)`, `bits` the target of the genesis configuration.
unfoldable pub next_header : Crypto → Spec → Bytes → (ℕ → Bytes) → ℤ → Block → Go BlockHeader
next_header c spec bits height_text now tip = do
  let height = (tip.header.height + 1) % u64_mod
  resolved_spec ← resolved_for_height spec height
  seed ← epoch_seed_for_height c resolved_spec height
  ok (record {
    version = 1;
    algorithm_version = resolved_spec.algorithm_version;
    height = height;
    parent_hash = block_hash c tip;
    timestamp = max now (add_int64 tip.header.timestamp 1);
    target = bits;
    nonce = 0;
    epoch_seed = seed;
    dag_size_bytes = resolved_spec.dag_size_bytes;
    tx_root = c.sha256 (height_text height);
    state_root = c.sha256 (hex_encode (block_hash c tip));
  })

-- whether `onNewBlock` sends the status to the peers
abbrev pub sends_status : Go (ℕ × Bool) → Bool
sends_status (ok (work, became_tip)) = became_tip
sends_status (err e) = false
sends_status panic = false
sends_status stuck = false

abbrev pub Received : Type 0
Received = Caches × MemoryStore × Bool

-- `onNewBlock`
unfoldable pub on_new_block : Env → Writes → Caches → MemoryStore → Block → ℤ → Received
on_new_block e ws m store block now =
    if bytes_eq (block_hash e.crypto block) zero_hash
    then (m, store, false)
    else (if has_block store (block_hash e.crypto block)
        then (m, store, false)
        else (let (m', inserted) = insert_block e ws m store block now in
            (m', inserted.0, sends_status inserted.1)))

-- `mineNextBlock`, on the store's tip
unfoldable pub mine_next_block :
    Env → Backend → List ℕ → Bytes → (ℕ → Bytes) → ℕ → Caches → MemoryStore → ℤ → Caches × Go Block
mine_next_block e backend order bits height_text max_nonces m store now =
    elim (current_tip store >>= λ (tip, work).
    next_header e.crypto e.config.spec bits height_text now tip) [
      | ok h ↦ seal_block e backend order m (record { header = h; transactions = [] }) max_nonces
      | err x ↦ (m, err x)
      | panic ↦ (m, panic)
      | stuck ↦ (m, stuck)
    ]

-- the rest of a round of the loop of `Run`: the mined block is inserted by the clock `later`
unfoldable pub insert_mined :
    Env → Writes → MemoryStore → ℤ → Caches × Go Block → Caches × MemoryStore × Go Bool
insert_mined e ws store later (m, ok block) =
    let (m', inserted) = insert_block e ws m store block later in
    (m', inserted.0, inserted.1 >>= λ (work, became_tip). ok became_tip)
insert_mined e ws store later (m, err x) = (m, store, err x)
insert_mined e ws store later (m, panic) = (m, store, panic)
insert_mined e ws store later (m, stuck) = (m, store, stuck)

-- one round of the loop of `Run`; the result tells whether the block is sent to the peers
unfoldable pub mine_round :
    Env
    → Writes
    → Backend
    → List ℕ
    → Bytes
    → (ℕ → Bytes)
    → ℕ
    → Caches
    → MemoryStore
    → ℤ
    → ℤ
    → Caches × MemoryStore × Go Bool
mine_round e ws backend order bits height_text max_nonces m store now later =
    insert_mined e ws store later
      (mine_next_block e backend order bits height_text max_nonces m store now)

-- the rest of `InitGenesis`, with what `SealBlock` returned
unfoldable pub store_genesis :
    Crypto → Writes → MemoryStore → Caches × Go Block → Caches × MemoryStore × Go Block
store_genesis c ws store (m, ok sealed) =
    let stored = store_block c sealed (calc_block_work sealed.header.target) store in
    elim (ws.stored stored) [
      | some x ↦ (m, stored, err x)
      | none ↦ elim (set_current_tip stored (block_hash c sealed)) [
        | ok s ↦ (m, s, unless_error (ws.moved s) (ok sealed))
        | err x ↦ (m, stored, err x)
        | panic ↦ (m, stored, panic)
        | stuck ↦ (m, stored, stuck)
      ]
    ]
store_genesis c ws store (m, err x) = (m, store, err x)
store_genesis c ws store (m, panic) = (m, store, panic)
store_genesis c ws store (m, stuck) = (m, store, stuck)

-- `InitGenesis` on a store with no tip
unfoldable pub make_genesis :
    Env
    → Writes
    → Backend
    → GenesisConfig
    → List ℕ
    → ℕ
    → Caches
    → MemoryStore
    → Caches × MemoryStore × Go Block
make_genesis e ws backend genesis order max_nonces m store =
    elim (new_genesis_block e.crypto genesis) [
      | ok block ↦ store_genesis e.crypto ws store (seal_block e backend order m block max_nonces)
      | err x ↦ (m, store, err x)
      | panic ↦ (m, store, panic)
      | stuck ↦ (m, store, stuck)
    ]

-- `InitGenesis`
unfoldable pub init_genesis :
    Env
    → Writes
    → Backend
    → GenesisConfig
    → List ℕ
    → ℕ
    → Caches
    → MemoryStore
    → Caches × MemoryStore × Go Block
init_genesis e ws backend genesis order max_nonces m store = elim (current_tip store) [
  | ok found ↦ (m, store, ok found.0)
  | err x ↦ make_genesis e ws backend genesis order max_nonces m store
  | panic ↦ make_genesis e ws backend genesis order max_nonces m store
  | stuck ↦ make_genesis e ws backend genesis order max_nonces m store
]

-- `localStatus`, of the node with the identifier `node_id`
unfoldable pub local_status : Crypto → Bytes → MemoryStore → ℤ → Go PeerStatus
local_status c node_id store now = do
  (tip, work) ← current_tip store
  ok (record {
    peer_id = node_id;
    best_hash = block_hash c tip;
    best_height = tip.header.height;
    total_work = format_uint work;
    connected_at = now;
  })
