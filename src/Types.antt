-- ===== src/Types.antt =====
-- pkg/types/types.go: headers, blocks, their encodings and hashes, and the genesis block. Strings
-- that are hashed are lists of their bytes; a transaction is one.
pub mod Encoding
pub mod Seed
use colossusx.Prelude.{ℕ, ◌/◌, ◌++◌, [], List, replicate, Go, ok, err, panic_if, ◌>>=◌, ◌>>◌, ◌==◌}
use colossusx.Prelude.Slices.{Bytes}
use colossusx.Prelude.Endian.{be}
use colossusx.Prelude.Int.{ℤ, to_u64}
use colossusx.Crypto.{Crypto}
use colossusx.Spec.{Spec, dag_size_for_height, resolved_for_height}

-- the zero value of `Hash` and of `Target`
abbrev pub zero_hash : Bytes
zero_hash = replicate 32 0

pub record BlockHeader : Type 0 where
  pub version : ℕ
  pub algorithm_version : ℕ
  pub height : ℕ
  pub parent_hash : Bytes
  pub timestamp : ℤ
  pub target : Bytes
  pub nonce : ℕ
  pub epoch_seed : Bytes
  pub dag_size_bytes : ℕ
  pub tx_root : Bytes
  pub state_root : Bytes

pub record Block : Type 0 where
  pub header : BlockHeader
  pub transactions : List Bytes

pub record GenesisConfig : Type 0 where
  pub chain_id : Bytes
  pub message : Bytes
  pub timestamp : ℤ
  pub bits : Bytes
  pub spec : Spec
  pub extra_data : Bytes

pub record ChainConfig : Type 0 where
  pub network_id : Bytes
  pub spec : Spec

-- `BlockHeader.EncodeForMining`: every field but the nonce
unfoldable pub encode_for_mining : BlockHeader → Bytes
encode_for_mining h =
    be 4 h.version
    ++ (be 4 h.algorithm_version
        ++ (be 8 h.height
            ++ (h.parent_hash
                ++ (be 8 (to_u64 h.timestamp)
                    ++ (h.target
                        ++ (h.epoch_seed
                            ++ (be 8 h.dag_size_bytes ++ (h.tx_root ++ h.state_root))))))))

-- `BlockHeader.Encode`
unfoldable pub encode : BlockHeader → Bytes
unfolding encode_for_mining
encode h = encode_for_mining h ++ be 8 h.nonce

module _ (c : Crypto) where
  -- `BlockHeader.HeaderHash`
  unfoldable pub header_hash : BlockHeader → Bytes
  header_hash h = c.sha256 (encode h)

  -- `Block.BlockHash`
  unfoldable pub block_hash : Block → Bytes
  unfolding header_hash
  block_hash b = header_hash b.header

  -- `EpochSeedForHeight`
  unfoldable pub epoch_seed_for_height : Spec → ℕ → Go Bytes
  epoch_seed_for_height spec height = do
    panic_if (spec.epoch_blocks == 0)
    size ← dag_size_for_height spec height
    ok (c.sha256 (be 8 (height / spec.epoch_blocks) ++ be 8 size))

  -- `NewGenesisBlock`
  unfoldable pub new_genesis_block : GenesisConfig → Go Block
  unfolding epoch_seed_for_height
  new_genesis_block cfg = do
    resolved ← resolved_for_height cfg.spec 0
    seed ← epoch_seed_for_height resolved 0
    ok (record {
      header = record {
        version = 1;
        algorithm_version = resolved.algorithm_version;
        height = 0;
        parent_hash = zero_hash;
        timestamp = cfg.timestamp;
        target = cfg.bits;
        nonce = 0;
        epoch_seed = seed;
        dag_size_bytes = resolved.dag_size_bytes;
        tx_root = c.sha256 cfg.message;
        state_root = c.sha256 cfg.extra_data;
      };
      transactions = [];
    })
