-- ===== src/Lib.antt =====
-- Verification of COLOSSUS-X, a proof-of-work chain with a large DAG (the Go sources).
--
-- The parts and the files that model them:
-- - colossusx/spec.go: Spec, with Spec/Valid (`Validate`), Spec/Size (the DAG size of an epoch) and
--   Spec/Epoch (`ResolvedForHeight`).
-- - colossusx/target.go: Target. colossusx/nonce.go: Nonce.
-- - pkg/types/types.go: Types (headers, blocks, hashes, the epoch seed), Types/Encoding, Types/Seed.
-- - colossusx/dag.go, dag_tensor.go: Dag. The goroutines of `GenerateDAG` are the lists of the indices
--   they write, and an execution is any interleaving of the lists (Dag/Schedule); Dag/Ranges is the
--   split of the work, Dag/Nodes the array, Dag/Fill and Dag/Tensor the two generators.
-- - colossusx/dag_stateless.go: Stateless, against the full DAG in Stateless/Full.
-- - colossusx/hash.go, hash_strict_v2.go, round_commit.go, tensor_types.go: Hash, with Hash/Agree
--   (full and stateless) and Hash/Total.
-- - pkg/chain/memory.go: Chain, with Chain/Laws.
-- - pkg/chain/store_disk.go, codec.go: Disk. Disk/Codec has the snapshot and its texts, Disk/Snapshot
--   what a snapshot holds, Disk/Reload a store that is read back, Disk/Typed the changes of a store,
--   Disk/Durable the file after a change, Disk/Reopen a store that is opened again.
-- - colossusx/miner.go: Miner, with Miner/Search (`Mine`, for any order of the workers' turns),
--   Miner/Ends (the end of a run) and Miner/Batch (`mineBatch`).
-- - backend_common.go, shared_dag_hash.go: Host, with Host/Views.
-- - memory_strategy.go, strict_config.go: Strategy, with Strategy/Choice.
-- - pkg/consensus/validator.go: Consensus. Work has the work of a block and the choice between two
--   tips, Header and Accept the checks of a header, Cache the DAG caches and the proof of work,
--   Insert and Invariant the insertion, Validate, Answer and Accepted the whole of `InsertBlock`, Seal
--   `SealBlock` over the miner (Seal/Search), and Setup the construction of a validator and
--   the change of its mining allocator.
-- - pkg/node/node.go: Node. Template is the header that the node mines on, Mined a round of the loop of
--   `Run`, Receive the handler of a peer's block, Genesis `InitGenesis`, Status `localStatus`.
-- - pkg/p2p/peer.go, message.go, transport.go: Peers, with Peers/Framing (`Send`, `readMessage`),
--   Peers/Delivery, Peers/Connection (`dispatch`, `handleConn`), Peers/Steps and Peers/Closing.
--
-- How the parts interact: the validator takes the size and the seed of an epoch from Spec and Types,
-- builds or finds a DAG (Cache over Dag), hashes the header with it (Hash), compares with the target
-- (Target), and stores the block and its total work (Chain). The node makes a header on the tip of the
-- store, seals it (Consensus/Seal over Miner) and inserts the block.
--
-- Conventions. A uint64 is a number of Prim.Native.Nat, and its wrap-around is written out; an
-- int64 is a ℤ of Prelude/Int; a byte array is a list of numbers. A Go call returns a `Go`
-- (Prelude/Outcome): a value, an error, or a panic (a division by zero, a slice out of bounds, a
-- `make` above the longest slice of the machine, which is a parameter); error texts are
-- constructors. A map is an association list (Prelude/Maps). Shared state (stores, caches, arrays)
-- is passed and returned. Loops run on a number that is an upper bound of their rounds: for the
-- tensor loop the number of bytes, since each round takes at least one node; `stuck` marks a loop
-- that is cut off, and the theorems that a loop ends show that it never is. The goroutines of
-- `Mine` take turns in the order of a list, so that a list of worker numbers is an execution; a
-- hash that panics ends the program. With `maxNonces` nonces, or all that are left, twice as many
-- turns and one are enough for a worker.
--
-- The hash functions of other packages (SHA-256, SHA3, Keccak, BLAKE3) are the parameter Crypto, with
-- the lengths of their digests as laws; so are allocators, the number of processors and the
-- scheduler (Consensus/Cache, `Env`). The disk store has JSON (Disk/Codec, `Json`) and the calls of
-- package os (Disk, `FileSystem`) as parameters: what is written is read back, a rename moves a file,
-- and a failure leaves the target alone. A text of a total work with a minus, which no flush writes,
-- is `stuck`. The network has JSON (Peers/Framing, `Wire`) and the bytes that a connection takes as
-- parameters; the loop of a connection runs on the number of the bytes that come in. No deadline is
-- set for a read: one that waits on an open connection with too few bytes is `stuck`, so a connection
-- has a flag that tells whether it ends (`Conn.closes`). Every write returns.
--
-- The theorems on the validator and the node name their conditions so. A sound environment
-- (Consensus/Cache/Verdict, `IsSound`) has valid parameters, a processor and a scheduler that runs
-- every goroutine. Caches are fresh (`AreFresh`) if each DAG in them is the one that would be built
-- anew. The allocators serve a height (`Serves`) if they give the size planned for it. A store is
-- consistent (Consensus/Invariant, `IsConsistent`) if each block is kept under its hash beside the
-- total work of its chain, and the tip beats every other block.
--
-- `InsertBlock`, `InitGenesis` and the node's handlers take a store of any kind: its fields are those
-- of Chain, and the errors that `StoreBlock` and `SetCurrentTip` return behind their change of the
-- fields are a parameter (Chain, `Writes`), nil for the memory store and a failed write for the disk
-- store, whose fields change as those of the memory store (Disk/Reopen).
--
-- Not modelled: the accelerator backends, the commands, sockets, the waits of the node's loop,
-- log output and the flow of time (a clock is an argument). Other goroutines beside a connection or a
-- round of the node's loop are left out: their steps come before or after. A lock is not modelled:
-- each locked operation is one step.
-- The nil receivers and nil accessors that no caller passes are left out.
pub mod Prelude
pub mod Spec
pub mod Target
pub mod Nonce
pub mod Crypto
pub mod Types
pub mod Chain
pub mod Disk
pub mod Dag
pub mod Stateless
pub mod Hash
pub mod Strategy
pub mod Host
pub mod Miner
pub mod Consensus
pub mod Node
pub mod Peers
mod Tests
