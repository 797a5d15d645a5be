-- ===== src/Disk.antt =====
-- pkg/chain/store_disk.go: the block store that keeps a file. The file system is a parameter: a
-- state, and the calls of package os on it, which may fail. The fields that a `DiskStore` shares
-- with a `MemoryStore` are one, and so is the code that reads and writes them.
pub mod Codec
pub mod Snapshot
pub mod Reload
pub mod Typed
pub mod Durable
pub mod Reopen
use colossusx.Prelude.{
  ℕ, ◌≡◌, ◌≢◌, Bool, true, false, not, ◌==◌, if◌then◌else◌, List, [], ◌∷◌, ◌++◌, map, Option, none,
  some, Go, ok, err, panic, stuck, ◌>>=◌, Error,
}
use colossusx.Prelude.Keys.{bytes_eq, bytes_key, number_eq}
use colossusx.Prelude.Maps.{Map, lookup, has}
use colossusx.Prelude.Ranges.{put_all, load_into}
use colossusx.Prelude.Slices.{Bytes}
use colossusx.Prelude.Hex.{hex_encode, str_lt}
use colossusx.Prelude.Decimal.{format_uint, parse_uint}
use colossusx.Crypto.{Crypto}
use colossusx.Types.{Block, BlockHeader, zero_hash}
use colossusx.Chain.{
  MemoryStore, new_memory_store, store_block, set_current_tip, block_or_zero, get_block, get_header,
  get_block_by_height, current_tip, total_work, has_block,
}
use colossusx.Disk.Codec.{
  DiskBlockRecord, DiskSnapshot, Json, of_parsed, unmarshal_snapshot, hash_from_string,
  big_int_to_string, big_int_from_string,
}

-- what `os.ReadFile` comes to
pub data Found (Text : Type 0) : Type 0 where
  contents : Text → Found Text
  missing unreadable : Found Text

-- the calls of packages os and path/filepath; `false` is an error
pub record FileSystem (Text Files : Type 0) : Type 0 where
  pub join : Bytes → Bytes → Bytes
  pub mkdir_all : Files → Bytes → Files × Bool
  pub read_file : Files → Bytes → Found Text
  pub write_file : Files → Bytes → Text → Files × Bool
  pub rename : Files → Bytes → Bytes → Files × Bool

-- What they do when they succeed, and what a failure leaves alone.
pub record IsFileSystem {Text Files : Type 0} (fs : FileSystem Text Files) : Type 0 where
  pub made : (d : Files) (dir p : Bytes) → fs.read_file (fs.mkdir_all d dir).0 p ≡ fs.read_file d p
  pub written :
      (d : Files) (p : Bytes) (t : Text)
      → (fs.write_file d p t).1 ≡ true
      → fs.read_file (fs.write_file d p t).0 p ≡ contents t
  pub others :
      (d : Files) (p q : Bytes) (t : Text)
      → p ≢ q
      → fs.read_file (fs.write_file d p t).0 q ≡ fs.read_file d q
  pub renamed :
      (d : Files) (p q : Bytes)
      → (fs.rename d p q).1 ≡ true
      → fs.read_file (fs.rename d p q).0 q ≡ fs.read_file d p
  pub not_renamed :
      (d : Files) (p q : Bytes)
      → (fs.rename d p q).1 ≡ false
      → fs.read_file (fs.rename d p q).0 q ≡ fs.read_file d q

-- `sort.Strings`
unfoldable pub insert_string : Bytes → List Bytes → List Bytes
insert_string s [] = s ∷ []
insert_string s (t ∷ ts) = if str_lt t s then t ∷ insert_string s ts else s ∷ t ∷ ts

unfoldable pub sort_strings : List Bytes → List Bytes
sort_strings [] = []
sort_strings (s ∷ ss) = insert_string s (sort_strings ss)

abbrev pub hash_or_zero : Option Bytes → Bytes
hash_or_zero none = zero_hash
hash_or_zero (some h) = h

-- the record of `snapshot.Blocks` for a string of `hashes`
abbrev pub block_record : Map Bytes Block → Map Bytes Bytes → Bytes → DiskBlockRecord
block_record blocks by_string hs = record {
  hash = hs;
  block = block_or_zero (lookup (hash_or_zero (lookup hs by_string)) blocks);
}

-- `hashes`, before they are sorted, and `byString`
abbrev pub hash_strings : Map Bytes Block → List Bytes
hash_strings blocks = map (λ (e : Bytes × Block). hex_encode e.0) blocks

abbrev pub by_string : Map Bytes Block → Map Bytes Bytes
by_string blocks = put_all hex_encode (λ h. h) (map (λ (e : Bytes × Block). (e.0, e.0)) blocks)

-- the snapshot of `flushLocked`
unfoldable pub snapshot : MemoryStore → DiskSnapshot
snapshot s = record {
  genesis_hash = hex_encode s.genesis_hash;
  current_tip = hex_encode s.current_tip;
  blocks = map (block_record s.blocks (by_string s.blocks)) (sort_strings (hash_strings s.blocks));
  heights = put_all format_uint hex_encode s.heights;
  total_work = put_all hex_encode big_int_to_string s.total_work;
}

-- `load`, from the snapshot on
unfoldable pub load_snapshot : DiskSnapshot → MemoryStore → Go MemoryStore
load_snapshot snap s = do
  genesis ← hash_from_string snap.genesis_hash
  tip ← hash_from_string snap.current_tip
  blocks ←
      load_into (λ (r : DiskBlockRecord). hash_from_string r.hash) (λ r. ok r.block) snap.blocks
        s.blocks
  heights ←
      load_into (λ (e : Bytes × Bytes). of_parsed (parse_uint e.0)) (λ e. hash_from_string e.1)
        snap.heights s.heights
  work ←
      load_into (λ (e : Bytes × Bytes). hash_from_string e.0) (λ e. big_int_from_string e.1)
        snap.total_work s.total_work
  ok (record {
    genesis_hash = genesis;
    current_tip = tip;
    blocks = blocks;
    heights = heights;
    total_work = work;
  })

-- "chain.json"
abbrev pub chain_json : Bytes
chain_json = b'c' ∷ b'h' ∷ b'a' ∷ b'i' ∷ b'n' ∷ b'.' ∷ b'j' ∷ b's' ∷ b'o' ∷ b'n' ∷ []

pub record DiskStore : Type 0 where
  pub path : Bytes
  pub fields : MemoryStore

-- The reads are the code of `MemoryStore` on the same fields.
abbrev pub disk_get_block : DiskStore → Bytes → Go Block
disk_get_block d hash = get_block d.fields hash

abbrev pub disk_get_header : DiskStore → Bytes → Go BlockHeader
disk_get_header d hash = get_header d.fields hash

abbrev pub disk_get_block_by_height : DiskStore → ℕ → Go Block
disk_get_block_by_height d height = get_block_by_height d.fields height

abbrev pub disk_current_tip : DiskStore → Go (Block × ℕ)
disk_current_tip d = current_tip d.fields

abbrev pub disk_total_work : DiskStore → Bytes → Go ℕ
disk_total_work d hash = total_work d.fields hash

abbrev pub disk_has_block : DiskStore → Bytes → Bool
disk_has_block d hash = has_block d.fields hash

module _ {Text Files : Type 0} (json : Json Text) (fs : FileSystem Text Files) where
  open fs use {join, mkdir_all, read_file, write_file, rename}

  -- `load`
  unfoldable pub load : Files → DiskStore → Go DiskStore
  load files d = elim (read_file files d.path) [
    | missing ↦ ok d
    | unreadable ↦ err Error.disk_failure
    | contents text ↦ unmarshal_snapshot json text >>= λ snap.
        load_snapshot snap d.fields >>= λ s. ok (record d { fields = s })
  ]

  -- `NewDiskStore`
  unfoldable pub new_disk_store : Files → Bytes → Files × Go DiskStore
  new_disk_store files [] = (files, err Error.no_datadir)
  new_disk_store files (c ∷ cs) =
      let (files', made) = mkdir_all files (c ∷ cs) in
      if made
      then (
        files',
        load files' (record { path = join (c ∷ cs) chain_json; fields = new_memory_store }),
      )
      else (files', err Error.disk_failure)

  abbrev pub tmp : Bytes → Bytes
  tmp path = path ++ (b'.' ∷ b't' ∷ b'm' ∷ b'p' ∷ [])

  -- the end of `flushLocked`: the file is written beside the old one, and takes its place
  abbrev pub replace_file : Files → Bytes → Text → Files × Go (Unit {0})
  replace_file files path text =
      let (files', written) = write_file files (tmp path) text in
      if written
      then (let (files2, renamed) = rename files' (tmp path) path in
          (files2, if renamed then ok tt else err Error.disk_failure))
      else (files', err Error.disk_failure)

  -- `flushLocked`
  unfoldable pub flush : Files → DiskStore → Files × Go (Unit {0})
  flush files d = elim (json.marshal (snapshot d.fields)) [
    | ok text ↦ replace_file files d.path text
    | err x ↦ (files, err x)
    | panic ↦ (files, panic)
    | stuck ↦ (files, stuck)
  ]

  abbrev pub Changed : Type 0
  Changed = (DiskStore × Files) × Go (Unit {0})

  abbrev pub flushed : Files → DiskStore → Changed
  flushed files d = let (files', r) = flush files d in ((d, files'), r)

  -- `StoreBlock`
  unfoldable pub disk_store_block : Crypto → Block → ℕ → DiskStore → Files → Changed
  disk_store_block c block work d files =
      flushed files (record d { fields = store_block c block work d.fields })

  -- `SetCurrentTip`
  unfoldable pub disk_set_current_tip : Bytes → DiskStore → Files → Changed
  disk_set_current_tip hash d files = elim (set_current_tip d.fields hash) [
    | ok s ↦ flushed files (record d { fields = s })
    | err x ↦ ((d, files), err x)
    | panic ↦ ((d, files), panic)
    | stuck ↦ ((d, files), stuck)
  ]
