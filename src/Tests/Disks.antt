-- ===== src/Tests/Disks.antt =====
-- The theorems on the disk store at a disk that takes so many writes, and then fails.
use colossusx.Prelude.{
  ℕ, zero, suc, ◌≡◌, ◌≢◌, refl, ap, subst, inl, Bool, true, false, Option, none, some, List, [],
  ◌∷◌, ◌++◌, ok, arith,
}
use colossusx.Prelude.Keys.{bytes_key}
use colossusx.Prelude.Maps.{Map, lookup, insert, delete}
use colossusx.Prelude.Slices.{Bytes}
use colossusx.Types.{block_hash}
use colossusx.Chain.{MemoryStore, new_memory_store, get_block, total_work}
use colossusx.Chain.Laws.{lookup-insert_self, lookup-insert_ne}
use colossusx.Disk.Codec.{SameSnapshot, DiskSnapshot, Json, IsJson}
use colossusx.Disk.{
  Found, contents, missing, FileSystem, IsFileSystem, DiskStore, chain_json, snapshot,
  load_snapshot, new_disk_store, disk_store_block, disk_get_block, disk_get_header,
  disk_get_block_by_height, disk_current_tip, disk_total_work, disk_has_block,
}
use colossusx.Disk.Reload.{SameStore, load_snapshot-SameStore}
use colossusx.Disk.Typed.{Change, put, new_memory_store-IsGood}
use colossusx.Disk.Durable.{State, run, memory_run, is_acked, IsDurable, disk_store_block-unacked}
use colossusx.Disk.Reopen.{reopen-SameStore}
use colossusx.Tests.Samples.{sample_crypto}
use colossusx.Tests.Chains.{first_block}

abbrev plain : Json DiskSnapshot
plain = record {
  marshal = λ s. ok s;
  unmarshal = λ t. ok t;
  is_empty = λ t. false;
  writable = λ b. Unit;
}

itself : (s : DiskSnapshot) → SameSnapshot s s
itself s = record {
  genesis = refl;
  tip = refl;
  records = refl;
  heights_same = λ e. (λ m. m, λ m. m);
  work_same = λ e. (λ m. m, λ m. m);
}

plain-IsJson : IsJson plain
plain-IsJson = record {
  some_text = λ s t h. refl;
  reads_back = λ s t all h. (t, refl, subst (SameSnapshot s) (same h) (itself s));
}
  where
    same : {s t : DiskSnapshot} → ok s ≡ ok t → s ≡ t
    same h = cc

record Tape : Type 0 where
  entries : Map Bytes DiskSnapshot
  writes : ℕ

abbrev found_in : Option DiskSnapshot → Found DiskSnapshot
found_in none = missing
found_in (some t) = contents t

abbrev write_with : ℕ → Tape → Bytes → DiskSnapshot → Tape × Bool
write_with zero d p t = (d, false)
write_with (suc left) d p t = (record { entries = insert p t d.entries; writes = left }, true)

abbrev rename_with : Option DiskSnapshot → Tape → Bytes → Bytes → Tape × Bool
rename_with none d p q = (d, false)
rename_with (some t) d p q = (record d { entries = insert q t (delete p d.entries) }, true)

abbrev tape : FileSystem DiskSnapshot Tape
tape = record {
  join = λ a b. a ++ b;
  mkdir_all = λ d p. (d, true);
  read_file = λ d p. found_in (lookup p d.entries);
  write_file = λ d p t. write_with d.writes d p t;
  rename = λ d p q. rename_with (lookup p d.entries) d p q;
}

tape-IsFileSystem : IsFileSystem tape
tape-IsFileSystem = record {
  made = λ d dir p. refl;
  written = λ d p t h. wrote d.writes d p t h;
  others = λ d p q t ne. beside d.writes d p q t ne;
  renamed = λ d p q h. moved (lookup p d.entries) d p q h;
  not_renamed = λ d p q h. stayed (lookup p d.entries) d p q h;
}
  where
    wrote :
        (n : ℕ) (d : Tape) (p : Bytes) (t : DiskSnapshot)
        → (write_with n d p t).1 ≡ true
        → found_in (lookup p (write_with n d p t).0.entries) ≡ contents t
    wrote zero d p t h = absurd (cc)
    wrote (suc n) d p t h = ap found_in (lookup-insert_self p t d.entries)

    beside :
        (n : ℕ) (d : Tape) (p q : Bytes) (t : DiskSnapshot)
        → p ≢ q
        → found_in (lookup q (write_with n d p t).0.entries) ≡ found_in (lookup q d.entries)
    beside zero d p q t ne = refl
    beside (suc n) d p q t ne = ap found_in (lookup-insert_ne p q t d.entries ne)

    moved :
        (o : Option DiskSnapshot) (d : Tape) (p q : Bytes)
        → (rename_with o d p q).1 ≡ true
        → found_in (lookup q (rename_with o d p q).0.entries) ≡ found_in o
    moved none d p q h = absurd (cc)
    moved (some t) d p q h = ap found_in (lookup-insert_self q t (delete p d.entries))

    stayed :
        (o : Option DiskSnapshot) (d : Tape) (p q : Bytes)
        → (rename_with o d p q).1 ≡ false
        → found_in (lookup q (rename_with o d p q).0.entries) ≡ found_in (lookup q d.entries)
    stayed none d p q h = refl
    stayed (some t) d p q h = absurd (cc)

abbrev dir : Bytes
dir = b'd' ∷ []

-- A disk that takes one write.
abbrev new_tape : Tape
new_tape = record { entries = []; writes = 1 }

abbrev opened : DiskStore
opened = record { path = dir ++ chain_json; fields = new_memory_store }

abbrev fresh_state : State sample_crypto plain tape
fresh_state = record { store = opened; files = new_tape; saved = new_memory_store }

fresh_state-IsDurable :
    IsDurable sample_crypto plain tape plain-IsJson tape-IsFileSystem
      (dir ++ chain_json)
      fresh_state
unfolding lookup
fresh_state-IsDurable = record {
  in_place = refl;
  holds = inl (refl, refl);
  good = new_memory_store-IsGood sample_crypto plain.writable;
  good_saved = new_memory_store-IsGood sample_crypto plain.writable;
}

-- The second change fails.
abbrev two_changes : List Change
two_changes = put first_block 1 ∷ put first_block 2 ∷ []

dir-named : dir ≢ []
dir-named e = cc

reopen-SameStore_example :
    ((run sample_crypto plain tape two_changes fresh_state).store.fields
      ≡ memory_run sample_crypto plain tape two_changes new_memory_store)
    × ((files : Tape) × (d : DiskStore) × (new_disk_store plain tape
            (run sample_crypto plain tape two_changes fresh_state).files
            dir
          ≡ (files, ok d))
        × SameStore (run sample_crypto plain tape two_changes fresh_state).saved d.fields)
reopen-SameStore_example =
    reopen-SameStore sample_crypto plain tape plain-IsJson tape-IsFileSystem dir two_changes
      fresh_state dir-named ((omega arith, tt), ((omega arith, tt), tt)) fresh_state-IsDurable refl

load_snapshot-SameStore_example :
    (s' : MemoryStore) × (load_snapshot (snapshot new_memory_store) new_memory_store ≡ ok s')
    × SameStore new_memory_store s'
load_snapshot-SameStore_example =
    load_snapshot-SameStore new_memory_store
      (new_memory_store-IsGood sample_crypto plain.writable).typed (snapshot new_memory_store)
      (itself (snapshot new_memory_store))

-- A disk that takes no write.
abbrev full_tape : Tape
full_tape = record { entries = []; writes = 0 }

refused :
    is_acked (disk_store_block plain tape sample_crypto first_block 7 opened full_tape).1 ≡ false
unfolding disk_store_block colossusx.Disk.flush
refused = refl

disk_store_block-unacked_example :
    let ((d', files'), r) =
      disk_store_block plain tape sample_crypto first_block 7 opened full_tape in
    (found_in (lookup (dir ++ chain_json) files'.entries)
      ≡ found_in (lookup (dir ++ chain_json) []))
    × (get_block d'.fields (block_hash sample_crypto first_block) ≡ ok first_block)
    × (total_work d'.fields (block_hash sample_crypto first_block) ≡ ok 7)
disk_store_block-unacked_example =
    disk_store_block-unacked sample_crypto plain tape plain-IsJson tape-IsFileSystem first_block 7
      opened full_tape refused
