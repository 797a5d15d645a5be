-- ===== src/Disk/Durable.antt =====
-- Changes of a disk store, and what its file holds after a flush, acknowledged or not.
use colossusx.Prelude.{
  ℕ, ◌≡◌, ◌≢◌, refl, sym, ap, subst, ◌∙◌, ◌⊎◌, inl, inr, either, Bool, true, false, Bool-cases,
  if◌then◌else◌, if-true, if-false, List, [], ◌∷◌, length, length-append, Go, ok, err, panic, stuck,
  Error, arith,
}
use colossusx.Prelude.Keys.{bytes_key}
use colossusx.Prelude.Slices.{Bytes}
use colossusx.Crypto.{Crypto}
use colossusx.Types.{Block, block_hash}
use colossusx.Chain.Laws.{lookup-insert_self}
use colossusx.Chain.{
  MemoryStore, get_block, total_work, or_not_found, new_memory_store, store_block,
}
use colossusx.Disk.Codec.{
  DiskBlockRecord, DiskSnapshot, Json, IsJson, SameSnapshot, unmarshal_snapshot,
}
use colossusx.Disk.{
  Found, contents, missing, FileSystem, IsFileSystem, DiskStore, Changed, tmp, replace_file,
  snapshot, flush, disk_store_block, disk_set_current_tip,
}
use colossusx.Disk.Snapshot.{block-snapshot}
use colossusx.Disk.Typed.{Change, put, set_tip, memory_change, IsGood}

abbrev pub is_acked : Go (Unit {0}) → Bool
is_acked (ok u) = true
is_acked (err e) = false
is_acked panic = false
is_acked stuck = false

module _ {Text Files : Type 0} (c : Crypto) (json : Json Text) (fs : FileSystem Text Files) where
  open fs use {read_file, write_file, rename}

  abbrev pub disk_change : Change → DiskStore → Files → Changed json fs
  disk_change (put block work) d files = disk_store_block json fs c block work d files
  disk_change (set_tip hash) d files = disk_set_current_tip json fs hash d files

  -- A run of changes, and beside it the store behind the last change that was acknowledged.
  pub record State : Type 0 where
    pub store : DiskStore
    pub files : Files
    pub saved : MemoryStore

  abbrev pub after : Changed json fs → MemoryStore → State
  after ((d, files), r) saved = record {
    store = d;
    files = files;
    saved = if is_acked r then d.fields else saved;
  }

  unfoldable pub run : List Change → State → State
  run [] s = s
  run (ch ∷ chs) s = run chs (after (disk_change ch s.store s.files) s.saved)

  -- the same changes in memory
  unfoldable pub memory_run : List Change → MemoryStore → MemoryStore
  memory_run [] m = m
  memory_run (ch ∷ chs) m = memory_run chs (memory_change c ch m)

  -- What is found is a snapshot of the store; for an empty store, no file will do.
  abbrev pub Holds : Found Text → MemoryStore → Type 0
  Holds found saved =
      ((found ≡ missing) × (saved ≡ new_memory_store))
      ⊎ ((t : Text) × (snap : DiskSnapshot) × (found ≡ contents t)
          × (unmarshal_snapshot json t ≡ ok snap)
          × SameSnapshot (snapshot saved) snap)

  module _ (good_json : IsJson json) (good_fs : IsFileSystem fs) where
    tmp_other : (path : Bytes) → tmp json fs path ≢ path
    tmp_other path e =
        let longer = length-append path (b'.' ∷ b't' ∷ b'm' ∷ b'p' ∷ []) in
        let same = ap length e in absurd (omega arith)

    -- The file is replaced and that is acknowledged, or what is read there is what was.
    abbrev Replaced : Files → Bytes → Text → Files × Go (Unit {0}) → Type 0
    Replaced files path t x =
        ((x.1 ≡ ok tt) × (read_file x.0 path ≡ contents t))
        ⊎ ((is_acked x.1 ≡ false) × (read_file x.0 path ≡ read_file files path))

    replace_file-Replaced :
        (files : Files) (path : Bytes) (t : Text)
        → Replaced files path t (replace_file json fs files path t)
    replace_file-Replaced files path t =
        let first = write_file files (tmp json fs path) t in
        let second = rename first.0 (tmp json fs path) path in
        let moved : Files × Go (Unit {0}) =
          (second.0, if second.1 then ok tt else err Error.disk_failure) in
        let kept = good_fs.others files (tmp json fs path) path t (tmp_other path) in
        either (Bool-cases first.1)
          (λ written.
            subst (Replaced files path t)
              (sym (if-true first.1 moved (first.0, err Error.disk_failure) written))
              (either (Bool-cases second.1)
                (λ renamed. inl (
                  if-true second.1 (ok tt) (err Error.disk_failure) renamed,
                  good_fs.renamed first.0 (tmp json fs path) path renamed
                      ∙ good_fs.written files (tmp json fs path) t written,
                ))
                (λ failed. inr (
                  ap is_acked (if-false second.1 (ok tt) (err Error.disk_failure) failed),
                  good_fs.not_renamed first.0 (tmp json fs path) path failed ∙ kept,
                ))))
          (λ failed.
            subst (Replaced files path t)
              (sym (if-false first.1 moved (first.0, err Error.disk_failure) failed))
              (inr (refl, kept)))

    Holds-same : {f g : Found Text} {s t : MemoryStore} → f ≡ g → s ≡ t → Holds g t → Holds f s
    Holds-same {f} {g} {s} {t} e e' h =
        subst (λ x. Holds x s) (sym e) (subst (λ x. Holds g x) (sym e') h)

    written_snapshot :
        (m : MemoryStore) (text : Text)
        → IsGood c json.writable m
        → json.marshal (snapshot m) ≡ ok text
        → (snap : DiskSnapshot) × (unmarshal_snapshot json text ≡ ok snap)
          × SameSnapshot (snapshot m) snap
    unfolding unmarshal_snapshot
    written_snapshot m text good h =
        let (snap, read, same) =
          good_json.reads_back (snapshot m) text
            (λ r there.
              let (k, b, found, made) = block-snapshot m good.typed r there in
              subst (λ (x : DiskBlockRecord). json.writable x.block) (sym made)
                (good.writes k b found))
            h in
        let some_text = good_json.some_text (snapshot m) text h in (snap, rw some_text read, same)

    -- After a flush, the file holds the store if the flush is acknowledged, else what it held.
    pub flush-Holds :
        (files : Files) (d : DiskStore) (saved : MemoryStore)
        → IsGood c json.writable d.fields
        → Holds (read_file files d.path) saved
        → let x = flush json fs files d in
          Holds (read_file x.0 d.path) (if is_acked x.1 then d.fields else saved)
    unfolding flush
    flush-Holds files d saved good held = go (json.marshal (snapshot d.fields)) refl
      where
        finish : Go Text → Files × Go (Unit {0})
        finish r = elim r [
          | ok text ↦ replace_file json fs files d.path text
          | err x ↦ (files, err x)
          | panic ↦ (files, panic)
          | stuck ↦ (files, stuck)
        ]

        Goal : Files × Go (Unit {0}) → Type 0
        Goal x = Holds (read_file x.0 d.path) (if is_acked x.1 then d.fields else saved)

        go :
            (r : Go Text)
            → json.marshal (snapshot d.fields) ≡ r
            → Goal (finish (json.marshal (snapshot d.fields)))
        go (ok text) h =
            let x = replace_file json fs files d.path text in
            let at_ok : Goal x =
              either (replace_file-Replaced files d.path text)
                (λ (done, now).
                  let (snap, read, same) = written_snapshot d.fields text good h in
                  Holds-same now (if-true (is_acked x.1) d.fields saved (ap is_acked done))
                    (inr (text, snap, refl, read, same)))
                (λ (refused, kept).
                  Holds-same kept (if-false (is_acked x.1) d.fields saved refused) held) in
            subst (λ r. Goal (finish r)) (sym h) at_ok
        go (err x) h = subst (λ r. Goal (finish r)) (sym h) held
        go panic h = subst (λ r. Goal (finish r)) (sym h) held
        go stuck h = subst (λ r. Goal (finish r)) (sym h) held

    -- The state of a run: what its file holds is what was saved, and both stores can be written.
    pub record IsDurable (path : Bytes) (s : State) : Type 0 where
      pub in_place : s.store.path ≡ path
      pub holds : Holds (read_file s.files path) s.saved
      pub good : IsGood c json.writable s.store.fields
      pub good_saved : IsGood c json.writable s.saved

    -- A flush that is not acknowledged leaves the file as it was.
    flush-kept :
        (files : Files) (d : DiskStore)
        → is_acked (flush json fs files d).1 ≡ false
        → read_file (flush json fs files d).0 d.path ≡ read_file files d.path
    unfolding flush
    flush-kept files d = go (json.marshal (snapshot d.fields)) refl
      where
        finish : Go Text → Files × Go (Unit {0})
        finish r = elim r [
          | ok text ↦ replace_file json fs files d.path text
          | err x ↦ (files, err x)
          | panic ↦ (files, panic)
          | stuck ↦ (files, stuck)
        ]

        Goal : Files × Go (Unit {0}) → Type 0
        Goal x = is_acked x.1 ≡ false → read_file x.0 d.path ≡ read_file files d.path

        go :
            (r : Go Text)
            → json.marshal (snapshot d.fields) ≡ r
            → Goal (finish (json.marshal (snapshot d.fields)))
        go (ok text) h =
            subst (λ r. Goal (finish r)) (sym h)
              (λ refused.
                either (replace_file-Replaced files d.path text) (λ (done, _). absurd (cc))
                  (λ (_, kept). kept))
        go (err x) h = subst (λ r. Goal (finish r)) (sym h) (λ _. refl)
        go panic h = subst (λ r. Goal (finish r)) (sym h) (λ _. refl)
        go stuck h = subst (λ r. Goal (finish r)) (sym h) (λ _. refl)

    -- `StoreBlock` that returns an error leaves the file as it was, and yet the block is stored in
    -- memory: `GetBlock` returns it, and `TotalWork` its work.
    pub disk_store_block-unacked :
        (block : Block) (work : ℕ) (d : DiskStore) (files : Files)
        → is_acked (disk_store_block json fs c block work d files).1 ≡ false
        → let ((d', files'), r) = disk_store_block json fs c block work d files in
          (read_file files' d.path ≡ read_file files d.path)
          × (get_block d'.fields (block_hash c block) ≡ ok block)
          × (total_work d'.fields (block_hash c block) ≡ ok work)
    unfolding disk_store_block get_block total_work store_block
    disk_store_block-unacked block work d files refused = (
      flush-kept files (record d { fields = store_block c block work d.fields }) refused,
      ap or_not_found (lookup-insert_self (block_hash c block) block d.fields.blocks),
      ap or_not_found (lookup-insert_self (block_hash c block) work d.fields.total_work),
    )
