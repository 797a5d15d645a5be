-- ===== src/Disk/Reopen.antt =====
-- A disk store that is opened again after any changes, some of which may have failed.
use colossusx.Prelude.{
  ◌≡◌, ◌≢◌, refl, sym, ap, subst, ◌∙◌, either, Bool, true, false, if◌then◌else◌, if-true, List, [],
  ◌∷◌, Go, ok, err, Error,
}
use colossusx.Prelude.Keys.{bytes_key}
use colossusx.Prelude.Slices.{Bytes}
use colossusx.Crypto.{Crypto}
use colossusx.Chain.{MemoryStore, new_memory_store, store_block, set_current_tip}
use colossusx.Disk.Codec.{Json, IsJson}
use colossusx.Disk.{
  FileSystem, IsFileSystem, DiskStore, Changed, chain_json, load, new_disk_store, flush, flushed,
  disk_store_block, disk_set_current_tip,
}
use colossusx.Disk.Snapshot.{IsTyped}
use colossusx.Disk.Reload.{SameStore, load_snapshot-SameStore}
use colossusx.Disk.Typed.{
  Change, tip_set, put, set_tip, memory_change, IsGood, IsAllowed, memory_change-IsGood,
  set_current_tip-cases,
}
use colossusx.Disk.Durable.{
  is_acked, State, disk_change, after, run, memory_run, Holds, IsDurable, flush-Holds,
}

module _ {Text Files : Type 0} (c : Crypto) (json : Json Text) (fs : FileSystem Text Files)
    (good_json : IsJson json) (good_fs : IsFileSystem fs) where
  open fs use {read_file}

  abbrev Lasts : Bytes → State c json fs → Type 0
  Lasts path s = IsDurable c json fs good_json good_fs path s

  abbrev pub to_state : Changed json fs → MemoryStore → State c json fs
  to_state x saved = after c json fs x saved

  -- A change that is flushed.
  flushed-IsDurable :
      (path : Bytes) (d : DiskStore) (files : Files) (saved : MemoryStore)
      → d.path ≡ path
      → IsGood c json.writable d.fields
      → IsGood c json.writable saved
      → Holds c json fs (read_file files path) saved
      → Lasts path (to_state (flushed json fs files d) saved)
  flushed-IsDurable path d files saved place good good_saved held = record {
    in_place = place;
    holds =
        let at : Holds c json fs (read_file files d.path) saved =
          subst (λ p. Holds c json fs (read_file files p) saved) (sym place) held in
        subst
          (λ p.
            Holds c json fs (read_file (flush json fs files d).0 p)
              (if is_acked (flush json fs files d).1 then d.fields else saved))
          place (flush-Holds c json fs good_json good_fs files d saved good at);
    good = good;
    good_saved = chosen (is_acked (flush json fs files d).1);
  }
    where
      chosen : (b : Bool) → IsGood c json.writable (if b then d.fields else saved)
      chosen true = good
      chosen false = good_saved

  tip_moved :
      (hash : Bytes) (d : DiskStore) (files : Files) {m : MemoryStore}
      → set_current_tip d.fields hash ≡ ok m
      → disk_set_current_tip json fs hash d files ≡ flushed json fs files (record d { fields = m })
  unfolding disk_set_current_tip
  tip_moved hash d files h = rw (h, disk_set_current_tip) refl

  tip_refused :
      (hash : Bytes) (d : DiskStore) (files : Files) {x : Error}
      → set_current_tip d.fields hash ≡ err x
      → disk_set_current_tip json fs hash d files ≡ ((d, files), err x)
  unfolding disk_set_current_tip
  tip_refused hash d files h = rw (h, disk_set_current_tip) refl

  change-IsDurable :
      (path : Bytes) (ch : Change) (s : State c json fs)
      → IsAllowed c json.writable ch
      → Lasts path s
      → let s' = to_state (disk_change c json fs ch s.store s.files) s.saved in
        Lasts path s' × (s'.store.fields ≡ memory_change c ch s.store.fields)
  unfolding disk_store_block
  change-IsDurable path (put block work) s allowed dur = (
    flushed-IsDurable path (record s.store { fields = store_block c block work s.store.fields })
        s.files s.saved dur.in_place
        (memory_change-IsGood c json.writable (put block work) s.store.fields allowed dur.good)
        dur.good_saved dur.holds,
    refl,
  )
  change-IsDurable path (set_tip hash) s allowed dur =
      let m = s.store.fields in
      let Goal : Changed json fs → Go MemoryStore → Type 0 = λ x r.
        Lasts path (to_state x s.saved) × ((to_state x s.saved).store.fields ≡ tip_set m r) in
      either (set_current_tip-cases m hash)
        (λ (b, stored, done).
          let m' : MemoryStore = record m { current_tip = hash } in
          let good = memory_change-IsGood c json.writable (set_tip hash) m allowed dur.good in
          subst (λ x. Goal x (set_current_tip m hash)) (sym (tip_moved hash s.store s.files done))
            (
              flushed-IsDurable path (record s.store { fields = m' }) s.files s.saved dur.in_place
                  (subst (λ r. IsGood c json.writable (tip_set m r)) done good) dur.good_saved
                  dur.holds,
              sym (ap (tip_set m) done),
            ))
        (λ refused.
          subst (λ x. Goal x (set_current_tip m hash))
            (sym (tip_refused hash s.store s.files refused))
            (
              record {
                in_place = dur.in_place;
                holds = dur.holds;
                good = dur.good;
                good_saved = dur.good_saved;
              },
              sym (ap (tip_set m) refused),
            ))

  abbrev pub AllAllowed : List Change → Type 0
  AllAllowed [] = Unit
  AllAllowed (ch ∷ chs) = IsAllowed c json.writable ch × AllAllowed chs

  run-IsDurable :
      (path : Bytes) (chs : List Change) (s : State c json fs)
      → AllAllowed chs
      → Lasts path s
      → Lasts path (run c json fs chs s)
        × ((run c json fs chs s).store.fields ≡ memory_run c json fs chs s.store.fields)
  unfolding run memory_run
  run-IsDurable path [] s allowed dur = (dur, refl)
  run-IsDurable path (ch ∷ chs) s (now, later) dur =
      let (step, same) = change-IsDurable path ch s now dur in
      let (end, fields) =
        run-IsDurable path chs (to_state (disk_change c json fs ch s.store s.files) s.saved) later
          step in
      (end, fields ∙ ap (memory_run c json fs chs) same)

  load_held :
      (files : Files) (path : Bytes) (saved : MemoryStore)
      → Holds c json fs (read_file files path) saved
      → IsTyped saved
      → (m : MemoryStore) × (load json fs files (record { path = path; fields = new_memory_store })
          ≡ ok (record { path = path; fields = m }))
        × SameStore saved m
  unfolding load
  load_held files path saved held typed =
      either held
        (λ (nothing, new). (
          new_memory_store,
          rw (nothing, load) refl,
          subst (λ x. SameStore x new_memory_store) (sym new)
              (record {
                genesis = refl;
                tip = refl;
                blocks = λ k. refl;
                heights = λ n. refl;
                work = λ k. refl;
              }),
        ))
        (λ (t, snap, there, read, same).
          let (m, loaded, alike) = load_snapshot-SameStore saved typed snap same in
          (m, rw (there, read, loaded, load) refl, alike))

  -- After any changes, some of which may have failed, the store in memory is what a memory store
  -- makes of the same changes; and the file, opened again, gives a store that answers as the one
  -- behind the last change that was acknowledged. The changes store blocks whose text JSON keeps,
  -- and the directory can be made.
  pub reopen-SameStore :
      (dir : Bytes) (chs : List Change) (s : State c json fs)
      → dir ≢ []
      → AllAllowed chs
      → Lasts (fs.join dir chain_json) s
      → (fs.mkdir_all (run c json fs chs s).files dir).1 ≡ true
      → ((run c json fs chs s).store.fields ≡ memory_run c json fs chs s.store.fields)
        × ((files : Files) × (d : DiskStore) × (new_disk_store json fs
                (run c json fs chs s).files
                dir
              ≡ (files, ok d))
            × SameStore (run c json fs chs s).saved d.fields)
  unfolding new_disk_store
  reopen-SameStore [] chs s named allowed dur made = absurd (named refl)
  reopen-SameStore (x ∷ xs) chs s named allowed dur made =
      let path = fs.join (x ∷ xs) chain_json in
      let (end, fields) = run-IsDurable path chs s allowed dur in
      let files = (fs.mkdir_all (run c json fs chs s).files (x ∷ xs)).0 in
      let held =
        subst (λ f. Holds c json fs f (run c json fs chs s).saved)
          (sym (good_fs.made (run c json fs chs s).files (x ∷ xs) path)) end.holds in
      let (m, loaded, alike) =
        load_held files path (run c json fs chs s).saved held end.good_saved.typed in
      (
        fields,
        (
          files,
          record { path = path; fields = m },
          if-true (fs.mkdir_all (run c json fs chs s).files (x ∷ xs)).1
                (files, load json fs files (record { path = path; fields = new_memory_store }))
                (files, err Error.disk_failure) made
              ∙ ap (λ (r : Go DiskStore). (files, r)) loaded,
          alike,
        ),
      )
