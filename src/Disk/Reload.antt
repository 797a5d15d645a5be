-- ===== src/Disk/Reload.antt =====
-- A store that is read back from its snapshot.
use colossusx.Prelude.{
  ℕ, ◌≡◌, refl, sym, ap, subst, ◌∙◌, either, List, [], Memᴰ, Option, Option-cases, none, some, Go,
  ok, ◌>>=◌,
}
use colossusx.Prelude.Keys.{Eq, bytes_key, number_eq}
use colossusx.Prelude.Maps.{Map, lookup, has}
use colossusx.Prelude.Ranges.{
  IsIn, Reads, put_all, put_all-to, put_all-from, put_all-IsOnce, Memᴰ-lookup, lookup-Memᴰ,
  load_into, load_into-Within,
}
use colossusx.Prelude.Slices.{Bytes}
use colossusx.Prelude.Hex.{hex_encode}
use colossusx.Prelude.Decimal.{format_uint, parse_uint, parse_uint-format_uint}
use colossusx.Types.{Block}
use colossusx.Chain.{
  MemoryStore, new_memory_store, get_block, get_header, get_block_by_height, current_tip,
  total_work, has_block, or_not_found, block_or_zero,
}
use colossusx.Disk.Codec.{
  DiskBlockRecord, DiskSnapshot, SameSnapshot, of_parsed, hash_from_string, hash_from_string-encode,
  big_int_to_string, big_int_from_string, big_int_from_string-to_string,
}
use colossusx.Disk.{
  DiskStore, disk_get_block, disk_get_header, disk_get_block_by_height, disk_current_tip,
  disk_total_work, disk_has_block, snapshot, load_snapshot,
}
use colossusx.Disk.Snapshot.{IsTyped, snapshot-block, block-snapshot}

-- Two stores that answer every read alike.
pub record SameStore (s t : MemoryStore) : Type 0 where
  pub genesis : t.genesis_hash ≡ s.genesis_hash
  pub tip : t.current_tip ≡ s.current_tip
  pub blocks : (k : Bytes) → lookup k t.blocks ≡ lookup k s.blocks
  pub heights : (n : ℕ) → lookup n t.heights ≡ lookup n s.heights
  pub work : (k : Bytes) → lookup k t.total_work ≡ lookup k s.total_work

-- Every read of a disk store whose fields are the same as a memory store's returns what that store
-- returns: blocks, headers, the block at a height, the tip, total works, and the test for a block.
SameStore-reads :
    (s : MemoryStore) (d : DiskStore)
    → SameStore s d.fields
    → ((k : Bytes) → disk_get_block d k ≡ get_block s k)
      × ((k : Bytes) → disk_get_header d k ≡ get_header s k)
      × ((n : ℕ) → disk_get_block_by_height d n ≡ get_block_by_height s n)
      × (disk_current_tip d ≡ current_tip s)
      × ((k : Bytes) → disk_total_work d k ≡ total_work s k)
      × ((k : Bytes) → disk_has_block d k ≡ has_block s k)
unfolding get_block get_header get_block_by_height current_tip total_work has_block has
SameStore-reads s d same = (
  λ k. rw (same.blocks k) refl,
  λ k. rw (same.blocks k) refl,
  λ n. rw (same.heights n) (by_height (lookup n s.heights)),
  rw (same.tip, same.blocks s.current_tip, same.work s.current_tip) refl,
  λ k. rw (same.work k) refl,
  λ k. rw (same.blocks k, has) refl,
)
  where
    by_height :
        (o : Option Bytes)
        → (or_not_found o >>= λ hash. ok (block_or_zero (lookup hash d.fields.blocks)))
          ≡ (or_not_found o >>= λ hash. ok (block_or_zero (lookup hash s.blocks)))
    by_height none = refl
    by_height (some h) = rw (same.blocks h) refl

-- A loop that reads, for every key of a map, an entry as the map wants it, and no other entry.
module _ {A K V : Type 0} ⦃q : Eq K⦄ (f : A → Go K) (g : A → Go V) (l : List A) (m : Map K V) where
  pub loads_map :
      ((a : A) → Memᴰ a l → Reads f g (λ k. lookup k m) a)
      → ((k : K) (v : V) → lookup k m ≡ some v → (a : A) × Memᴰ a l × (f a ≡ ok k))
      → (m' : Map K V) × (load_into f g l [] ≡ ok m') × ((k : K) → lookup k m' ≡ lookup k m)
  unfolding lookup
  loads_map reads covers =
      let (m', run, within, _, filled) =
        load_into-Within f g (λ k. lookup k m) l [] (λ k v h. absurd (cc)) reads in
      (
        m',
        run,
        λ k.
            either (Option-cases (lookup k m))
              (λ nothing.
                either (Option-cases (lookup k m')) (λ neither. neither ∙ sym nothing)
                  (λ (v, there). absurd (cc (within k v there))))
              (λ (v, wanted).
                let (a, entry, key) = covers k v wanted in
                let (x, there) = filled a k entry key in there ∙ sym (within k x there)),
      )

-- The same of a map that was written with texts for its keys and values.
module _ {K V : Type 0} ⦃q : Eq K⦄ (f : K → Bytes) (g : V → Bytes) (parse_key : Bytes → Go K)
    (parse_value : Bytes → Go V) (m : Map K V) (l : List (Bytes × Bytes)) where
  pub loads_texts :
      ((k : K) (v : V)
        → lookup k m ≡ some v
        → (parse_key (f k) ≡ ok k) × (parse_value (g v) ≡ ok v))
      → ((e : Bytes × Bytes) → Memᴰ e (put_all f g m) → Memᴰ e l)
      → ((e : Bytes × Bytes) → Memᴰ e l → Memᴰ e (put_all f g m))
      → (m' : Map K V) × (load_into
            (λ (e : Bytes × Bytes). parse_key e.0)
            (λ (e : Bytes × Bytes). parse_value e.1)
            l
            []
          ≡ ok m')
        × ((k : K) → lookup k m' ≡ lookup k m)
  loads_texts reads into from =
      loads_map (λ (e : Bytes × Bytes). parse_key e.0) (λ (e : Bytes × Bytes). parse_value e.1) l m
        (λ e h.
          let written = Memᴰ-lookup e.0 e.1 (put_all f g m) (put_all-IsOnce f g m) (from e h) in
          let (k, v, found, key, value) = put_all-from f g m e.0 written in
          let (key_read, value_read) = reads k v found in
          (k, v, ap parse_key (sym key) ∙ key_read, ap parse_value (sym value) ∙ value_read, found))
        (λ k v h.
          let apart : (i j : K) → IsIn i m → IsIn j m → f i ≡ f j → i ≡ j =
            λ i j (a, at_i) (b, at_j) e.
              ok_same (sym ((reads i a at_i).0) ∙ (ap parse_key e ∙ (reads j b at_j).0)) in
          let written = put_all-to f g m k apart h in
          (
            (f k, g v),
            into (f k, g v) (lookup-Memᴰ (f k) (put_all f g m) written),
            (reads k v h).0,
          ))
    where
      ok_same : {i j : K} → ok i ≡ ok j → i ≡ j
      ok_same e = cc

module _ (s : MemoryStore) (typed : IsTyped s) (snap : DiskSnapshot)
    (same : SameSnapshot (snapshot s) snap) where
  blocks_loaded :
      (m' : Map Bytes Block) × (load_into
          (λ (r : DiskBlockRecord). hash_from_string r.hash)
          (λ r. ok r.block)
          snap.blocks
          []
        ≡ ok m')
      × ((k : Bytes) → lookup k m' ≡ lookup k s.blocks)
  blocks_loaded =
      loads_map (λ (r : DiskBlockRecord). hash_from_string r.hash) (λ r. ok r.block) snap.blocks
        s.blocks
        (λ r h.
          let (k, b, found, made) = block-snapshot s typed r (subst (Memᴰ r) same.records h) in
          (
            k,
            b,
            ap (λ (r : DiskBlockRecord). hash_from_string r.hash) made
                ∙ hash_from_string-encode k (typed.block_keys k b found),
            ap (λ (r : DiskBlockRecord). ok r.block) made,
            found,
          ))
        (λ k b h. (
          record { hash = hex_encode k; block = b },
          subst (Memᴰ (record { hash = hex_encode k; block = b })) (sym same.records)
              (snapshot-block s typed k b h),
          hash_from_string-encode k (typed.block_keys k b h),
        ))

  heights_loaded :
      (m' : Map ℕ Bytes) × (load_into
          (λ (e : Bytes × Bytes). of_parsed (parse_uint e.0))
          (λ (e : Bytes × Bytes). hash_from_string e.1)
          snap.heights
          []
        ≡ ok m')
      × ((n : ℕ) → lookup n m' ≡ lookup n s.heights)
  unfolding snapshot
  heights_loaded =
      loads_texts format_uint hex_encode (λ t. of_parsed (parse_uint t)) hash_from_string s.heights
        snap.heights
        (λ n h found.
          let (small, is) = typed.heights n h found in
          (ap of_parsed (parse_uint-format_uint n small), hash_from_string-encode h is))
        (λ e. (same.heights_same e).0) (λ e. (same.heights_same e).1)

  work_loaded :
      (m' : Map Bytes ℕ) × (load_into
          (λ (e : Bytes × Bytes). hash_from_string e.0)
          (λ (e : Bytes × Bytes). big_int_from_string e.1)
          snap.total_work
          []
        ≡ ok m')
      × ((k : Bytes) → lookup k m' ≡ lookup k s.total_work)
  unfolding snapshot
  work_loaded =
      loads_texts hex_encode big_int_to_string hash_from_string big_int_from_string s.total_work
        snap.total_work
        (λ k w found.
          (hash_from_string-encode k (typed.work_keys k w found), big_int_from_string-to_string w))
        (λ e. (same.work_same e).0) (λ e. (same.work_same e).1)

  -- The snapshot of a store whose hashes are 32 bytes and whose heights are below 2^64, with the
  -- entries of its maps in any order, is loaded without an error into a new store: the new store
  -- has the same genesis and tip, and every lookup of a block, a height or a total work gives what
  -- it gave in the old one.
  pub load_snapshot-SameStore :
      (s' : MemoryStore) × (load_snapshot snap new_memory_store ≡ ok s') × SameStore s s'
  unfolding load_snapshot new_memory_store snapshot
  load_snapshot-SameStore =
      let (blocks, b_run, b_same) = blocks_loaded in
      let (heights, h_run, h_same) = heights_loaded in
      let (work, w_run, w_same) = work_loaded in
      let genesis =
        ap hash_from_string same.genesis ∙ hash_from_string-encode s.genesis_hash typed.genesis in
      let tip = ap hash_from_string same.tip ∙ hash_from_string-encode s.current_tip typed.tip in
      (
        record {
          genesis_hash = s.genesis_hash;
          current_tip = s.current_tip;
          blocks = blocks;
          heights = heights;
          total_work = work;
        },
        rw (genesis, tip, b_run, h_run, w_run) refl,
        record { genesis = refl; tip = refl; blocks = b_same; heights = h_same; work = w_same },
      )
