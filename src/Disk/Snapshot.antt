-- ===== src/Disk/Snapshot.antt =====
-- What a snapshot holds of a store.
use colossusx.Prelude.{
  ℕ, ◌<◌, ◌^◌, ◌≡◌, sym, ap, subst, ◌∙◌, either, Bool-cases, if-true, if-false, List, [], ◌∷◌, Memᴰ,
  map, Option, some, arith,
}
use mathlib.Core.List.Memᴰ
use colossusx.Prelude.Keys.{bytes_eq, bytes_eq_iff, bytes_key, number_eq}
use colossusx.Prelude.Maps.{Map, lookup}
use colossusx.Prelude.Ranges.{IsIn, put_all-to, lookup-Memᴰ, Memᴰ-IsIn}
use colossusx.Prelude.Slices.{Bytes}
use colossusx.Prelude.Hex.{hex_encode, hex_encode-inj, str_lt}
use colossusx.Target.{IsHash}
use colossusx.Types.{Block}
use colossusx.Chain.{MemoryStore, block_or_zero}
use colossusx.Disk.Codec.{DiskBlockRecord}
use colossusx.Disk.{
  insert_string, sort_strings, hash_or_zero, block_record, hash_strings, by_string, snapshot,
}

-- The keys and hashes of the store have the types of the source.
pub record IsTyped (s : MemoryStore) : Type 0 where
  pub genesis : IsHash s.genesis_hash
  pub tip : IsHash s.current_tip
  pub block_keys : (k : Bytes) (b : Block) → lookup k s.blocks ≡ some b → IsHash k
  pub heights : (n : ℕ) (h : Bytes) → lookup n s.heights ≡ some h → (n < 2 ^ 64) × IsHash h
  pub work_keys : (k : Bytes) (w : ℕ) → lookup k s.total_work ≡ some w → IsHash k

-- Sorting keeps the members.
insert_string-from : (a s : Bytes) (l : List Bytes) → Memᴰ a (insert_string s l) → Memᴰ a (s ∷ l)
unfolding insert_string
insert_string-from a s [] h = h
insert_string-from a s (t ∷ ts) h =
    either (Bool-cases (str_lt t s))
      (λ less.
        let h' =
          subst (Memᴰ a) (if-true (str_lt t s) (t ∷ insert_string s ts) (s ∷ t ∷ ts) less) h in
        either (Memᴰ.cases_cons h') (λ e. Memᴰ.tail (Memᴰ.head e))
          (λ later.
            either (Memᴰ.cases_cons (insert_string-from a s ts later)) (λ e. Memᴰ.head e)
              (λ m. Memᴰ.tail (Memᴰ.tail m))))
      (λ more. subst (Memᴰ a) (if-false (str_lt t s) (t ∷ insert_string s ts) (s ∷ t ∷ ts) more) h)

insert_string-to : (a s : Bytes) (l : List Bytes) → Memᴰ a (s ∷ l) → Memᴰ a (insert_string s l)
unfolding insert_string
insert_string-to a s [] h = h
insert_string-to a s (t ∷ ts) h =
    either (Bool-cases (str_lt t s))
      (λ less.
        subst (Memᴰ a) (sym (if-true (str_lt t s) (t ∷ insert_string s ts) (s ∷ t ∷ ts) less)) (
          either (Memᴰ.cases_cons h) (λ e. Memᴰ.tail (insert_string-to a s ts (Memᴰ.head e)))
            (λ later.
              either (Memᴰ.cases_cons later) (λ e. Memᴰ.head e)
                (λ m. Memᴰ.tail (insert_string-to a s ts (Memᴰ.tail m))))))
      (λ more.
        subst (Memᴰ a) (sym (if-false (str_lt t s) (t ∷ insert_string s ts) (s ∷ t ∷ ts) more)) h)

sort_strings-from : (a : Bytes) (l : List Bytes) → Memᴰ a (sort_strings l) → Memᴰ a l
unfolding sort_strings
sort_strings-from a [] h = h
sort_strings-from a (s ∷ ss) h =
    either (Memᴰ.cases_cons (insert_string-from a s (sort_strings ss) h)) (λ e. Memᴰ.head e)
      (λ m. Memᴰ.tail (sort_strings-from a ss m))

sort_strings-to : (a : Bytes) (l : List Bytes) → Memᴰ a l → Memᴰ a (sort_strings l)
unfolding sort_strings
sort_strings-to a [] h = h
sort_strings-to a (s ∷ ss) h =
    insert_string-to a s (sort_strings ss)
      (either (Memᴰ.cases_cons h) (λ e. Memᴰ.head e) (λ m. Memᴰ.tail (sort_strings-to a ss m)))

twice : Map Bytes Block → Map Bytes Bytes
twice blocks = map (λ (e : Bytes × Block). (e.0, e.0)) blocks

twice-IsIn : (k : Bytes) (m : Map Bytes Block) → IsIn k m → lookup k (twice m) ≡ some k
unfolding twice lookup
twice-IsIn k [] (b, h) = absurd (cc)
twice-IsIn k (entry ∷ rest) (b, h) =
    either (Bool-cases (bytes_eq entry.0 k)) (λ here. ground (arith, here, bytes_eq_iff entry.0 k))
      (λ later. ground (arith, later, twice-IsIn k rest (b, ground (arith, later, h))))

IsIn-twice : (k : Bytes) (m : Map Bytes Block) → IsIn k (twice m) → IsIn k m
unfolding twice lookup
IsIn-twice k [] (b, h) = absurd (cc)
IsIn-twice k (entry ∷ rest) (x, h) =
    either (Bool-cases (bytes_eq entry.0 k))
      (λ here. (entry.1, if-true (bytes_eq entry.0 k) (some entry.1) (lookup k rest) here))
      (λ later.
        let (b, found) = IsIn-twice k rest (x, ground (arith, later, h)) in
        (b, if-false (bytes_eq entry.0 k) (some entry.1) (lookup k rest) later ∙ found))

module _ (s : MemoryStore) (typed : IsTyped s) where
  pub blocks_apart :
      (i j : Bytes) → IsIn i s.blocks → IsIn j s.blocks → hex_encode i ≡ hex_encode j → i ≡ j
  blocks_apart i j (a, at_i) (b, at_j) =
      hex_encode-inj i j (typed.block_keys i a at_i).bytes (typed.block_keys j b at_j).bytes

  by_string_lem :
      (k : Bytes) → IsIn k s.blocks → lookup (hex_encode k) (by_string s.blocks) ≡ some k
  unfolding twice
  by_string_lem k known =
      put_all-to hex_encode (λ h. h) (twice s.blocks) k
        (λ i j a b. blocks_apart i j (IsIn-twice i s.blocks a) (IsIn-twice j s.blocks b))
        (twice-IsIn k s.blocks known)

  record_lem :
      (k : Bytes) (b : Block)
      → lookup k s.blocks ≡ some b
      → block_record s.blocks (by_string s.blocks) (hex_encode k)
        ≡ record { hash = hex_encode k; block = b }
  record_lem k b h =
      ap
        (λ (o : Option Bytes). record {
          hash = hex_encode k;
          block = block_or_zero (lookup (hash_or_zero o) s.blocks);
        })
        (by_string_lem k (b, h))
      ∙ ap (λ (o : Option Block). record { hash = hex_encode k; block = block_or_zero o }) h

  -- A stored block is in the snapshot,
  pub snapshot-block :
      (k : Bytes) (b : Block)
      → lookup k s.blocks ≡ some b
      → Memᴰ (record { hash = hex_encode k; block = b }) (snapshot s).blocks
  unfolding snapshot
  snapshot-block k b h =
      let listed = Memᴰ.map (λ (e : Bytes × Block). hex_encode e.0) (lookup-Memᴰ k s.blocks h) in
      let sorted = sort_strings-to (hex_encode k) (hash_strings s.blocks) listed in
      subst (λ r. Memᴰ r (snapshot s).blocks) (record_lem k b h)
        (Memᴰ.map (block_record s.blocks (by_string s.blocks)) sorted)

  -- and no other block.
  pub block-snapshot :
      (r : DiskBlockRecord)
      → Memᴰ r (snapshot s).blocks
      → (k : Bytes) × (b : Block) × (lookup k s.blocks ≡ some b)
        × (r ≡ record { hash = hex_encode k; block = b })
  unfolding snapshot
  block-snapshot r h =
      let (hs, sorted, made) =
        Memᴰ.of_map (block_record s.blocks (by_string s.blocks))
          (sort_strings (hash_strings s.blocks)) h in
      let (e, entry, key) =
        Memᴰ.of_map (λ (e : Bytes × Block). hex_encode e.0) s.blocks
          (sort_strings-from hs (hash_strings s.blocks) sorted) in
      let (b, found) = Memᴰ-IsIn e.0 e.1 s.blocks entry in
      (
        e.0,
        b,
        found,
        sym made
            ∙ (ap (block_record s.blocks (by_string s.blocks)) (sym key) ∙ record_lem e.0 b found),
      )
