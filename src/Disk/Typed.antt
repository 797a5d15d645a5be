-- ===== src/Disk/Typed.antt =====
-- The changes of a store, and what they keep of the types of its keys.
use colossusx.Prelude.{
  ℕ, ◌<◌, ◌^◌, ◌≡◌, refl, sym, ap, subst, ◌⊎◌, inl, inr, either, Error, panic, stuck, Bool, true,
  false, Bool-cases, if◌then◌else◌, ◌&&◌, ◌==◌, some, Go, ok, err, arith,
}
use colossusx.Prelude.Keys.{bytes_eq, bytes_key, number_eq}
use colossusx.Prelude.Maps.{lookup, lookup-insert, has, has-true}
use colossusx.Prelude.Slices.{Bytes}
use colossusx.Crypto.{Crypto}
use colossusx.Target.{IsHash}
use colossusx.Types.{Block, block_hash, zero_hash, header_hash, encode}
use colossusx.Chain.{MemoryStore, new_memory_store, store_block, set_current_tip}
use colossusx.Chain.Laws.{insert-split}
use colossusx.Disk.Snapshot.{IsTyped}

pub data Change : Type 0 where
  put : Block → ℕ → Change
  set_tip : Bytes → Change

-- `SetCurrentTip` of a hash that is not there fails and changes nothing.
abbrev pub tip_set : MemoryStore → Go MemoryStore → MemoryStore
tip_set s (ok s') = s'
tip_set s (err x) = s
tip_set s panic = s
tip_set s stuck = s

-- the change in memory
abbrev pub memory_change : Crypto → Change → MemoryStore → MemoryStore
memory_change c (put block work) s = store_block c block work s
memory_change c (set_tip hash) s = tip_set s (set_current_tip s hash)

-- The tip is set to a stored block, or the call fails.
pub set_current_tip-cases :
    (s : MemoryStore) (hash : Bytes)
    → ((b : Block) × (lookup hash s.blocks ≡ some b)
        × (set_current_tip s hash ≡ ok (record s { current_tip = hash })))
      ⊎ (set_current_tip s hash ≡ err Error.block_not_found)
unfolding set_current_tip
set_current_tip-cases s hash =
    either (Bool-cases (has hash s.blocks))
      (λ known. let (b, stored) = has-true hash s.blocks known in inl (b, stored, rw known refl))
      (λ unknown. inr (rw unknown refl))

module _ (c : Crypto) (writable : Block → Type 0) where
  -- The store can be written.
  pub record IsGood (s : MemoryStore) : Type 0 where
    pub typed : IsTyped s
    pub writes : (k : Bytes) (b : Block) → lookup k s.blocks ≡ some b → writable b

  abbrev pub IsAllowed : Change → Type 0
  IsAllowed (put block work) = (block.header.height < 2 ^ 64) × writable block
  IsAllowed (set_tip hash) = Unit

  block_hash-IsHash : (b : Block) → IsHash (block_hash c b)
  unfolding block_hash header_hash
  block_hash-IsHash b = record {
    bytes = c.sha256-bytes (encode b.header);
    width = c.length-sha256 (encode b.header);
  }

  either-IsHash : (b : Bool) (h k : Bytes) → IsHash h → IsHash k → IsHash (if b then h else k)
  either-IsHash true h k is_h is_k = is_h
  either-IsHash false h k is_h is_k = is_k

  store_block-IsGood :
      (block : Block) (work : ℕ) (s : MemoryStore)
      → IsAllowed (put block work)
      → IsGood s
      → IsGood (store_block c block work s)
  unfolding store_block
  store_block-IsGood block work s (small, writes) good =
      let hash = block_hash c block in
      let is = block_hash-IsHash block in
      record {
        typed = record {
          genesis =
              either-IsHash (block.header.height == 0 && bytes_eq s.genesis_hash zero_hash) hash
                s.genesis_hash is good.typed.genesis;
          tip =
              either-IsHash (bytes_eq s.current_tip zero_hash) hash s.current_tip is good.typed.tip;
          block_keys = λ k b h.
              either (insert-split hash k block s.blocks h) (λ (same, _). subst IsHash same is)
                (λ (_, old). good.typed.block_keys k b old);
          heights = λ n h found.
              either (Bool-cases (block.header.height == n))
                (λ same.
                  let value : hash ≡ h =
                    ground
                      (arith, same, found, lookup-insert block.header.height n hash s.heights) in
                  let height : block.header.height ≡ n = ground arith in
                  (omega (arith, small), subst IsHash value is))
                (λ other. good.typed.heights n h (
                  ground
                    (arith, other, found, lookup-insert block.header.height n hash s.heights)));
          work_keys = λ k w h.
              either (insert-split hash k work s.total_work h) (λ (same, _). subst IsHash same is)
                (λ (_, old). good.typed.work_keys k w old);
        };
        writes = λ k b h.
            either (insert-split hash k block s.blocks h) (λ (_, same). subst writable same writes)
              (λ (_, old). good.writes k b old);
      }

  pub memory_change-IsGood :
      (ch : Change) (s : MemoryStore) → IsAllowed ch → IsGood s → IsGood (memory_change c ch s)
  memory_change-IsGood (put block work) s allowed good =
      store_block-IsGood block work s allowed good
  memory_change-IsGood (set_tip hash) s allowed good =
      either (set_current_tip-cases s hash)
        (λ (b, stored, done). subst IsGood (ap (tip_set s) (sym done)) (record {
          typed = record {
            genesis = good.typed.genesis;
            tip = good.typed.block_keys hash b stored;
            block_keys = good.typed.block_keys;
            heights = good.typed.heights;
            work_keys = good.typed.work_keys;
          };
          writes = good.writes;
        }))
        (λ refused. subst IsGood (ap (tip_set s) (sym refused)) good)

  pub new_memory_store-IsGood : IsGood new_memory_store
  unfolding new_memory_store lookup
  new_memory_store-IsGood = record {
    typed = record {
      genesis = zero;
      tip = zero;
      block_keys = λ k b h. absurd (cc);
      heights = λ n h found. absurd (cc);
      work_keys = λ k w h. absurd (cc);
    };
    writes = λ k b h. absurd (cc);
  }
    where
      zero : IsHash zero_hash
      zero = record { bytes = ground arith; width = refl }
