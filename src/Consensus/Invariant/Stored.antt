-- ===== src/Consensus/Invariant/Stored.antt =====
-- `StoreBlock` of a new block keeps every stored block beside its work.
use colossusx.Prelude.{ℕ, ◌≡◌, ◌≢◌, refl, sym, ap, subst, ◌∙◌, ◌⊎◌, either, none, some}
use colossusx.Prelude.Maps.{lookup, insert}
use colossusx.Prelude.Keys.{bytes_key}
use colossusx.Prelude.Slices.{Bytes}
use colossusx.Crypto.{Crypto}
use colossusx.Types.{Block, block_hash, zero_hash}
use colossusx.Chain.{MemoryStore, store_block}
use colossusx.Chain.Laws.{lookup-insert_ne, lookup-insert_self, insert-split}
use colossusx.Consensus.Invariant.{IsWork, IsChain}

module _ (c : Crypto) (s : MemoryStore) (block : Block) (total : ℕ)
    (fresh : lookup (block_hash c block) s.blocks ≡ none) where
  abbrev hash : Bytes
  hash = block_hash c block

  abbrev after : MemoryStore
  after = store_block c block total s

  pub blocks_after : after.blocks ≡ insert hash block s.blocks
  unfolding store_block
  blocks_after = refl

  pub work_after : after.total_work ≡ insert hash total s.total_work
  unfolding store_block
  work_after = refl

  pub other_than_stored : (k : Bytes) {b : Block} → lookup k s.blocks ≡ some b → hash ≢ k
  other_than_stored k found e = cc

  pub kept_block :
      (k : Bytes) {b : Block} → lookup k s.blocks ≡ some b → lookup k after.blocks ≡ some b
  kept_block k found =
      rw blocks_after (lookup-insert_ne hash k block s.blocks (other_than_stored k found) ∙ found)

  pub kept_work :
      (k : Bytes) {b : Block} {w : ℕ}
      → lookup k s.blocks ≡ some b
      → lookup k s.total_work ≡ some w
      → lookup k after.total_work ≡ some w
  kept_work k found worked =
      rw work_after
        (lookup-insert_ne hash k total s.total_work (other_than_stored k found) ∙ worked)

  pub new_block : lookup hash after.blocks ≡ some block
  new_block = rw blocks_after (lookup-insert_self hash block s.blocks)

  pub new_work : lookup hash after.total_work ≡ some total
  new_work = rw work_after (lookup-insert_self hash total s.total_work)

  pub split_block :
      (k : Bytes) {b : Block}
      → lookup k after.blocks ≡ some b
      → ((hash ≡ k) × (block ≡ b)) ⊎ ((hash ≢ k) × (lookup k s.blocks ≡ some b))
  split_block k found = insert-split hash k block s.blocks (rw blocks_after at found)

  pub split_work :
      (k : Bytes) {w : ℕ}
      → lookup k after.total_work ≡ some w
      → ((hash ≡ k) × (total ≡ w)) ⊎ ((hash ≢ k) × (lookup k s.total_work ≡ some w))
  split_work k found = insert-split hash k total s.total_work (rw work_after at found)

  -- The work of a block stays right when another is stored.
  pub IsWork-after : (b : Block) (w : ℕ) → IsWork s b w → IsWork after b w
  IsWork-after b w k = record {
    at_genesis = k.at_genesis;
    above = λ high.
        let (p, v, stored, worked, sum, next, later) = k.above high in
        (
          p,
          v,
          kept_block b.header.parent_hash stored,
          kept_work b.header.parent_hash stored worked,
          sum,
          next,
          later,
        );
  }

  -- A new block with its right total work joins the chain.
  pub after-IsChain : IsChain c s → hash ≢ zero_hash → IsWork s block total → IsChain c after
  after-IsChain ch nz own = record {
    keyed = λ k b found.
        either (split_block k found) (λ (e, same). ap (block_hash c) (sym same) ∙ e)
          (λ (ne, old). ch.keyed k b old);
    no_zero = rw blocks_after (lookup-insert_ne hash zero_hash block s.blocks nz ∙ ch.no_zero);
    worked = λ k b found.
        either (split_block k found)
          (λ (e, same).
            subst (λ (j : Bytes). (w : ℕ) × (lookup j after.total_work ≡ some w) × IsWork after b w)
              e
              (
                total,
                new_work,
                subst (λ (x : Block). IsWork after x total) same (IsWork-after block total own),
              ))
          (λ (ne, old).
            let (w, found_work, right) = ch.worked k b old in
            (w, kept_work k old found_work, IsWork-after b w right));
    only_blocks = λ k w found.
        either (split_work k found)
          (λ (e, same).
            subst (λ (j : Bytes). (b : Block) × (lookup j after.blocks ≡ some b)) e
              (block, new_block))
          (λ (ne, old). let (b, stored) = ch.only_blocks k w old in (b, kept_block k stored));
  }
