-- ===== src/Consensus/Insert.antt =====
-- `InsertBlock` behind the validation: the total work of the block, the store, and the tip.
use colossusx.Prelude.{
  ℕ, ◌+◌, none, some, Bool, true, false, ltb, if◌then◌else◌, Go, ok, err, panic, stuck, ◌>>=◌,
}
use colossusx.Prelude.Keys.{bytes_eq}
use colossusx.Prelude.Slices.{Bytes}
use colossusx.Crypto.{Crypto}
use colossusx.Types.{Block, block_hash}
use colossusx.Chain
use colossusx.Chain.{MemoryStore, Writes, unless_error, store_block, set_current_tip, has_block}
use colossusx.Consensus.Work.{calc_block_work, select_best_chain_by_total_work}

-- The store behind the call, with the total work of the block and whether it became the tip.
abbrev pub Inserted : Type 0
Inserted = MemoryStore × Go (ℕ × Bool)

-- The answer on the store behind the choice of the tip: the block became it, if that was written.
abbrev pub tip_answer : Writes → MemoryStore → ℕ → Bool → Go (ℕ × Bool)
tip_answer ws store work true = unless_error (ws.moved store) (ok (work, true))
tip_answer ws store work false = ok (work, false)

-- `SetCurrentTip`, and its error or the result with `true`
unfoldable pub become_tip : Writes → MemoryStore → Bytes → ℕ → Inserted
become_tip ws store hash work = elim (set_current_tip store hash) [
  | ok store' ↦ (store', tip_answer ws store' work true)
  | err e ↦ (store, err e)
  | panic ↦ (store, panic)
  | stuck ↦ (store, stuck)
]

-- the total work: the block's, and that of its parent above height 0
unfoldable pub block_total_work : MemoryStore → Block → Go ℕ
block_total_work store block =
    let own = calc_block_work block.header.target in
    if ltb 0 block.header.height
    then (Chain.total_work store block.header.parent_hash >>= λ parent_work. ok (own + parent_work))
    else ok own

module _ (c : Crypto) (ws : Writes) where
  -- the choice of the tip, on the store that holds the block already
  unfoldable pub choose_tip : MemoryStore → Bytes → ℕ → Inserted
  choose_tip store hash work = elim (Chain.current_tip store) [
    | ok (current, current_work) ↦
        if bytes_eq (select_best_chain_by_total_work (block_hash c current) current_work hash work)
          hash
        then become_tip ws store hash work
        else (store, ok (work, false))
    | err e ↦ become_tip ws store hash work
    | panic ↦ (store, panic)
    | stuck ↦ (store, stuck)
  ]

  -- behind `StoreBlock`: its error, or the choice
  unfoldable pub choose_stored : MemoryStore → Bytes → ℕ → Inserted
  choose_stored after hash total = elim (ws.stored after) [
    | none ↦ choose_tip after hash total
    | some x ↦ (after, err x)
  ]

  -- `InsertBlock` on a block that is valid
  unfoldable pub insert_valid_block : MemoryStore → Block → Inserted
  insert_valid_block store block =
      let hash = block_hash c block in
      if has_block store hash
      then (store, Chain.total_work store hash >>= λ work. ok (work, false))
      else elim (block_total_work store block) [
        | ok total ↦ choose_stored (store_block c block total store) hash total
        | err e ↦ (store, err e)
        | panic ↦ (store, panic)
        | stuck ↦ (store, stuck)
      ]
