-- ===== src/Consensus/Invariant/Result.antt =====
-- `InsertBlock` behind the validation: what it leaves, written or not.
use colossusx.Prelude.{
  ℕ, ◌+◌, ◌≡◌, ◌≢◌, refl, ◌∙◌, ◌⊎◌, inr, either, Bool, true, false, Bool-cases, Option-cases, none,
  err, Error, inl, ltb, some, ok, arith,
}
use colossusx.Prelude.Maps.{lookup}
use colossusx.Prelude.Keys.{bytes_key}
use colossusx.Prelude.Slices.{Bytes}
use colossusx.Crypto.{Crypto}
use colossusx.Types.{Block, block_hash, zero_hash}
use colossusx.Chain.{MemoryStore, Writes, store_block, has_block}
use colossusx.Chain.Laws.{get_header-eq-ok, has_block-true, has_block-false, total_work-found}
use colossusx.Consensus.Work.{calc_block_work}
use colossusx.Consensus.Header.{IsLinked}
use colossusx.Consensus.Insert.{
  Inserted, tip_answer, block_total_work, choose_tip, choose_stored, insert_valid_block,
}
use colossusx.Consensus.Invariant.{IsWork, IsChain, IsConsistent}
use colossusx.Consensus.Invariant.Stored.{new_work, new_block, kept_block, after-IsChain}
use colossusx.Consensus.Invariant.Tip.{chosen, with_tip}

-- The total work of a linked block is computed, and is the work that the chain wants.
total_work_lem :
    (c : Crypto) (s : MemoryStore) (block : Block)
    → IsChain c s
    → IsLinked s block.header
    → (w : ℕ) × (block_total_work s block ≡ ok w) × IsWork s block w
unfolding block_total_work
total_work_lem c s block ch l =
    either (Bool-cases (ltb 0 block.header.height))
      (λ high.
        let nonzero : block.header.height ≢ 0 = ground arith in
        let (parent, found, next, later) = l.child nonzero in
        let (p, stored, same) = get_header-eq-ok s block.header.parent_hash found in
        let (v, worked, _) = ch.worked block.header.parent_hash p stored in
        let own = calc_block_work block.header.target in
        (
          own + v,
          rw (high, total_work-found s block.header.parent_hash worked),
          record {
            at_genesis = λ z. absurd (nonzero z);
            above = λ _. (p, v, stored, worked, refl, rw same next, rw same later);
          },
        ))
      (λ low. (
        calc_block_work block.header.target,
        rw low,
        record { at_genesis = λ _. refl; above = λ nonzero. absurd (ground arith) },
      ))

pub with_tip-IsChain :
    (c : Crypto) (s : MemoryStore) (tip : Bytes) → IsChain c s → IsChain c (with_tip s tip)
with_tip-IsChain c s tip ch = record {
  keyed = ch.keyed;
  no_zero = ch.no_zero;
  worked = λ k b found.
      let (w, worked, own) = ch.worked k b found in
      (w, worked, record { at_genesis = own.at_genesis; above = own.above });
  only_blocks = ch.only_blocks;
}

-- What an insertion leaves whose block was written, if it was new: the store stays consistent. The
-- tip is the block if it became the tip, else the old one.
pub record Inserts (c : Crypto) (ws : Writes) (s : MemoryStore) (block : Block) (s' : MemoryStore)
    (w : ℕ) (became : Bool) : Type 0 where
  pub run : insert_valid_block c ws s block ≡ (s', tip_answer ws s' w became)
  pub consistent : IsConsistent c s'
  pub worked : lookup (block_hash c block) s'.total_work ≡ some w
  pub stored :
      has_block s (block_hash c block) ≡ false → lookup (block_hash c block) s'.blocks ≡ some block
  pub kept : (k : Bytes) (b : Block) → lookup k s.blocks ≡ some b → lookup k s'.blocks ≡ some b
  pub which :
      ((became ≡ true) × (s'.current_tip ≡ block_hash c block))
      ⊎ ((became ≡ false) × (s'.current_tip ≡ s.current_tip))

-- What an insertion leaves whose new block could not be written: the block is in the maps all the
-- same, beside its total work, and no tip was chosen.
pub record Unwritten (c : Crypto) (ws : Writes) (s : MemoryStore) (block : Block) (s' : MemoryStore)
    (x : Error) : Type 0 where
  pub run : insert_valid_block c ws s block ≡ (s', err x)
  pub reason : ws.stored s' ≡ some x
  pub new : has_block s (block_hash c block) ≡ false
  pub work : ℕ
  pub left : s' ≡ store_block c block work s
  pub chain : IsChain c s'

module _ (c : Crypto) (ws : Writes) (s : MemoryStore) (block : Block) (con : IsConsistent c s) where
  -- How the insertion ends.
  abbrev pub Insertion : Type 0
  Insertion =
      ((s' : MemoryStore) × (w : ℕ) × (became : Bool) × Inserts c ws s block s' w became)
      ⊎ ((s' : MemoryStore) × (x : Error) × Unwritten c ws s block s' x)

  insert_again : has_block s (block_hash c block) ≡ true → (w : ℕ) × Inserts c ws s block s w false
  insert_again known =
      let (b, stored) = has_block-true s (block_hash c block) known in
      let (w, worked, _) = con.chain.worked (block_hash c block) b stored in
      (
        w,
        record {
          run = run worked;
          consistent = con;
          worked = worked;
          stored = λ unknown. absurd (cc);
          kept = λ k b h. h;
          which = inr (refl, refl);
        },
      )
    where
      run :
          {w : ℕ}
          → lookup (block_hash c block) s.total_work ≡ some w
          → insert_valid_block c ws s block ≡ (s, ok (w, false))
      run worked =
          unfold insert_valid_block in rw (known, total_work-found s (block_hash c block) worked)

  insert_new_run :
      {w : ℕ} {r : Inserted}
      → has_block s (block_hash c block) ≡ false
      → block_total_work s block ≡ ok w
      → choose_stored c ws (store_block c block w s) (block_hash c block) w ≡ r
      → insert_valid_block c ws s block ≡ r
  unfolding insert_valid_block
  insert_new_run new total choice = rw (new, total) choice

  choose_written :
      (after : MemoryStore) (w : ℕ)
      → ws.stored after ≡ none
      → choose_stored c ws after (block_hash c block) w
        ≡ choose_tip c ws after (block_hash c block) w
  unfolding choose_stored
  choose_written after w written = rw (written, choose_stored) refl

  choose_unwritten :
      (after : MemoryStore) (w : ℕ) {x : Error}
      → ws.stored after ≡ some x
      → choose_stored c ws after (block_hash c block) w ≡ (after, err x)
  unfolding choose_stored
  choose_unwritten after w failed = rw (failed, choose_stored) refl

  insert_new :
      has_block s (block_hash c block) ≡ false
      → IsLinked s block.header
      → block_hash c block ≢ zero_hash
      → Insertion
  insert_new new l nz =
      let (w, total, own) = total_work_lem c s block con.chain l in
      let fresh = has_block-false s (block_hash c block) new in
      let after = store_block c block w s in
      let chain = after-IsChain c s block w fresh con.chain nz own in
      either (Option-cases (ws.stored after))
        (λ written.
          let (tip, became, ch) = chosen c ws s block w fresh nz con.chain con.tip in
          inl (
            with_tip after tip,
            w,
            became,
            record {
              run = insert_new_run new total (choose_written after w written ∙ ch.run);
              consistent = record { chain = with_tip-IsChain c after tip chain; tip = inr ch.best };
              worked = new_work c s block w fresh;
              stored = λ _. new_block c s block w fresh;
              kept = λ k b h. kept_block c s block w fresh k h;
              which = ch.which;
            },
          ))
        (λ (x, failed). inr (
          after,
          x,
          record {
            run = insert_new_run new total (choose_unwritten after w failed);
            reason = failed;
            new = new;
            work = w;
            left = refl;
            chain = chain;
          },
        ))

  -- The part of `InsertBlock` behind `ValidateBlock`, on a consistent store of any kind and a block
  -- whose header is linked to it and whose hash is not zero. Unless the write of a new block fails,
  -- the store stays consistent, in particular its tip beats every other stored block; the answer is
  -- the block's total work in the store and whether the block or the old tip is the tip, or the error
  -- of the write of a new tip. If the write of a new block fails, its error is returned, and the block
  -- and its total work are in the maps but no tip was chosen.
  pub insert_valid_block-Insertion :
      IsLinked s block.header → block_hash c block ≢ zero_hash → Insertion
  insert_valid_block-Insertion l nz =
      either (Bool-cases (has_block s (block_hash c block)))
        (λ known. let (w, i) = insert_again known in inl (s, w, false, i))
        (λ new. insert_new new l nz)
