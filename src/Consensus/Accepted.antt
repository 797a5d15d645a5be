-- ===== src/Consensus/Accepted.antt =====
-- `InsertBlock` on a block that passes: it is inserted, and on the tip it becomes the tip.
use colossusx.Prelude.{
  ℕ, ◌<◌, ◌≡◌, ◌≢◌, refl, sym, ap, ◌∙◌, either, Bool, true, false, Option, Error, some, Go, ok,
  arith,
}
use colossusx.Prelude.Keys.{bytes_key}
use colossusx.Prelude.Maps.{lookup}
use colossusx.Prelude.Int.{ℤ}
use colossusx.Crypto.{Crypto}
use colossusx.Spec.Valid.{validate-IsSized}
use colossusx.Types.{Block, block_hash, zero_hash}
use colossusx.Chain.{MemoryStore, Writes, Succeeds, unless_error, has_block}
use colossusx.Consensus.Work.{calc_block_work}
use colossusx.Consensus.Accept.{IsAcceptable, check_header_iff}
use colossusx.Consensus.Cache.{Env, Caches, cpu_hash}
use colossusx.Consensus.Cache.Verdict.{IsSound, Serves, AreFresh, validate_pow-stateless}
use colossusx.Consensus.Invariant.{IsConsistent}
use colossusx.Consensus.Invariant.Result.{Inserts, insert_valid_block-Insertion}
use colossusx.Consensus.Validate.{insert_block, insert_if_valid}
use colossusx.Consensus.Insert.{tip_answer}
use colossusx.Consensus.Answer.{
  acceptable-IsPlanned, light_verdict, header_passes, insert_block_run,
}

-- A new block on the tip with some work of its own becomes the tip.
module _ (c : Crypto) (ws : Writes) (s s' : MemoryStore) (block : Block) (w : ℕ)
    (became : Bool) where
  more_work :
      IsConsistent c s'
      → lookup (block_hash c block) s'.blocks ≡ some block
      → lookup (block_hash c block) s'.total_work ≡ some w
      → block.header.height ≢ 0
      → 0 < calc_block_work block.header.target
      → (v : ℕ) × (lookup block.header.parent_hash s'.total_work ≡ some v) × (v < w)
  more_work con stored worked high some_work =
      let (w', worked', own) = con.chain.worked (block_hash c block) block stored in
      let (p, v, _, parent_work, sum, _, _) = own.above high in
      let same : w' ≡ w = ground (arith, worked, worked') in (v, parent_work, omega arith)

  pub Inserts-tip :
      Inserts c ws s block s' w became
      → has_block s (block_hash c block) ≡ false
      → block.header.height ≢ 0
      → block.header.parent_hash ≡ s.current_tip
      → block_hash c block ≢ s.current_tip
      → 0 < calc_block_work block.header.target
      → became ≡ true
  Inserts-tip i new high on_tip other some_work =
      either i.which (λ (yes_it, _). yes_it)
        (λ (_, kept_tip).
          let (v, parent_work, less) =
            more_work i.consistent (i.stored new) i.worked high some_work in
          let tip_parent : block.header.parent_hash ≡ s'.current_tip = on_tip ∙ sym kept_tip in
          absurd (
            either i.consistent.tip (λ empty. cc (empty.nothing (block_hash c block), i.worked))
              (λ best.
                let same : best.tip_work ≡ v =
                  ground (arith, best.worked, parent_work, tip_parent) in
                either (best.best (block_hash c block) w i.worked) (λ e. other (e ∙ kept_tip))
                  (λ beats. either beats (λ more. omega arith) (λ (equal, _). omega arith)))))

-- The answer, if the write of a new tip succeeds.
tip_answer-written :
    (ws : Writes) (writes : Succeeds ws) (s : MemoryStore) (w : ℕ) (became : Bool)
    → tip_answer ws s w became ≡ ok (w, became)
tip_answer-written ws writes s w true =
    ap (λ (x : Option Error). unless_error x (ok (w, true))) (writes.moved s)
tip_answer-written ws writes s w false = refl

module _ (e : Env) (sound : IsSound e) (cpu : e.backend_hash ≡ cpu_hash e.crypto) (ws : Writes)
    (writes : Succeeds ws) where
  open e use {crypto, config}

  -- In a sound environment with the CPU backend, with fresh caches and a consistent store all of
  -- whose writes succeed, `InsertBlock` accepts every block whose hash is not zero and whose header
  -- passes the checks and the light verifier, if both allocators serve the DAG size planned for its
  -- height: it returns the total work and whether the tip changed,
  -- and the store behind it is the one that the insertion of the block makes, which is consistent.
  pub insert_block-accepts :
      (m : Caches) (s : MemoryStore) (block : Block) (now : ℤ)
      → AreFresh e m
      → IsConsistent crypto s
      → IsAcceptable crypto config s block.header now
      → Serves e block.header.height
      → light_verdict e sound cpu block.header ≡ ok tt
      → block_hash crypto block ≢ zero_hash
      → (m' : Caches) × (s' : MemoryStore) × (w : ℕ) × (became : Bool) × (insert_block e ws m s
            block now
          ≡ (m', (s', ok (w, became))))
        × AreFresh e m'
        × Inserts crypto ws s block s' w became
  insert_block-accepts m s block now fresh con good served light nz =
      let z = validate-IsSized config.spec sound.valid in
      let passed = (check_header_iff crypto config s block.header now sound.typed z).1 good in
      let plan = acceptable-IsPlanned e sound cpu s block.header now good served in
      let (m', run, fresh') = validate_pow-stateless e m block.header sound plan cpu fresh in
      either (insert_valid_block-Insertion crypto ws s block con good.linked nz)
        (λ (s', w, became, i).
          let written = tip_answer-written ws writes s' w became in
          (
            m',
            s',
            w,
            became,
            insert_block_run e sound cpu ws m s block now
                (header_passes e sound cpu m s block.header now passed run)
                (ap (insert_if_valid e ws s block) light
                  ∙ (i.run ∙ ap (λ (r : Go (ℕ × Bool)). (s', r)) written)),
            fresh',
            i,
          ))
        (λ (s', x, u). let never = writes.stored s' in let failed = u.reason in absurd (cc))
