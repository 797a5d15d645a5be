-- ===== src/Consensus/Invariant/Tip.antt =====
-- The choice of the tip behind `StoreBlock`: the new tip beats every other stored block.
use colossusx.Prelude.{
  ℕ, ◌≡◌, ◌≢◌, refl, sym, ap, subst, ◌∙◌, ◌⊎◌, inl, inr, either, Bool, true, false, none, some, ok,
  arith,
}
use colossusx.Prelude.Maps.{Map, lookup}
use colossusx.Prelude.Keys.{bytes_eq_iff, bytes_key}
use colossusx.Prelude.Slices.{Bytes}
use colossusx.Prelude.Endian.{AllBytes}
use colossusx.Prelude.Hex.{hex_encode, hex_encode-inj}
use colossusx.Crypto.{Crypto}
use colossusx.Types.{Block, block_hash, zero_hash}
use colossusx.Chain
use colossusx.Chain.{MemoryStore, Writes, store_block}
use colossusx.Chain.Laws.{bytes_ne, bytes_same, current_tip-found, set_current_tip-found}
use colossusx.Consensus.Work.{
  Beats, Beats-asymm, Beats-trans, Beats-total, select_best_chain_by_total_work, select_best_iff,
}
use colossusx.Consensus.Insert.{tip_answer, become_tip, choose_tip}
use colossusx.Consensus.Invariant.{IsChain, IsBestTip, IsEmpty}
use colossusx.Consensus.Invariant.Stored.{new_block, new_work, split_work, kept_block, kept_work}

pub block_hash-bytes : (c : Crypto) (b : Block) → AllBytes (block_hash c b)
unfolding block_hash
block_hash-bytes c b = c.sha256-bytes _

-- A stored key is a digest.
key-bytes :
    (c : Crypto) (s : MemoryStore)
    → IsChain c s
    → (k : Bytes) (b : Block) → lookup k s.blocks ≡ some b
    → AllBytes k
key-bytes c s ch k b found = subst AllBytes (ch.keyed k b found) (block_hash-bytes c b)

abbrev pub with_tip : MemoryStore → Bytes → MemoryStore
with_tip s tip = record s { current_tip = tip }

become_tip-lem :
    (ws : Writes) (s : MemoryStore) (k : Bytes) (w : ℕ) {b : Block}
    → lookup k s.blocks ≡ some b
    → become_tip ws s k w ≡ (with_tip s k, tip_answer ws (with_tip s k) w true)
unfolding become_tip
become_tip-lem ws s k w found = rw (set_current_tip-found s k found, become_tip)

module _ (c : Crypto) (ws : Writes) (s : MemoryStore) (k : Bytes) (w : ℕ) {b : Block} {v : ℕ} where
  choose_tip-win :
      {b' : Block}
      → Chain.current_tip s ≡ ok (b, v)
      → lookup k s.blocks ≡ some b'
      → select_best_chain_by_total_work (block_hash c b) v k w ≡ k
      → choose_tip c ws s k w ≡ (with_tip s k, tip_answer ws (with_tip s k) w true)
  unfolding choose_tip
  choose_tip-win tip found chosen =
      rw (tip, choose_tip, chosen, bytes_same k) (become_tip-lem ws s k w found)

  choose_tip-lose :
      Chain.current_tip s ≡ ok (b, v)
      → select_best_chain_by_total_work (block_hash c b) v k w ≢ k
      → choose_tip c ws s k w ≡ (s, ok (w, false))
  unfolding choose_tip
  choose_tip-lose tip chosen =
      rw (
        tip,
        choose_tip,
        bytes_ne (select_best_chain_by_total_work (block_hash c b) v k w) k chosen,
      )

module _ (c : Crypto) (ws : Writes) (s : MemoryStore) (block : Block) (total : ℕ)
    (fresh : lookup (block_hash c block) s.blocks ≡ none) (nz : block_hash c block ≢ zero_hash)
    (ch : IsChain c s) where
  abbrev hash : Bytes
  hash = block_hash c block

  abbrev after : MemoryStore
  after = store_block c block total s

  -- What the choice comes to, and the tip that it leaves.
  pub record Chosen (tip : Bytes) (became : Bool) : Type 0 where
    pub run :
        choose_tip c ws after hash total
        ≡ (with_tip after tip, tip_answer ws (with_tip after tip) total became)
    pub best : IsBestTip (with_tip after tip)
    pub which : ((became ≡ true) × (tip ≡ hash)) ⊎ ((became ≡ false) × (tip ≡ s.current_tip))

  first_tip : s.current_tip ≡ zero_hash → after.current_tip ≡ hash
  unfolding store_block
  first_tip z = ground (arith, bytes_eq_iff s.current_tip zero_hash)

  later_tip : s.current_tip ≢ zero_hash → after.current_tip ≡ s.current_tip
  unfolding store_block
  later_tip z = rw (bytes_ne s.current_tip zero_hash z)

  stored_new : lookup hash after.blocks ≡ some block
  stored_new = new_block c s block total fresh

  worked_new : lookup hash after.total_work ≡ some total
  worked_new = new_work c s block total fresh

  -- The first block of an empty store becomes the tip.
  Chosen-first : IsEmpty s → Chosen hash true
  Chosen-first e =
      let tip = first_tip e.zero_tip in
      let at_tip = λ (V : Type 0) (m : Map Bytes V) (v : V) (h : lookup hash m ≡ some v).
        subst (λ (k : Bytes). lookup k m ≡ some v) (sym tip) h in
      let found =
        current_tip-found after (λ z. nz (sym tip ∙ z)) (at_tip Block after.blocks block stored_new)
          (at_tip ℕ after.total_work total worked_new) in
      record {
        run =
            choose_tip-win c ws after hash total found stored_new
              ((select_best_iff hash hash total total).1 (inl refl));
        best = record {
          tip_block = block;
          tip_work = total;
          stored = stored_new;
          worked = worked_new;
          best = λ k w found_work.
              either (split_work c s block total fresh k found_work) (λ (same, _). inl (sym same))
                (λ (_, old). cc (e.nothing k));
        };
        which = inl (refl, refl);
      }

  module _ (t : IsBestTip s) where
    tip_nonzero : s.current_tip ≢ zero_hash
    tip_nonzero z = cc (sym t.stored ∙ ap (λ (k : Bytes). lookup k s.blocks) z ∙ ch.no_zero)

    hash_ne_tip : hash ≢ s.current_tip
    hash_ne_tip e = cc (sym fresh ∙ ap (λ (k : Bytes). lookup k s.blocks) e ∙ t.stored)

    -- `CurrentTip` behind `StoreBlock` is still the old tip.
    old_tip_found : Chain.current_tip after ≡ ok (t.tip_block, t.tip_work)
    old_tip_found =
        let same = sym (later_tip tip_nonzero) in
        current_tip-found after (λ z. tip_nonzero (same ∙ z))
          (subst (λ (k : Bytes). lookup k after.blocks ≡ some t.tip_block) same
            (kept_block c s block total fresh s.current_tip t.stored))
          (subst (λ (k : Bytes). lookup k after.total_work ≡ some t.tip_work) same
            (kept_work c s block total fresh s.current_tip t.stored t.worked))

    tip_hash : block_hash c t.tip_block ≡ s.current_tip
    tip_hash = ch.keyed s.current_tip t.tip_block t.stored

    -- A block that beats the tip replaces it.
    Chosen-new : Beats hash total s.current_tip t.tip_work → Chosen hash true
    Chosen-new wins = record {
      run = choose_tip-win c ws after hash total old_tip_found stored_new (
          (select_best_iff (block_hash c t.tip_block) hash t.tip_work total).1
            (inr (rw tip_hash wins)));
      best = record {
        tip_block = block;
        tip_work = total;
        stored = stored_new;
        worked = worked_new;
        best = λ k w found.
            either (split_work c s block total fresh k found) (λ (same, _). inl (sym same))
              (λ (_, old). inr (beats_old k w old));
      };
      which = inl (refl, refl);
    }
      where
        beats_old : (k : Bytes) (w : ℕ) → lookup k s.total_work ≡ some w → Beats hash total k w
        beats_old k w old =
            either (t.best k w old)
              (λ e.
                let same : t.tip_work ≡ w =
                  ground (arith, t.worked, ap (λ (j : Bytes). lookup j s.total_work) e) in
                subst (λ (j : Bytes). Beats hash total j w) (sym e)
                  (subst (λ (v : ℕ). Beats hash total s.current_tip v) same wins))
              (λ b. Beats-trans hash s.current_tip k total t.tip_work w wins b)

    -- A block that does not beat the tip leaves it.
    Chosen-old : Beats s.current_tip t.tip_work hash total → Chosen s.current_tip false
    Chosen-old loses = record {
      run =
          choose_tip-lose c ws after hash total old_tip_found kept_choice
          ∙ ap (λ (k : Bytes). (with_tip after k, ok (total, false))) (later_tip tip_nonzero);
      best = record {
        tip_block = t.tip_block;
        tip_work = t.tip_work;
        stored = kept_block c s block total fresh s.current_tip t.stored;
        worked = kept_work c s block total fresh s.current_tip t.stored t.worked;
        best = λ k w found.
            either (split_work c s block total fresh k found)
              (λ (same, sum). inr (
                subst (λ (j : Bytes). Beats s.current_tip t.tip_work j w) same
                  (subst (λ (v : ℕ). Beats s.current_tip t.tip_work hash v) sum loses)))
              (λ (_, old). t.best k w old);
      };
      which = inr (refl, refl);
    }
      where
        kept_choice :
            select_best_chain_by_total_work (block_hash c t.tip_block) t.tip_work hash total ≢ hash
        kept_choice e =
            either ((select_best_iff (block_hash c t.tip_block) hash t.tip_work total).0 e)
              (λ same. hash_ne_tip (sym same ∙ tip_hash))
              (λ wins. Beats-asymm hash s.current_tip total t.tip_work (rw tip_hash at wins) loses)

    Chosen-later : (tip : Bytes) × (became : Bool) × Chosen tip became
    Chosen-later =
        let different = λ (e : hex_encode hash ≡ hex_encode s.current_tip). hash_ne_tip (
          hex_encode-inj hash s.current_tip (block_hash-bytes c block)
            (key-bytes c s ch s.current_tip t.tip_block t.stored) e) in
        either (Beats-total hash s.current_tip total t.tip_work different)
          (λ wins. (hash, true, Chosen-new wins))
          (λ loses. (s.current_tip, false, Chosen-old loses))

  -- Behind `StoreBlock` a tip is chosen, and it beats every other stored block.
  pub chosen : IsEmpty s ⊎ IsBestTip s → (tip : Bytes) × (became : Bool) × Chosen tip became
  chosen (inl e) = (hash, true, Chosen-first e)
  chosen (inr t) = Chosen-later t
