-- ===== src/Node/Status.antt =====
-- The status that a node sends to its peers.
use colossusx.Prelude.{ℕ, ◌≤◌, ◌≡◌, refl, sym, ap, ◌∙◌, ◌⊎◌, either, some, ok, arith}
use colossusx.Prelude.Keys.{bytes_key}
use colossusx.Prelude.Maps.{lookup}
use colossusx.Prelude.Slices.{Bytes}
use colossusx.Prelude.Decimal.{format_uint, parse_digits, parse_digits-format_uint}
use colossusx.Prelude.Int.{ℤ}
use colossusx.Crypto.{Crypto}
use colossusx.Types.{Block, block_hash}
use colossusx.Chain.{MemoryStore}
use colossusx.Consensus.Work.{Beats}
use colossusx.Consensus.Invariant.{IsBestTip, IsConsistent}
use colossusx.Peers.{PeerStatus}
use colossusx.Node.{local_status}
use colossusx.Node.Mined.{tip_hash, tip_found}

module _ (c : Crypto) (node_id : Bytes) (s : MemoryStore) (now : ℤ) (con : IsConsistent c s)
    (tip : IsBestTip s) where
  abbrev tip_status : PeerStatus
  tip_status = record {
    peer_id = node_id;
    best_hash = block_hash c tip.tip_block;
    best_height = tip.tip_block.header.height;
    total_work = format_uint tip.tip_work;
    connected_at = now;
  }

  -- On a consistent store with a tip, `localStatus` succeeds: its hash is the tip's, its height is that
  -- of the stored tip block, and its total work reads as a number that no stored block exceeds.
  pub local_status-best :
      (r : PeerStatus) × (w : ℕ) × (local_status c node_id s now ≡ ok r)
      × (r.best_hash ≡ s.current_tip)
      × ((b : Block) × (lookup r.best_hash s.blocks ≡ some b) × (r.best_height ≡ b.header.height))
      × (parse_digits r.total_work ≡ some w)
      × (lookup r.best_hash s.total_work ≡ some w)
      × ((k : Bytes) (v : ℕ) → lookup k s.total_work ≡ some v → v ≤ w)
  unfolding local_status
  local_status-best =
      let hash = tip_hash c s con tip in
      let stored = ap (λ k. lookup k s.blocks) hash ∙ tip.stored in
      let worked = ap (λ k. lookup k s.total_work) hash ∙ tip.worked in
      (
        tip_status,
        tip.tip_work,
        rw (tip_found c s con tip, local_status) refl,
        hash,
        (tip.tip_block, stored, refl),
        parse_digits-format_uint tip.tip_work,
        worked,
        λ k v found. most k v found (tip.best k v found),
      )
    where
      most :
          (k : Bytes) (v : ℕ)
          → lookup k s.total_work ≡ some v
          → (k ≡ s.current_tip) ⊎ Beats s.current_tip tip.tip_work k v
          → v ≤ tip.tip_work
      most k v found beats =
          either beats
            (λ same.
              let here : lookup s.current_tip s.total_work ≡ some v =
                ap (λ j. lookup j s.total_work) (sym same) ∙ found in
              let worked = tip.worked in ground (arith))
            (λ more. either more (λ less. omega arith) (λ (equal, _). omega arith))
