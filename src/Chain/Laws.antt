-- ===== src/Chain/Laws.antt =====
-- What the store returns after a block was stored, and what a lookup says of the maps behind it.
use colossusx.Prelude.{ℕ, ◌≡◌, ◌≢◌, refl, ◌∙◌, ◌⊎◌, true, false, Option, none, some, ok, arith}
use colossusx.Prelude.Keys.{bytes_eq, bytes_eq_iff, bytes_key, number_eq}
use colossusx.Prelude.Maps.{Map, lookup, insert, lookup-insert, has-some, has-true, has-false}
use colossusx.Prelude.Slices.{Bytes}
use colossusx.Types.{Block, BlockHeader, zero_hash}
use colossusx.Chain.{MemoryStore, get_header, has_block, total_work, current_tip, set_current_tip}

pub bytes_ne : (a b : Bytes) → a ≢ b → bytes_eq a b ≡ false
bytes_ne a b ne = ground (arith, bytes_eq_iff a b)

pub bytes_same : (a : Bytes) → bytes_eq a a ≡ true
bytes_same a = (bytes_eq_iff a a).1 refl

module _ {V : Type 0} (k j : Bytes) (v : V) (m : Map Bytes V) where
  pub lookup-insert_ne : k ≢ j → lookup j (insert k v m) ≡ lookup j m
  lookup-insert_ne ne = lookup-insert k j v m ∙ rw (bytes_ne k j ne)

  -- What is found after an insertion was inserted, or was there.
  pub insert-split :
      {x : V}
      → lookup j (insert k v m) ≡ some x
      → ((k ≡ j) × (v ≡ x)) ⊎ ((k ≢ j) × (lookup j m ≡ some x))
  insert-split h = ground (arith, lookup-insert k j v m, bytes_eq_iff k j)

pub lookup-insert_self :
    {V : Type 0} (k : Bytes) (v : V) (m : Map Bytes V) → lookup k (insert k v m) ≡ some v
lookup-insert_self k v m = lookup-insert k k v m ∙ rw (bytes_same k)

-- `GetHeader` returns the header of the stored block, and only that.
pub get_header-eq-ok :
    (s : MemoryStore) (k : Bytes) {h : BlockHeader}
    → get_header s k ≡ ok h
    → (b : Block) × (lookup k s.blocks ≡ some b) × (b.header ≡ h)
unfolding get_header
get_header-eq-ok s k {h} e = go (lookup k s.blocks) refl
  where
    go :
        (o : Option Block)
        → lookup k s.blocks ≡ o
        → (b : Block) × (lookup k s.blocks ≡ some b) × (b.header ≡ h)
    go none p = absurd (ground arith)
    go (some b) p = (b, p, ground arith)

pub has_block-false :
    (s : MemoryStore) (k : Bytes) → has_block s k ≡ false → lookup k s.blocks ≡ none
unfolding has_block
has_block-false s k h = has-false k s.blocks h

pub has_block-true :
    (s : MemoryStore) (k : Bytes)
    → has_block s k ≡ true
    → (b : Block) × (lookup k s.blocks ≡ some b)
unfolding has_block
has_block-true s k h = has-true k s.blocks h

pub total_work-found :
    (s : MemoryStore) (k : Bytes) {w : ℕ} → lookup k s.total_work ≡ some w → total_work s k ≡ ok w
unfolding total_work
total_work-found s k h = rw h

-- A tip that is stored is returned with its work.
pub current_tip-found :
    (s : MemoryStore) {b : Block} {w : ℕ}
    → s.current_tip ≢ zero_hash
    → lookup s.current_tip s.blocks ≡ some b
    → lookup s.current_tip s.total_work ≡ some w
    → current_tip s ≡ ok (b, w)
unfolding current_tip
current_tip-found s nz p q = rw (bytes_ne s.current_tip zero_hash nz, p, q)

pub set_current_tip-found :
    (s : MemoryStore) (k : Bytes) {b : Block}
    → lookup k s.blocks ≡ some b
    → set_current_tip s k ≡ ok (record s { current_tip = k })
unfolding set_current_tip
set_current_tip-found s k p = rw (has-some k s.blocks p)
