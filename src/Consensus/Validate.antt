-- ===== src/Consensus/Validate.antt =====
-- `ValidateHeader`, `ValidateBlock` and `InsertBlock` as a whole.
use colossusx.Prelude.{Go, ok, err, panic, stuck}
use colossusx.Prelude.Int.{ℤ}
use colossusx.Types.{Block, BlockHeader}
use colossusx.Chain.{MemoryStore, Writes}
use colossusx.Consensus.Header.{check_header}
use colossusx.Consensus.Cache.{Env, Caches, validate_pow}
use colossusx.Consensus.Insert.{Inserted, insert_valid_block}

-- `ValidateHeader`
unfoldable pub validate_header :
    Env → Caches → MemoryStore → BlockHeader → ℤ → Caches × Go (Unit {0})
validate_header e m store header now = elim (check_header e.crypto e.config store header now) [
  | ok u ↦ validate_pow e m header
  | err x ↦ (m, err x)
  | panic ↦ (m, panic)
  | stuck ↦ (m, stuck)
]

-- `ValidateBlock`
unfoldable pub validate_block : Env → Caches → MemoryStore → Block → ℤ → Caches × Go (Unit {0})
validate_block e m store block now = validate_header e m store block.header now

-- the rest of `InsertBlock`, by the verdict of the validation
abbrev pub insert_if_valid : Env → Writes → MemoryStore → Block → Go (Unit {0}) → Inserted
insert_if_valid e ws store block (ok u) = insert_valid_block e.crypto ws store block
insert_if_valid e ws store block (err x) = (store, err x)
insert_if_valid e ws store block panic = (store, panic)
insert_if_valid e ws store block stuck = (store, stuck)

-- `InsertBlock`
unfoldable pub insert_block : Env → Writes → Caches → MemoryStore → Block → ℤ → Caches × Inserted
insert_block e ws m store block now =
    let (m', verdict) = validate_block e m store block now in
    (m', insert_if_valid e ws store block verdict)
