-- ===== src/Consensus/Work.antt =====
-- `CalcBlockWork` and `SelectBestChainByTotalWork`. A `*big.Int` is a number.
use colossusx.Prelude.{
  ℕ, ◌+◌, ◌*◌, ◌/◌, ◌^◌, ◌<◌, ◌≤◌, ◌≡◌, ◌≢◌, ◌⊎◌, ◌↔◌, true, ltb, ◌==◌, if◌then◌else◌, arith,
}
use native.Mathlib.Nat.{div-mul-le_self, lt-mul-div-succ, le-div_iff_mul-le}
use colossusx.Prelude.Slices.{Bytes}
use colossusx.Prelude.Endian.{be_value}
use colossusx.Prelude.Hex.{hex_encode, str_lt, str_lt-asymm, str_lt_trans, str_lt-total}
use colossusx.Target.{IsHash, be_value-lt}

-- `CalcBlockWork`
unfoldable pub calc_block_work : Bytes → ℕ
calc_block_work target = let t = be_value target in if t == 0 then 0 else 2 ^ 256 / (t + 1)

-- `SelectBestChainByTotalWork`
unfoldable pub select_best_chain_by_total_work : Bytes → ℕ → Bytes → ℕ → Bytes
select_best_chain_by_total_work current current_work candidate candidate_work =
    if ltb current_work candidate_work
    then candidate
    else if ltb candidate_work current_work
    then current
    else if str_lt (hex_encode candidate) (hex_encode current)
    then candidate
    else current

quotient_bounds :
    (n t : ℕ)
    → t < n
    → (0 < n / (t + 1)) × (n / (t + 1) * (t + 1) ≤ n) × (n < (n / (t + 1) + 1) * (t + 1))
quotient_bounds n t h =
    let below : n < (t + 1) * (n / (t + 1) + 1) = lt-mul-div-succ n {b = t + 1} (omega arith) in
    let pos : 1 ≤ n / (t + 1) =
      (le-div_iff_mul-le {k = t + 1} {x = 1} {y = n} (omega arith)).1 (omega arith) in
    (pos, div-mul-le_self n (t + 1), omega (arith, below))

calc_block_work-eq :
    (target : Bytes)
    → be_value target ≢ 0
    → calc_block_work target ≡ 2 ^ 256 / (be_value target + 1)
unfolding calc_block_work
calc_block_work-eq target some_target = ground arith

-- The work of a target that is not zero is the number of digests for one expected success: the
-- largest `w` with `w * (target + 1)` at most 2^256. It is positive.
pub calc_block_work_bounds :
    (target : Bytes)
    → IsHash target
    → be_value target ≢ 0
    → (0 < calc_block_work target)
      × (calc_block_work target * (be_value target + 1) ≤ 2 ^ 256)
      × (2 ^ 256 < (calc_block_work target + 1) * (be_value target + 1))
calc_block_work_bounds target h some_target =
    rw (calc_block_work-eq target some_target)
      (quotient_bounds (2 ^ 256) (be_value target) (be_value-lt target h))

-- The choice between two tips as an order: more work, or as much work and the smaller hash in
-- hexadecimal.
abbrev pub Beats : Bytes → ℕ → Bytes → ℕ → Type 0
Beats a wa b wb = (wb < wa) ⊎ ((wa ≡ wb) × (str_lt (hex_encode a) (hex_encode b) ≡ true))

-- No tip beats another one that beats it.
pub Beats-asymm : (a b : Bytes) (wa wb : ℕ) → Beats a wa b wb → Beats b wb a wa → ⊥
Beats-asymm a b wa wb h k = ground (arith, str_lt-asymm (hex_encode a) (hex_encode b))

pub Beats-trans :
    (a b d : Bytes) (wa wb wd : ℕ) → Beats a wa b wb → Beats b wb d wd → Beats a wa d wd
Beats-trans a b d wa wb wd h k =
    ground (arith, str_lt_trans (hex_encode a) (hex_encode b) (hex_encode d))

-- Of two tips with different hashes one beats the other.
pub Beats-total :
    (a b : Bytes) (wa wb : ℕ) → hex_encode a ≢ hex_encode b → Beats a wa b wb ⊎ Beats b wb a wa
Beats-total a b wa wb ne = ground (arith, str_lt-total (hex_encode a) (hex_encode b))

-- The candidate is chosen exactly if it is the current tip or beats it.
pub select_best_iff :
    (cur cand : Bytes) (wcur wcand : ℕ)
    → (select_best_chain_by_total_work cur wcur cand wcand ≡ cand)
      ↔ ((cur ≡ cand) ⊎ Beats cand wcand cur wcur)
unfolding select_best_chain_by_total_work
select_best_iff cur cand wcur wcand = (λ h. ground arith, λ h. ground arith)
