-- ===== src/Tests/Codecs.antt =====
-- The theorems on targets, work and the encoding of headers at sample data.
use colossusx.Prelude.{
  ℕ, ◌+◌, ◌*◌, ◌<◌, ◌≤◌, ◌^◌, ◌≡◌, ◌≢◌, refl, ◌⊎◌, ◌↔◌, replicate, leb, Go, ok, [], ◌∷◌, arith,
}
use colossusx.Prelude.Slices.{Bytes}
use colossusx.Prelude.Endian.{be_value}
use colossusx.Target.{
  IsHash, parse_target_hex, target_string, less_or_equal_be, parse_target_hex-target_string,
  less_or_equal_be-value,
}
use colossusx.Types.Encoding.{IsTyped, encode-inj}
use colossusx.Consensus.Work.{
  calc_block_work, select_best_chain_by_total_work, Beats, calc_block_work_bounds, select_best_iff,
}
use colossusx.Tests.Samples.{sample_header, easy_target}

easy_target-IsHash : IsHash easy_target
easy_target-IsHash = record { bytes = grind arith; width = refl }

abbrev hard_target : Bytes
hard_target = 0 ∷ replicate 31 255

hard_target-IsHash : IsHash hard_target
hard_target-IsHash = record { bytes = grind arith; width = refl }

parse_target_hex-target_string_example :
    parse_target_hex (target_string hard_target) ≡ ok hard_target
parse_target_hex-target_string_example =
    parse_target_hex-target_string hard_target hard_target-IsHash

less_or_equal_be-value_example :
    less_or_equal_be hard_target easy_target ≡ leb (be_value hard_target) (be_value easy_target)
less_or_equal_be-value_example =
    less_or_equal_be-value hard_target easy_target hard_target-IsHash easy_target-IsHash

hard_target-positive : be_value hard_target ≢ 0
unfolding colossusx.Prelude.Endian.be_from
hard_target-positive e = ground arith

calc_block_work_bounds_example :
    (0 < calc_block_work hard_target)
    × (calc_block_work hard_target * (be_value hard_target + 1) ≤ 2 ^ 256)
    × (2 ^ 256 < (calc_block_work hard_target + 1) * (be_value hard_target + 1))
calc_block_work_bounds_example =
    calc_block_work_bounds hard_target hard_target-IsHash hard_target-positive

select_best_iff_example :
    (select_best_chain_by_total_work easy_target 5 hard_target 5 ≡ hard_target)
    ↔ ((easy_target ≡ hard_target) ⊎ Beats hard_target 5 easy_target 5)
select_best_iff_example = select_best_iff easy_target hard_target 5 5

sample_header-IsTyped : IsTyped sample_header
sample_header-IsTyped = record {
  version_size = omega arith;
  algorithm_size = omega arith;
  height_size = omega arith;
  parent_size = refl;
  time_size = omega arith;
  target_size = refl;
  nonce_size = omega arith;
  seed_size = refl;
  dag_size = omega arith;
  tx_size = refl;
  state_size = refl;
}

encode-inj_example : sample_header ≡ sample_header
encode-inj_example =
    encode-inj sample_header sample_header sample_header-IsTyped sample_header-IsTyped refl
