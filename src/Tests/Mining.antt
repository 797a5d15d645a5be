-- ===== src/Tests/Mining.antt =====
-- The theorems on the miner at small jobs.
use colossusx.Prelude.{
  ℕ, ◌+◌, ◌<◌, ◌≡◌, refl, ◌⊎◌, true, false, List, [], ◌∷◌, ◌==◌, if◌then◌else◌, none, some, ok, ◌≤◌,
  ◌*◌, ◌++◌, replicate, arith,
}
use colossusx.Nonce.{add_uint64}
use colossusx.Target.{less_or_equal_be}
use colossusx.Miner.{Job, mine_result, is_over, turn, start_mining, mine, mine_batch, solves}
use colossusx.Miner.Search.{InRange, mine_sound}
use colossusx.Hash.{HashResult}
use colossusx.Miner.Ends.{turns_of, most_rounds, Decided, mine_decides}
use colossusx.Miner.Batch.{mine_batch_first}

-- Two workers and four nonces, of which 6 is a solution.
abbrev lucky_job : Job
lucky_job = record {
  hash = λ n. ok (record { pow256 = if n == 6 then 0 ∷ [] else 9 ∷ []; full512 = [] });
  target = 5 ∷ [];
  start = 5;
  max_nonces = 4;
  workers = 2;
}

lucky_run : (mine lucky_job (0 ∷ 1 ∷ 0 ∷ 1 ∷ 0 ∷ []) (start_mining lucky_job)).found ≡ some 6
unfolding mine turn start_mining is_over add_uint64 less_or_equal_be
lucky_run = refl

mine_sound_example : InRange lucky_job 6 × (solves lucky_job 6 ≡ true)
mine_sound_example = mine_sound lucky_job (0 ∷ 1 ∷ 0 ∷ 1 ∷ 0 ∷ []) 6 (omega arith) lucky_run

-- The same nonces, none a solution.
abbrev hard_job : Job
hard_job = record lucky_job {
  target = 4 ∷ [];
  hash = λ n. ok (record { pow256 = 9 ∷ []; full512 = [] });
}

abbrev four_hashes : List HashResult
four_hashes =
    record { pow256 = 9 ∷ []; full512 = [] }
    ∷ record { pow256 = 0 ∷ []; full512 = [] }
    ∷ record { pow256 = 9 ∷ []; full512 = [] }
    ∷ record { pow256 = 9 ∷ []; full512 = [] }
    ∷ []

mine_batch_first_example :
    ((mine_batch lucky_job (λ n count. ok four_hashes) ≡ ok none)
      × ((j : ℕ) → j < 4 → solves lucky_job (5 + j) ≡ false))
    ⊎ ((k : ℕ) × (k < 4)
        × (mine_batch lucky_job (λ n count. ok four_hashes)
            ≡ ok (some (record { nonce = some (5 + k); hashes = k + 1 })))
        × (solves lucky_job (5 + k) ≡ true)
        × ((j : ℕ) → j < k → solves lucky_job (5 + j) ≡ false))
mine_batch_first_example =
    mine_batch_first lucky_job (λ n count. ok four_hashes) four_hashes refl
      (refl, (refl, (refl, (refl, tt)))) (omega arith)

-- Nine turns for each of the two workers.
abbrev every_turn : List ℕ
every_turn = replicate 9 0 ++ replicate 9 1

enough_turns : (i : ℕ) → i < 2 → 2 * most_rounds hard_job + 1 ≤ turns_of i every_turn
enough_turns i small = ground arith

mine_decides_example :
    Decided hard_job (mine_result hard_job (mine hard_job every_turn (start_mining hard_job)))
mine_decides_example = mine_decides hard_job every_turn (omega arith) (omega arith) enough_turns
