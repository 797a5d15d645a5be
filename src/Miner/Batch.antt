-- ===== src/Miner/Batch.antt =====
-- `mineBatch` over a backend that hashes a range of nonces.
use colossusx.Prelude.{
  ℕ, zero, suc, ◌+◌, ◌<◌, ◌≡◌, refl, sym, length, ap, subst, ◌∙◌, ◌≤◌, ◌⊎◌, inl, inr, either, true,
  false, Bool-cases, ◌==◌, if◌then◌else◌, List, [], ◌∷◌, none, some, Go, ok, arith, ◌^◌,
}
use colossusx.Target.{less_or_equal_be}
use colossusx.Nonce.{add_uint64-exact}
use colossusx.Hash.{HashResult}
use colossusx.Miner.{Job, solves, first_solution, batch_result, mine_batch}

module _ (job : Job) where
  open job use {start, max_nonces}

  -- The hashes of the nonces `n`, `n + 1`, …
  abbrev pub AreHashes : ℕ → List HashResult → Type 0
  AreHashes n [] = Unit
  AreHashes n (h ∷ hs) = (job.hash n ≡ ok h) × AreHashes (n + 1) hs

  abbrev pub batch_count : ℕ
  batch_count = if max_nonces == 0 then 100000 else max_nonces

  hash-solves :
      (n : ℕ) (h : HashResult)
      → job.hash n ≡ ok h
      → less_or_equal_be h.pow256 job.target ≡ solves job n
  hash-solves n h e = rw e

  -- One more nonce in front.
  solves-front :
      (n c : ℕ)
      → solves job n ≡ false
      → ((j : ℕ) → j < c → solves job (n + 1 + j) ≡ false)
      → (j : ℕ) → j < suc c
      → solves job (n + j) ≡ false
  solves-front n c bad all zero h = subst (λ x. solves job x ≡ false) (omega arith) bad
  solves-front n c bad all (suc j) h =
      subst (λ x. solves job x ≡ false) (omega arith) (all j (omega arith))

  first_solution-AreHashes :
      (hs : List HashResult) (n i : ℕ)
      → AreHashes n hs
      → ((first_solution job hs i ≡ none) × ((j : ℕ) → j < length hs → solves job (n + j) ≡ false))
        ⊎ ((k : ℕ) × (k < length hs)
            × (first_solution job hs i ≡ some (i + k))
            × (solves job (n + k) ≡ true)
            × ((j : ℕ) → j < k → solves job (n + j) ≡ false))
  unfolding first_solution
  first_solution-AreHashes [] n i a = inl (refl, λ j h. absurd (omega arith))
  first_solution-AreHashes (x ∷ hs) n i (here, rest) =
      either (Bool-cases (less_or_equal_be x.pow256 job.target))
        (λ good. inr (
          0,
          omega arith,
          rw good (ap some (omega arith)),
          subst (λ y. solves job y ≡ true) (omega arith) (sym (hash-solves n x here) ∙ good),
          λ j h. absurd (omega arith),
        ))
        (λ bad.
          let bad' = sym (hash-solves n x here) ∙ bad in
          either (first_solution-AreHashes hs (n + 1) (i + 1) rest)
            (λ (e, all). inl (rw bad e, solves-front n (length hs) bad' all))
            (λ (k, small, e, good, all). inr (
              k + 1,
              omega arith,
              rw bad (grind arith),
              subst (λ y. solves job y ≡ true) (omega arith) good,
              λ j h. solves-front n k bad' all j (omega arith),
            )))

  -- If the backend returns the hashes of nonces from the first one on, as many as it does without
  -- overflow, `mineBatch` returns the first of these nonces whose hash is at most the target, with
  -- the number of hashes up to it, and nothing exactly if there is no such nonce.
  pub mine_batch_first :
      (hash_batch : ℕ → ℕ → Go (List HashResult)) (hs : List HashResult)
      → hash_batch start batch_count ≡ ok hs
      → AreHashes start hs
      → start + length hs ≤ 2 ^ 64
      → ((mine_batch job hash_batch ≡ ok none)
          × ((j : ℕ) → j < length hs → solves job (start + j) ≡ false))
        ⊎ ((k : ℕ) × (k < length hs)
            × (mine_batch job hash_batch
                ≡ ok (some (record { nonce = some (start + k); hashes = k + 1 })))
            × (solves job (start + k) ≡ true)
            × ((j : ℕ) → j < k → solves job (start + j) ≡ false))
  unfolding mine_batch
  mine_batch_first hash_batch hs right are room =
      either (first_solution-AreHashes hs start 0 are)
        (λ (e, all). inl (rw (right, mine_batch, e) refl, all))
        (λ (k, small, e, good, all). inr (
          k,
          small,
          rw (right, mine_batch) (ap (λ o. ok (batch_result job o)) e ∙ ap ok (found k small)),
          good,
          all,
        ))
    where
      found :
          (k : ℕ)
          → k < length hs
          → batch_result job (some (0 + k))
            ≡ some (record { nonce = some (start + k); hashes = k + 1 })
      found k small =
          either (add_uint64-exact start k (omega arith)) (λ (e, full). absurd (omega arith))
            (λ (e, fits). grind (arith, e))
