-- ===== src/Miner.antt =====
-- colossusx/miner.go: the search for a nonce. The goroutines of `Mine` share the flag `found`; an
-- execution is a list of the worker that takes each turn. A turn ends where other workers may come
-- between: after the test of the flag, and after the hash and the swap of the flag.
pub mod Search
pub mod Ends
pub mod Batch
use colossusx.Prelude.{
  ℕ, zero, suc, ◌+◌, ◌-◌, ◌%◌, ◌^◌, Bool, true, false, not, ◌&&◌, ◌||◌, ltb, leb, ◌==◌,
  if◌then◌else◌, List, [], ◌∷◌, Option, none, some, Go, ok, err, panic, stuck,
}
use colossusx.Prelude.Slices.{Bytes}
use colossusx.Nonce.{add_uint64}
use colossusx.Target.{less_or_equal_be}
use colossusx.Hash.{HashResult}

-- What a call of `Mine` is given: the hash of the backend at a nonce of the header, the target, the
-- first nonce, the limit (0 for none) and the workers of the miner.
pub record Job : Type 0 where
  pub hash : ℕ → Go HashResult
  pub target : Bytes
  pub start : ℕ
  pub max_nonces : ℕ
  pub workers : ℕ

-- Where a goroutine stands: at the head of its loop, behind the tests of a round, or returned.
pub data Worker : Type 0 where
  at_head : ℕ → Worker
  hashing : ℕ → Worker
  returned : Worker

-- The goroutines by their number, `totalHashes`, the nonce that was sent with `found`, and whether a
-- hash panicked, which ends the program.
pub record Mining : Type 0 where
  pub worker : ℕ → Worker
  pub total_hashes : ℕ
  pub found : Option ℕ
  pub crashed : Bool

abbrev pub is_some : Option ℕ → Bool
is_some none = false
is_some (some n) = true

abbrev pub is_ok : {A : Type 0} → Go A → Bool
is_ok (ok a) = true
is_ok (err e) = false
is_ok panic = false
is_ok stuck = false

abbrev pub has_returned : Worker → Bool
has_returned (at_head n) = false
has_returned (hashing n) = false
has_returned returned = true

-- the goroutine goes on with the nonce, or returns if `AddUint64` has none
abbrev pub go_on : Option ℕ → Worker
go_on none = returned
go_on (some n) = at_head n

module _ (job : Job) where
  -- `LessOrEqualBE(h.Pow256, target)`, if there is a hash
  abbrev pub is_solution : Go HashResult → Bool
  is_solution (ok h) = less_or_equal_be h.pow256 job.target
  is_solution (err e) = false
  is_solution panic = false
  is_solution stuck = false

  abbrev pub solves : ℕ → Bool
  solves n = is_solution (job.hash n)

  -- `maxNonces > 0` and `uint64(nonce64)-uint64(start64) >= maxNonces`
  unfoldable pub is_over : ℕ → Bool
  is_over n = ltb 0 job.max_nonces && leb job.max_nonces ((n + 2 ^ 64 - job.start) % 2 ^ 64)

  -- a worker in its place
  abbrev pub put_worker : ℕ → Worker → (ℕ → Worker) → ℕ → Worker
  put_worker i w ws j = if j == i then w else ws j

  -- one turn of worker `i`, which stands at `w`
  unfoldable pub turn : ℕ → Worker → Mining → Mining
  turn i (at_head n) m =
      if is_some m.found || is_over n
      then record m { worker = put_worker i returned m.worker }
      else record m { worker = put_worker i (hashing n) m.worker }
  turn i (hashing n) m =
      if not (is_ok (job.hash n))
      then record m { crashed = true }
      else if solves n
      then record m {
        worker = put_worker i returned m.worker;
        total_hashes = m.total_hashes + 1;
        found = if is_some m.found then m.found else some n;
      }
      else record m {
        worker = put_worker i (go_on (add_uint64 n job.workers)) m.worker;
        total_hashes = m.total_hashes + 1;
      }
  turn i returned m = m

  -- the goroutines as `Mine` starts them
  unfoldable pub start_mining : Mining
  start_mining = record {
    worker = λ i. if ltb i job.workers then go_on (add_uint64 job.start i) else returned;
    total_hashes = 0;
    found = none;
    crashed = false;
  }

  -- `Mine`, with the workers in the order of their turns, up to a panic
  unfoldable pub mine : List ℕ → Mining → Mining
  mine [] m = m
  mine (i ∷ is) m = mine is (if m.crashed then m else turn i (m.worker i) m)

  -- whether the workers below `k` have returned
  unfoldable pub all_returned : ℕ → Mining → Bool
  all_returned zero m = true
  all_returned (suc k) m = has_returned (m.worker k) && all_returned k m

  -- what `Mine` returns: the nonce of the message, or none if all workers return without one. It
  -- waits for one of these.
  unfoldable pub mine_result : Mining → Go (Option ℕ)
  mine_result m =
      if m.crashed
      then panic
      else (if is_some m.found
          then ok m.found
          else if all_returned job.workers m
          then ok none
          else stuck)

  -- the loop of `mineBatch` over the results: the index of the first that is good enough
  unfoldable pub first_solution : List HashResult → ℕ → Option ℕ
  first_solution [] i = none
  first_solution (h ∷ hs) i =
      if less_or_equal_be h.pow256 job.target then some i else first_solution hs (i + 1)

  -- the result of `mineBatch`: the nonce, which is nil past the largest one, and the hashes
  pub record MineResult : Type 0 where
    pub nonce : Option ℕ
    pub hashes : ℕ

  abbrev pub batch_result : Option ℕ → Option MineResult
  batch_result none = none
  batch_result (some i) = some (record { nonce = add_uint64 job.start i; hashes = i + 1 })

  -- `mineBatch`, with the backend's `HashBatch` from a first nonce and a count
  unfoldable pub mine_batch : (ℕ → ℕ → Go (List HashResult)) → Go (Option MineResult)
  mine_batch hash_batch =
      elim (hash_batch job.start (if job.max_nonces == 0 then 100000 else job.max_nonces)) [
        | ok results ↦ ok (batch_result (first_solution results 0))
        | err e ↦ ok none
        | panic ↦ panic
        | stuck ↦ stuck
      ]
