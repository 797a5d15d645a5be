-- ===== src/Miner/Ends.antt =====
-- Every run of the miner in which each worker gets enough turns ends, with an answer.
use colossusx.Prelude.{
  ℕ, zero, suc, ◌+◌, ◌-◌, ◌*◌, ◌^◌, ◌<◌, ◌≤◌, ◌≡◌, ◌≢◌, refl, sym, ap, subst, ◌∙◌, ◌⊎◌, inl, inr,
  either, true, false, Bool-cases, Option-cases, ltb, ◌||◌, ◌==◌, if◌then◌else◌, if-true, if-false,
  List, [], ◌∷◌, Option, none, some, Go, ok, panic, arith,
}
use colossusx.Nonce.{add_uint64, add_uint64-exact}
use colossusx.Miner.{
  Job, Worker, at_head, hashing, returned, Mining, is_some, is_ok, go_on, solves, is_over,
  put_worker, turn, start_mining, mine, mine_result, all_returned,
}
use colossusx.Miner.Search.{
  InRange, Stands, IsSearch, next, next-IsSearch, mine-IsSearch, start_mining-IsSearch,
  mine_complete,
}

-- How many turns a worker gets.
abbrev pub turns_of : ℕ → List ℕ → ℕ
turns_of i [] = 0
turns_of i (j ∷ is) = (if j == i then 1 else 0) + turns_of i is

module _ (job : Job) where
  open job use {start, max_nonces, workers}

  -- The nonces that one worker could try at most: the limit, or all that are left.
  abbrev pub most_rounds : ℕ
  most_rounds = if max_nonces == 0 then 2 ^ 64 - start else max_nonces

  -- A bound of the turns that are left to a worker.
  abbrev turns_left : Worker → ℕ
  turns_left (at_head n) = 2 * (start + most_rounds - n) + 1
  turns_left (hashing n) = 2 * (start + most_rounds - n)
  turns_left returned = 0

  in_bound : (n : ℕ) → InRange job n → n < start + most_rounds
  in_bound n (low, high, limit) =
      either (Bool-cases (max_nonces == 0)) (λ unlimited. rw unlimited (omega arith))
        (λ limited. rw limited (let l = limit (ground arith) in omega arith))

  go_on_left :
      (n : ℕ)
      → 0 < workers
      → InRange job n
      → turns_left (go_on (add_uint64 n workers)) + 1 ≤ turns_left (hashing n)
  go_on_left n pos r =
      let b = in_bound n r in
      either (add_uint64-exact n workers r.1) (λ (e, full). rw e (omega arith))
        (λ (e, fits). rw e (omega arith))

  put_self : (i : ℕ) (w : Worker) (ws : ℕ → Worker) → put_worker job i w ws i ≡ w
  put_self i w ws = let same : (i == i) ≡ true = ground arith in rw same

  put_other : (i j : ℕ) (w : Worker) (ws : ℕ → Worker) → j ≢ i → put_worker job i w ws j ≡ ws j
  put_other i j w ws ne = let other : (j == i) ≡ false = ground arith in rw other

  turns_left_of : {w w' : Worker} (k : ℕ) → w ≡ w' → turns_left w' ≤ k → turns_left w ≤ k
  turns_left_of k e h = rw e h

  -- A turn uses up one of the turns that are left, or ends the program.
  turn_left :
      (i : ℕ) (w : Worker) (m : Mining)
      → 0 < workers
      → m.worker i ≡ w
      → Stands job m.found i w
      → ((turn job i w m).crashed ≡ true)
        ⊎ (turns_left ((turn job i w m).worker i) ≤ turns_left w - 1)
  unfolding turn
  turn_left i (at_head n) m pos here s =
      either (Bool-cases (is_some m.found || is_over job n))
        (λ over. rw over (inr (turns_left_of _ (put_self i returned m.worker) (omega arith))))
        (λ more. rw more (inr (turns_left_of _ (put_self i (hashing n) m.worker) (omega arith))))
  turn_left i (hashing n) m pos here s =
      either (Bool-cases (is_ok (job.hash n)))
        (λ fine.
          either (Bool-cases (solves job n))
            (λ good.
              rw (fine, good) (inr (turns_left_of _ (put_self i returned m.worker) (omega arith))))
            (λ bad.
              rw (fine, bad)
                (inr (
                  turns_left_of _ (put_self i (go_on (add_uint64 n workers)) m.worker)
                    (let l = go_on_left n pos s.0 in omega arith)))))
        (λ crash. rw crash (inl refl))
  turn_left i returned m pos here s = inr (turns_left_of _ here (omega arith))

  turn_other : (i j : ℕ) (w : Worker) (m : Mining) → j ≢ i → (turn job i w m).worker j ≡ m.worker j
  unfolding turn
  turn_other i j (at_head n) m ne =
      either (Bool-cases (is_some m.found || is_over job n))
        (λ over. rw over (put_other i j returned m.worker ne))
        (λ more. rw more (put_other i j (hashing n) m.worker ne))
  turn_other i j (hashing n) m ne =
      either (Bool-cases (is_ok (job.hash n)))
        (λ fine.
          either (Bool-cases (solves job n))
            (λ good. rw (fine, good) (put_other i j returned m.worker ne))
            (λ bad. rw (fine, bad) (put_other i j (go_on (add_uint64 n workers)) m.worker ne)))
        (λ crash. rw crash refl)
  turn_other i j returned m ne = refl

  -- The same for a turn of a run, and for every worker.
  next_left :
      (i j : ℕ) (m : Mining)
      → 0 < workers
      → IsSearch job m
      → m.crashed ≡ false
      → ((next job i m).crashed ≡ true)
        ⊎ (turns_left ((next job i m).worker j)
            ≤ turns_left (m.worker j) - (if i == j then 1 else 0))
  next_left i j m pos s live =
      subst
        (λ (x : Mining).
          (x.crashed ≡ true)
          ⊎ (turns_left (x.worker j) ≤ turns_left (m.worker j) - (if i == j then 1 else 0)))
        (sym (if-false m.crashed _ _ live))
        (either (Bool-cases (i == j))
          (λ same.
            let e : i ≡ j = ground arith in
            rw same (
              subst
                (λ k.
                  ((turn job i (m.worker i) m).crashed ≡ true)
                  ⊎ (turns_left ((turn job i (m.worker i) m).worker k)
                      ≤ turns_left (m.worker k) - 1))
                e (turn_left i (m.worker i) m pos refl (s.stands i))))
          (λ other.
            let ne : j ≢ i = ground arith in
            rw other (
              inr (
                turns_left_of (turns_left (m.worker j) - 0) (turn_other i j (m.worker i) m ne)
                  (omega arith)))))

  crashed_stays :
      (order : List ℕ) (m : Mining) → m.crashed ≡ true → (mine job order m).crashed ≡ true
  unfolding mine
  crashed_stays [] m h = h
  crashed_stays (i ∷ is) m h =
      crashed_stays is (next job i m)
        (subst (λ (x : Mining). x.crashed ≡ true) (sym (if-true m.crashed _ _ h)) h)

  -- A run uses up as many turns of a worker as the worker gets.
  mine_left :
      (order : List ℕ) (i : ℕ) (m : Mining)
      → 0 < workers
      → IsSearch job m
      → ((mine job order m).crashed ≡ true)
        ⊎ (turns_left ((mine job order m).worker i) ≤ turns_left (m.worker i) - turns_of i order)
  unfolding mine
  mine_left [] i m pos s = inr (omega arith)
  mine_left (j ∷ is) i m pos s =
      either (Bool-cases m.crashed) (λ over. inl (crashed_stays (j ∷ is) m over))
        (λ live.
          either (next_left j i m pos s live) (λ c. inl (crashed_stays is (next job j m) c))
            (λ used.
              either (mine_left is i (next job j m) pos (next-IsSearch job j m s)) inl
                (λ rest. inr (omega arith))))

  start_left :
      (i : ℕ) → start < 2 ^ 64 → turns_left ((start_mining job).worker i) ≤ 2 * most_rounds + 1
  unfolding start_mining
  start_left i low =
      either (Bool-cases (ltb i workers))
        (λ inside. rw inside (
          either (add_uint64-exact start i low) (λ (e, full). rw e (omega arith))
            (λ (e, fits). rw e (omega arith))))
        (λ outside. rw outside (omega arith))

  none_left :
      (found : Option ℕ) (i : ℕ) (w : Worker)
      → Stands job found i w
      → turns_left w ≤ 0
      → w ≡ returned
  none_left found i (at_head n) s h = absurd (omega arith)
  none_left found i (hashing n) s h = let b = in_bound n s.0 in absurd (omega arith)
  none_left found i returned s h = refl

  returned_all :
      (k : ℕ) (m : Mining) → ((i : ℕ) → i < k → m.worker i ≡ returned) → all_returned job k m ≡ true
  unfolding all_returned
  returned_all zero m h = refl
  returned_all (suc k) m h =
      rw (h k (omega arith)) (returned_all k m (λ i small. h i (omega arith)))

  mine_result-crashed : (m : Mining) → m.crashed ≡ true → mine_result job m ≡ panic
  unfolding mine_result
  mine_result-crashed m c = if-true _ _ _ c

  mine_result-sent :
      (m : Mining) (n : ℕ) → m.crashed ≡ false → m.found ≡ some n → mine_result job m ≡ ok (some n)
  unfolding mine_result
  mine_result-sent m n live sent =
      if-false _ _ _ live ∙ if-true _ _ _ (ap is_some sent) ∙ ap ok sent

  mine_result-none :
      (m : Mining)
      → m.crashed ≡ false
      → m.found ≡ none
      → all_returned job workers m ≡ true
      → mine_result job m ≡ ok none
  unfolding mine_result
  mine_result-none m live nothing over =
      if-false _ _ _ live ∙ if-false _ _ _ (ap is_some nothing) ∙ if-true _ _ _ over

  -- The answer of a run: a panic, as the hash of a nonce in range panics; a solution in range; or no
  -- nonce, and all nonces that the job may try fail.
  abbrev pub Decided : Go (Option ℕ) → Type 0
  Decided r =
      ((r ≡ panic) × ((n : ℕ) × InRange job n × (is_ok (job.hash n) ≡ false)))
      ⊎ ((n : ℕ) × (r ≡ ok (some n)) × InRange job n × (solves job n ≡ true))
      ⊎ ((r ≡ ok none) × ((n : ℕ) → InRange job n → solves job n ≡ false))

  module _ (order : List ℕ) (low : start < 2 ^ 64) (pos : 0 < workers)
      (enough : (i : ℕ) → i < workers → 2 * most_rounds + 1 ≤ turns_of i order) where
    abbrev last : Mining
    last = mine job order (start_mining job)

    last-IsSearch : IsSearch job last
    last-IsSearch = mine-IsSearch job order (start_mining job) (start_mining-IsSearch job low)

    all_end : last.crashed ≡ false → (i : ℕ) → i < workers → last.worker i ≡ returned
    all_end live i small =
        let most = start_left i low in
        let got = enough i small in
        either (mine_left order i (start_mining job) pos (start_mining-IsSearch job low))
          (λ c. absurd (cc))
          (λ left. none_left last.found i (last.worker i) (last-IsSearch.stands i) (omega arith))

    -- `Mine` ends with an answer: if each worker gets at least 2 * r + 1 turns, where r is the limit,
    -- or without a limit the number of nonces from the first one on, then in whatever order they
    -- come, either it panics and the hash of a nonce in range does, or it returns a nonce in range
    -- whose hash is at most the target, or it returns none and no nonce in range is a solution.
    pub mine_decides : Decided (mine_result job last)
    mine_decides =
        either (Bool-cases last.crashed)
          (λ c. inl (mine_result-crashed last c, last-IsSearch.panicked c))
          (λ live. inr (
            either (Option-cases last.found)
              (λ nothing. inr (
                mine_result-none last live nothing (returned_all workers last (all_end live)),
                λ n r. mine_complete job order n low pos (all_end live) nothing r,
              ))
              (λ (n, sent).
                let (r, good) = last-IsSearch.sound n sent in
                inl (n, mine_result-sent last n live sent, r, good))))
