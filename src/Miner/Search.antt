-- ===== src/Miner/Search.antt =====
-- What a run of the miner finds, for any order of the workers' turns.
use colossusx.Prelude.{
  ℕ, ◌+◌, ◌-◌, ◌*◌, ◌/◌, ◌%◌, ◌^◌, ◌<◌, ◌≤◌, ◌≡◌, refl, sym, subst, ◌⊎◌, inl, inr, either, true,
  false, Bool-cases, ltb, ◌==◌, if◌then◌else◌, List, [], ◌∷◌, Option, none, some, if-true, if-false,
  arith,
}
use colossusx.Nonce.{add_uint64, add_uint64-exact}
use colossusx.Miner.{
  Job, Worker, at_head, hashing, returned, Mining, is_some, go_on, solves, is_over, put_worker,
  is_ok, turn, start_mining, mine,
}

module _ (job : Job) where
  open job use {start, max_nonces, workers}

  -- A nonce that the job may try.
  abbrev pub InRange : ℕ → Type 0
  InRange n = (start ≤ n) × (n < 2 ^ 64) × ((0 < max_nonces) → n - start < max_nonces)

  -- The nonce of round `k` of worker `i`.
  abbrev pub nonce_of : ℕ → ℕ → ℕ
  nonce_of i k = start + i + k * workers

  -- The worker has failed in all rounds before `k`.
  abbrev pub FailedBefore : ℕ → ℕ → Type 0
  FailedBefore i k = (j : ℕ) → j < k → solves job (nonce_of i j) ≡ false

  abbrev pub Exhausted : ℕ → Type 0
  Exhausted i = (j : ℕ) → InRange (nonce_of i j) → solves job (nonce_of i j) ≡ false

  -- What is known of worker `i` by where it stands.
  abbrev pub Stands : Option ℕ → ℕ → Worker → Type 0
  Stands found i (at_head n) = (n < 2 ^ 64) × (k : ℕ) × (n ≡ nonce_of i k) × FailedBefore i k
  Stands found i (hashing n) = InRange n × (k : ℕ) × (n ≡ nonce_of i k) × FailedBefore i k
  Stands found i returned = (workers ≤ i) ⊎ (is_some found ≡ true) ⊎ Exhausted i

  pub record IsSearch (m : Mining) : Type 0 where
    pub sound : (n : ℕ) → m.found ≡ some n → InRange n × (solves job n ≡ true)
    pub stands : (i : ℕ) → Stands m.found i (m.worker i)
    pub panicked : m.crashed ≡ true → (n : ℕ) × InRange n × (is_ok (job.hash n) ≡ false)

  is_over-false : (n : ℕ) → start ≤ n → n < 2 ^ 64 → is_over job n ≡ false → InRange n
  unfolding is_over
  is_over-false n low high h = (low, high, λ pos. ground arith)

  is_over-true :
      (n : ℕ)
      → start ≤ n
      → n < 2 ^ 64
      → is_over job n ≡ true
      → (0 < max_nonces) × (max_nonces ≤ n - start)
  unfolding is_over
  is_over-true n low high h = ground arith

  rounds_le : (i k j : ℕ) → k ≤ j → nonce_of i k ≤ nonce_of i j
  rounds_le i k j h = grind arith

  before : (i k j : ℕ) → nonce_of i j < nonce_of i k → j < k
  before i k j h =
      either (Bool-cases (ltb j k)) (λ l. ground arith)
        (λ no. absurd (ground (arith, rounds_le i k j (ground arith))))

  FailedBefore-suc :
      (i k : ℕ) → FailedBefore i k → solves job (nonce_of i k) ≡ false → FailedBefore i (k + 1)
  FailedBefore-suc i k f here j h =
      either (Bool-cases (ltb j k)) (λ l. f j (ground arith))
        (λ no. (let e : j ≡ k = ground arith in rw e here))

  -- A worker that failed in round `k` stands well in the next, or has tried all its nonces.
  failed-Stands :
      (found : Option ℕ) (i n k : ℕ)
      → n < 2 ^ 64
      → n ≡ nonce_of i k
      → FailedBefore i k
      → solves job n ≡ false
      → Stands found i (go_on (add_uint64 n workers))
  failed-Stands found i n k high here f bad =
      let f' = FailedBefore-suc i k f (cc) in
      either (add_uint64-exact n workers high)
        (λ (e, full). rw e (inr (inr (λ j r. f' j (before i (k + 1) j (grind arith))))))
        (λ (e, fits). rw e (fits, k + 1, grind arith, f'))

  Stands-found :
      (found found' : Option ℕ) (i : ℕ) (w : Worker)
      → (is_some found ≡ true → is_some found' ≡ true)
      → Stands found i w
      → Stands found' i w
  Stands-found found found' i (at_head n) mono h = h
  Stands-found found found' i (hashing n) mono h = h
  Stands-found found found' i returned mono (inl h) = inl h
  Stands-found found found' i returned mono (inr (inl h)) = inr (inl (mono h))
  Stands-found found found' i returned mono (inr (inr h)) = inr (inr h)

  put-Stands :
      (found : Option ℕ) (i : ℕ) (w : Worker) (ws : ℕ → Worker)
      → ((j : ℕ) → Stands found j (ws j))
      → Stands found i w
      → (j : ℕ) → Stands found j (put_worker job i w ws j)
  put-Stands found i w ws all here j =
      either (Bool-cases (j == i)) (λ same. (let e : j ≡ i = ground arith in rw (same, e) here))
        (λ other. rw other (all j))

  -- A round that may still be tried comes before the nonce at which the limit is passed.
  over-Exhausted :
      (i n k : ℕ)
      → n < 2 ^ 64
      → n ≡ nonce_of i k
      → FailedBefore i k
      → is_over job n ≡ true
      → Exhausted i
  over-Exhausted i n k high here f over j (low, below, limit) =
      let (pos, past) = is_over-true n (grind arith) high over in
      let within = limit pos in f j (before i k j (grind arith))

  head-IsSearch :
      (i n : ℕ) (m : Mining)
      → IsSearch m
      → Stands m.found i (at_head n)
      → IsSearch (turn job i (at_head n) m)
  unfolding turn
  head-IsSearch i n m s (high, k, here, f) =
      either (Bool-cases (is_some m.found)) (λ won. rw won (stop (inr (inl won))))
        (λ not_won.
          either (Bool-cases (is_over job n))
            (λ over. rw (not_won, over) (stop (inr (inr (over-Exhausted i n k high here f over)))))
            (λ more.
              rw (not_won, more)
                (record {
                  sound = s.sound;
                  stands =
                      put-Stands m.found i (hashing n) m.worker s.stands
                        (is_over-false n (grind arith) high more, k, here, f);
                  panicked = s.panicked;
                })))
    where
      stop :
          Stands m.found i returned
          → IsSearch (record m { worker = put_worker job i returned m.worker })
      stop h = record {
        sound = s.sound;
        stands = put-Stands m.found i returned m.worker s.stands h;
        panicked = s.panicked;
      }

  winner : (found : Option ℕ) (n : ℕ) → is_some (if is_some found then found else some n) ≡ true
  winner none n = refl
  winner (some x) n = refl

  winner-is :
      (found : Option ℕ) (n x : ℕ)
      → (if is_some found then found else some n) ≡ some x
      → (found ≡ some x) ⊎ (n ≡ x)
  winner-is none n x h = inr (ground arith)
  winner-is (some y) n x h = inl h

  hash-IsSearch :
      (i n : ℕ) (m : Mining)
      → IsSearch m
      → Stands m.found i (hashing n)
      → IsSearch (turn job i (hashing n) m)
  unfolding turn
  hash-IsSearch i n m s (r, k, here, f) =
      either (Bool-cases (is_ok (job.hash n)))
        (λ fine.
          either (Bool-cases (solves job n))
            (λ good.
              rw (fine, good)
                (record {
                  sound = λ x h.
                      either (winner-is m.found n x h) (s.sound x)
                        (λ e. subst (λ y. InRange y × (solves job y ≡ true)) e (r, good));
                  stands =
                      put-Stands (if is_some m.found then m.found else some n) i returned m.worker
                        (λ j.
                          Stands-found m.found (if is_some m.found then m.found else some n) j
                            (m.worker j) (λ _. winner m.found n) (s.stands j))
                        (inr (inl (winner m.found n)));
                  panicked = s.panicked;
                }))
            (λ bad.
              rw (fine, bad)
                (record {
                  sound = s.sound;
                  stands =
                      put-Stands m.found i (go_on (add_uint64 n workers)) m.worker s.stands
                        (failed-Stands m.found i n k r.1 here f bad);
                  panicked = s.panicked;
                })))
        (λ crash.
          rw crash (record { sound = s.sound; stands = s.stands; panicked = λ _. (n, r, crash) }))

  turn-IsSearch :
      (i : ℕ) (w : Worker) (m : Mining)
      → IsSearch m
      → Stands m.found i w
      → IsSearch (turn job i w m)
  unfolding turn
  turn-IsSearch i (at_head n) m s h = head-IsSearch i n m s h
  turn-IsSearch i (hashing n) m s h = hash-IsSearch i n m s h
  turn-IsSearch i returned m s h = s

  -- what a turn makes of the goroutines, unless the program has ended
  abbrev pub next : ℕ → Mining → Mining
  next i m = if m.crashed then m else turn job i (m.worker i) m

  pub next-IsSearch : (i : ℕ) (m : Mining) → IsSearch m → IsSearch (next i m)
  next-IsSearch i m s =
      either (Bool-cases m.crashed) (λ over. subst IsSearch (sym (if-true m.crashed _ _ over)) s)
        (λ live.
          subst IsSearch (sym (if-false m.crashed _ _ live))
            (turn-IsSearch i (m.worker i) m s (s.stands i)))

  pub mine-IsSearch : (order : List ℕ) (m : Mining) → IsSearch m → IsSearch (mine job order m)
  unfolding mine
  mine-IsSearch [] m s = s
  mine-IsSearch (i ∷ is) m s = mine-IsSearch is (next i m) (next-IsSearch i m s)

  start_mining-Stands :
      (i : ℕ)
      → start < 2 ^ 64
      → Stands none i (if ltb i workers then go_on (add_uint64 start i) else returned)
  start_mining-Stands i low =
      either (Bool-cases (ltb i workers))
        (λ mine_it. rw mine_it (
          either (add_uint64-exact start i low)
            (λ (e, full). rw e (inr (inr (λ j r. absurd (grind arith)))))
            (λ (e, fits). rw e (fits, 0, grind arith, λ j h. absurd (omega arith)))))
        (λ other. rw other (inl (ground arith)))

  pub start_mining-IsSearch : start < 2 ^ 64 → IsSearch (start_mining job)
  unfolding start_mining
  start_mining-IsSearch low = record {
    sound = λ n h. absurd (ground arith);
    stands = λ i. start_mining-Stands i low;
    panicked = λ h. absurd (ground arith);
  }

  nonce_of-division :
      (n : ℕ)
      → start ≤ n
      → 0 < workers
      → n ≡ nonce_of ((n - start) % workers) ((n - start) / workers)
  nonce_of-division n low pos = ground arith

  -- If a run of `Mine` sends a nonce, it is one that the job may try, and its hash is at most the
  -- target, whatever the order of the workers' turns.
  pub mine_sound :
      (order : List ℕ) (n : ℕ)
      → start < 2 ^ 64
      → (mine job order (start_mining job)).found ≡ some n
      → InRange n × (solves job n ≡ true)
  mine_sound order n low h =
      (mine-IsSearch order (start_mining job) (start_mining-IsSearch low)).sound n h

  mod_lt : (a : ℕ) → 0 < workers → a % workers < workers
  mod_lt a pos = ground arith

  Exhausted-none :
      (found : Option ℕ) (i : ℕ) (w : Worker)
      → w ≡ returned
      → found ≡ none
      → i < workers
      → Stands found i w
      → Exhausted i
  Exhausted-none found i w over nothing small h =
      either (subst (Stands found i) over h) (λ large. absurd (omega arith))
        (λ rest. either rest (λ won. absurd (ground arith)) (λ all. all))

  -- If a run of `Mine` ends with all workers returned and no nonce sent, no nonce that the job may
  -- try has a hash at or below the target: together the workers leave none out.
  pub mine_complete :
      (order : List ℕ) (n : ℕ)
      → start < 2 ^ 64
      → 0 < workers
      → ((i : ℕ) → i < workers → (mine job order (start_mining job)).worker i ≡ returned)
      → (mine job order (start_mining job)).found ≡ none
      → InRange n
      → solves job n ≡ false
  mine_complete order n low pos over nothing r =
      let m = mine job order (start_mining job) in
      let s = mine-IsSearch order (start_mining job) (start_mining-IsSearch low) in
      let i = (n - start) % workers in
      let small = mod_lt (n - start) pos in
      let here = nonce_of-division n r.0 pos in
      let all = Exhausted-none m.found i (m.worker i) (over i small) nothing small (s.stands i) in
      subst (λ x. solves job x ≡ false) (sym here)
        (all ((n - start) / workers) (subst InRange here r))
