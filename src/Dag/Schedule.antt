-- ===== src/Dag/Schedule.antt =====
-- The goroutines of `GenerateDAG`: a run picks, again and again, the next round of one of them. Any
-- run executes each round of each goroutine, and nothing else.
use colossusx.Prelude.{ℕ, ◌≡◌, refl, ◌⊎◌, inl, inr, List, [], ◌∷◌, ◌++◌}

-- `i` is one of the numbers of a list.
abbrev pub Has : ℕ → List ℕ → Type 0
Has i [] = ⊥
Has i (x ∷ xs) = (i ≡ x) ⊎ Has i xs

-- `i` is a round of one of the goroutines.
abbrev pub HasAny : ℕ → List (List ℕ) → Type 0
HasAny i [] = ⊥
HasAny i (xs ∷ ls) = Has i xs ⊎ HasAny i ls

-- One goroutine does its next round.
pub data Picks : List (List ℕ) → ℕ → List (List ℕ) → Type 0 where
  this : {i : ℕ} {xs : List ℕ} {ls : List (List ℕ)} → Picks ((i ∷ xs) ∷ ls) i (xs ∷ ls)
  later :
      {i : ℕ} {xs : List ℕ} {ls ls' : List (List ℕ)} → Picks ls i ls' → Picks (xs ∷ ls) i (xs ∷ ls')

-- `wg.Wait()` returns when no goroutine has a round left.
pub data Finished : List (List ℕ) → Type 0 where
  no_workers : Finished []
  idle : {ls : List (List ℕ)} → Finished ls → Finished ([] ∷ ls)

-- The rounds of a whole run, in their order.
pub data Runs : List (List ℕ) → List ℕ → Type 0 where
  end : {ls : List (List ℕ)} → Finished ls → Runs ls []
  round :
      {i : ℕ} {ls ls' : List (List ℕ)} {is : List ℕ}
      → Picks ls i ls'
      → Runs ls' is
      → Runs ls (i ∷ is)

Finished-empty : {ls : List (List ℕ)} (i : ℕ) → Finished ls → HasAny i ls → ⊥
Finished-empty i no_workers h = h
Finished-empty i (idle f) (inl h) = h
Finished-empty i (idle f) (inr h) = Finished-empty i f h

Picks-split :
    {ls ls' : List (List ℕ)} {j : ℕ} (i : ℕ) → Picks ls j ls' → HasAny i ls → (i ≡ j) ⊎ HasAny i ls'
Picks-split i this (inl (inl e)) = inl e
Picks-split i this (inl (inr h)) = inr (inl h)
Picks-split i this (inr h) = inr (inr h)
Picks-split i (later p) (inl h) = inr (inl h)
Picks-split i (later p) (inr h) = elim (Picks-split i p h) [ inl e ↦ inl e | inr h' ↦ inr (inr h') ]

Picks-first : {ls ls' : List (List ℕ)} {j : ℕ} → Picks ls j ls' → HasAny j ls
Picks-first this = inl (inl refl)
Picks-first (later p) = inr (Picks-first p)

Picks-rest : {ls ls' : List (List ℕ)} {j : ℕ} (i : ℕ) → Picks ls j ls' → HasAny i ls' → HasAny i ls
Picks-rest i this (inl h) = inl (inr h)
Picks-rest i this (inr h) = inr h
Picks-rest i (later p) (inl h) = inl h
Picks-rest i (later p) (inr h) = inr (Picks-rest i p h)

pub Runs-complete : {ls : List (List ℕ)} {is : List ℕ} (i : ℕ) → Runs ls is → HasAny i ls → Has i is
Runs-complete i (end f) h = Finished-empty i f h
Runs-complete i (round p r) h = elim (Picks-split i p h) [
  | inl e ↦ inl e
  | inr h' ↦ inr (Runs-complete i r h')
]

HasAny-of_eq : {ls ls' : List (List ℕ)} {i j : ℕ} → i ≡ j → Picks ls j ls' → HasAny i ls
HasAny-of_eq e p = rw e (Picks-first p)

pub Runs-sound : {ls : List (List ℕ)} {is : List ℕ} (i : ℕ) → Runs ls is → Has i is → HasAny i ls
Runs-sound i (end f) h = absurd h
Runs-sound i (round p r) (inl e) = HasAny-of_eq e p
Runs-sound i (round p r) (inr h) = Picks-rest i p (Runs-sound i r h)

-- One goroutine after the other is a run.
abbrev pub in_turn : List (List ℕ) → List ℕ
in_turn [] = []
in_turn (xs ∷ ls) = xs ++ in_turn ls

all_idle : (ls : List (List ℕ)) {is : List ℕ} → Runs ls is → Runs ([] ∷ ls) is
all_idle ls (end f) = end (idle f)
all_idle ls (round p r) = round (later p) (all_idle _ r)

in_turn_from :
    (xs : List ℕ) (ls : List (List ℕ)) {is : List ℕ} → Runs ls is → Runs (xs ∷ ls) (xs ++ is)
in_turn_from [] ls r = all_idle ls r
in_turn_from (x ∷ xs) ls r = round this (in_turn_from xs ls r)

pub in_turn-Runs : (ls : List (List ℕ)) → Runs ls (in_turn ls)
in_turn-Runs [] = end no_workers
in_turn-Runs (xs ∷ ls) = in_turn_from xs ls (in_turn-Runs ls)
