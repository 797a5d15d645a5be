-- ===== src/Prelude/Maps.antt =====
-- Go maps as association lists: `m[k]`, `m[k] = v`, `_, ok := m[k]` and `delete(m, k)`.
use mathlib.Core.Path.{◌≡◌, refl}
use mathlib.Core.Bool.{Bool, true, false}
use mathlib.Core.Option.{Option, none, some}
use mathlib.Core.List.{List, [], ◌∷◌}
use native.Mathlib.Omega.{arith}
use colossusx.Prelude.Tests.{if◌then◌else◌}
use colossusx.Prelude.Keys.{Eq, ◌==◌}

abbrev pub Map : Type 0 → Type 0 → Type 0
Map K V = List (K × V)

module _ {K V : Type 0} ⦃q : Eq K⦄ where
  unfoldable pub lookup : K → Map K V → Option V
  lookup key [] = none
  lookup key (entry ∷ rest) = if entry.0 == key then some entry.1 else lookup key rest

  unfoldable pub insert : K → V → Map K V → Map K V
  insert key value [] = (key, value) ∷ []
  insert key value (entry ∷ rest) =
      if entry.0 == key then (key, value) ∷ rest else entry ∷ insert key value rest

  unfoldable pub delete : K → Map K V → Map K V
  delete key [] = []
  delete key (entry ∷ rest) = if entry.0 == key then delete key rest else entry ∷ delete key rest

  unfoldable pub has : K → Map K V → Bool
  has key m = elim (lookup key m) [ none ↦ false | some _ ↦ true ]

  -- A read after a write.
  pub lookup-insert :
      (key other : K) (value : V) (m : Map K V)
      → lookup other (insert key value m) ≡ (if key == other then some value else lookup other m)
  unfolding lookup insert
  lookup-insert key other value [] = refl
  lookup-insert key other value (entry ∷ rest) = ground (
    arith,
    lookup-insert key other value rest,
    q.same_iff key other,
    q.same_iff entry.0 key,
    q.same_iff entry.0 other,
  )

  -- A read after a removal.
  pub lookup-delete :
      (key other : K) (m : Map K V)
      → lookup other (delete key m) ≡ (if key == other then none else lookup other m)
  unfolding lookup delete
  lookup-delete key other [] = ground arith
  lookup-delete key other (entry ∷ rest) = ground (
    arith,
    lookup-delete key other rest,
    q.same_iff key other,
    q.same_iff entry.0 key,
    q.same_iff entry.0 other,
  )

  pub has-some : (k : K) (m : Map K V) {v : V} → lookup k m ≡ some v → has k m ≡ true
  unfolding has
  has-some k m h = rw (h, has)

  pub has-true : (k : K) (m : Map K V) → has k m ≡ true → (v : V) × (lookup k m ≡ some v)
  unfolding has
  has-true k m h = go (lookup k m) refl
    where
      go : (o : Option V) → lookup k m ≡ o → (v : V) × (lookup k m ≡ some v)
      go none p = absurd (ground arith)
      go (some v) p = (v, p)

  pub has-false : (k : K) (m : Map K V) → has k m ≡ false → lookup k m ≡ none
  unfolding has
  has-false k m h = ground arith
