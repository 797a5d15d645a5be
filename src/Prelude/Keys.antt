-- ===== src/Prelude/Keys.antt =====
-- Comparable values, as Go's `==` decides them: an interface, with an instance for numbers and for
-- byte arrays.
use Prim.Native.Nat.{ℕ}
use mathlib.Core.Path.{◌≡◌, refl}
use mathlib.Core.Logic.{◌↔◌}
use mathlib.Core.Bool.{Bool, true, false, ◌&&◌}
use mathlib.Core.List.{List, [], ◌∷◌}
use native.Mathlib.Omega.{arith}
use colossusx.Prelude.Tests.{◌==◌ as nat_eq, ==_iff}

pub record Eq (A : Type 0) : Type 0 where
  pub same : A → A → Bool
  -- equal values are the same for Go, and no others
  pub same_iff : (x y : A) → (same x y ≡ true) ↔ (x ≡ y)

infix 50 ◌==◌
abbrev pub ◌==◌ : {K : Type 0} ⦃q : Eq K⦄ → K → K → Bool
◌==◌ ⦃q⦄ = q.same

instance abbrev pub number_eq : Eq ℕ
number_eq = record { same = nat_eq; same_iff = ==_iff }

unfoldable pub bytes_eq : List ℕ → List ℕ → Bool
bytes_eq [] [] = true
bytes_eq [] (y ∷ ys) = false
bytes_eq (x ∷ xs) [] = false
bytes_eq (x ∷ xs) (y ∷ ys) = nat_eq x y && bytes_eq xs ys

bytes_eq_sound : (a b : List ℕ) → bytes_eq a b ≡ true → a ≡ b
unfolding bytes_eq
bytes_eq_sound [] [] h = refl
bytes_eq_sound [] (y ∷ ys) h = cc
bytes_eq_sound (x ∷ xs) [] h = cc
bytes_eq_sound (x ∷ xs) (y ∷ ys) h = ground (arith, bytes_eq_sound xs ys)

bytes_eq_refl : (a : List ℕ) → bytes_eq a a ≡ true
unfolding bytes_eq
bytes_eq_refl [] = refl
bytes_eq_refl (x ∷ xs) = ground (arith, bytes_eq_refl xs)

pub bytes_eq_iff : (a b : List ℕ) → (bytes_eq a b ≡ true) ↔ (a ≡ b)
bytes_eq_iff a b = (bytes_eq_sound a b, λ e. rw e (bytes_eq_refl b))

instance abbrev pub bytes_key : Eq (List ℕ)
bytes_key = record { same = bytes_eq; same_iff = bytes_eq_iff }

module _ {A B : Type 0} where
  pub pair_same_iff :
      ⦃a : Eq A⦄ ⦃b : Eq B⦄ (x y : A × B) → ((x.0 == y.0 && x.1 == y.1) ≡ true) ↔ (x ≡ y)
  pair_same_iff ⦃a⦄ ⦃b⦄ (x, u) (y, v) = (
    λ h. ground (arith, a.same_iff x y, b.same_iff u v),
    λ e. ground (arith, a.same_iff x y, b.same_iff u v),
  )

  instance abbrev pub pair_key : ⦃a : Eq A⦄ ⦃b : Eq B⦄ → Eq (A × B)
  pair_key = record { same = λ x y. x.0 == y.0 && x.1 == y.1; same_iff = pair_same_iff }
