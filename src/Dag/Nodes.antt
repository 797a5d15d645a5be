-- ===== src/Dag/Nodes.antt =====
-- Nodes of a buffer: reading one after another was written, and a buffer filled node by node.
use colossusx.Prelude.{
  ℕ, zero, suc, ◌+◌, ◌*◌, ◌<◌, ◌≤◌, ◌≡◌, ◌≢◌, refl, ap, subst, ◌∙◌, ◌⊎◌, inl, inr, ltb, ◌==◌, [],
  ◌∷◌, length, take, drop, Bool-cases, either, arith,
}
use colossusx.Prelude.Slices.{
  Bytes, slice, copy_at, slice-copy_at_self, slice-copy_at_before, drop-copy_at,
}
use colossusx.Spec.{u64_mod}
use colossusx.Dag.{View}

-- Node `i` of a buffer.
abbrev pub node_at : ℕ → Bytes → Bytes
node_at i array = slice (i * 64) 64 array

-- The buffer `new` has the intended content in each of its first `n` nodes, and is otherwise `old`.
pub record IsFilled (n : ℕ) (content : ℕ → Bytes) (old new : Bytes) : Type 0 where
  pub filled : (i : ℕ) → i < n → node_at i new ≡ content i
  pub same_length : length new ≡ length old
  pub same_rest : drop (n * 64) new ≡ drop (n * 64) old

pub take_all : (v : Bytes) (n : ℕ) → length v ≡ n → take n v ≡ v
take_all [] zero h = refl
take_all [] (suc n) h = refl
take_all (x ∷ v) zero h = absurd (omega arith)
take_all (x ∷ v) (suc n) h = ap (◌∷◌ x) (take_all v n (omega arith))

node_at-copy_at_ne :
    (i j : ℕ) (v array : Bytes)
    → i ≢ j
    → length v ≡ 64
    → node_at i (copy_at (j * 64) v array) ≡ node_at i array
node_at-copy_at_ne i j v array ne w = elim (Bool-cases (ltb i j)) [
  | inl lt ↦ slice-copy_at_before (i * 64) 64 (j * 64) v array (ground arith)
  | inr ge ↦ ap (take 64) (drop-copy_at (i * 64) (j * 64) v array (ground arith))
]

node_at-copy_at_self :
    (i : ℕ) (v array : Bytes)
    → length v ≡ 64
    → i * 64 + 64 ≤ length array
    → node_at i (copy_at (i * 64) v array) ≡ v
node_at-copy_at_self i v array w room =
    subst (λ (n : ℕ). slice (i * 64) n (copy_at (i * 64) v array) ≡ v) w
      (slice-copy_at_self (i * 64) v array (omega arith))

module _ (content : ℕ → Bytes) (width : (i : ℕ) → length (content i) ≡ 64) where
  -- Writing node `j` makes it right, and leaves what was right.
  pub right_after :
      (i j : ℕ) (array : Bytes)
      → j * 64 + 64 ≤ length array
      → (i ≡ j) ⊎ (node_at i array ≡ content i)
      → node_at i (copy_at (j * 64) (content j) array) ≡ content i
  right_after i j array room h = elim (Bool-cases (i == j)) [
    | inl same ↦
        let e : i ≡ j = ground arith in
        rw e (node_at-copy_at_self j (content j) array (width j) room)
    | inr other ↦
        let ne : i ≢ j = ground arith in
        either h (λ e. absurd (ne e))
          (λ r. node_at-copy_at_ne i j (content j) array ne (width j) ∙ r)
  ]

-- The buffer that is handed to the generators: the slice has the size of the DAG at least, and its
-- array at least the slice.
pub record IsBuffer (size : ℕ) (dag : View) : Type 0 where
  pub long_enough : size ≤ dag.len
  pub in_array : dag.len ≤ length dag.array
  pub array_typed : length dag.array < u64_mod
