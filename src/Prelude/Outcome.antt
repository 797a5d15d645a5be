-- ===== src/Prelude/Outcome.antt =====
-- The outcome of a Go call: a value, a returned `error`, or a panic (an integer division by zero,
-- a slice out of bounds). The errors of all packages are one data type, a constructor for each
-- message that the sources build.
use mathlib.Core.Path.{◌≡◌, refl}
use mathlib.Core.Bool.{Bool, true, false}

pub data Error : Type 0 where
  -- colossusx/spec.go
  initial_size_zero growth_zero node_size_wrong reads_zero epoch_blocks_zero : Error
  initial_not_multiple growth_not_multiple strict_shape strict_version strict_memory : Error
  strict_device strict_tensor unsupported_mode : Error
  -- colossusx/dag.go, dag_tensor.go, dag_stateless.go
  nil_allocation nil_allocator nil_dag short_allocation empty_seed strict_only out_of_memory : Error
  -- colossusx/target.go and the hashes of pkg/types
  bad_hex wrong_length : Error
  -- pkg/chain
  block_not_found bad_integer no_datadir disk_failure : Error
  -- pkg/p2p
  network_failure unknown_message : Error
  -- pkg/consensus
  invalid_parent invalid_timestamp invalid_target invalid_pow invalid_epoch : Error
  no_solution : Error
  -- memory_strategy.go, strict_config.go
  not_ready no_strategies strategies_failed unsupported_strategy strict_allocator : Error
  strict_backend : Error

pub data Go {ℓ} (A : Type ℓ) : Type ℓ where
  ok : A → Go A
  err : Error → Go A
  panic : Go A
  -- no Go value: a loop of the model ran out of fuel, a call waits for ever, or a number of the model
  -- has no sign
  stuck : Go A

-- `v, err := m; if err != nil { return err }`
infixl 5 ◌>>=◌
abbrev pub ◌>>=◌ {κ ℓ} : {A : Type κ} {B : Type ℓ} → Go A → (A → Go B) → Go B
ok a >>= f = f a
err e >>= f = err e
panic >>= f = panic
stuck >>= f = stuck

-- the same for a call that returns an error only
infixl 5 ◌>>◌
abbrev pub ◌>>◌ {ℓ} : {B : Type ℓ} → Go (Unit {0}) → Go B → Go B
m >> k = m >>= λ _. k

-- `if bad { return err }`
abbrev pub refuse : Bool → Error → Go (Unit {0})
refuse true e = err e
refuse false e = ok tt

-- what a Go program does that divides by zero or slices out of bounds
abbrev pub panic_if : Bool → Go (Unit {0})
panic_if true = panic
panic_if false = ok tt

-- Chains of calls may be regrouped.
pub >>=-assoc {ℓ} :
    {A B C : Type ℓ} (m : Go A) (f : A → Go B) (k : B → Go C)
    → (m >>= λ x. f x >>= k) ≡ (m >>= f >>= k)
>>=-assoc (ok a) f k = refl
>>=-assoc (err e) f k = refl
>>=-assoc panic f k = refl
>>=-assoc stuck f k = refl
