-- ===== src/Nonce.antt =====
-- colossusx/nonce.go: the nonce of the search, a uint64 behind an interface. `none` for the
-- interface value stands for nil.
use colossusx.Prelude.{
  ℕ, ◌+◌, ◌-◌, ◌%◌, ◌<◌, ◌≤◌, ◌^◌, ◌≡◌, ◌⊎◌, ltb, if◌then◌else◌, ◌++◌, Option, none, some, arith,
}
use colossusx.Prelude.Slices.{Bytes}
use colossusx.Prelude.Endian.{le}

-- `Uint64Nonce.AppendTo`: eight bytes in little-endian order behind `dst`.
unfoldable pub append_to : ℕ → Bytes → Bytes
append_to n dst = dst ++ le 8 n

-- `nonce != nil` guards every use of the interface.
unfoldable pub append_nonce : Option ℕ → Bytes → Bytes
unfolding append_to
append_nonce none dst = dst
append_nonce (some n) dst = append_to n dst

-- `Uint64Nonce.AddUint64`; `^uint64(0)` is 2^64 - 1.
unfoldable pub add_uint64 : ℕ → ℕ → Option ℕ
add_uint64 n delta = if ltb (2 ^ 64 - 1 - n) delta then none else some ((n + delta) % 2 ^ 64)

-- `AddUint64` either fails, and then the sum does not fit 64 bits, or returns the exact sum.
pub add_uint64-exact :
    (n delta : ℕ)
    → n < 2 ^ 64
    → ((add_uint64 n delta ≡ none) × (2 ^ 64 ≤ n + delta))
      ⊎ ((add_uint64 n delta ≡ some (n + delta)) × (n + delta < 2 ^ 64))
unfolding add_uint64
add_uint64-exact n delta h = ground arith
