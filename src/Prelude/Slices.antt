-- ===== src/Prelude/Slices.antt =====
-- Byte buffers: `buf[off : off+n]` and `copy(buf[off:], v)`, with what a read sees after a write.
use Prim.Native.Nat.{ℕ, zero, suc, ◌+◌, ◌≤◌}
use mathlib.Core.Path.{◌≡◌, refl, ap}
use mathlib.Core.List.{List, [], ◌∷◌, ◌++◌}
use native.Mathlib.Omega.{arith}
use colossusx.Prelude.Lists.{length, take, drop}

abbrev pub Bytes : Type 0
Bytes = List ℕ

abbrev pub slice : ℕ → ℕ → Bytes → Bytes
slice off n buf = take n (drop off buf)

-- `copy(buf, v)`: as many bytes as both have.
unfoldable pub copy : Bytes → Bytes → Bytes
copy [] buf = buf
copy (x ∷ v) [] = []
copy (x ∷ v) (b ∷ buf) = x ∷ copy v buf

-- `copy(buf[off:], v)`
unfoldable pub copy_at : ℕ → Bytes → Bytes → Bytes
copy_at zero v buf = copy v buf
copy_at (suc off) v [] = []
copy_at (suc off) v (b ∷ buf) = b ∷ copy_at off v buf

length-copy : (v buf : Bytes) → length (copy v buf) ≡ length buf
unfolding copy
length-copy [] buf = refl
length-copy (x ∷ v) [] = refl
length-copy (x ∷ v) (b ∷ buf) = ap suc (length-copy v buf)

pub length-copy_at : (off : ℕ) (v buf : Bytes) → length (copy_at off v buf) ≡ length buf
unfolding copy_at
length-copy_at zero v buf = length-copy v buf
length-copy_at (suc off) v [] = refl
length-copy_at (suc off) v (b ∷ buf) = ap suc (length-copy_at off v buf)

take-copy : (v buf : Bytes) → length v ≤ length buf → take (length v) (copy v buf) ≡ v
unfolding copy
take-copy [] buf h = refl
take-copy (x ∷ v) [] h = absurd (omega arith)
take-copy (x ∷ v) (b ∷ buf) h = ap (◌∷◌ x) (take-copy v buf (omega arith))

-- A read of what was just written.
pub slice-copy_at_self :
    (off : ℕ) (v buf : Bytes)
    → off + length v ≤ length buf
    → slice off (length v) (copy_at off v buf) ≡ v
unfolding copy_at
slice-copy_at_self zero v buf h = take-copy v buf (omega arith)
slice-copy_at_self (suc off) v [] h = absurd (omega arith)
slice-copy_at_self (suc off) v (b ∷ buf) h = slice-copy_at_self off v buf (omega arith)

take-copy_at : (n off : ℕ) (v buf : Bytes) → n ≤ off → take n (copy_at off v buf) ≡ take n buf
unfolding copy_at
take-copy_at zero off v buf h = refl
take-copy_at (suc n) zero v buf h = absurd (omega arith)
take-copy_at (suc n) (suc off) v [] h = refl
take-copy_at (suc n) (suc off) v (b ∷ buf) h = ap (◌∷◌ b) (take-copy_at n off v buf (omega arith))

-- A read that ends before the write.
pub slice-copy_at_before :
    (k n off : ℕ) (v buf : Bytes) → k + n ≤ off → slice k n (copy_at off v buf) ≡ slice k n buf
unfolding copy_at
slice-copy_at_before zero n off v buf h = take-copy_at n off v buf (omega arith)
slice-copy_at_before (suc k) n zero v buf h = absurd (omega arith)
slice-copy_at_before (suc k) n (suc off) v [] h = refl
slice-copy_at_before (suc k) n (suc off) v (b ∷ buf) h =
    slice-copy_at_before k n off v buf (omega arith)

drop-copy : (k : ℕ) (v buf : Bytes) → length v ≤ k → drop k (copy v buf) ≡ drop k buf
unfolding copy
drop-copy k [] buf h = refl
drop-copy zero (x ∷ v) buf h = absurd (omega arith)
drop-copy (suc k) (x ∷ v) [] h = refl
drop-copy (suc k) (x ∷ v) (b ∷ buf) h = drop-copy k v buf (omega arith)

-- What stands behind the write.
pub drop-copy_at :
    (k off : ℕ) (v buf : Bytes) → off + length v ≤ k → drop k (copy_at off v buf) ≡ drop k buf
unfolding copy_at
drop-copy_at k zero v buf h = drop-copy k v buf (omega arith)
drop-copy_at zero (suc off) v buf h = absurd (omega arith)
drop-copy_at (suc k) (suc off) v [] h = refl
drop-copy_at (suc k) (suc off) v (b ∷ buf) h = drop-copy_at k off v buf (omega arith)

pub length-slice : (off n : ℕ) (buf : Bytes) → off + n ≤ length buf → length (slice off n buf) ≡ n
length-slice zero zero buf h = refl
length-slice zero (suc n) [] h = absurd (omega arith)
length-slice zero (suc n) (b ∷ buf) h = ap suc (length-slice zero n buf (omega arith))
length-slice (suc off) zero [] h = refl
length-slice (suc off) (suc n) [] h = absurd (omega arith)
length-slice (suc off) n (b ∷ buf) h = length-slice off n buf (omega arith)

-- Reading back a concatenation.
pub take-append : (u v : Bytes) → take (length u) (u ++ v) ≡ u
take-append [] v = refl
take-append (x ∷ u) v = ap (◌∷◌ x) (take-append u v)

pub drop-append : (u v : Bytes) → drop (length u) (u ++ v) ≡ v
drop-append [] v = refl
drop-append (x ∷ u) v = drop-append u v
