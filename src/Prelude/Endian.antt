-- ===== src/Prelude/Endian.antt =====
-- encoding/binary: fixed-width numbers as bytes, in both orders, and their decoders. A width is a
-- count of bytes.
use Prim.Native.Nat.{ℕ, zero, suc, ◌+◌, ◌*◌, ◌/◌, ◌%◌, ◌^◌, ◌<◌}
use mathlib.Core.Path.{◌≡◌, refl, ap, ◌∙◌}
use mathlib.Core.List.{[], ◌∷◌, ◌++◌}
use native.Mathlib.Omega.{arith}
use colossusx.Prelude.Lists.{length, length-append}
use colossusx.Prelude.Slices.{Bytes}

abbrev pub AllBytes : Bytes → Type 0
AllBytes [] = Unit
AllBytes (b ∷ bs) = (b < 256) × AllBytes bs

-- `binary.LittleEndian.PutUint…`: the lowest byte first.
unfoldable pub le : ℕ → ℕ → Bytes
le zero n = []
le (suc w) n = (n % 256) ∷ le w (n / 256)

-- `binary.LittleEndian.Uint…`
unfoldable pub le_value : Bytes → ℕ
le_value [] = 0
le_value (b ∷ bs) = b + 256 * le_value bs

-- `binary.BigEndian.AppendUint…`: the highest byte first.
unfoldable pub be : ℕ → ℕ → Bytes
be zero n = []
be (suc w) n = be w (n / 256) ++ (n % 256) ∷ []

-- `binary.BigEndian.Uint…` and `big.Int.SetBytes`, with the value of the bytes read so far.
unfoldable pub be_from : ℕ → Bytes → ℕ
be_from acc [] = acc
be_from acc (b ∷ bs) = be_from (256 * acc + b) bs

abbrev pub be_value : Bytes → ℕ
be_value = be_from 0

pub length-le : (w n : ℕ) → length (le w n) ≡ w
unfolding le
length-le zero n = refl
length-le (suc w) n = ap suc (length-le w (n / 256))

pub length-be : (w n : ℕ) → length (be w n) ≡ w
unfolding be
length-be zero n = refl
length-be (suc w) n =
    omega (arith, length-append {0} (be w (n / 256)) ((n % 256) ∷ []), length-be w (n / 256))

be_from-append : (acc : ℕ) (u v : Bytes) → be_from acc (u ++ v) ≡ be_from (be_from acc u) v
unfolding be_from
be_from-append acc [] v = refl
be_from-append acc (x ∷ u) v = be_from-append (256 * acc + x) u v

pow_step : (w : ℕ) → 256 ^ suc w ≡ 256 * 256 ^ w
pow_step w = omega arith

-- Decoding what was encoded gives the number back, if it fits the width.
pub be_value-be : (w n : ℕ) → n < 256 ^ w → be_value (be w n) ≡ n
unfolding be be_from
be_value-be zero n h = omega arith
be_value-be (suc w) n h =
    be_from-append 0 (be w (n / 256)) ((n % 256) ∷ [])
    ∙ omega (arith, be_value-be w (n / 256) (omega (arith, pow_step w)))

pub le-bytes : (w n : ℕ) → AllBytes (le w n)
unfolding le
le-bytes zero n = tt
le-bytes (suc w) n = (omega arith, le-bytes w (n / 256))
