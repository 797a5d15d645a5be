-- ===== src/Target.antt =====
-- colossusx/target.go: the 256-bit target of the proof of work.
use colossusx.Prelude.{
  ℕ, suc, ◌+◌, ◌*◌, ◌<◌, ◌≤◌, ◌^◌, ◌≡◌, ap, Bool, true, false, ltb, leb, not, ◌==◌, if◌then◌else◌,
  List, [], ◌∷◌, length, Go, ok, err, Error, none, some, Option, arith,
}
use colossusx.Prelude.Slices.{Bytes}
use colossusx.Prelude.Endian.{AllBytes, be_from, be_value}
use colossusx.Prelude.Hex.{hex_encode, hex_decode, hex_decode-encode}

-- A `[32]byte` value.
pub record IsHash (h : Bytes) : Type 0 where
  pub bytes : AllBytes h
  pub width : length h ≡ 32

abbrev of_decoded : Option Bytes → Go Bytes
of_decoded none = err Error.bad_hex
of_decoded (some b) = if not (length b == 32) then err Error.wrong_length else ok b

-- `ParseTargetHex`
unfoldable pub parse_target_hex : List ℕ → Go Bytes
parse_target_hex s = of_decoded (hex_decode s)

-- `Target.String`
unfoldable pub target_string : Bytes → List ℕ
target_string t = hex_encode t

-- A target printed and parsed is the target again.
pub parse_target_hex-target_string :
    (t : Bytes) → IsHash t → parse_target_hex (target_string t) ≡ ok t
unfolding parse_target_hex target_string
parse_target_hex-target_string t h = rw (hex_decode-encode t h.bytes) (ground (arith, h.width))

-- `LessOrEqualBE`: the loop over the bytes that are left of both arrays.
unfoldable pub less_or_equal_be : Bytes → Bytes → Bool
less_or_equal_be [] b = true
less_or_equal_be (x ∷ a) [] = true
less_or_equal_be (x ∷ a) (y ∷ b) =
    let rest = less_or_equal_be a b in if ltb x y then true else if ltb y x then false else rest

pow_step : (n : ℕ) → 256 ^ suc n ≡ 256 * 256 ^ n
pow_step n = omega arith

byte_mul : (x p : ℕ) → x < 256 → (x + 1) * p ≤ 256 * p
byte_mul x p h = grind arith

-- The digits still to be read move the value by less than one unit of the last digit read.
be_from_lower : (acc : ℕ) (a : Bytes) → acc * 256 ^ length a ≤ be_from acc a
unfolding be_from
be_from_lower acc [] = omega arith
be_from_lower acc (x ∷ a) =
    omega (arith, be_from_lower (256 * acc + x) a, ap (λ (t : ℕ). acc * t) (pow_step (length a)))

be_from_upper : (acc : ℕ) (a : Bytes) → AllBytes a → be_from acc a < (acc + 1) * 256 ^ length a
unfolding be_from
be_from_upper acc [] h = omega arith
be_from_upper acc (x ∷ a) h = omega (
  arith,
  be_from_upper (256 * acc + x) a h.1,
  byte_mul x (256 ^ length a) h.0,
  ap (λ (t : ℕ). (acc + 1) * t) (pow_step (length a)),
)

-- A larger value so far stays larger, whatever digits follow.
be_from_mono :
    (u v : ℕ) (a b : Bytes) → AllBytes a → length a ≡ length b → u < v → be_from u a < be_from v b
be_from_mono u v a b h same lt =
    let widths : 256 ^ length a ≡ 256 ^ length b = ap (λ (n : ℕ). 256 ^ n) same in
    let room : (u + 1) * 256 ^ length b ≤ v * 256 ^ length b = grind arith in
    omega (arith, be_from_upper u a h, be_from_lower v b, room, ap (λ (t : ℕ). (u + 1) * t) widths)

less_or_equal_be-from :
    (acc : ℕ) (a b : Bytes)
    → AllBytes a
    → AllBytes b
    → length a ≡ length b
    → less_or_equal_be a b ≡ leb (be_from acc a) (be_from acc b)
unfolding less_or_equal_be be_from
less_or_equal_be-from acc [] [] ha hb same = ground arith
less_or_equal_be-from acc [] (y ∷ b) ha hb same = absurd (omega arith)
less_or_equal_be-from acc (x ∷ a) [] ha hb same = absurd (omega arith)
less_or_equal_be-from acc (x ∷ a) (y ∷ b) ha hb same = ground (
  arith,
  less_or_equal_be-from (256 * acc + x) a b ha.1 hb.1 (omega arith),
  be_from_mono (256 * acc + x) (256 * acc + y) a b ha.1 (omega arith),
  be_from_mono (256 * acc + y) (256 * acc + x) b a hb.1 (omega arith),
)

-- The byte-wise comparison of a digest with a target is the comparison of the 256-bit numbers
-- that they spell in big-endian order.
pub less_or_equal_be-value :
    (a b : Bytes) → IsHash a → IsHash b → less_or_equal_be a b ≡ leb (be_value a) (be_value b)
less_or_equal_be-value a b ha hb =
    less_or_equal_be-from 0 a b ha.bytes hb.bytes (omega (arith, ha.width, hb.width))

-- A 256-bit value.
pub be_value-lt : (a : Bytes) → IsHash a → be_value a < 2 ^ 256
be_value-lt a h =
    let bound = be_from_upper 0 a h.bytes in
    let widths : 256 ^ length a ≡ 2 ^ 256 = ap (λ (n : ℕ). 256 ^ n) h.width in
    omega (arith, bound, widths)
