-- ===== src/Prelude/Hex.antt =====
-- encoding/hex, over texts as lists of character codes, and Go's order on strings.
use Prim.Native.Nat.{ℕ, ◌+◌, ◌-◌, ◌*◌, ◌/◌, ◌%◌, ◌<◌}
use mathlib.Core.Path.{◌≡◌, refl, ap}
use mathlib.Core.Bool.{Bool, true, false, ◌&&◌}
use mathlib.Core.Option.{Option, none, some}
use mathlib.Core.List.{List, [], ◌∷◌}
use native.Mathlib.Omega.{arith}
use colossusx.Prelude.Tests.{ltb, leb, if◌then◌else◌}
use colossusx.Prelude.Slices.{Bytes}
use colossusx.Prelude.Endian.{AllBytes}

-- `"0123456789abcdef"[d]`
unfoldable pub hex_digit : ℕ → ℕ
hex_digit d = if ltb d 10 then b'0' + d else b'a' + (d - 10)

-- `hex.EncodeToString`
unfoldable pub hex_encode : Bytes → List ℕ
unfolding hex_digit
hex_encode [] = []
hex_encode (b ∷ bs) = hex_digit (b / 16) ∷ hex_digit (b % 16) ∷ hex_encode bs

-- Both cases of a letter are read.
unfoldable pub hex_value : ℕ → Option ℕ
hex_value c =
    if leb b'0' c && leb c b'9'
    then some (c - b'0')
    else if leb b'a' c && leb c b'f'
    then some (c - b'a' + 10)
    else if leb b'A' c && leb c b'F'
    then some (c - b'A' + 10)
    else none

abbrev pub ◌>>=?◌ : {A B : Type 0} → Option A → (A → Option B) → Option B
◌>>=?◌ none f = none
◌>>=?◌ (some a) f = f a

-- `hex.DecodeString`: an odd length or another character is an error.
unfoldable pub hex_decode : List ℕ → Option Bytes
unfolding hex_value
hex_decode [] = some []
hex_decode (x ∷ []) = none
hex_decode (x ∷ y ∷ cs) =
    let rest = hex_decode cs in
    ◌>>=?◌ (hex_value x)
      λ hi. ◌>>=?◌ (hex_value y) λ lo. ◌>>=?◌ rest λ bs. some ((hi * 16 + lo) ∷ bs)

hex_value-digit : (d : ℕ) → d < 16 → hex_value (hex_digit d) ≡ some d
unfolding hex_value hex_digit
hex_value-digit d h = ground arith

pub hex_decode-encode : (bs : Bytes) → AllBytes bs → hex_decode (hex_encode bs) ≡ some bs
unfolding hex_decode hex_encode
hex_decode-encode [] h = refl
hex_decode-encode (b ∷ bs) h =
    rw
      (
        hex_value-digit (b / 16) (omega arith),
        hex_value-digit (b % 16) (omega arith),
        hex_decode-encode bs h.1,
      )
      (ap (λ (x : ℕ). some (x ∷ bs)) (omega arith))

-- `s < t` on Go strings, byte by byte; a proper prefix comes first.
unfoldable pub str_lt : List ℕ → List ℕ → Bool
str_lt [] [] = false
str_lt [] (y ∷ t) = true
str_lt (x ∷ s) [] = false
str_lt (x ∷ s) (y ∷ t) =
    let rest = str_lt s t in if ltb x y then true else if ltb y x then false else rest

hex_digit-inj : (d e : ℕ) → d < 16 → e < 16 → hex_digit d ≡ hex_digit e → d ≡ e
unfolding hex_digit
hex_digit-inj d e hd he h = ground arith

hex_digit_mono : (d e : ℕ) → d < e → e < 16 → hex_digit d < hex_digit e
unfolding hex_digit
hex_digit_mono d e h he = ground arith

str_lt-head_lt : (x y : ℕ) (s t : List ℕ) → x < y → str_lt (x ∷ s) (y ∷ t) ≡ true
unfolding str_lt
str_lt-head_lt x y s t h = ground arith

str_lt-head_gt : (x y : ℕ) (s t : List ℕ) → y < x → str_lt (x ∷ s) (y ∷ t) ≡ false
unfolding str_lt
str_lt-head_gt x y s t h = ground arith

str_lt-head_eq : (x : ℕ) (s t : List ℕ) → str_lt (x ∷ s) (x ∷ t) ≡ str_lt s t
unfolding str_lt
str_lt-head_eq x s t = ground arith

-- A string is not below itself, and of two different strings exactly one is below the other.
pub str_lt_irrefl : (s : List ℕ) → str_lt s s ≡ false
unfolding str_lt
str_lt_irrefl [] = refl
str_lt_irrefl (x ∷ s) = ground (arith, str_lt_irrefl s)

pub str_lt-asymm : (s t : List ℕ) → str_lt s t ≡ true → str_lt t s ≡ false
unfolding str_lt
str_lt-asymm [] [] h = refl
str_lt-asymm [] (y ∷ t) h = refl
str_lt-asymm (x ∷ s) [] h = cc
str_lt-asymm (x ∷ s) (y ∷ t) h = ground (arith, str_lt-asymm s t)

pub str_lt-total : (s t : List ℕ) → str_lt s t ≡ false → str_lt t s ≡ false → s ≡ t
unfolding str_lt
str_lt-total [] [] h k = refl
str_lt-total [] (y ∷ t) h k = cc
str_lt-total (x ∷ s) [] h k = cc
str_lt-total (x ∷ s) (y ∷ t) h k = ground (arith, str_lt-total s t)

pub str_lt_trans : (s t u : List ℕ) → str_lt s t ≡ true → str_lt t u ≡ true → str_lt s u ≡ true
unfolding str_lt
str_lt_trans [] [] u h k = cc
str_lt_trans [] (y ∷ t) [] h k = cc
str_lt_trans [] (y ∷ t) (z ∷ u) h k = refl
str_lt_trans (x ∷ s) [] u h k = cc
str_lt_trans (x ∷ s) (y ∷ t) [] h k = cc
str_lt_trans (x ∷ s) (y ∷ t) (z ∷ u) h k = ground (arith, str_lt_trans s t u)

pub hex_encode-inj : (a b : Bytes) → AllBytes a → AllBytes b → hex_encode a ≡ hex_encode b → a ≡ b
hex_encode-inj a b ha hb e = cc (hex_decode-encode a ha, hex_decode-encode b hb, ap hex_decode e)
