-- ===== src/Prelude/Decimal.antt =====
-- Decimal text of a number: strconv.FormatUint, strconv.ParseUint with 64 bits, and the reading of
-- a `*big.Int` by `SetString`.
use Prim.Native.Nat.{ℕ, zero, suc, ◌+◌, ◌-◌, ◌*◌, ◌/◌, ◌%◌, ◌^◌, ◌<◌}
use mathlib.Core.Path.{◌≡◌, refl, ap, ◌∙◌}
use mathlib.Core.Bool.{true, false, ◌&&◌}
use mathlib.Core.Option.{Option, none, some}
use mathlib.Core.List.{[], ◌∷◌}
use native.Mathlib.Omega.{arith}
use colossusx.Prelude.Tests.{ltb, leb, if◌then◌else◌, Bool-cases, either}
use colossusx.Prelude.Slices.{Bytes}

-- The digits of a number before a text, the last digit first. A number has at most as many digits
-- as it counts and one, so that the fuel of `format_uint` is enough.
format_before : ℕ → ℕ → Bytes → Bytes
format_before zero n text = text
format_before (suc fuel) n text = elim (ltb n 10) [
  | true ↦ (b'0' + n) ∷ text
  | false ↦ format_before fuel (n / 10) ((b'0' + n % 10) ∷ text)
]

-- `strconv.FormatUint(n, 10)`, and `String` of a `*big.Int`
unfoldable pub format_uint : ℕ → Bytes
unfolding format_before
format_uint n = format_before (n + 1) n []

-- The number of a text of digits, after the digits that were read.
unfoldable pub parse_from : ℕ → Bytes → Option ℕ
parse_from n [] = some n
parse_from n (c ∷ cs) =
    let rest = parse_from (n * 10 + (c - b'0')) cs in
    if leb b'0' c && leb c b'9' then rest else none

-- a text of at least one digit
unfoldable pub parse_digits : Bytes → Option ℕ
unfolding parse_from
parse_digits [] = none
parse_digits (c ∷ cs) = parse_from 0 (c ∷ cs)

abbrev below_64 : Option ℕ → Option ℕ
below_64 none = none
below_64 (some n) = if ltb n (2 ^ 64) then some n else none

-- `strconv.ParseUint(s, 10, 64)`
unfoldable pub parse_uint : Bytes → Option ℕ
unfolding parse_digits
parse_uint s = below_64 (parse_digits s)

parse_from-digit :
    (a d : ℕ) (text : Bytes)
    → d < 10
    → parse_from a ((b'0' + d) ∷ text) ≡ parse_from (a * 10 + d) text
unfolding parse_from
parse_from-digit a d text h = let digit : b'0' + d - b'0' ≡ d = omega arith in ground (arith, digit)

-- Fewer digits than the fuel: the last digit is written, or one of more.
parse_from-format :
    (fuel n : ℕ) (text : Bytes)
    → n < fuel
    → parse_from 0 (format_before fuel n text) ≡ parse_from n text
unfolding format_before
parse_from-format zero n text h = absurd (omega arith)
parse_from-format (suc fuel) n text h =
    either (Bool-cases (ltb n 10))
      (λ last.
        rw (last, format_before)
          (parse_from-digit 0 n text (ground arith) ∙ ap (λ m. parse_from m text) (omega arith)))
      (λ more.
        let split : n / 10 * 10 + n % 10 ≡ n = omega arith in
        rw (more, format_before)
          (parse_from-format fuel (n / 10) ((b'0' + n % 10) ∷ text) (ground arith)
            ∙ parse_from-digit (n / 10) (n % 10) text (omega arith)
            ∙ ap (λ m. parse_from m text) split))

-- There is a first digit.
parse_digits-format :
    (fuel n : ℕ) (text : Bytes)
    → n < fuel
    → parse_digits (format_before fuel n text) ≡ parse_from 0 (format_before fuel n text)
unfolding parse_digits format_before parse_from
parse_digits-format zero n text h = absurd (omega arith)
parse_digits-format (suc fuel) n text h =
    either (Bool-cases (ltb n 10)) (λ last. rw (last, format_before) refl)
      (λ more.
        rw (more, format_before)
          (parse_digits-format fuel (n / 10) ((b'0' + n % 10) ∷ text) (ground arith)))

pub parse_digits-format_uint : (n : ℕ) → parse_digits (format_uint n) ≡ some n
unfolding format_uint parse_from
parse_digits-format_uint n =
    parse_digits-format (n + 1) n [] (omega arith) ∙ parse_from-format (n + 1) n [] (omega arith)

pub parse_uint-format_uint : (n : ℕ) → n < 2 ^ 64 → parse_uint (format_uint n) ≡ some n
unfolding parse_uint
parse_uint-format_uint n h = rw (parse_digits-format_uint n) (ground arith)
