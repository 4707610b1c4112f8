-- ===== src/Prelude/Strconv.antt =====
-- The parts of Go's `strconv` that the program calls: a number printed to a base, and a decimal
-- number read within a width. An error of a parse is `none`.
pub mod Padded
use Prim.Native.Nat.{ℕ, zero, suc, ◌+◌, ◌-◌, ◌*◌, ◌/◌, ◌%◌, ◌^◌, ◌≤◌, ◌<◌}
use mathlib.Core.Path.{◌≡◌, refl, sym, ap, ◌∙◌}
use mathlib.Core.Bool.{◌&&◌}
use mathlib.Core.List.{List, [], ◌∷◌, ◌++◌, map}
use mathlib.Core.Option.{Option, none, some}
use native.Mathlib.Nat.{div-add-mod}
use native.Mathlib.Omega.{arith}
use cc_deb_pkg.Prelude.Tests.{ltb, leb, ◌==◌, if◌then◌else◌, Bool-cases}
use mathlib.Core.Logic.{inl, inr}
use cc_deb_pkg.Prelude.Lists.{All, All-append, length, replicate}
use cc_deb_pkg.Prelude.Text.{GoString}
use cc_deb_pkg.Prelude.Int.{ℤ, pos, negsuc}

-- The digits of a number, the first one first. One step of fuel for each digit.
digits : ℕ → ℕ → ℕ → List ℕ
digits base zero n = n % base ∷ []
digits base (suc fuel) n =
    let rest = digits base fuel (n / base) in if ltb n base then n ∷ [] else rest ++ n % base ∷ []

unfoldable pub digit_char : ℕ → ℕ
digit_char d = if ltb d 10 then b'0' + d else b'a' + (d - 10)

-- `strconv.FormatUint(n, base)`
unfoldable pub format_uint : ℕ → ℕ → GoString
unfolding digits digit_char
format_uint base n = map digit_char (digits base n n)

digits_value : ℕ → ℕ → List ℕ → ℕ
digits_value base acc [] = acc
digits_value base acc (d ∷ ds) = digits_value base (acc * base + d) ds

digits_value-snoc :
    (base acc : ℕ) (ds : List ℕ) (d : ℕ)
    → digits_value base acc (ds ++ d ∷ []) ≡ digits_value base acc ds * base + d
unfolding digits_value
digits_value-snoc base acc [] d = refl
digits_value-snoc base acc (e ∷ ds) d = digits_value-snoc base (acc * base + e) ds d

div_fuel : (base fuel n : ℕ) → 2 ≤ base → n ≤ suc fuel → n / base ≤ fuel
div_fuel base fuel n b h = grind (arith, div-add-mod)

digits_value-digits :
    (base fuel n : ℕ) → 2 ≤ base → n ≤ fuel → digits_value base 0 (digits base fuel n) ≡ n
unfolding digits digits_value
digits_value-digits base zero n b h = grind arith
digits_value-digits base (suc fuel) n b h = elim (Bool-cases (ltb n base)) [
  | inl small ↦ rw small (omega arith)
  | inr large ↦
      rw
        (
          large,
          digits_value-snoc,
          digits_value-digits base fuel (n / base) b (div_fuel base fuel n b h),
        )
        (omega (arith, div-add-mod n base))
]

digits-lt : (base fuel n : ℕ) → 2 ≤ base → All (λ d. d < base) (digits base fuel n)
unfolding digits
digits-lt base zero n b = (grind arith, tt)
digits-lt base (suc fuel) n b = elim (Bool-cases (ltb n base)) [
  | inl small ↦ rw small (ground arith, tt)
  | inr large ↦ rw large (
      All-append (λ d. d < base) (digits base fuel (n / base)) (n % base ∷ [])
        (digits-lt base fuel (n / base) b) (grind arith, tt))
]

-- The digit that a character stands for, as `FormatUint` writes it.
char_digit : ℕ → ℕ
char_digit c = if ltb c b'a' then c - b'0' else c - b'a' + 10

char_digit-digit_char : (d : ℕ) → char_digit (digit_char d) ≡ d
unfolding char_digit digit_char
char_digit-digit_char d = ground arith

map-char_digit : (ds : List ℕ) → map char_digit (map digit_char ds) ≡ ds
map-char_digit [] = refl
map-char_digit (d ∷ ds) = cc (char_digit-digit_char d, map-char_digit ds)

-- Two numbers printed alike are the same number.
pub format_uint-injective :
    (base m n : ℕ) → 2 ≤ base → format_uint base m ≡ format_uint base n → m ≡ n
unfolding format_uint
format_uint-injective base m n b e =
    sym (digits_value-digits base m m b (omega arith))
    ∙ ap (digits_value base 0) (
        sym (map-char_digit (digits base m m))
        ∙ ap (map char_digit) e
        ∙ map-char_digit (digits base n n))
    ∙ digits_value-digits base n n b (omega arith)

-- The value of a text of decimal digits behind those read so far.
decimal_loop : ℕ → GoString → Option ℕ
decimal_loop acc [] = some acc
decimal_loop acc (c ∷ cs) =
    let rest = decimal_loop (acc * 10 + (c - b'0')) cs in
    if leb b'0' c && leb c b'9' then rest else none

decimal_value : GoString → Option ℕ
unfolding decimal_loop
decimal_value [] = none
decimal_value (c ∷ cs) = decimal_loop 0 (c ∷ cs)

-- `strconv.ParseUint(s, 10, bits)`
unfoldable pub parse_uint : ℕ → GoString → Option ℕ
unfolding decimal_value
parse_uint bits s = elim (decimal_value s) [
  | some n ↦ if ltb n (2 ^ bits) then some n else none
  | none ↦ none
]

-- `%0wd`: a number behind zeros, in a width at least.
unfoldable pub pad_uint : ℕ → ℕ → GoString
unfolding format_uint
pad_uint width n = let s = format_uint 10 n in replicate (width - length s) b'0' ++ s

-- The magnitude that `ParseInt` allows behind a minus sign, and behind none.
parse_negative : ℕ → GoString → Option ℤ
unfolding decimal_value
parse_negative bits s = elim (decimal_value s) [
  | some n ↦
      if leb n (2 ^ (bits - 1)) then some (if n == 0 then pos 0 else negsuc (n - 1)) else none
  | none ↦ none
]

parse_positive : ℕ → GoString → Option ℤ
unfolding decimal_value
parse_positive bits s = elim (decimal_value s) [
  | some n ↦ if ltb n (2 ^ (bits - 1)) then some (pos n) else none
  | none ↦ none
]

-- `strconv.ParseInt(s, 10, bits)`
unfoldable pub parse_int : ℕ → GoString → Option ℤ
unfolding parse_negative parse_positive
parse_int bits [] = none
parse_int bits (c ∷ s) =
    if c == b'-'
    then parse_negative bits s
    else if c == b'+'
    then parse_positive bits s
    else parse_positive bits (c ∷ s)

-- `strconv.FormatInt(z, 10)`
unfoldable pub format_int : ℤ → GoString
unfolding format_uint
format_int (pos n) = format_uint 10 n
format_int (negsuc n) = b'-' ∷ format_uint 10 (n + 1)
