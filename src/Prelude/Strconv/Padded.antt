-- ===== src/Prelude/Strconv/Padded.antt =====
-- A number printed with zeros in front is read back.
use cc_deb_pkg.Prelude.{
  ℕ, zero, suc, ◌+◌, ◌-◌, ◌*◌, ◌/◌, ◌%◌, ◌^◌, ◌≤◌, ◌<◌, ◌≡◌, refl, sym, ap, ◌∙◌, some, of_some,
  List, [], ◌∷◌, ◌++◌, map, All, All-append, Bool-cases, inl, inr, length, length-append, replicate,
  GoString, ltb, arith,
}
use cc_deb_pkg.Prelude.Strconv.{
  decimal_loop, decimal_value, digit_char, digits, digits-lt, digits_value, digits_value-digits,
  format_uint, pad_uint, parse_uint,
}

decimal_loop-digits :
    (acc : ℕ) (ds : List ℕ)
    → All (λ d. d < 10) ds
    → decimal_loop acc (map digit_char ds) ≡ some (digits_value 10 acc ds)
unfolding decimal_loop digit_char digits_value
decimal_loop-digits acc [] h = refl
decimal_loop-digits acc (d ∷ ds) (small, h) =
    ground (arith, small, decimal_loop-digits (acc * 10 + d) ds h)

decimal_loop-zeros :
    (k : ℕ) (s : GoString) → decimal_loop 0 (replicate k b'0' ++ s) ≡ decimal_loop 0 s
unfolding decimal_loop
decimal_loop-zeros zero s = refl
decimal_loop-zeros (suc k) s = ground (arith, decimal_loop-zeros k s)

decimal_loop-pad_uint : (width n : ℕ) → decimal_loop 0 (pad_uint width n) ≡ some n
unfolding pad_uint format_uint
decimal_loop-pad_uint width n =
    decimal_loop-zeros _ (map digit_char (digits 10 n n))
    ∙ decimal_loop-digits 0 (digits 10 n n) (digits-lt 10 n n (omega arith))
    ∙ ap some (digits_value-digits 10 n n (omega arith) (omega arith))

pub pad_uint-injective : (width m n : ℕ) → pad_uint width m ≡ pad_uint width n → m ≡ n
pad_uint-injective width m n e =
    of_some
      (sym (decimal_loop-pad_uint width m) ∙ ap (decimal_loop 0) e ∙ decimal_loop-pad_uint width n)

length-digits : (base fuel n : ℕ) → 1 ≤ length (digits base fuel n)
unfolding digits
length-digits base zero n = omega arith
length-digits base (suc fuel) n = elim (Bool-cases (ltb n base)) [
  | inl small ↦ rw small (omega arith)
  | inr large ↦
      rw (large, length-append (digits base fuel (n / base)) (n % base ∷ [])) (omega arith)
]

length-map : (ds : List ℕ) → length (map digit_char ds) ≡ length ds
length-map [] = refl
length-map (d ∷ ds) = ap suc (length-map ds)

pub length-pad_uint : (width n : ℕ) → 1 ≤ length (pad_uint width n)
unfolding pad_uint format_uint
length-pad_uint width n = omega (
  arith,
  length-append (replicate (width - length (map digit_char (digits 10 n n))) b'0')
      (map digit_char (digits 10 n n)),
  length-map (digits 10 n n),
  length-digits 10 n n,
)

decimal_value-loop : (s : GoString) → 1 ≤ length s → decimal_value s ≡ decimal_loop 0 s
unfolding decimal_value
decimal_value-loop [] h = absurd (omega arith)
decimal_value-loop (c ∷ s) h = refl

map-AllDigits :
    (ds : List ℕ) → All (λ d. d < 10) ds → All (λ c. (b'0' ≤ c) × (c ≤ b'9')) (map digit_char ds)
unfolding digit_char
map-AllDigits [] a = tt
map-AllDigits (d ∷ ds) (h, a) = ((ground arith, ground arith), map-AllDigits ds a)

replicate-AllDigits : (k : ℕ) → All (λ c. (b'0' ≤ c) × (c ≤ b'9')) (replicate k b'0')
replicate-AllDigits zero = tt
replicate-AllDigits (suc k) = ((omega arith, omega arith), replicate-AllDigits k)

-- A padded number is made of decimal digits.
pub pad_uint-All : (width n : ℕ) → All (λ c. (b'0' ≤ c) × (c ≤ b'9')) (pad_uint width n)
unfolding pad_uint format_uint
pad_uint-All width n =
    All-append (λ c. (b'0' ≤ c) × (c ≤ b'9')) (replicate _ b'0') (map digit_char (digits 10 n n))
      (replicate-AllDigits _) (map-AllDigits (digits 10 n n) (digits-lt 10 n n (omega arith)))

pub parse_uint-pad_uint :
    (bits width n : ℕ) → n < 2 ^ bits → parse_uint bits (pad_uint width n) ≡ some n
unfolding parse_uint
parse_uint-pad_uint bits width n small =
    rw
      (
        decimal_value-loop (pad_uint width n) (length-pad_uint width n)
            ∙ decimal_loop-pad_uint width n,
        parse_uint,
      )
      (ground (arith, small))
