-- ===== src/Ticket/Points.antt =====
-- `micronsToPoints` of `cups/translate-ticket.go`, with the rounding of each `float32` operation.
use native.Mathlib.Nat.{mul_assoc, pow-suc}
use cc_deb_pkg.Prelude.{
  ℕ, zero, suc, ◌+◌, ◌-◌, ◌*◌, ◌/◌, ◌%◌, ◌^◌, ◌≤◌, ◌<◌, arith, ◌≡◌, refl, ltb, leb, if◌then◌else◌,
  GoString, ℤ, pos, negsuc,
}
use cc_deb_pkg.Prelude.Bits.{double}
use cc_deb_pkg.Prelude.Strconv.{format_int}

-- A number that is not negative, as a fraction.
pub record Ratio : Type 0 where
  pub num : ℕ
  pub den : ℕ

-- The nearest whole number, and of two that are as near the even one.
abbrev nearest : ℕ → ℕ → ℕ
nearest a b =
    let q = a / b in
    let r = a % b in if ltb (2 * r) b then q else if ltb b (2 * r) then q + 1 else q + q % 2

-- 24 significant bits of a / b, where it is 2 ^ 23 at least.
unfoldable pub round_large : ℕ → ℕ → ℕ → Ratio
round_large zero a b = record { num = nearest a b; den = 1 }
round_large (suc n) a b =
    let r = round_large n a (2 * b) in
    if leb (b * 2 ^ 24) a
    then record { num = 2 * r.num; den = r.den }
    else record { num = nearest a b; den = 1 }

unfoldable pub round_small : ℕ → ℕ → ℕ → Ratio
round_small zero a b = round_large 64 a b
round_small (suc n) a b =
    let r = round_small n (2 * a) b in
    if ltb a (b * 2 ^ 23) then record { num = r.num; den = 2 * r.den } else round_large 64 a b

-- The `float32` nearest to a / b.
unfoldable pub float32 : ℕ → ℕ → Ratio
unfolding round_small
float32 a b = round_small 64 a b

-- `float32(m) * 72 / 25400` of a number that is not negative.
unfoldable pub scaled : ℕ → Ratio
unfolding float32
scaled m =
    let r = float32 m 1 in let s = float32 (r.num * 72) r.den in float32 s.num (s.den * 25400)

abbrev whole : Ratio → ℕ
whole r = r.num / r.den

abbrev minus : ℕ → ℤ
minus zero = pos 0
minus (suc n) = negsuc n

-- `int(x + 0.5)`, towards zero, of x and of -x.
abbrev rounded : Ratio → ℤ
rounded x = pos (whole (float32 (2 * x.num + x.den) (2 * x.den)))

abbrev rounded_minus : Ratio → ℤ
rounded_minus x =
    if leb (2 * x.num) x.den
    then pos (whole (float32 (x.den - 2 * x.num) (2 * x.den)))
    else minus (whole (float32 (2 * x.num - x.den) (2 * x.den)))

unfoldable pub points : ℤ → ℤ
unfolding scaled
points (pos m) = rounded (scaled m)
points (negsuc m) = rounded_minus (scaled (suc m))

unfoldable pub microns_to_points : ℤ → GoString
unfolding points
microns_to_points m = format_int (points m)

-- Both scalings stop by themselves: where the fuel covers the doublings, more of it changes nothing.
round_large_enough :
    (n a b : ℕ) → a < b * 2 ^ 24 * 2 ^ n → round_large (suc n) a b ≡ round_large n a b
unfolding round_large
round_large_enough zero a b enough = ground arith
round_large_enough (suc n) a b enough =
    ground (arith, round_large_enough n a (2 * b) (grind (arith, pow-suc 2 n)))

round_small_enough :
    (n a b : ℕ) → b * 2 ^ 23 ≤ a * 2 ^ n → round_small (suc n) a b ≡ round_small n a b
unfolding round_small
round_small_enough zero a b enough = ground arith
round_small_enough (suc n) a b enough =
    ground
      (arith, round_small_enough n (2 * a) b (grind (arith, double n a, mul_assoc 2 a (2 ^ n))))

letter : (points (pos 215900) ≡ pos 612) × (points (pos 279400) ≡ pos 792)
unfolding points round_large
letter = (refl, refl)

a4 : (points (pos 210000) ≡ pos 595) × (points (negsuc 25399) ≡ negsuc 70)
unfolding points round_large
a4 = (refl, refl)
