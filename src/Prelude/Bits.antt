-- ===== src/Prelude/Bits.antt =====
-- `|` on machine words, and the bytes of a word, least significant first.
use Prim.Native.Nat.{max, digits, bit_or, bit_or-bitwise}
use mathlib.Core.Path.{◌≡◌, refl, ap}
use native.Mathlib.Nat.{pow-suc}
use native.Mathlib.Omega.{arith}
use Prim.Native.Nat.{ℕ, zero, suc, ◌+◌, ◌*◌, ◌/◌, ◌%◌, ◌^◌, ◌≤◌, ◌<◌}

abbrev join_bits : ℕ → ℕ → ℕ → ℕ
join_bits fuel low high = digits (λ rest. rest) max fuel low high

-- Any fuel that covers the left operand gives the same digits.
join_bits_enough :
    (low high f g : ℕ) → low ≤ f → low ≤ g → join_bits f low high ≡ join_bits g low high
join_bits_enough zero high zero zero hf hg = refl
join_bits_enough zero high zero (suc g) hf hg = refl
join_bits_enough zero high (suc f) zero hf hg = refl
join_bits_enough zero high (suc f) (suc g) hf hg = refl
join_bits_enough (suc low) high zero g hf hg = absurd (omega arith)
join_bits_enough (suc low) high (suc f) zero hf hg = absurd (omega arith)
join_bits_enough (suc low) high (suc f) (suc g) hf hg =
    omega (arith, join_bits_enough (suc low / 2) (high / 2) f g (omega arith) (omega arith))

pub zero-bit_or : (b : ℕ) → bit_or 0 b ≡ b
zero-bit_or b = bit_or-bitwise 0 b

bit_or_step : (a b : ℕ) → bit_or a b ≡ bit_or (a / 2) (b / 2) * 2 + max (a % 2) (b % 2)
bit_or_step zero b = omega (arith, zero-bit_or b, zero-bit_or (b / 2))
bit_or_step (suc a) b = omega (
  arith,
  bit_or-bitwise (suc a) b,
  bit_or-bitwise (suc a / 2) (b / 2),
  join_bits_enough (suc a / 2) (b / 2) a (suc a / 2) (omega arith) (omega arith),
)

pub double : (k q : ℕ) → q * 2 ^ suc k ≡ 2 * (q * 2 ^ k)
double k q = omega (arith, ap (◌*◌ q) (pow-suc 2 k))

-- Setting the bits from `k` on in a number that has none of them.
pub or_high : (k low high : ℕ) → low < 2 ^ k → bit_or low (high * 2 ^ k) ≡ low + high * 2 ^ k
or_high zero zero high fits = omega (arith, zero-bit_or (high * 1))
or_high zero (suc low) high fits = absurd (omega arith)
or_high (suc k) low high fits = ground (
  arith,
  bit_or_step low (high * 2 ^ suc k),
  double k high,
  or_high k (low / 2) high (omega (arith, pow-suc 2 k)),
)
