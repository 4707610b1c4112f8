-- ===== src/Privet/Xsrf/Words.antt =====
-- `int64ToBytes` and `bytesToInt64` of `privet/xsrf.go`.
use Prim.Native.Nat.{bit_or}
use cc_deb_pkg.Prelude.{
  ℕ, ◌+◌, ◌-◌, ◌*◌, ◌/◌, ◌%◌, ◌^◌, ◌<◌, arith, ◌≡◌, refl, ◌∙◌, [], ◌∷◌, length, GoString, ℤ, pos,
  negsuc, pos_part, neg_part,
}
use native.Mathlib.Nat.{mod-lt, one-le-pow}
use cc_deb_pkg.Prelude.Bits.{or_high, zero-bit_or}
use cc_deb_pkg.Privet.Xsrf.{byte_loop, bytes_to_int64, int64_to_bytes, or_loop, signed64}

-- Within the range of an `int64`.
pub record IsInt64 (v : ℤ) : Type 0 where
  pub above : pos_part v < 2 ^ 63
  pub below : neg_part v < 2 ^ 63 + 1

-- The 64 bits of an `int64`.
abbrev word : ℤ → ℕ
word (pos n) = n
word (negsuc n) = 2 ^ 64 - 1 - n

word_bound : (v : ℤ) → IsInt64 v → word v < 2 ^ 64
word_bound (pos n) fits = omega (arith, fits.above)
word_bound (negsuc n) fits = omega arith

signed64-word : (v : ℤ) → IsInt64 v → signed64 (word v) ≡ v
signed64-word (pos n) fits = ground (arith, fits.above)
signed64-word (negsuc n) fits = ground (arith, fits.below)

abbrev word_byte : ℕ → ℕ → ℕ
word_byte w k = w / 2 ^ k % 256

abbrev word_bytes : ℕ → GoString
word_bytes w =
    word_byte w 0
    ∷ word_byte w 8
    ∷ word_byte w 16
    ∷ word_byte w 24
    ∷ word_byte w 32
    ∷ word_byte w 40
    ∷ word_byte w 48
    ∷ word_byte w 56
    ∷ []

-- The shift keeps the sign, so its low byte is that of the bits.
int64_to_bytes-word : (v : ℤ) → IsInt64 v → int64_to_bytes v ≡ word_bytes (word v)
unfolding int64_to_bytes byte_loop
int64_to_bytes-word (pos n) fits = refl
int64_to_bytes-word (negsuc n) fits = ground (arith, fits.below)

-- Above `k` bits, the next byte.
or_byte : (w k : ℕ) → bit_or (w % 2 ^ k) (word_byte w k * 2 ^ k) ≡ w % 2 ^ k + word_byte w k * 2 ^ k
or_byte w k = or_high k (w % 2 ^ k) (word_byte w k) (mod-lt w (one-le-pow k 2 (omega arith)))

-- What one turn of the loop does to the bits below `k`.
turn :
    (w k : ℕ)
    → word_byte w k * 2 ^ k % 2 ^ 64 ≡ word_byte w k * 2 ^ k
    → w % 2 ^ k + word_byte w k * 2 ^ k ≡ w % 2 ^ (k + 8)
    → bit_or (w % 2 ^ k) (word_byte w k * 2 ^ k % 2 ^ 64) ≡ w % 2 ^ (k + 8)
turn w k fits below = rw fits (or_byte w k ∙ below)

or_loop-word : (w : ℕ) → w < 2 ^ 64 → or_loop 0 0 (word_bytes w) ≡ w
unfolding or_loop
or_loop-word w fits =
    rw
      (
        first_turn,
        turn w 8 (omega arith) (omega arith),
        turn w 16 (omega arith) (omega arith),
        turn w 24 (omega arith) (omega arith),
        turn w 32 (omega arith) (omega arith),
        turn w 40 (omega arith) (omega arith),
        turn w 48 (omega arith) (omega arith),
        turn w 56 (omega arith) (omega arith),
      )
      (omega arith)
  where
    first_turn : bit_or 0 (word_byte w 0 * 1 % 2 ^ 64) ≡ w % 256
    first_turn = zero-bit_or _ ∙ omega arith

pub length-int64_to_bytes : (v : ℤ) → length (int64_to_bytes v) ≡ 8
unfolding int64_to_bytes byte_loop
length-int64_to_bytes v = refl

-- Reading the eight bytes of an `int64` gives it back, also where it is negative.
pub bytes_to_int64-int64_to_bytes : (v : ℤ) → IsInt64 v → bytes_to_int64 (int64_to_bytes v) ≡ v
unfolding bytes_to_int64
bytes_to_int64-int64_to_bytes v fits =
    rw (int64_to_bytes-word v fits, or_loop-word (word v) (word_bound v fits))
      (signed64-word v fits)
