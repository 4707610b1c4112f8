-- ===== src/Privet/Xsrf.antt =====
-- The tokens against cross-site request forgery: `privet/xsrf.go`. A moment is a number of
-- nanoseconds since 1970. The SHA-1 sum and the base64 coding are parameters.
pub mod Words
pub mod Validity
use Prim.Native.Nat.{bit_or}
use cc_deb_pkg.Prelude.{
  ℕ, zero, suc, ◌+◌, ◌-◌, ◌*◌, ◌/◌, ◌%◌, ◌^◌, Bool, true, false, not, Option, none, some, List, [],
  ◌∷◌, ◌++◌, length, take, drop, GoString, str_eq, ltb, ◌==◌, if◌then◌else◌, ℤ, pos, negsuc,
  pos_part, neg_part, sub_ℕ, ltb_ℤ,
}

abbrev pub Moment : Type 0
Moment = ℤ

abbrev pub second : ℕ
second = 1_000_000_000

-- 24 hours.
abbrev pub token_timeout : ℕ
token_timeout = 86_400 * second

abbrev pub sum_size : ℕ
sum_size = 20

-- `t.Unix()`: the whole seconds, rounded down.
abbrev pub unix : Moment → ℤ
unix (pos n) = pos (n / second)
unix (negsuc n) = negsuc (n / second)

-- `time.Unix(s, 0)`.
abbrev pub from_unix : ℤ → Moment
from_unix (pos n) = pos (n * second)
from_unix (negsuc n) = negsuc (n * second + (second - 1))

-- A duration is an `int64`: `Sub` stays within it.
abbrev saturate : ℤ → ℤ
saturate (pos n) = if ltb n (2 ^ 63) then pos n else pos (2 ^ 63 - 1)
saturate (negsuc n) = if ltb n (2 ^ 63) then negsuc n else negsuc (2 ^ 63 - 1)

-- `t.Sub(u)`.
unfoldable pub sub : Moment → Moment → ℤ
sub t u = saturate (sub_ℕ (pos_part t + neg_part u) (pos_part u + neg_part t))

-- `v >> k` keeps the sign.
abbrev pub shift_right : ℤ → ℕ → ℤ
shift_right (pos n) k = pos (n / 2 ^ k)
shift_right (negsuc n) k = negsuc (n / 2 ^ k)

-- `byte(v)`.
abbrev pub low_byte : ℤ → ℕ
low_byte (pos n) = n % 256
low_byte (negsuc n) = 255 - n % 256

-- The bytes from index `i` on.
unfoldable pub byte_loop : ℤ → ℕ → ℕ → GoString
byte_loop v i zero = []
byte_loop v i (suc n) = low_byte (shift_right v (8 * i)) ∷ byte_loop v (suc i) n

unfoldable pub int64_to_bytes : ℤ → GoString
unfolding byte_loop
int64_to_bytes v = byte_loop v 0 8

-- The 64 bits of an `int64`, read as one.
abbrev pub signed64 : ℕ → ℤ
signed64 w = if ltb w (2 ^ 63) then pos w else negsuc (2 ^ 64 - 1 - w)

-- `v |= int64(b[i]) << uint(8*i)` from index `i` on, on the bits of `v`.
unfoldable pub or_loop : ℕ → ℕ → GoString → ℕ
or_loop v i [] = v
or_loop v i (b ∷ bs) = or_loop (bit_or v (b * 2 ^ (8 * i) % 2 ^ 64)) (suc i) bs

unfoldable pub bytes_to_int64 : GoString → ℤ
unfolding or_loop
bytes_to_int64 b = if length b == 8 then signed64 (or_loop 0 0 b) else pos 0

module _ (sha1 : GoString → GoString) (encode : GoString → GoString)
    (decode : GoString → Option GoString) where
  unfoldable pub new_token : GoString → Moment → GoString
  new_token x t = let tb = int64_to_bytes (unix t) in encode (sha1 (x ++ tb) ++ tb)

  unfoldable pub is_payload_valid : GoString → GoString → Moment → Bool
  is_payload_valid x token_bytes now =
      let tb = drop sum_size token_bytes in
      let t = from_unix (bytes_to_int64 tb) in
      if not (length token_bytes == sum_size + 8)
      then false
      else if ltb_ℤ (pos token_timeout) (sub now t)
      then false
      else if ltb_ℤ (pos 0) (sub t now)
      then false
      else if not (str_eq (sha1 (x ++ tb)) (take sum_size token_bytes))
      then false
      else true

  unfoldable pub is_token_valid : GoString → GoString → Moment → Bool
  is_token_valid x token now = elim (decode token) [
    | some token_bytes ↦ is_payload_valid x token_bytes now
    | none ↦ false
  ]
