-- ===== src/Prelude/Text.antt =====
-- Go's `string` as its bytes, and the operations of the package `strings` that the program calls.
use Prim.Native.Char.{code}
use Prim.Native.String.{String}
use Prim.Native.Nat.{ℕ, ◌+◌, ◌-◌, compare, Ordering}
use mathlib.Core.Path.{◌≡◌, refl}
use mathlib.Core.Logic.{◌↔◌}
use mathlib.Core.Bool.{Bool, true, false, ◌&&◌}
use mathlib.Core.List.{List, [], ◌∷◌, ◌++◌, reverse}
use native.Mathlib.Omega.{arith}
use cc_deb_pkg.Prelude.Tests.{◌==◌, leb, if◌then◌else◌}
use cc_deb_pkg.Prelude.Lists.{length, take, drop}

abbrev pub GoString : Type 0
GoString = List ℕ

-- The bytes of an ASCII literal.
abbrev pub bytes : String → GoString
bytes String.[] = []
bytes (String.◌∷◌ c s) = code c ∷ bytes s

-- Go's `==` on strings.
unfoldable pub str_eq : GoString → GoString → Bool
str_eq [] [] = true
str_eq (x ∷ xs) (y ∷ ys) = (x == y) && str_eq xs ys
str_eq _ _ = false

pub str_eq_sound : (s t : GoString) → str_eq s t ≡ true → s ≡ t
unfolding str_eq
str_eq_sound [] [] h = refl
str_eq_sound [] (y ∷ ys) h = ground arith
str_eq_sound (x ∷ xs) [] h = ground arith
str_eq_sound (x ∷ xs) (y ∷ ys) h = ground (arith, str_eq_sound xs ys)

pub str_eq_refl : (s : GoString) → str_eq s s ≡ true
unfolding str_eq
str_eq_refl [] = refl
str_eq_refl (x ∷ xs) = ground (arith, str_eq_refl xs)

pub str_eq_of_eq : (s t : GoString) → s ≡ t → str_eq s t ≡ true
str_eq_of_eq s t e = ground (arith, str_eq_refl s)

pub str_eq_iff : (s t : GoString) → (str_eq s t ≡ true) ↔ (s ≡ t)
str_eq_iff s t = (str_eq_sound s t, str_eq_of_eq s t)

-- `strings.HasPrefix`
unfoldable pub starts_with : GoString → GoString → Bool
starts_with s [] = true
starts_with [] (y ∷ ys) = false
starts_with (x ∷ xs) (y ∷ ys) = (x == y) && starts_with xs ys

-- `strings.HasSuffix`
unfoldable pub ends_with : GoString → GoString → Bool
unfolding starts_with
ends_with s t = starts_with (reverse s) (reverse t)

-- `strings.Join`
unfoldable pub join : GoString → List GoString → GoString
join sep [] = []
join sep (s ∷ []) = s
join sep (s ∷ t ∷ ss) = s ++ sep ++ join sep (t ∷ ss)

-- A letter in lower case; `map lower` is `strings.ToLower` on ASCII.
unfoldable pub lower : ℕ → ℕ
lower c = if leb b'A' c && leb c b'Z' then c + 32 else c

-- `strings.Replace(s, b, "", -1)` of one byte.
unfoldable pub remove_byte : ℕ → GoString → GoString
remove_byte b [] = []
remove_byte b (c ∷ s) = let rest = remove_byte b s in if c == b then rest else c ∷ rest

-- `strings.Replace(s, b, new, -1)` of one byte by one byte.
unfoldable pub replace_byte : ℕ → ℕ → GoString → GoString
replace_byte b new [] = []
replace_byte b new (c ∷ s) = (if c == b then new else c) ∷ replace_byte b new s

-- `strings.TrimPrefix` and `strings.TrimSuffix`.
unfoldable pub trim_prefix : GoString → GoString → GoString
unfolding starts_with
trim_prefix s t = if starts_with s t then drop (length t) s else s

unfoldable pub trim_suffix : GoString → GoString → GoString
unfolding ends_with
trim_suffix s t = if ends_with s t then take (length s - length t) s else s

-- A byte in front of the first part.
abbrev pub push_byte : ℕ → List GoString → List GoString
push_byte c [] = (c ∷ []) ∷ []
push_byte c (p ∷ ps) = (c ∷ p) ∷ ps

-- `strings.Split` by one byte.
unfoldable pub split_byte : ℕ → GoString → List GoString
split_byte b [] = [] ∷ []
split_byte b (c ∷ s) = let rest = split_byte b s in if c == b then [] ∷ rest else push_byte c rest

-- Go's `<` on strings: by bytes.
unfoldable pub str_lt : GoString → GoString → Bool
str_lt s [] = false
str_lt [] (y ∷ t) = true
str_lt (x ∷ s) (y ∷ t) = elim (compare x y) [
  | Ordering.lt ↦ true
  | Ordering.eq ↦ str_lt s t
  | Ordering.gt ↦ false
]
