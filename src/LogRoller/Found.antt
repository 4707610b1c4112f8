-- ===== src/LogRoller/Found.antt =====
-- The numbers that `roll` of `log/logroller.go` finds in a directory and sorts.
use mathlib.Core.List.{Permᴰ}
use cc_deb_pkg.Prelude.{
  ℕ, zero, suc, ◌+◌, ◌^◌, ◌≤◌, ◌<◌, ◌≡◌, refl, sym, ap, ◌∙◌, true, false, Bool-cases, inl, inr, not,
  some, List, [], ◌∷◌, ◌++◌, All, map, keep_if, length, drop, GoString, starts_with, ltb,
  if◌then◌else◌, arith,
}
use cc_deb_pkg.Prelude.Reordered.{All-Permᴰ}
use cc_deb_pkg.Prelude.Strconv.{pad_uint}
use cc_deb_pkg.Prelude.Strconv.Padded.{length-pad_uint, pad_uint-All, parse_uint-pad_uint}
use cc_deb_pkg.LogRoller.{
  Directory, LogRoller, add_number, all_digits, has_slash, insert_number, new_path, numbers_of,
  roll_number, roll_suffixes, rolled_numbers, sort_numbers,
}
use cc_deb_pkg.LogRoller.Paths.{number_value-pad_uint}

-- The numbers from `i` on.
abbrev pub range : ℕ → ℕ → List ℕ
range i zero = []
range i (suc n) = i ∷ range (suc i) n

-- The paths that begin with the name of the log file and a dot.
abbrev pub rolled_paths : LogRoller → Directory → List GoString
rolled_paths lr d =
    keep_if (λ path. starts_with path (lr.file_name ++ b'.' ∷ [])) (map (λ entry. entry.0) d)

abbrev Small : ℕ → Type 0
Small n = n < 2 ^ 16

-- The sorting of numbers.
unfoldable insert_in : ℕ → List ℕ → List ℕ
insert_in i [] = i ∷ []
insert_in i (j ∷ js) = let rest = insert_in i js in if ltb j i then j ∷ rest else i ∷ j ∷ js

unfoldable sort : List ℕ → List ℕ
unfolding insert_in
sort [] = []
sort (i ∷ is) = insert_in i (sort is)

insert_in-swap :
    (a b : ℕ) (is : List ℕ) → insert_in a (insert_in b is) ≡ insert_in b (insert_in a is)
unfolding insert_in
insert_in-swap a b [] = ground arith
insert_in-swap a b (i ∷ is) = ground (arith, insert_in-swap a b is)

sort-Permᴰ : {is js : List ℕ} → Permᴰ is js → sort is ≡ sort js
unfolding sort
sort-Permᴰ Permᴰ.nil = refl
sort-Permᴰ (Permᴰ.cons e p) = ground (arith, sort-Permᴰ p)
sort-Permᴰ (Permᴰ.swap e f) = grind (arith, insert_in-swap)
sort-Permᴰ (Permᴰ.trans p q) = sort-Permᴰ p ∙ sort-Permᴰ q

insert_in-range : (i n : ℕ) → insert_in i (range (suc i) n) ≡ i ∷ range (suc i) n
unfolding insert_in
insert_in-range i zero = refl
insert_in-range i (suc n) = ground arith

sort-range : (i n : ℕ) → sort (range i n) ≡ range i n
unfolding sort
sort-range i zero = refl
sort-range i (suc n) = ap (insert_in i) (sort-range (suc i) n) ∙ insert_in-range i n

insert_in-All : (i : ℕ) (is : List ℕ) → Small i → All Small is → All Small (insert_in i is)
unfolding insert_in
insert_in-All i [] h a = (h, tt)
insert_in-All i (j ∷ js) h (hj, a) = elim (Bool-cases (ltb j i)) [
  | inl q ↦ rw q (hj, insert_in-All i js h a)
  | inr q ↦ rw q (h, (hj, a))
]

sort-All : (is : List ℕ) → All Small is → All Small (sort is)
unfolding sort
sort-All [] a = tt
sort-All (i ∷ is) (h, a) = insert_in-All i (sort is) h (sort-All is a)

range-All : (i n : ℕ) → i + n ≤ 2 ^ 16 → All Small (range i n)
range-All i zero h = tt
range-All i (suc n) h = (omega arith, range-All (suc i) n (omega arith))

all_digits_of : (s : GoString) → All (λ c. (b'0' ≤ c) × (c ≤ b'9')) s → all_digits s ≡ true
unfolding all_digits
all_digits_of [] a = refl
all_digits_of (c ∷ s) ((low, high), a) = ground (arith, low, high, all_digits_of s a)

has_slash-all_digits : (s : GoString) → all_digits s ≡ true → has_slash s ≡ false
unfolding all_digits has_slash
has_slash-all_digits [] h = refl
has_slash-all_digits (c ∷ s) h = ground (arith, has_slash-all_digits s)

roll_number-dot :
    (s : GoString) → 1 ≤ length s → all_digits s ≡ true → roll_number (b'.' ∷ s) ≡ some s
unfolding roll_number
roll_number-dot [] h a = absurd (omega arith)
roll_number-dot (c ∷ s) h a = rw a refl

drop-append : (s t : GoString) → drop (length s) (s ++ t) ≡ t
drop-append [] t = refl
drop-append (c ∷ s) t = drop-append s t

module _ (lr : LogRoller) where
  abbrev suffix : ℕ → GoString
  suffix i = b'.' ∷ pad_uint lr.digits i

  pad-digits : (i : ℕ) → all_digits (pad_uint lr.digits i) ≡ true
  pad-digits i = all_digits_of _ (pad_uint-All lr.digits i)

  roll_suffixes-keep_if :
      (d : Directory)
      → roll_suffixes lr.file_name d
        ≡ keep_if (λ s. not (has_slash s)) (map (drop (length lr.file_name)) (rolled_paths lr d))
  unfolding roll_suffixes keep_if
  roll_suffixes-keep_if [] = refl
  roll_suffixes-keep_if ((path, content) ∷ d) = ground (arith, roll_suffixes-keep_if d)

  suffix-no_slash : (i : ℕ) → has_slash (suffix i) ≡ false
  unfolding has_slash
  suffix-no_slash i = ground (arith, has_slash-all_digits _ (pad-digits i))

  keep_if-suffixes :
      (is : List ℕ)
      → keep_if (λ s. not (has_slash s)) (map (drop (length lr.file_name)) (map (new_path lr) is))
        ≡ map suffix is
  unfolding keep_if
  keep_if-suffixes [] = refl
  keep_if-suffixes (i ∷ is) =
      rw (drop-append lr.file_name (suffix i), suffix-no_slash i)
        (ap (λ ss. suffix i ∷ ss) (keep_if-suffixes is))

  numbers_of-suffixes :
      (is : List ℕ) → All Small is → numbers_of (map suffix is) ≡ some (map (pad_uint lr.digits) is)
  unfolding numbers_of
  numbers_of-suffixes [] a = refl
  numbers_of-suffixes (i ∷ is) (h, a) =
      rw
        (
          roll_number-dot (pad_uint lr.digits i) (length-pad_uint lr.digits i) (pad-digits i),
          numbers_of-suffixes is a,
          parse_uint-pad_uint 16 lr.digits i h,
          add_number,
        )
        refl

  insert_number-pads :
      (i : ℕ) (is : List ℕ)
      → Small i
      → All Small is
      → insert_number (pad_uint lr.digits i) (map (pad_uint lr.digits) is)
        ≡ map (pad_uint lr.digits) (insert_in i is)
  unfolding insert_number insert_in
  insert_number-pads i [] h a = refl
  insert_number-pads i (j ∷ js) h (hj, a) = elim (Bool-cases (ltb j i)) [
    | inl q ↦
        rw (number_value-pad_uint lr i h, number_value-pad_uint lr j hj, q)
          (ap (λ ss. pad_uint lr.digits j ∷ ss) (insert_number-pads i js h a))
    | inr q ↦ rw (number_value-pad_uint lr i h, number_value-pad_uint lr j hj, q) refl
  ]

  sort_numbers-pads :
      (is : List ℕ)
      → All Small is
      → sort_numbers (map (pad_uint lr.digits) is) ≡ map (pad_uint lr.digits) (sort is)
  unfolding sort_numbers sort
  sort_numbers-pads [] a = refl
  sort_numbers-pads (i ∷ is) (h, a) =
      ap (insert_number (pad_uint lr.digits i)) (sort_numbers-pads is a)
      ∙ insert_number-pads i (sort is) h (sort-All is a)

  -- Of files with the numbers below `n`, in any order, the numbers are found in their order.
  pub rolled_numbers-range :
      (d : Directory) (order : List ℕ) (n : ℕ)
      → n ≤ 2 ^ 16
      → rolled_paths lr d ≡ map (new_path lr) order
      → Permᴰ (range 0 n) order
      → rolled_numbers lr d ≡ some (map (pad_uint lr.digits) (range 0 n))
  unfolding rolled_numbers
  rolled_numbers-range d order n bound e p =
      let small = All-Permᴰ Small p (range-All 0 n (omega arith)) in
      rw (roll_suffixes-keep_if d, e, keep_if-suffixes order, numbers_of-suffixes order small)
        (ap some (
          sort_numbers-pads order small
          ∙ ap (map (pad_uint lr.digits)) (sym (sort-Permᴰ p) ∙ sort-range 0 n)))
