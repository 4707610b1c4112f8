-- ===== src/LogRoller/Paths.antt =====
-- The paths that `log/logroller.go` writes, and changes of a directory at one of them.
use cc_deb_pkg.Prelude.{
  ℕ, zero, suc, ◌^◌, ◌≤◌, ◌<◌, ◌≡◌, ◌≢◌, refl, ◌∙◌, false, Bool-cases, inl, inr, none, some, List,
  [], ◌∷◌, ◌++◌, length, take, get_elem?, GoString, str_eq, str_eq_sound, str_eq_refl, str_eq_iff,
  ltb, if◌then◌else◌, arith,
}
use cc_deb_pkg.Prelude.GoMap.{delete, insert, lookup, lookup-delete, lookup-insert}
use cc_deb_pkg.Prelude.Strconv.{pad_uint}
use cc_deb_pkg.Prelude.Strconv.Padded.{pad_uint-injective, parse_uint-pad_uint}
use cc_deb_pkg.LogRoller.{Directory, LogRoller, new_path, number_value}

append_cancel : (s t u : GoString) → s ++ t ≡ s ++ u → t ≡ u
append_cancel [] t u h = h
append_cancel (c ∷ s) t u h = append_cancel s t u cc

append-longer : (s : GoString) (c : ℕ) (t : GoString) → s ++ c ∷ t ≢ s
append-longer [] c t h = absurd cc
append-longer (d ∷ s) c t h = append-longer s c t cc

pub get_elem_below :
    (xs : List GoString) (i : ℕ) → i < length xs → (x : GoString) × (get_elem? xs i ≡ some x)
get_elem_below [] i h = absurd (omega arith)
get_elem_below (x ∷ xs) zero h = (x, refl)
get_elem_below (x ∷ xs) (suc i) h = get_elem_below xs i (omega arith)

pub get_elem_beyond : (xs : List GoString) (i : ℕ) → length xs ≤ i → get_elem? xs i ≡ none
get_elem_beyond [] i h = refl
get_elem_beyond (x ∷ xs) zero h = absurd (omega arith)
get_elem_beyond (x ∷ xs) (suc i) h = get_elem_beyond xs i (omega arith)

pub get_elem_take :
    (n : ℕ) (xs : List GoString) (i : ℕ)
    → get_elem? (take n xs) i ≡ (if ltb i n then get_elem? xs i else none)
get_elem_take zero xs i = ground arith
get_elem_take (suc n) [] i = ground arith
get_elem_take (suc n) (x ∷ xs) zero = ground arith
get_elem_take (suc n) (x ∷ xs) (suc i) = ground (arith, get_elem_take n xs i)

-- A change at one path leaves what stands at another.
pub lookup-delete_apart :
    (k j : GoString) (d : Directory) → str_eq k j ≡ false → lookup j (delete k d) ≡ lookup j d
lookup-delete_apart k j d apart = lookup-delete k j d ∙ rw apart refl

pub lookup-insert_apart :
    (k j c : GoString) (d : Directory) → str_eq k j ≡ false → lookup j (insert k c d) ≡ lookup j d
lookup-insert_apart k j c d apart = lookup-insert k j c d ∙ rw apart refl

pub lookup-delete_same : (k : GoString) (d : Directory) → lookup k (delete k d) ≡ none
lookup-delete_same k d = lookup-delete k k d ∙ rw (str_eq_refl k) refl

pub lookup-insert_same : (k c : GoString) (d : Directory) → lookup k (insert k c d) ≡ some c
lookup-insert_same k c d = lookup-insert k k c d ∙ rw (str_eq_refl k) refl

module _ (lr : LogRoller) where
  pub path_apart : (i j : ℕ) → i ≢ j → str_eq (new_path lr i) (new_path lr j) ≡ false
  path_apart i j ne = elim (Bool-cases (str_eq (new_path lr i) (new_path lr j))) [
    | inr q ↦ q
    | inl q ↦
        let e = append_cancel lr.file_name _ _ (str_eq_sound _ _ q) in
        absurd (ne (pad_uint-injective lr.digits i j (append_cancel (b'.' ∷ []) _ _ e)))
  ]

  pub name_apart : (i : ℕ) → str_eq (new_path lr i) lr.file_name ≡ false
  name_apart i = elim (Bool-cases (str_eq (new_path lr i) lr.file_name)) [
    | inr q ↦ q
    | inl q ↦ absurd (append-longer lr.file_name b'.' _ (str_eq_sound _ _ q))
  ]

  pub apart_name : (i : ℕ) → str_eq lr.file_name (new_path lr i) ≡ false
  apart_name i = ground (
    arith,
    name_apart i,
    str_eq_iff lr.file_name (new_path lr i),
    str_eq_iff (new_path lr i) lr.file_name,
  )

  pub number_value-pad_uint : (n : ℕ) → n < 2 ^ 16 → number_value (pad_uint lr.digits n) ≡ n
  unfolding number_value
  number_value-pad_uint n small = rw (parse_uint-pad_uint 16 lr.digits n small, number_value) refl
