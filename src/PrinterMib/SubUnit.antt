-- ===== src/PrinterMib/SubUnit.antt =====
-- The steps that the loops of `GetCovers`, `GetInputTrays` and `GetOutputBins` share.
use cc_deb_pkg.Prelude.{
  ℕ, ◌-◌, ◌/◌, ◌%◌, ◌^◌, Bool, true, false, Option, none, some, List, [], ◌∷◌, ◌++◌, ltb, ◌==◌,
  if◌then◌else◌, GoString, bytes, ℤ, pos, negsuc,
}
use cc_deb_pkg.Prelude.Strconv.{parse_uint, parse_int}
use cc_deb_pkg.Prelude.Answer.{Answer, panicked, unavailable, available}
use cc_deb_pkg.Oid.{Oid, VariableSet, get_value}
use cc_deb_pkg.PrinterMib.Identifiers.{PrinterOids}

unfoldable pub get_serial_number : PrinterOids → VariableSet → Option GoString
get_serial_number oids vs = get_value vs oids.printer_general_serial_number

-- `int64(i)` of a `uint`, and `int32(i)` of a number that is not negative.
unfoldable pub int64_of : ℕ → ℤ
int64_of n = if ltb n (2 ^ 63) then pos n else negsuc (2 ^ 64 - 1 - n)

unfoldable pub int32_of : ℕ → ℤ
int32_of n = let m = n % 2 ^ 32 in if ltb m (2 ^ 31) then pos m else negsuc (2 ^ 32 - 1 - m)

-- `Name[len(Name)-1]`; on no number it panics: `none`.
unfoldable pub last_number : Oid → Option ℕ
last_number [] = none
last_number (x ∷ []) = some x
last_number (x ∷ y ∷ o) = last_number (y ∷ o)

-- `status & 2 ^ k != 0`
abbrev pub has_bit : ℕ → ℕ → Bool
has_bit status k = status / 2 ^ k % 2 == 1

abbrev message : Bool → GoString → List GoString
message true s = s ∷ []
message false s = []

-- The messages of a status: `stateMessage` at the end of the tests.
unfoldable pub sub_unit_messages : ℕ → List GoString
sub_unit_messages status =
    (if has_bit status 0
      then bytes "unavailable"
        ∷ (message (status % 8 == 1) (bytes "on request")
            ++ message (status % 8 == 3) (bytes "broken")
            ++ message (status % 8 == 5) (bytes "reason unknown"))
      else [])
    ++ message (has_bit status 3) (bytes "non-critical")
    ++ message (has_bit status 4) (bytes "critical")
    ++ message (has_bit status 5) (bytes "offline")

-- The state of a status, from the three states that its tests assign.
unfoldable pub sub_unit_state {ℓ} : {A : Type ℓ} → A → A → A → ℕ → A
sub_unit_state ok failure off status =
    if has_bit status 5
    then off
    else if has_bit status 4
    then failure
    else if status % 8 == 3
    then failure
    else if status % 8 == 5
    then failure
    else ok

-- The three parses of an iteration; an error of any is `return nil, nil, false`.
unfoldable pub parse_numbers : GoString → GoString → GoString → Option (ℕ × ℤ × ℤ)
parse_numbers status max level = elim (parse_uint 8 status) [
  | none ↦ none
  | some s ↦ elim (parse_int 32 max) [
    | none ↦ none
    | some m ↦ elim (parse_int 32 level) [ none ↦ none | some l ↦ some (s, m, l) ]
  ]
]

-- One iteration's two results before those of the iterations behind it.
module _ {ℓ κ} {A : Type ℓ} {B : Type κ} where
  unfoldable pub cons_both : A → B → Answer (List A × List B) → Answer (List A × List B)
  cons_both a b panicked = panicked
  cons_both a b unavailable = unavailable
  cons_both a b (available (xs, ys)) = available (a ∷ xs, b ∷ ys)

  unfoldable pub and_then : Answer (A × B) → Answer (List A × List B) → Answer (List A × List B)
  unfolding cons_both
  and_then panicked rest = panicked
  and_then unavailable rest = unavailable
  and_then (available (a, b)) rest = cons_both a b rest
