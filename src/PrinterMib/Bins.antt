-- ===== src/PrinterMib/Bins.antt =====
-- `GetOutputBins` of `snmp/oid/printmib.go`.
use cc_deb_pkg.Prelude.Answer.{Answer, panicked, unavailable, available}
use cc_deb_pkg.Cdd.Localized.{new_localized_string}
use cc_deb_pkg.Prelude.{join}
use cc_deb_pkg.Prelude.{
  ℕ, ◌+◌, ◌*◌, ◌/◌, ◌||◌, Option, none, some, List, [], ◌∷◌, length, ltb, ◌==◌, not, if◌then◌else◌,
  GoString, bytes, ℤ, pos, negsuc, sub_ℕ,
}
use cc_deb_pkg.Prelude.Strconv.{format_int}
use cc_deb_pkg.Oid.{Variable, VariableSet, get_subtree}
use cc_deb_pkg.Cdd.State.{OutputBinStateItem, OutputBinStateType}
use cc_deb_pkg.Cdd.Units.{OutputBinUnit, OutputBinUnitType}
use cc_deb_pkg.PrinterMib.Identifiers.{PrinterOids}
use cc_deb_pkg.PrinterMib.SubUnit.{
  int64_of, int32_of, last_number, sub_unit_messages, sub_unit_state, parse_numbers, and_then,
}

-- An ok bin with no room is full.
abbrev filled : ℕ → OutputBinStateType → OutputBinStateType
filled remaining OutputBinStateType.ok =
    if remaining == 0 then OutputBinStateType.full else OutputBinStateType.ok
filled remaining s = s

-- `100 - i` of an `int32`, which wraps at its lower end only, so where `i` is below -(2 ^ 31 - 101).
unfoldable pub hundred_minus : ℤ → ℤ
hundred_minus (pos n) = sub_ℕ 100 n
hundred_minus (negsuc n) = int32_of (100 + (n + 1))

-- The state and the level; the division by a capacity of 0 panics: `none`.
unfoldable pub bin_level : OutputBinStateType → ℤ → ℤ → Option (OutputBinStateType × Option ℤ)
bin_level s (pos max) (pos remaining) =
    if max == 0
    then none
    else some (filled remaining s, some (hundred_minus (int32_of (100 * remaining / max))))
bin_level s _ _ = some (s, none)

abbrev pub leveled_bin :
    ℤ
    → GoString
    → ℕ
    → Option (OutputBinStateType × Option ℤ)
    → Answer (OutputBinUnit × OutputBinStateItem)
leveled_bin index name status none = panicked
leveled_bin index name status (some (s, level)) = available (
  record {
    vendor_id = format_int index;
    type = OutputBinUnitType.custom;
    index = some index;
    custom_display_name = [];
    custom_display_name_localized = some (new_localized_string name);
  },
  record {
    vendor_id = format_int index;
    state = s;
    level_percent = level;
    vendor_message = join (bytes ",") (sub_unit_messages status);
  },
)

abbrev parsed_bin : ℤ → GoString → Option (ℕ × ℤ × ℤ) → Answer (OutputBinUnit × OutputBinStateItem)
parsed_bin index name none = unavailable
parsed_bin index name (some (status, max, remaining)) = leveled_bin index name status (
    bin_level
      (sub_unit_state OutputBinStateType.ok OutputBinStateType.failure OutputBinStateType.off
        status)
      max remaining)

abbrev pub numbered_bin :
    GoString → Option (ℕ × ℤ × ℤ) → Option ℕ → Answer (OutputBinUnit × OutputBinStateItem)
numbered_bin name numbers none = panicked
numbered_bin name numbers (some n) = parsed_bin (int64_of n) name numbers

-- One iteration of the loop.
unfoldable pub bin :
    Variable → Variable → Variable → Variable → Answer (OutputBinUnit × OutputBinStateItem)
bin max remaining status name =
    numbered_bin name.value (parse_numbers status.value max.value remaining.value)
      (last_number status.name)

unfoldable pub bin_loop :
    List Variable
    → List Variable
    → List Variable
    → List Variable
    → Answer (List OutputBinUnit × List OutputBinStateItem)
bin_loop (m ∷ ms) (r ∷ rs) (s ∷ ss) (n ∷ ns) = and_then (bin m r s n) (bin_loop ms rs ss ns)
bin_loop _ _ _ _ = available ([], [])

unfoldable pub get_output_bins :
    PrinterOids → VariableSet → Answer (List OutputBinUnit × List OutputBinStateItem)
get_output_bins oids vs =
    let capacities_max = (get_subtree vs oids.printer_output_max_capacity).vars in
    let capacities_remaining = (get_subtree vs oids.printer_output_remaining_capacity).vars in
    let statuses = (get_subtree vs oids.printer_output_status).vars in
    let names = (get_subtree vs oids.printer_output_name).vars in
    if ltb (length names) 1
      || not (length names == length capacities_max)
      || not (length names == length capacities_remaining)
      || not (length names == length statuses)
    then unavailable
    else bin_loop capacities_max capacities_remaining statuses names
