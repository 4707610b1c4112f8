-- ===== src/Tests/Snmp.antt =====
-- Runs of the variable sets of SNMP, and of the trays and bins read from them.
use cc_deb_pkg.Prelude.Answer.{available}
use cc_deb_pkg.Prelude.{join}
use cc_deb_pkg.Cdd.Localized.{new_localized_string}
use cc_deb_pkg.Prelude.{
  ◌≡◌, ◌↔◌, refl, true, false, none, some, [], ◌∷◌, ◌++◌, map, keep_if, leb, GoString, bytes, pos,
  if◌then◌else◌,
}
use cc_deb_pkg.Prelude.Strconv.{parse_uint, parse_int, format_int, format_uint, digit_char}
use cc_deb_pkg.Oid.{
  Oid, Variable, VariableSet, comes_before, has_prefix, get_subtree, get_variable, add_variable,
  sort_search, at_or_after, tail_loop,
}
use cc_deb_pkg.Oid.Subtree.{IsSorted, scan, get_subtree-keep_if, get_variable-scan}
use cc_deb_pkg.Oid.Quotes.{add_variable-none_iff}
use cc_deb_pkg.Cdd.State.{
  InputTrayStateItem, InputTrayStateType, OutputBinStateItem, OutputBinStateType,
}
use cc_deb_pkg.Cdd.Units.{InputTrayUnit, InputTrayUnitType, OutputBinUnit, OutputBinUnitType}
use cc_deb_pkg.PrinterMib.Identifiers.{
  PrinterOids, append, array_at, doubled, elements, exact, init_oids, set_array,
}
use cc_deb_pkg.PrinterMib.Shared.{init_oids_lem, shared, written}
use cc_deb_pkg.PrinterMib.SubUnit.{
  parse_numbers, sub_unit_state, sub_unit_messages, int64_of, int32_of, last_number, and_then,
  cons_both,
}
use cc_deb_pkg.PrinterMib.Trays.{
  get_input_trays, tray_loop, tray, tray_item, tray_percent, tray_level,
}
use cc_deb_pkg.PrinterMib.Bins.{get_output_bins, bin_loop, bin, hundred_minus, bin_level}
use cc_deb_pkg.PrinterMib.Paired.{tray_id, tray_item_id, tray_ids, get_input_trays-paired}

abbrev variable : Oid → GoString → Variable
variable name value = record { name = name; value = value }

abbrev walk : VariableSet
walk = record {
  vars =
      variable (1 ∷ 2 ∷ []) (bytes "a")
      ∷ variable (1 ∷ 3 ∷ []) (bytes "b")
      ∷ variable (1 ∷ 3 ∷ 1 ∷ []) (bytes "c")
      ∷ variable (1 ∷ 4 ∷ []) (bytes "d")
      ∷ [];
}

walk-IsSorted : IsSorted walk.vars
unfolding comes_before
walk-IsSorted = ((refl, (refl, (refl, tt))), ((refl, (refl, tt)), ((refl, tt), (tt, tt))))

get_subtree-keep_if_example :
    (get_subtree walk (1 ∷ 3 ∷ [])).vars ≡ keep_if (λ w. has_prefix w.name (1 ∷ 3 ∷ [])) walk.vars
get_subtree-keep_if_example = get_subtree-keep_if walk (1 ∷ 3 ∷ []) walk-IsSorted

get_variable-scan_example : get_variable walk (1 ∷ 3 ∷ []) ≡ scan walk.vars (1 ∷ 3 ∷ [])
get_variable-scan_example = get_variable-scan walk (1 ∷ 3 ∷ []) walk-IsSorted

first_second : comes_before (1 ∷ 2 ∷ []) (1 ∷ 3 ∷ []) ≡ true
unfolding comes_before
first_second = refl

second_third : comes_before (1 ∷ 3 ∷ []) (1 ∷ 3 ∷ 1 ∷ []) ≡ true
unfolding comes_before
second_third = refl

not_itself : comes_before (1 ∷ 2 ∷ []) (1 ∷ 2 ∷ []) ≡ false
unfolding comes_before
not_itself = refl

abbrev one_two : Oid
one_two = 1 ∷ 2 ∷ []

add_variable-none_iff_example :
    (add_variable walk (1 ∷ 5 ∷ []) (bytes "q") ≡ none) ↔ (bytes "q" ≡ b'"' ∷ [])
add_variable-none_iff_example = add_variable-none_iff walk (1 ∷ 5 ∷ []) (bytes "q")

-- The identifiers of the gc compiler: those of a group are all the last one.
abbrev gc_oids : PrinterOids
gc_oids = init_oids doubled

init_oids_lem_example : init_oids doubled ≡ (if leb 12 (doubled 7 8) then shared else written)
init_oids_lem_example = init_oids_lem doubled

-- Trays named "9": all four tables are the one of the names.
abbrev tray_walk : VariableSet
tray_walk = record { vars = variable (gc_oids.printer_input_name ++ 1 ∷ []) (bytes "9") ∷ [] }

abbrev one_tray : InputTrayUnit
one_tray = record {
  vendor_id = bytes "1";
  type = InputTrayUnitType.custom;
  index = some (pos 1);
  custom_display_name = [];
  custom_display_name_localized = some (record { locale = bytes "EN"; value = bytes "9" } ∷ []);
}

abbrev one_tray_state : InputTrayStateItem
one_tray_state = record {
  vendor_id = bytes "1";
  state = InputTrayStateType.ok;
  level_percent = some (pos 100);
  vendor_message = [];
}

tray_walk-answer :
    get_input_trays gc_oids tray_walk ≡ available (one_tray ∷ [], one_tray_state ∷ [])
unfolding get_input_trays tray_loop tray tray_item tray_percent tray_level parse_numbers parse_uint
    parse_int sub_unit_state sub_unit_messages join int64_of int32_of last_number
    new_localized_string and_then cons_both format_int format_uint digit_char get_subtree
    sort_search at_or_after tail_loop comes_before has_prefix init_oids append elements set_array
    array_at
tray_walk-answer = refl

get_input_trays-paired_example :
    (map tray_id (one_tray ∷ []) ≡ tray_ids gc_oids tray_walk)
    × (map tray_item_id (one_tray_state ∷ []) ≡ tray_ids gc_oids tray_walk)
get_input_trays-paired_example =
    get_input_trays-paired gc_oids tray_walk (one_tray ∷ []) (one_tray_state ∷ []) tray_walk-answer

-- A bin with no room that is offline, with identifiers that are apart.
abbrev bin_walk : VariableSet
bin_walk = record {
  vars =
      variable ((init_oids exact).printer_output_max_capacity ++ 1 ∷ []) (bytes "100")
      ∷ variable ((init_oids exact).printer_output_remaining_capacity ++ 1 ∷ []) (bytes "0")
      ∷ variable ((init_oids exact).printer_output_status ++ 1 ∷ []) (bytes "32")
      ∷ variable ((init_oids exact).printer_output_name ++ 1 ∷ []) (bytes "Bin 1")
      ∷ [];
}

abbrev one_bin : OutputBinUnit
one_bin = record {
  vendor_id = bytes "1";
  type = OutputBinUnitType.custom;
  index = some (pos 1);
  custom_display_name = [];
  custom_display_name_localized = some (record { locale = bytes "EN"; value = bytes "Bin 1" } ∷ []);
}

abbrev one_bin_state : OutputBinStateItem
one_bin_state = record {
  vendor_id = bytes "1";
  state = OutputBinStateType.off;
  level_percent = some (pos 100);
  vendor_message = bytes "offline";
}

bin_walk-answer :
    get_output_bins (init_oids exact) bin_walk ≡ available (one_bin ∷ [], one_bin_state ∷ [])
unfolding get_output_bins bin_loop bin hundred_minus bin_level parse_numbers parse_uint parse_int
    sub_unit_state sub_unit_messages join int64_of int32_of last_number new_localized_string
    and_then cons_both format_int format_uint digit_char get_subtree sort_search at_or_after
    tail_loop comes_before has_prefix init_oids append elements set_array array_at
bin_walk-answer = refl
