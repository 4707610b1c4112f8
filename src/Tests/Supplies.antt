-- ===== src/Tests/Supplies.antt =====
-- Runs of the marker supplies of SNMP.
use cc_deb_pkg.Prelude.{
  ℕ, ◌≡◌, refl, none, some, [], ◌∷◌, ◌++◌, length, GoString, bytes, str_eq, pos,
}
use cc_deb_pkg.Prelude.Answer.{available}
use cc_deb_pkg.Prelude.GoMap.{lookup}
use cc_deb_pkg.Prelude.Strconv.{parse_uint, parse_int, format_int, format_uint, digit_char}
use cc_deb_pkg.Cdd.Localized.{new_localized_string}
use cc_deb_pkg.Cdd.State.{MarkerStateType, VendorStateType}
use cc_deb_pkg.Cdd.Units.{MarkerType}
use cc_deb_pkg.Markers.{marker_color}
use cc_deb_pkg.Oid.{
  Oid, Variable, VariableSet, at_or_after, comes_before, get_subtree, has_prefix, sort_search,
  tail_loop,
}
use cc_deb_pkg.PrinterMib.Identifiers.{
  PrinterOids, append, array_at, doubled, elements, exact, init_oids, set_array,
}
use cc_deb_pkg.PrinterMib.Tables.{snmp_marker_color_to_gcp}
use cc_deb_pkg.PrinterMib.SubUnit.{int32_of, int64_of, last_number}
use cc_deb_pkg.PrinterMib.Markers.{
  Supplies, get_markers, is_sheets, marker_item, marker_percent, supply, supply_description,
  supply_loop, supply_rows, supply_state, supply_type,
}
use cc_deb_pkg.PrinterMib.Markers.Counted.{IsCounted, get_markers-IsCounted}

abbrev at_index : Oid → ℕ → GoString → Variable
at_index name n value = record { name = name ++ n ∷ []; value = value }

abbrev oids : PrinterOids
oids = init_oids exact

-- A cartridge, and a waste box whose level is unknown.
abbrev walk : VariableSet
walk = record {
  vars =
      at_index oids.printer_marker_supplies_class 1 (bytes "3")
      ∷ at_index oids.printer_marker_supplies_class 2 (bytes "4")
      ∷ at_index oids.printer_marker_supplies_type 1 (bytes "21")
      ∷ at_index oids.printer_marker_supplies_type 2 (bytes "4")
      ∷ at_index oids.printer_marker_supplies_description 1 (bytes "Cyan")
      ∷ at_index oids.printer_marker_supplies_description 2 (bytes "Box")
      ∷ at_index oids.printer_marker_supplies_supply_unit 1 (bytes "8")
      ∷ at_index oids.printer_marker_supplies_supply_unit 2 (bytes "19")
      ∷ at_index oids.printer_marker_supplies_max_capacity 1 (bytes "500")
      ∷ at_index oids.printer_marker_supplies_max_capacity 2 (bytes "1")
      ∷ at_index oids.printer_marker_supplies_level 1 (bytes "50")
      ∷ at_index oids.printer_marker_supplies_level 2 (bytes "-2")
      ∷ at_index oids.printer_marker_colorant_value 1 (bytes "cyan")
      ∷ at_index oids.printer_marker_colorant_value 2 (bytes "none")
      ∷ [];
}

-- The unknown level, -2 of 1, is shown as 300 percent of a receptacle that is filled.
abbrev reported : Supplies
reported = record {
  markers =
      record {
        vendor_id = bytes "1";
        type = MarkerType.toner;
        color = some (marker_color snmp_marker_color_to_gcp (bytes "cyan"));
        custom_display_name = [];
        custom_display_name_localized = none;
      }
      ∷ [];
  states =
      record {
        vendor_id = bytes "1";
        state = MarkerStateType.exhausted;
        level_percent = some (pos 10);
        level_pages = some (pos 50);
        vendor_message = [];
      }
      ∷ [];
  vendor_items =
      record {
        state = VendorStateType.error;
        description = [];
        description_localized = some (new_localized_string (bytes "Box at 300%"));
      }
      ∷ [];
}

get_markers_run : get_markers oids walk ≡ available reported
unfolding get_markers get_subtree sort_search at_or_after comes_before has_prefix tail_loop
    supply_loop supply_rows supply supply_type supply_state supply_description marker_item
    marker_percent is_sheets lookup str_eq parse_int parse_uint format_int format_uint digit_char
    int64_of int32_of last_number init_oids append elements set_array array_at
get_markers_run = refl

-- The identifiers of the gc compiler: six tables are the one of the levels.
abbrev gc_oids : PrinterOids
gc_oids = init_oids doubled

abbrev gc_walk : VariableSet
gc_walk = record {
  vars =
      at_index gc_oids.printer_marker_supplies_level 1 (bytes "3")
      ∷ at_index gc_oids.printer_marker_colorant_value 1 (bytes "cyan")
      ∷ [];
}

abbrev gc_reported : Supplies
gc_reported = record {
  markers =
      record {
        vendor_id = bytes "1";
        type = MarkerType.toner;
        color = some (marker_color snmp_marker_color_to_gcp (bytes "cyan"));
        custom_display_name = [];
        custom_display_name_localized = none;
      }
      ∷ [];
  states =
      record {
        vendor_id = bytes "1";
        state = MarkerStateType.ok;
        level_percent = some (pos 100);
        level_pages = none;
        vendor_message = [];
      }
      ∷ [];
  vendor_items = [];
}

gc_run : get_markers gc_oids gc_walk ≡ available gc_reported
unfolding get_markers get_subtree sort_search at_or_after comes_before has_prefix tail_loop
    supply_loop supply_rows supply supply_type supply_state supply_description marker_item
    marker_percent is_sheets lookup str_eq parse_int parse_uint format_int format_uint digit_char
    int64_of int32_of last_number init_oids append elements set_array array_at
gc_run = refl

get_markers-IsCounted_example :
    IsCounted (length (get_subtree gc_walk gc_oids.printer_marker_supplies_class).vars) gc_reported
get_markers-IsCounted_example = get_markers-IsCounted gc_oids gc_walk gc_reported gc_run
