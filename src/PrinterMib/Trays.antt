-- ===== src/PrinterMib/Trays.antt =====
-- `GetInputTrays` of `snmp/oid/printmib.go`.
use cc_deb_pkg.Prelude.Answer.{Answer, panicked, unavailable, available}
use cc_deb_pkg.Cdd.Localized.{new_localized_string}
use cc_deb_pkg.Prelude.{join}
use cc_deb_pkg.Prelude.{
  ℕ, ◌*◌, ◌/◌, ◌||◌, Option, none, some, List, [], ◌∷◌, length, ltb, ◌==◌, not, if◌then◌else◌,
  GoString, bytes, ℤ, pos,
}
use cc_deb_pkg.Prelude.Strconv.{format_int}
use cc_deb_pkg.Oid.{Variable, VariableSet, get_subtree}
use cc_deb_pkg.Cdd.State.{InputTrayStateItem, InputTrayStateType}
use cc_deb_pkg.Cdd.Units.{InputTrayUnit, InputTrayUnitType}
use cc_deb_pkg.PrinterMib.Identifiers.{PrinterOids}
use cc_deb_pkg.PrinterMib.SubUnit.{
  int64_of, int32_of, last_number, sub_unit_messages, sub_unit_state, parse_numbers, and_then,
}

-- A state that says everything has no message.
abbrev tray_message : InputTrayStateType → GoString → GoString
tray_message InputTrayStateType.ok m = []
tray_message InputTrayStateType.empty m = []
tray_message _ m = m

-- An ok tray at level 0 is empty.
abbrev emptied : ℕ → InputTrayStateType → InputTrayStateType
emptied current InputTrayStateType.ok =
    if current == 0 then InputTrayStateType.empty else InputTrayStateType.ok
emptied current s = s

-- `levelPercent`, which stays 0 on no capacity.
unfoldable pub tray_percent : ℕ → ℕ → ℤ
tray_percent max current = if max == 0 then pos 0 else int32_of (100 * current / max)

-- The state and the level, from the state of the status: known where both numbers are not negative.
unfoldable pub tray_level : InputTrayStateType → ℤ → ℤ → InputTrayStateType × Option ℤ
tray_level s (pos max) (pos current) = (emptied current s, some (tray_percent max current))
tray_level s _ _ = (s, none)

unfoldable pub tray_item : GoString → ℕ → ℤ → ℤ → InputTrayStateItem
tray_item id status max current =
    let s =
      sub_unit_state InputTrayStateType.ok InputTrayStateType.failure InputTrayStateType.off
        status in
    let r = tray_level s max current in
    record {
      vendor_id = id;
      state = r.0;
      level_percent = r.1;
      vendor_message = tray_message r.0 (join (bytes ", ") (sub_unit_messages status));
    }

abbrev parsed_tray : ℤ → GoString → Option (ℕ × ℤ × ℤ) → Answer (InputTrayUnit × InputTrayStateItem)
parsed_tray index name none = unavailable
parsed_tray index name (some (status, max, current)) = available (
  record {
    vendor_id = format_int index;
    type = InputTrayUnitType.custom;
    index = some index;
    custom_display_name = [];
    custom_display_name_localized = some (new_localized_string name);
  },
  tray_item (format_int index) status max current,
)

abbrev pub numbered_tray :
    GoString → Option (ℕ × ℤ × ℤ) → Option ℕ → Answer (InputTrayUnit × InputTrayStateItem)
numbered_tray name numbers none = panicked
numbered_tray name numbers (some n) = parsed_tray (int64_of n) name numbers

-- One iteration of the loop.
unfoldable pub tray :
    Variable → Variable → Variable → Variable → Answer (InputTrayUnit × InputTrayStateItem)
tray max current status name =
    numbered_tray name.value (parse_numbers status.value max.value current.value)
      (last_number status.name)

unfoldable pub tray_loop :
    List Variable
    → List Variable
    → List Variable
    → List Variable
    → Answer (List InputTrayUnit × List InputTrayStateItem)
tray_loop (m ∷ ms) (c ∷ cs) (s ∷ ss) (n ∷ ns) = and_then (tray m c s n) (tray_loop ms cs ss ns)
tray_loop _ _ _ _ = available ([], [])

unfoldable pub get_input_trays :
    PrinterOids → VariableSet → Answer (List InputTrayUnit × List InputTrayStateItem)
get_input_trays oids vs =
    let levels_max = (get_subtree vs oids.printer_input_max_capacity).vars in
    let levels_current = (get_subtree vs oids.printer_input_current_level).vars in
    let statuses = (get_subtree vs oids.printer_input_status).vars in
    let names = (get_subtree vs oids.printer_input_name).vars in
    if ltb (length levels_max) 1
      || not (length levels_max == length levels_current)
      || not (length levels_max == length statuses)
      || not (length levels_max == length names)
    then unavailable
    else tray_loop levels_max levels_current statuses names
