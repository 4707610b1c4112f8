-- ===== src/PrinterMib/Covers.antt =====
-- `GetCovers` of `snmp/oid/printmib.go`.
use cc_deb_pkg.Prelude.{lower}
use cc_deb_pkg.Prelude.Answer.{Answer, panicked, unavailable, available}
use cc_deb_pkg.Cdd.Localized.{new_localized_string}
use cc_deb_pkg.Prelude.{
  ℕ, ◌||◌, Option, none, some, List, [], ◌∷◌, map, length, ltb, ◌==◌, not, if◌then◌else◌, GoString,
  bytes, str_eq,
}
use cc_deb_pkg.Prelude.GoMap.{lookup}
use cc_deb_pkg.Prelude.Strconv.{format_int}
use cc_deb_pkg.Oid.{Variable, VariableSet, get_subtree}
use cc_deb_pkg.Cdd.Localized.{LocalizedString}
use cc_deb_pkg.Cdd.State.{CoverStateItem, CoverStateType}
use cc_deb_pkg.Cdd.Units.{Cover, CoverType, type_custom, type_door, type_cover}
use cc_deb_pkg.PrinterMib.Identifiers.{PrinterOids}
use cc_deb_pkg.PrinterMib.Tables.{printer_cover_status_tc, printer_cover_status_to_gcp}
use cc_deb_pkg.PrinterMib.SubUnit.{int64_of, last_number, and_then}

-- A missing key of the table is the empty string.
unfoldable pub cover_status : GoString → CoverStateType
cover_status status = elim (lookup status printer_cover_status_to_gcp) [
  | some s ↦ s
  | none ↦ CoverStateType.unlisted []
]

unfoldable pub cover_message : CoverStateType → GoString → GoString
cover_message CoverStateType.failure status = elim (lookup status printer_cover_status_tc) [
  | some m ↦ m
  | none ↦ []
]
cover_message _ status = []

unfoldable pub cover_type : GoString → CoverType
cover_type description =
    let d = map lower description in
    if str_eq d (bytes "cover")
    then type_cover
    else if str_eq d (bytes "door")
    then type_door
    else type_custom

abbrev cover_name : CoverType → GoString → Option (List LocalizedString)
cover_name type_custom description = some (new_localized_string description)
cover_name _ description = none

abbrev numbered_cover : GoString → GoString → Option ℕ → Answer (Cover × CoverStateItem)
numbered_cover description status none = panicked
numbered_cover description status (some n) = available (
  record {
    vendor_id = format_int (int64_of n);
    type = cover_type description;
    index = some (int64_of n);
    custom_display_name = [];
    custom_display_name_localized = cover_name (cover_type description) description;
  },
  record {
    vendor_id = format_int (int64_of n);
    state = cover_status status;
    vendor_message = cover_message (cover_status status) status;
  },
)

-- One iteration of the loop.
unfoldable pub cover : Variable → Variable → Answer (Cover × CoverStateItem)
cover description status =
    numbered_cover description.value status.value (last_number description.name)

unfoldable pub cover_loop :
    List Variable → List Variable → Answer (List Cover × List CoverStateItem)
cover_loop (d ∷ ds) (s ∷ ss) = and_then (cover d s) (cover_loop ds ss)
cover_loop _ _ = available ([], [])

unfoldable pub get_covers : PrinterOids → VariableSet → Answer (List Cover × List CoverStateItem)
get_covers oids vs =
    let descriptions = (get_subtree vs oids.printer_cover_description).vars in
    let statuses = (get_subtree vs oids.printer_cover_status).vars in
    if ltb (length descriptions) 1 || not (length descriptions == length statuses)
    then unavailable
    else cover_loop descriptions statuses
