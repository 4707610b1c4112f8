-- ===== src/PrinterMib/Tables.antt =====
-- The tables behind the values of the printer MIB: the `var` blocks of
-- `snmp/oid/printmib.go`. A table is the list of its entries.
use cc_deb_pkg.Prelude.{[], ◌∷◌, bytes, GoString}
use cc_deb_pkg.Prelude.GoMap.{GoMap}
use cc_deb_pkg.Cdd.State.{CoverStateType}
use cc_deb_pkg.Cdd.Units.{MarkerType, MarkerColorType}

abbrev pub printer_cover_status_tc : GoMap GoString
printer_cover_status_tc =
    (bytes "1", bytes "other")
    ∷ (bytes "2", bytes "unknown")
    ∷ (bytes "3", bytes "coverOpen")
    ∷ (bytes "4", bytes "coverClosed")
    ∷ (bytes "5", bytes "interlockOpen")
    ∷ (bytes "6", bytes "interlockClosed")
    ∷ []

abbrev pub printer_cover_status_to_gcp : GoMap CoverStateType
printer_cover_status_to_gcp =
    (bytes "1", CoverStateType.failure)
    ∷ (bytes "2", CoverStateType.failure)
    ∷ (bytes "3", CoverStateType.opened)
    ∷ (bytes "4", CoverStateType.ok)
    ∷ (bytes "5", CoverStateType.opened)
    ∷ (bytes "6", CoverStateType.ok)
    ∷ []

abbrev pub printer_marker_supplies_supply_unit_tc : GoMap GoString
printer_marker_supplies_supply_unit_tc =
    (bytes "1", bytes "other")
    ∷ (bytes "2", bytes "unknown")
    ∷ (bytes "3", bytes "tenThousandthsOfInches")
    ∷ (bytes "4", bytes "micrometers")
    ∷ (bytes "7", bytes "impressions")
    ∷ (bytes "8", bytes "sheets")
    ∷ (bytes "11", bytes "hours")
    ∷ (bytes "12", bytes "thousandthsOfOunces")
    ∷ (bytes "13", bytes "tenthsOfGrams")
    ∷ (bytes "14", bytes "hundrethsOfFluidOunces")
    ∷ (bytes "15", bytes "tenthsOfMilliliters")
    ∷ (bytes "16", bytes "feet")
    ∷ (bytes "17", bytes "meters")
    ∷ (bytes "18", bytes "items")
    ∷ (bytes "19", bytes "percent")
    ∷ []

abbrev pub printer_marker_supplies_type_to_gcp : GoMap MarkerType
printer_marker_supplies_type_to_gcp =
    (bytes "1", MarkerType.unlisted [])
    ∷ (bytes "2", MarkerType.unlisted [])
    ∷ (bytes "3", MarkerType.toner)
    ∷ (bytes "4", MarkerType.unlisted [])
    ∷ (bytes "5", MarkerType.ink)
    ∷ (bytes "6", MarkerType.ink)
    ∷ (bytes "7", MarkerType.ink)
    ∷ (bytes "8", MarkerType.unlisted [])
    ∷ (bytes "9", MarkerType.unlisted [])
    ∷ (bytes "10", MarkerType.unlisted [])
    ∷ (bytes "11", MarkerType.unlisted [])
    ∷ (bytes "12", MarkerType.unlisted [])
    ∷ (bytes "13", MarkerType.unlisted [])
    ∷ (bytes "14", MarkerType.unlisted [])
    ∷ (bytes "15", MarkerType.unlisted [])
    ∷ (bytes "16", MarkerType.unlisted [])
    ∷ (bytes "17", MarkerType.unlisted [])
    ∷ (bytes "18", MarkerType.unlisted [])
    ∷ (bytes "19", MarkerType.unlisted [])
    ∷ (bytes "20", MarkerType.unlisted [])
    ∷ (bytes "21", MarkerType.toner)
    ∷ (bytes "22", MarkerType.unlisted [])
    ∷ (bytes "23", MarkerType.unlisted [])
    ∷ (bytes "24", MarkerType.unlisted [])
    ∷ (bytes "25", MarkerType.unlisted [])
    ∷ (bytes "26", MarkerType.unlisted [])
    ∷ (bytes "27", MarkerType.unlisted [])
    ∷ (bytes "28", MarkerType.unlisted [])
    ∷ (bytes "29", MarkerType.unlisted [])
    ∷ (bytes "30", MarkerType.unlisted [])
    ∷ (bytes "31", MarkerType.unlisted [])
    ∷ (bytes "32", MarkerType.staples)
    ∷ (bytes "33", MarkerType.unlisted [])
    ∷ (bytes "34", MarkerType.unlisted [])
    ∷ []

abbrev pub snmp_marker_color_to_gcp : GoMap MarkerColorType
snmp_marker_color_to_gcp =
    (bytes "black", MarkerColorType.black)
    ∷ (bytes "color", MarkerColorType.color)
    ∷ (bytes "cyan", MarkerColorType.cyan)
    ∷ (bytes "magenta", MarkerColorType.magenta)
    ∷ (bytes "yellow", MarkerColorType.yellow)
    ∷ (bytes "lightcyan", MarkerColorType.light_cyan)
    ∷ (bytes "lightmagenta", MarkerColorType.light_magenta)
    ∷ (bytes "gray", MarkerColorType.gray)
    ∷ (bytes "lightgray", MarkerColorType.light_gray)
    ∷ (bytes "pigmentblack", MarkerColorType.pigment_black)
    ∷ (bytes "matteblack", MarkerColorType.matte_black)
    ∷ (bytes "photocyan", MarkerColorType.photo_cyan)
    ∷ (bytes "photomagenta", MarkerColorType.photo_magenta)
    ∷ (bytes "photoyellow", MarkerColorType.photo_yellow)
    ∷ (bytes "photogray", MarkerColorType.photo_gray)
    ∷ (bytes "red", MarkerColorType.red)
    ∷ (bytes "green", MarkerColorType.green)
    ∷ (bytes "blue", MarkerColorType.blue)
    ∷ []
