-- ===== src/Markers.antt =====
-- The color of a marker, which `convertMarkers` of `cups/translate-attrs.go` and `GetMarkers` of
-- `snmp/oid/printmib.go` read from a name in the same way. A `range` over a map visits its keys in
-- any order: the table is the list of its entries in the order of one visit.
pub mod Order
use cc_deb_pkg.Prelude.{
  Bool, Option, none, some, List, [], ◌∷◌, map, GoString, bytes, starts_with, lower, remove_byte,
  replace_byte, trim_suffix, if◌then◌else◌,
}
use cc_deb_pkg.Prelude.GoMap.{GoMap}
use cc_deb_pkg.Cdd.Localized.{new_localized_string}
use cc_deb_pkg.Cdd.Units.{MarkerColor, MarkerColorType}

-- The name in lower case, with no spaces and no dashes.
unfoldable pub stripped : GoString → GoString
stripped name = remove_byte b'-' (remove_byte b' ' (map lower name))

-- The value of the first key visited that the text begins with.
unfoldable pub first_prefix {ℓ} : {V : Type ℓ} → GoMap V → GoString → Option V
first_prefix [] s = none
first_prefix ((k, v) ∷ table) s = if starts_with s k then some v else first_prefix table s

abbrev suffixes : List GoString
suffixes =
    bytes " Cartridge"
    ∷ bytes " cartridge"
    ∷ bytes " Ribbon"
    ∷ bytes " ribbon"
    ∷ bytes " Toner"
    ∷ bytes " toner"
    ∷ bytes " Ink"
    ∷ bytes " ink"
    ∷ []

abbrev trim_all : List GoString → GoString → GoString
trim_all [] name = name
trim_all (t ∷ ts) name = trim_all ts (trim_suffix name t)

-- The name that a custom color shows.
unfoldable pub custom_name : GoString → GoString
custom_name name = replace_byte b'-' b' ' (trim_all suffixes name)

abbrev pub colored : GoString → Option MarkerColorType → MarkerColor
colored name (some type) = record {
  type = type;
  custom_display_name = [];
  custom_display_name_localized = none;
}
colored name none = record {
  type = MarkerColorType.custom;
  custom_display_name = [];
  custom_display_name_localized = some (new_localized_string (custom_name name));
}

unfoldable pub marker_color : GoMap MarkerColorType → GoString → MarkerColor
marker_color table name = colored name (first_prefix table (stripped name))
