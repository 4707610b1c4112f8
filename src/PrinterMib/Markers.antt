-- ===== src/PrinterMib/Markers.antt =====
-- `GetMarkers` of `snmp/oid/printmib.go`: each marker supply is a marker with its state, or an item
-- of the vendor state.
pub mod Counted
pub mod Percent
use cc_deb_pkg.Prelude.{
  ℕ, suc, ◌+◌, ◌-◌, ◌*◌, ◌/◌, ◌%◌, ◌^◌, Bool, true, false, ◌||◌, not, Option, none, some, List, [],
  ◌∷◌, ◌++◌, length, ltb, ◌==◌, if◌then◌else◌, GoString, bytes, str_eq, ℤ, pos, negsuc, sub_ℕ,
  ltb_ℤ,
}
use cc_deb_pkg.Prelude.Answer.{Answer, panicked, unavailable, available}
use cc_deb_pkg.Prelude.GoMap.{lookup}
use cc_deb_pkg.Prelude.Strconv.{format_int, parse_int}
use cc_deb_pkg.Oid.{Variable, VariableSet, get_subtree}
use cc_deb_pkg.Cdd.Localized.{new_localized_string}
use cc_deb_pkg.Cdd.State.{MarkerStateItem, MarkerStateType, VendorStateItem, VendorStateType}
use cc_deb_pkg.Cdd.Units.{Marker, MarkerType}
use cc_deb_pkg.Markers.{marker_color}
use cc_deb_pkg.PrinterMib.Identifiers.{PrinterOids}
use cc_deb_pkg.PrinterMib.Tables.{
  printer_marker_supplies_supply_unit_tc, printer_marker_supplies_type_to_gcp,
  snmp_marker_color_to_gcp,
}
use cc_deb_pkg.PrinterMib.SubUnit.{int32_of, int64_of, last_number}

-- `int32(-q)`, in two's complement.
abbrev pub negated : ℕ → ℤ
negated q = int32_of (2 ^ 32 - q % 2 ^ 32)

-- `int32(100 * current / max)`, rounded towards zero; 0 where the capacity is not positive.
unfoldable pub marker_percent : ℤ → ℤ → ℤ
marker_percent (pos max) (pos current) = if max == 0 then pos 0 else int32_of (100 * current / max)
marker_percent (pos max) (negsuc n) = if max == 0 then pos 0 else negated (100 * suc n / max)
marker_percent (negsuc m) current = pos 0

-- `percent <= n`
abbrev pub at_most : ℤ → ℕ → Bool
at_most percent n = not (ltb_ℤ (pos n) percent)

-- `100 - percent`, an `int32`.
abbrev pub remaining : ℤ → ℤ
remaining (pos p) = sub_ℕ 100 p
remaining (negsuc n) = int32_of (101 + n)

-- The type of a marker; a type of the table that is empty is not one.
abbrev named_type : Option MarkerType → Option MarkerType
named_type (some (MarkerType.unlisted [])) = none
named_type (some type) = some type
named_type none = none

unfoldable pub supply_type : GoString → Option MarkerType
supply_type type = named_type (lookup type printer_marker_supplies_type_to_gcp)

unfoldable pub is_sheets : GoString → Bool
is_sheets unit = elim (lookup unit printer_marker_supplies_supply_unit_tc) [
  | some name ↦ str_eq name (bytes "sheets")
  | none ↦ false
]

-- The state and the levels, known where both numbers are not negative.
unfoldable pub marker_item : GoString → GoString → ℤ → ℤ → MarkerStateItem
marker_item id unit (pos max) (pos current) =
    let percent = marker_percent (pos max) (pos current) in
    record {
      vendor_id = id;
      state = if at_most percent 10 then MarkerStateType.exhausted else MarkerStateType.ok;
      level_percent = some percent;
      level_pages = if is_sheets unit then some (pos current) else none;
      vendor_message = [];
    }
marker_item id unit _ _ = record {
  vendor_id = id;
  state = MarkerStateType.ok;
  level_percent = none;
  level_pages = none;
  vendor_message = [];
}

abbrev snmp_marker : GoString → MarkerType → GoString → Marker
snmp_marker id type color = record {
  vendor_id = id;
  type = type;
  color = some (marker_color snmp_marker_color_to_gcp color);
  custom_display_name = [];
  custom_display_name_localized = none;
}

unfoldable pub supply_state : ℤ → VendorStateType
supply_state percent =
    if at_most percent 1
    then VendorStateType.error
    else if at_most percent 10
    then VendorStateType.warning
    else VendorStateType.info

-- `fmt.Sprintf("%s at %d%%", ...)`
abbrev at_percent : GoString → ℤ → GoString
at_percent description percent = description ++ bytes " at " ++ format_int percent ++ bytes "%"

abbrev is_number : ℕ → ℤ → Bool
is_number n (pos p) = p == n
is_number n (negsuc p) = false

-- A receptacle that is filled reports how full it is, another supply what is left.
unfoldable pub supply_description : GoString → GoString → ℤ → GoString
supply_description class description percent =
    if str_eq class (bytes "4")
    then (if is_number 100 (remaining percent)
        then description ++ bytes " full"
        else at_percent description (remaining percent))
    else if is_number 0 percent
    then description ++ bytes " empty"
    else at_percent description percent

abbrev vendor_item : GoString → GoString → ℤ → VendorStateItem
vendor_item class description percent = record {
  state = supply_state percent;
  description = [];
  description_localized =
      some (new_localized_string (supply_description class description percent));
}

pub data Supply : Type 0 where
  marker : Marker → MarkerStateItem → Supply
  vendor : VendorStateItem → Supply

pub record Supplies : Type 0 where
  pub markers : List Marker
  pub states : List MarkerStateItem
  pub vendor_items : List VendorStateItem

-- The variables of one supply, one from each subtree.
pub record SupplyRow : Type 0 where
  pub class : Variable
  pub type : Variable
  pub description : Variable
  pub unit : Variable
  pub max : Variable
  pub current : Variable
  pub color : Variable

abbrev pub typed_supply : Option MarkerType → SupplyRow → GoString → ℤ → ℤ → Supply
typed_supply (some type) row id max current =
    Supply.marker (snmp_marker id type row.color.value) (marker_item id row.unit.value max current)
typed_supply none row id max current =
    Supply.vendor (vendor_item row.class.value row.description.value (marker_percent max current))

abbrev pub parsed_supply : SupplyRow → GoString → Option ℤ → Option ℤ → Answer Supply
parsed_supply row id none _ = unavailable
parsed_supply row id (some max) none = unavailable
parsed_supply row id (some max) (some current) =
    available (typed_supply (supply_type row.type.value) row id max current)

abbrev pub numbered_supply : SupplyRow → Option ℕ → Answer Supply
numbered_supply row none = panicked
numbered_supply row (some n) =
    parsed_supply row (format_int (int64_of n)) (parse_int 32 row.max.value)
      (parse_int 32 row.current.value)

-- One iteration of the loop.
unfoldable pub supply : SupplyRow → Answer Supply
supply row = numbered_supply row (last_number row.class.name)

abbrev pub add_supply : Supply → Supplies → Supplies
add_supply (Supply.marker m s) r = record r { markers = m ∷ r.markers; states = s ∷ r.states }
add_supply (Supply.vendor v) r = record r { vendor_items = v ∷ r.vendor_items }

abbrev pub before_others : Answer Supply → Answer Supplies → Answer Supplies
before_others panicked rest = panicked
before_others unavailable rest = unavailable
before_others (available s) panicked = panicked
before_others (available s) unavailable = unavailable
before_others (available s) (available r) = available (add_supply s r)

unfoldable pub supply_loop : List SupplyRow → Answer Supplies
supply_loop [] = available (record { markers = []; states = []; vendor_items = [] })
supply_loop (row ∷ rows) = before_others (supply row) (supply_loop rows)

-- The loop's index over seven lists of one length.
unfoldable pub supply_rows :
    List Variable
    → List Variable
    → List Variable
    → List Variable
    → List Variable
    → List Variable
    → List Variable
    → List SupplyRow
supply_rows (c ∷ cs) (t ∷ ts) (d ∷ ds) (u ∷ us) (m ∷ ms) (l ∷ ls) (k ∷ ks) =
    record { class = c; type = t; description = d; unit = u; max = m; current = l; color = k }
    ∷ supply_rows cs ts ds us ms ls ks
supply_rows _ _ _ _ _ _ _ = []

unfoldable pub get_markers : PrinterOids → VariableSet → Answer Supplies
get_markers oids vs =
    let classes = (get_subtree vs oids.printer_marker_supplies_class).vars in
    let types = (get_subtree vs oids.printer_marker_supplies_type).vars in
    let descriptions = (get_subtree vs oids.printer_marker_supplies_description).vars in
    let units = (get_subtree vs oids.printer_marker_supplies_supply_unit).vars in
    let levels_max = (get_subtree vs oids.printer_marker_supplies_max_capacity).vars in
    let levels_current = (get_subtree vs oids.printer_marker_supplies_level).vars in
    let colors = (get_subtree vs oids.printer_marker_colorant_value).vars in
    if ltb (length classes) 1
      || not (length classes == length types)
      || not (length classes == length descriptions)
      || not (length classes == length units)
      || not (length classes == length levels_max)
      || not (length classes == length levels_current)
      || not (length classes == length colors)
    then unavailable
    else supply_loop (supply_rows classes types descriptions units levels_max levels_current colors)
