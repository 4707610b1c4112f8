-- ===== src/Attributes/Markers.antt =====
-- `convertMarkers` and `fixMarkers` of `cups/translate-attrs.go`.
pub mod Grouped
pub mod Levels
use cc_deb_pkg.Prelude.{
  ℕ, ◌%◌, Bool, true, false, ◌||◌, ◌&&◌, not, Option, none, some, List, [], ◌∷◌, ◌++◌, map, length,
  GoString, bytes, str_eq, lower, ltb, leb, ◌==◌, if◌then◌else◌, ℤ, pos, negsuc,
}
use cc_deb_pkg.Prelude.Strconv.{parse_int}
use cc_deb_pkg.Cdd.State.{MarkerStateItem, MarkerStateType}
use cc_deb_pkg.Cdd.Units.{Marker, MarkerType, MarkerColor}
use cc_deb_pkg.Markers.{marker_color}
use cc_deb_pkg.Attributes.Names.{attr_marker_names, attr_marker_types, attr_marker_levels}
use cc_deb_pkg.Attributes.State.{Tags, values_of}
use cc_deb_pkg.Attributes.Content.{member}
use cc_deb_pkg.Attributes.Tables.{cups_marker_name_to_gcp}

-- `len(v) > 1 && v[0] == ' '`
unfoldable pub is_tail : GoString → Bool
is_tail (c ∷ d ∷ s) = c == b' '
is_tail _ = false

-- The loop of `fixMarkers` behind its first round: `done` is `newValues` without its last value.
unfoldable pub fix_loop : List GoString → GoString → List GoString → List GoString
unfolding is_tail
fix_loop done last [] = done ++ last ∷ []
fix_loop done last (v ∷ vs) =
    if is_tail v then fix_loop done (last ++ b',' ∷ v) vs else fix_loop (done ++ last ∷ []) v vs

unfoldable pub fix_markers : List GoString → List GoString
unfolding fix_loop
fix_markers [] = []
fix_markers (v ∷ vs) = fix_loop [] v vs

-- The values corrected if there are not as many as levels; `none` if that does not help.
unfoldable pub fixed : ℕ → List GoString → Option (List GoString)
unfolding fix_markers
fixed n values =
    if length values == n
    then some values
    else if length (fix_markers values) == n
    then some (fix_markers values)
    else none

-- The loop that fills `nameSet`.
unfoldable pub has_duplicate : List GoString → List GoString → Bool
unfolding member
has_duplicate seen [] = false
has_duplicate seen (name ∷ names) = member seen name || has_duplicate (name ∷ seen) names

abbrev toner_types : List GoString
toner_types = bytes "toner" ∷ bytes "tonercartridge" ∷ bytes "toner-cartridge" ∷ []

abbrev ink_types : List GoString
ink_types =
    bytes "ink"
    ∷ bytes "inkcartridge"
    ∷ bytes "ink-cartridge"
    ∷ bytes "ink-ribbon"
    ∷ bytes "inkribbon"
    ∷ []

-- `none` is a type that is passed over.
unfoldable pub marker_type : GoString → Option MarkerType
unfolding member
marker_type type =
    let t = map lower type in
    if member toner_types t
    then some MarkerType.toner
    else if member ink_types t
    then some MarkerType.ink
    else if str_eq t (bytes "staples")
    then some MarkerType.staples
    else none

abbrev color_of : MarkerType → GoString → Option MarkerColor
color_of MarkerType.toner name = some (marker_color cups_marker_name_to_gcp name)
color_of MarkerType.ink name = some (marker_color cups_marker_name_to_gcp name)
color_of _ name = none

-- The level without the bits beyond the lowest seven where it is above 100; `none` if that is out of
-- range.
unfoldable pub level_of : ℤ → Option ℕ
level_of (pos n) =
    let level = if ltb 100 n then n % 128 else n in if ltb 100 level then none else some level
level_of (negsuc n) = none

abbrev pub parsed_level : Option ℤ → Option ℕ
parsed_level (some z) = level_of z
parsed_level none = none

abbrev pub level_state : ℕ → MarkerStateType
level_state level = if ltb 10 level then MarkerStateType.ok else MarkerStateType.exhausted

abbrev pub marker_entry : GoString → MarkerType → ℕ → Marker × MarkerStateItem
marker_entry name type level = (
  record {
    vendor_id = name;
    type = type;
    color = color_of type name;
    custom_display_name = [];
    custom_display_name_localized = none;
  },
  record {
    vendor_id = name;
    state = level_state level;
    level_percent = some (pos level);
    level_pages = none;
    vendor_message = [];
  },
)

abbrev pub MarkerLists : Type 0
MarkerLists = List Marker × List MarkerStateItem

abbrev pub add_entry : GoString → MarkerType → Option ℕ → Option MarkerLists → Option MarkerLists
add_entry name type none rest = none
add_entry name type (some level) none = none
add_entry name type (some level) (some (ms, ss)) =
    let e = marker_entry name type level in some (e.0 ∷ ms, e.1 ∷ ss)

abbrev pub add_typed :
    GoString → Option MarkerType → GoString → Option MarkerLists → Option MarkerLists
add_typed name none level rest = rest
add_typed name (some type) level rest = add_entry name type (parsed_level (parse_int 32 level)) rest

-- The loop over the names.
unfoldable pub marker_loop : List GoString → List GoString → List GoString → Option MarkerLists
unfolding marker_type level_of
marker_loop (name ∷ names) (type ∷ types) (level ∷ levels) =
    let rest = marker_loop names types levels in
    if length name == 0 then none else add_typed name (marker_type type) level rest
marker_loop _ _ _ = some ([], [])

abbrev pub typed_markers :
    List GoString → List GoString → Option (List GoString) → Option MarkerLists
typed_markers names levels none = none
typed_markers names levels (some types) = marker_loop names types levels

abbrev pub named_markers :
    List GoString → List GoString → Option (List GoString) → Option MarkerLists
named_markers types levels none = none
named_markers types levels (some names) =
    if has_duplicate [] names
    then none
    else typed_markers names levels (fixed (length levels) types)

-- `none` is a pair of nil pointers.
unfoldable pub markers_of : List GoString → List GoString → List GoString → Option MarkerLists
unfolding marker_loop fixed has_duplicate
markers_of names types levels =
    if length names == 0 || length types == 0 || length levels == 0
    then none
    else named_markers types levels (fixed (length levels) names)

unfoldable pub convert_markers : Tags → Option MarkerLists
convert_markers tags =
    markers_of (values_of attr_marker_names tags) (values_of attr_marker_types tags)
      (values_of attr_marker_levels tags)
