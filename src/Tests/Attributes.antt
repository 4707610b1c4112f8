-- ===== src/Tests/Attributes.antt =====
-- Runs of the translation of CUPS attributes.
use mathlib.Core.List.Perm.{swap}
use cc_deb_pkg.Prelude.{
  ◌≡◌, ◌≢◌, refl, subst, false, Bool-cases, inl, inr, none, some, of_some, List, [], ◌∷◌, All, map,
  drop, lower, starts_with, GoString, bytes, str_eq,
}
use cc_deb_pkg.Prelude.GoMap.{GoMap, lookup}
use cc_deb_pkg.Prelude.Strconv.{parse_int, parse_uint}
use cc_deb_pkg.Cdd.State.{MarkerStateItem}
use cc_deb_pkg.Cdd.Units.{Marker, MarkerColorType, MarkerType}
use cc_deb_pkg.Markers.{marker_color}
use cc_deb_pkg.Markers.Order.{marker_color-Perm}
use cc_deb_pkg.Attributes.Names.{
  attr_copies_supported, attr_marker_levels, attr_marker_names, attr_marker_types,
  attr_printer_uuid,
}
use cc_deb_pkg.Attributes.State.{Tags, values_of}
use cc_deb_pkg.Attributes.Content.{get_adobe_version_range, scan_adobe, member}
use cc_deb_pkg.Attributes.Content.Range.{Covers, get_adobe_version_range-Covers}
use cc_deb_pkg.Attributes.Markers.{
  convert_markers, fix_loop, fix_markers, fixed, has_duplicate, is_tail, level_of, marker_entry,
  marker_loop, marker_type, markers_of,
}
use cc_deb_pkg.Attributes.Markers.Grouped.{IsGrouped, fix_markers-IsGrouped}
use cc_deb_pkg.Attributes.Markers.Levels.{
  IsLeveled, convert_markers-IsLeveled, marker_id, marker_state_id,
}
use cc_deb_pkg.Attributes.Options.{behind_tilde}
use cc_deb_pkg.Attributes.Tables.{cups_marker_name_to_gcp}
use cc_deb_pkg.Attributes.Translate.{Translated, translate_attrs}
use cc_deb_pkg.Attributes.Translate.Total.{IsComplete, translate_attrs-IsComplete}

-- The table with its first two entries exchanged.
abbrev exchanged : GoMap MarkerColorType
exchanged =
    (bytes "color", MarkerColorType.color)
    ∷ (bytes "black", MarkerColorType.black)
    ∷ drop 2 cups_marker_name_to_gcp

marker_color-Perm_example :
    marker_color exchanged (bytes "Light-Cyan Toner")
    ≡ marker_color cups_marker_name_to_gcp (bytes "Light-Cyan Toner")
marker_color-Perm_example = marker_color-Perm exchanged (bytes "Light-Cyan Toner") (swap _ _ _)

get_adobe_version_range-Covers_example :
    Covers
      (get_adobe_version_range (bytes "adobe-1.7" ∷ bytes "adobe-1.3" ∷ bytes "iso" ∷ []))
      (bytes "1.3")
unfolding scan_adobe starts_with
get_adobe_version_range-Covers_example =
    get_adobe_version_range-Covers (bytes "adobe-1.7" ∷ []) (bytes "iso" ∷ []) (bytes "adobe-1.3")
      (bytes "1.3") scanned
  where
    scanned : scan_adobe (bytes "adobe-1.3") ≡ some (bytes "1.3")
    scanned = refl

abbrev split_names : List GoString
split_names = bytes "Cyan" ∷ bytes " light" ∷ bytes "Black" ∷ []

fix_markers-IsGrouped_example : IsGrouped split_names (fix_markers split_names)
fix_markers-IsGrouped_example = fix_markers-IsGrouped split_names

abbrev inked : Tags
inked =
    (attr_marker_names, bytes "Cyan" ∷ bytes " light" ∷ bytes "Black" ∷ [])
    ∷ (attr_marker_types, bytes "ink" ∷ bytes "toner" ∷ [])
    ∷ (attr_marker_levels, bytes "7" ∷ bytes "80" ∷ [])
    ∷ []

abbrev cyan : Marker × MarkerStateItem
cyan = marker_entry (bytes "Cyan, light") MarkerType.ink 7

abbrev black : Marker × MarkerStateItem
black = marker_entry (bytes "Black") MarkerType.toner 80

-- The name that CUPS splits at its comma is joined again.
convert_markers_run : convert_markers inked ≡ some (cyan.0 ∷ black.0 ∷ [], cyan.1 ∷ black.1 ∷ [])
unfolding convert_markers markers_of values_of lookup fixed fix_markers fix_loop is_tail
    has_duplicate member marker_loop marker_type level_of str_eq lower parse_int parse_uint
convert_markers_run = refl

convert_markers-IsLeveled_example :
    (map marker_id (cyan.0 ∷ black.0 ∷ []) ≡ map marker_state_id (cyan.1 ∷ black.1 ∷ []))
    × (has_duplicate [] (map marker_id (cyan.0 ∷ black.0 ∷ [])) ≡ false)
    × All IsLeveled (cyan.1 ∷ black.1 ∷ [])
convert_markers-IsLeveled_example =
    convert_markers-IsLeveled inked (cyan.0 ∷ black.0 ∷ []) (cyan.1 ∷ black.1 ∷ [])
      convert_markers_run

abbrev uuid_tags : Tags
uuid_tags =
    (attr_printer_uuid, bytes "urn:uuid:12" ∷ []) ∷ (attr_copies_supported, bytes "1~99" ∷ []) ∷ []

lookup-nonempty :
    (tags : Tags)
    → All (λ (e : GoString × List GoString). e.1 ≢ []) tags
    → (k : GoString) → lookup k tags ≢ some []
unfolding lookup
lookup-nonempty [] h k e = absurd cc
lookup-nonempty ((j, v) ∷ tags) (hv, h) k e = elim (Bool-cases (str_eq j k)) [
  | inl r ↦ hv (of_some (rw r at e))
  | inr r ↦ lookup-nonempty tags h k (rw r at e)
]

range-tilde : behind_tilde (bytes "1~99") ≢ none
unfolding behind_tilde
range-tilde h = absurd cc

only_range : (s r : GoString) → some (s ∷ []) ≡ some (r ∷ []) → r ≡ s
only_range s r e = cc

with_uuid-IsComplete : IsComplete uuid_tags
unfolding lookup str_eq
with_uuid-IsComplete = record {
  nonempty = lookup-nonempty uuid_tags ((λ e. absurd cc), ((λ e. absurd cc), tt));
  ranged =
      λ r e h. range-tilde (subst (λ s. behind_tilde s ≡ none) (only_range (bytes "1~99") r e) h);
}

translate_attrs-IsComplete_example : (t : Translated) × (translate_attrs uuid_tags ≡ some t)
translate_attrs-IsComplete_example = translate_attrs-IsComplete uuid_tags with_uuid-IsComplete
