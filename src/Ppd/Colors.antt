-- ===== src/Ppd/Colors.antt =====
-- `convertColorPPD` and `cleanupColorName` of `cups/translate-ppd.go`. `(?i)` is read on ASCII letters.
pub mod Choices
use cc_deb_pkg.Prelude.{
  ℕ, Bool, true, false, ◌||◌, Option, none, some, List, [], ◌∷◌, ◌++◌, map, GoString, bytes, str_eq,
  starts_with, lower, length, drop, ◌==◌, if◌then◌else◌,
}
use cc_deb_pkg.Cdd.Capabilities.{Color, ColorOption}
use cc_deb_pkg.Cdd.Localized.{new_localized_string}
use cc_deb_pkg.Cdd.Ticket.{ColorType}
use cc_deb_pkg.Ppd.{Statement}
use cc_deb_pkg.Ppd.Constraints.{is_space}
use cc_deb_pkg.Ppd.Default.{with_default}
use cc_deb_pkg.Ppd.Entries.{Entry}

-- `rGray` and `rColor`.
unfoldable pub is_gray : GoString → Bool
unfolding starts_with
is_gray s =
    let l = map lower s in
    starts_with l (bytes "gray") || starts_with l (bytes "black") || starts_with l (bytes "mono")

unfoldable pub is_color : GoString → Bool
unfolding starts_with
is_color s =
    let l = map lower s in
    starts_with l (bytes "cmy") || starts_with l (bytes "rgb") || starts_with l (bytes "color")

unfoldable pub skip_spaces : GoString → GoString
skip_spaces [] = []
skip_spaces (c ∷ s) = let rest = skip_spaces s in if is_space c then rest else c ∷ s

abbrev skip_dash : GoString → GoString
skip_dash [] = []
skip_dash (c ∷ s) = if c == b'-' then s else c ∷ s

-- The name without a match of `rCMAndResolutionPrefix`.
unfoldable pub without_prefix : GoString → GoString
unfolding skip_spaces starts_with
without_prefix s =
    let l = map lower s in
    if starts_with l (bytes "on")
    then skip_spaces (skip_dash (skip_spaces (drop 2 s)))
    else if starts_with l (bytes "off")
    then skip_spaces (skip_dash (skip_spaces (drop 3 s)))
    else s

-- A prefix in front of a name, with a comma if there is a name.
abbrev prefixed : GoString → GoString → GoString
prefixed prefix [] = prefix
prefixed prefix (c ∷ name) = prefix ++ bytes ", " ++ c ∷ name

unfoldable pub cleanup_color_name : GoString → GoString → GoString
unfolding without_prefix is_gray is_color
cleanup_color_name value name =
    let new = without_prefix name in
    if str_eq name new
    then name
    else if is_gray value || is_gray new
    then prefixed (bytes "Gray") new
    else if is_color value || is_color new
    then prefixed (bytes "Color") new
    else new

-- The three lists of the first loop.
abbrev pub gray_options : List Statement → List Statement
gray_options [] = []
gray_options (o ∷ os) = if is_gray o.option_keyword then o ∷ gray_options os else gray_options os

abbrev pub color_options : List Statement → List Statement
color_options [] = []
color_options (o ∷ os) =
    if is_gray o.option_keyword
    then color_options os
    else if is_color o.option_keyword
    then o ∷ color_options os
    else color_options os

abbrev pub other_options : List Statement → List Statement
other_options [] = []
other_options (o ∷ os) =
    if is_gray o.option_keyword || is_color o.option_keyword
    then other_options os
    else o ∷ other_options os

unfoldable pub ppd_color_option : GoString → ColorType → Statement → ColorOption
unfolding cleanup_color_name
ppd_color_option main_keyword type o = record {
  vendor_id = main_keyword ++ bytes ":" ++ o.option_keyword;
  type = type;
  custom_display_name = [];
  is_default = false;
  custom_display_name_localized =
      some (new_localized_string (cleanup_color_name o.option_keyword o.translation));
}

-- One option is the standard one; several are custom ones.
abbrev pub typed_options : GoString → ColorType → ColorType → List Statement → List ColorOption
typed_options k standard custom (o ∷ []) = ppd_color_option k standard o ∷ []
typed_options k standard custom os = map (ppd_color_option k custom) os

unfoldable pub all_color_options : Entry → List ColorOption
unfolding ppd_color_option is_gray is_color
all_color_options e =
    typed_options e.main_keyword ColorType.type_standard_color ColorType.type_custom_color
      (color_options e.options)
    ++ typed_options e.main_keyword ColorType.type_standard_monochrome
        ColorType.type_custom_monochrome (gray_options e.options)
    ++ map (ppd_color_option e.main_keyword ColorType.type_custom_monochrome)
        (other_options e.options)

abbrev pub color_id : ColorOption → GoString
color_id o = o.vendor_id

abbrev pub as_default : ColorOption → ColorOption
as_default o = record o { is_default = true }

abbrev pub found_color : Option (List ColorOption) → Option Color
found_color none = none
found_color (some os) = some (record { option = os })

unfoldable pub convert_color_ppd : Entry → Option Color
unfolding all_color_options
convert_color_ppd e = found_color (
    with_default color_id as_default (e.main_keyword ++ bytes ":" ++ e.default_value)
      (all_color_options e))
