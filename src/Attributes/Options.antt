-- ===== src/Attributes/Options.antt =====
-- `convertPagesPerSheet`, `convertPageOrientation`, `convertCopies` and `convertColorAttrs` of
-- `cups/translate-attrs.go`.
use cc_deb_pkg.Prelude.{
  true, false, Option, none, some, List, [], ◌∷◌, ◌++◌, map, GoString, bytes, str_eq, ◌==◌,
  if◌then◌else◌, ℤ, pos,
}
use cc_deb_pkg.Prelude.Answer.{Answer, panicked, unavailable, available}
use cc_deb_pkg.Prelude.GoMap.{lookup}
use cc_deb_pkg.Prelude.Strconv.{parse_int}
use cc_deb_pkg.Cdd.Capabilities.{
  Color, ColorOption, Copies, PageOrientation, PageOrientationOption, SelectCapabilityOption,
  VendorCapability, VendorCapabilityType,
}
use cc_deb_pkg.Cdd.Localized.{new_localized_string}
use cc_deb_pkg.Cdd.Ticket.{ColorType}
use cc_deb_pkg.Attributes.Names.{
  attr_copies_default, attr_copies_supported, attr_number_up, attr_number_up_default,
  attr_number_up_supported, attr_orientation_requested_default,
  attr_orientation_requested_supported, attr_print_color_mode, attr_print_color_mode_default,
  attr_print_color_mode_supported,
}
use cc_deb_pkg.Attributes.State.{Tags}
use cc_deb_pkg.Attributes.Tables.{color_by_keyword, page_orientation_by_value}

abbrev number_option : GoString → GoString → SelectCapabilityOption
number_option default number = record {
  value = number;
  display_name = [];
  is_default = str_eq number default;
  display_name_localized = some (new_localized_string number);
}

abbrev pages_capability : List SelectCapabilityOption → VendorCapability
pages_capability options = record {
  id = attr_number_up;
  display_name = [];
  type = VendorCapabilityType.select;
  range_cap = none;
  select_cap = some (record { option = options });
  typed_value_cap = none;
  display_name_localized = some (new_localized_string (bytes "Pages per sheet"));
}

-- A missing default is "1"; an empty list of defaults is indexed if there is a number to compare.
abbrev pub pages_options :
    Option (List GoString) → List GoString → Answer (List SelectCapabilityOption)
pages_options _ [] = available []
pages_options none numbers = available (map (number_option (bytes "1")) numbers)
pages_options (some []) numbers = panicked
pages_options (some (d ∷ ds)) numbers = available (map (number_option d) numbers)

abbrev pub pages_answer : Answer (List SelectCapabilityOption) → Answer VendorCapability
pages_answer panicked = panicked
pages_answer unavailable = unavailable
pages_answer (available options) = available (pages_capability options)

unfoldable pub convert_pages_per_sheet : Tags → Answer VendorCapability
convert_pages_per_sheet tags = elim (lookup attr_number_up_supported tags) [
  | some numbers ↦ pages_answer (pages_options (lookup attr_number_up_default tags) numbers)
  | none ↦ unavailable
]

-- The only value of a list, or another one.
abbrev only_value : GoString → Option (List GoString) → GoString
only_value other (some (v ∷ [])) = v
only_value other _ = other

-- The orientations that have a type, in order.
unfoldable pub orientation_options : GoString → List GoString → List PageOrientationOption
orientation_options default [] = []
orientation_options default (o ∷ os) =
    let rest = orientation_options default os in
    elim (lookup o page_orientation_by_value) [
      | some type ↦ record { type = type; is_default = str_eq o default } ∷ rest
      | none ↦ rest
    ]

-- `none` is a nil pointer.
unfoldable pub convert_page_orientation : Tags → Option PageOrientation
unfolding orientation_options
convert_page_orientation tags = elim (lookup attr_orientation_requested_supported tags) [
  | some supported ↦
      let default = only_value (bytes "auto") (lookup attr_orientation_requested_default tags) in
      some (record { option = orientation_options default (bytes "auto" ∷ supported) })
  | none ↦ none
]

-- The part behind the first `~`: the second of `strings.SplitN(s, "~", 2)`; `none` if there is none.
unfoldable pub behind_tilde : GoString → Option GoString
behind_tilde [] = none
behind_tilde (c ∷ s) = let rest = behind_tilde s in if c == b'~' then some s else rest

abbrev pub or_one : Option ℤ → ℤ
or_one (some z) = z
or_one none = pos 1

unfoldable pub default_copies : Option (List GoString) → ℤ
default_copies (some (v ∷ [])) = or_one (parse_int 32 v)
default_copies _ = pos 1

abbrev pub with_max : ℤ → Option ℤ → Answer Copies
with_max default (some max) = available (record { default = default; max = max })
with_max default none = unavailable

abbrev pub copies_range : ℤ → Option GoString → Answer Copies
copies_range default (some max) = with_max default (parse_int 32 max)
copies_range default none = panicked

abbrev pub copies_answer : ℤ → Option (List GoString) → Answer Copies
copies_answer default (some (range ∷ [])) = copies_range default (behind_tilde range)
copies_answer default _ = unavailable

-- A range with no `~` is indexed out of range.
unfoldable pub convert_copies : Tags → Answer Copies
unfolding behind_tilde default_copies
convert_copies tags =
    copies_answer (default_copies (lookup attr_copies_default tags))
      (lookup attr_copies_supported tags)

unfoldable pub color_option : GoString → ColorOption
color_option color = elim (lookup color color_by_keyword) [
  | some option ↦ option
  | none ↦ record {
    vendor_id = attr_print_color_mode ++ bytes ":" ++ color;
    type = ColorType.type_custom_color;
    custom_display_name = [];
    is_default = false;
    custom_display_name_localized = some (new_localized_string color);
  }
]

abbrev default_color : GoString → GoString → ColorOption
default_color default color =
    if str_eq color default
    then record (color_option color) { is_default = true }
    else color_option color

abbrev colors_with : List GoString → GoString → Answer Color
colors_with colors default = available (record { option = map (default_color default) colors })

-- Where there is not one default, the first color is it; `colorSupported[:1]` panics on none.
abbrev pub colors_answer : List GoString → Option (List GoString) → Answer Color
colors_answer colors (some (d ∷ [])) = colors_with colors d
colors_answer [] _ = panicked
colors_answer (c ∷ cs) _ = colors_with (c ∷ cs) c

unfoldable pub convert_color_attrs : Tags → Answer Color
unfolding color_option
convert_color_attrs tags = elim (lookup attr_print_color_mode_supported tags) [
  | some colors ↦ colors_answer colors (lookup attr_print_color_mode_default tags)
  | none ↦ unavailable
]
