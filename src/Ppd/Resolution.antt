-- ===== src/Ppd/Resolution.antt =====
-- `convertDPI` of `cups/translate-ppd.go`.
pub mod Chosen
use cc_deb_pkg.Prelude.{
  ℕ, Bool, true, false, ◌&&◌, Option, none, some, List, [], ◌∷◌, ◌++◌, GoString, bytes, str_eq, leb,
  ◌==◌, if◌then◌else◌, ℤ, pos,
}
use cc_deb_pkg.Prelude.Strconv.{parse_int}
use cc_deb_pkg.Cdd.Capabilities.{Dpi, DpiOption}
use cc_deb_pkg.Cdd.Localized.{new_localized_string}
use cc_deb_pkg.Ppd.{Statement}
use cc_deb_pkg.Ppd.Default.{with_default}
use cc_deb_pkg.Ppd.Entries.{Entry}

-- The digits that a text begins with, and the rest.
abbrev push_digit : ℕ → GoString × GoString → GoString × GoString
push_digit c (ds, rest) = (c ∷ ds, rest)

unfoldable pub cut_digits : GoString → GoString × GoString
cut_digits [] = ([], [])
cut_digits (c ∷ s) =
    let rest = cut_digits s in if leb b'0' c && leb c b'9' then push_digit c rest else ([], c ∷ s)

-- Behind the `x`: more digits and "dpi".
abbrev second_group : GoString → GoString × GoString → Option (GoString × GoString)
second_group first ([], rest) = none
second_group first (d ∷ ds, rest) = if str_eq rest (bytes "dpi") then some (first, d ∷ ds) else none

abbrev after_digits : GoString → GoString → Option (GoString × GoString)
after_digits first [] = none
after_digits first (c ∷ rest) =
    if str_eq (c ∷ rest) (bytes "dpi")
    then some (first, [])
    else if c == b'x'
    then second_group first (cut_digits rest)
    else none

abbrev first_group : GoString × GoString → Option (GoString × GoString)
first_group ([], rest) = none
first_group (d ∷ ds, rest) = after_digits (d ∷ ds) rest

-- The groups of a match of `rResolution`; the second is empty if it takes no part.
unfoldable pub resolution_match : GoString → Option (GoString × GoString)
unfolding cut_digits
resolution_match s = first_group (cut_digits s)

abbrev or_horizontal : ℤ → Option ℤ → ℤ
or_horizontal h none = h
or_horizontal h (some v) = v

abbrev pub parsed_dpi : Statement → GoString → Option ℤ → List DpiOption
parsed_dpi o second none = []
parsed_dpi o second (some h) =
    record {
      horizontal_dpi = h;
      vertical_dpi = or_horizontal h (parse_int 32 second);
      is_default = false;
      custom_display_name = [];
      vendor_id = o.option_keyword;
      custom_display_name_localized = some (new_localized_string o.translation);
    }
    ∷ []

abbrev pub matched_dpi : Statement → Option (GoString × GoString) → List DpiOption
matched_dpi o none = []
matched_dpi o (some (first, second)) = parsed_dpi o second (parse_int 32 first)

-- The option of a statement, if the loop does not `continue`.
unfoldable pub dpi_option : Statement → List DpiOption
unfolding resolution_match
dpi_option o = matched_dpi o (resolution_match o.option_keyword)

unfoldable pub dpi_options : List Statement → List DpiOption
unfolding dpi_option
dpi_options [] = []
dpi_options (o ∷ os) = dpi_option o ++ dpi_options os

abbrev pub dpi_id : DpiOption → GoString
dpi_id o = o.vendor_id

abbrev pub as_default : DpiOption → DpiOption
as_default o = record o { is_default = true }

abbrev pub dpi_of : List DpiOption → Dpi
dpi_of os = record {
  option = os;
  min_horizontal_dpi = pos 0;
  max_horizontal_dpi = pos 0;
  min_vertical_dpi = pos 0;
  max_vertical_dpi = pos 0;
}

abbrev pub found_dpi : Option (List DpiOption) → Option Dpi
found_dpi none = none
found_dpi (some os) = some (dpi_of os)

unfoldable pub convert_dpi : Entry → Option Dpi
unfolding dpi_options
convert_dpi e = found_dpi (with_default dpi_id as_default e.default_value (dpi_options e.options))
