-- ===== src/Tests/Ppds.antt =====
-- Runs of the statements of PPD files.
use cc_deb_pkg.Prelude.{
  ◌≡◌, refl, sym, subst, ℕ, pos, lower, Bool, true, false, none, some, List, [], ◌∷◌, ◌++◌,
  GoString, bytes, keep_if, str_eq, starts_with, trim_prefix,
}
use cc_deb_pkg.Cdd.Capabilities.{Color, Dpi, DpiOption, Duplex}
use cc_deb_pkg.Cdd.Ticket.{ColorType, DuplexType}
use cc_deb_pkg.Ppd.{Statement, group_loop, group_statements, group_step, statement_kind}
use cc_deb_pkg.Ppd.Constraints.{
  constraint_match, constraints, cut_spaces, filter_constraints, has_pair, has_star,
  installed_defaults,
}
use cc_deb_pkg.Prelude.Strconv.{parse_int, parse_uint}
use cc_deb_pkg.Cdd.Localized.{new_localized_string}
use cc_deb_pkg.Ppd.Colors.{
  all_color_options, cleanup_color_name, convert_color_ppd, is_color, is_gray, ppd_color_option,
  skip_spaces, without_prefix,
}
use cc_deb_pkg.Ppd.Colors.Choices.{IsPalette, convert_color_ppd-IsPalette}
use cc_deb_pkg.Ppd.Default.{mark_default, with_default}
use cc_deb_pkg.Ppd.Resolution.{
  convert_dpi, cut_digits, dpi_of, dpi_option, dpi_options, resolution_match,
}
use cc_deb_pkg.Ppd.Resolution.Chosen.{IsChosen, convert_dpi-IsChosen}
use cc_deb_pkg.Ppd.Duplexing.{convert_duplex, convert_km_duplex, km_duplex_type, km_options}
use cc_deb_pkg.Ppd.Duplexing.Offered.{IsOffered, convert_duplex-IsOffered}
use cc_deb_pkg.Ppd.Entries.{
  Entries, Entry, EntryType, entry, entry_loop, entry_type_of, has_option, last_default,
  open_ui_statements_to_entries, options_of,
}
use cc_deb_pkg.Ppd.Entries.Headed.{KeepsHeads, filter_constraints-entries}

abbrev statement : GoString → GoString → GoString → Statement
statement k o v = record { main_keyword = k; option_keyword = o; translation = []; value = v }

abbrev duplex_lines : List Statement
duplex_lines =
    statement (bytes "OpenUI") (bytes "*Duplex") (bytes "PickOne")
    ∷ statement (bytes "DefaultDuplex") [] (bytes "None")
    ∷ statement (bytes "Duplex") (bytes "None") (bytes "a")
    ∷ statement (bytes "Duplex") (bytes "DuplexNoTumble") (bytes "b")
    ∷ statement (bytes "CloseUI") (bytes "*Duplex") []
    ∷ []

-- A duplex unit that is not installed by default, and a constraint that it meets.
abbrev unit_lines : GoString → List Statement
unit_lines constraint =
    statement (bytes "OpenGroup") [] (bytes "InstallableOptions")
    ∷ statement (bytes "OpenUI") (bytes "*Unit") (bytes "Boolean")
    ∷ statement (bytes "DefaultUnit") [] (bytes "False")
    ∷ statement (bytes "CloseUI") (bytes "*Unit") []
    ∷ statement (bytes "CloseGroup") [] (bytes "InstallableOptions")
    ∷ statement (bytes "UIConstraints") [] constraint
    ∷ []

abbrev one_constraint : List (GoString × GoString)
one_constraint = (bytes "Duplex", bytes "DuplexNoTumble") ∷ []

abbrev file : List Statement
file = duplex_lines ++ unit_lines (bytes "*Unit False  *Duplex DuplexNoTumble")

constraints_run :
    constraints
      (installed_defaults (group_statements file).installables)
      (group_statements file).ui_constraints
    ≡ one_constraint
unfolding constraints constraint_match cut_spaces has_star has_pair installed_defaults
    group_statements group_loop group_step statement_kind str_eq starts_with trim_prefix
constraints_run = refl

one_constraint-KeepsHeads : KeepsHeads one_constraint
unfolding has_pair str_eq
one_constraint-KeepsHeads = record { keeps_open_ui = λ o. refl; keeps_jcl_open_ui = λ o. refl }

file-KeepsHeads : KeepsHeads (
    constraints
      (installed_defaults (group_statements file).installables)
      (group_statements file).ui_constraints)
file-KeepsHeads = subst KeepsHeads (sym constraints_run) one_constraint-KeepsHeads

filter_constraints-entries_example :
    (r : Entries) × (open_ui_statements_to_entries (
        filter_constraints
          (group_statements file).open_uis
          (group_statements file).installables
          (group_statements file).ui_constraints)
      ≡ some r)
filter_constraints-entries_example = filter_constraints-entries file file-KeepsHeads

abbrev bad_file : List Statement
bad_file =
    statement (bytes "OpenUI") (bytes "*Duplex") (bytes "PickOne")
    ∷ statement (bytes "CloseUI") (bytes "*Duplex") []
    ∷ unit_lines (bytes "*Unit False *OpenUI *Duplex")

-- A constraint that names the only statement of a group leaves the group empty.
bad_file_run :
    open_ui_statements_to_entries (
      filter_constraints
        (group_statements bad_file).open_uis
        (group_statements bad_file).installables
        (group_statements bad_file).ui_constraints)
    ≡ none
unfolding constraints constraint_match cut_spaces has_star has_pair installed_defaults
    group_statements group_loop group_step statement_kind str_eq starts_with trim_prefix
    filter_constraints keep_if open_ui_statements_to_entries entry_loop entry entry_type_of
    last_default options_of has_option
bad_file_run = refl

abbrev duplex_entry : GoString → Entry
duplex_entry default = record {
  main_keyword = bytes "Duplex";
  translation = bytes "Duplex";
  entry_type = EntryType.pick_one;
  default_value = default;
  options =
      statement (bytes "Duplex") (bytes "None") (bytes "a")
      ∷ statement (bytes "Duplex") (bytes "DuplexTumble") (bytes "b")
      ∷ [];
}

abbrev offer : Bool → Bool → Duplex
offer b c = record {
  option =
      record { type = DuplexType.no_duplex; is_default = b }
      ∷ record { type = DuplexType.short_edge; is_default = c }
      ∷ [];
}

convert_duplex_run : convert_duplex (duplex_entry (bytes "Else")) ≡ some (offer true false)
unfolding convert_duplex has_option str_eq
convert_duplex_run = refl

convert_duplex-IsOffered_example : IsOffered (duplex_entry (bytes "Else")) (offer true false)
convert_duplex-IsOffered_example =
    convert_duplex-IsOffered (duplex_entry (bytes "Else")) (offer true false) convert_duplex_run

abbrev km_entry : Entry
km_entry = record {
  main_keyword = bytes "KMDuplex";
  translation = bytes "KMDuplex";
  entry_type = EntryType.pick_one;
  default_value = bytes "Else";
  options = statement (bytes "KMDuplex") (bytes "Single") (bytes "a") ∷ [];
}

-- The one option is not the default.
convert_km_duplex_run :
    convert_km_duplex km_entry
    ≡ some (record { option = record { type = DuplexType.no_duplex; is_default = false } ∷ [] })
unfolding convert_km_duplex km_options km_duplex_type str_eq
convert_km_duplex_run = refl

abbrev tray_entry : Entry
tray_entry = record {
  main_keyword = bytes "Resolution";
  translation = bytes "Resolution";
  entry_type = EntryType.pick_one;
  default_value = bytes "600x300dpi";
  options =
      statement (bytes "Resolution") (bytes "Fine") []
      ∷ statement (bytes "Resolution") (bytes "300dpi") []
      ∷ statement (bytes "Resolution") (bytes "600x300dpi") []
      ∷ [];
}

abbrev dpi_choice : ℕ → ℕ → GoString → Bool → DpiOption
dpi_choice h v id b = record {
  horizontal_dpi = pos h;
  vertical_dpi = pos v;
  is_default = b;
  custom_display_name = [];
  vendor_id = id;
  custom_display_name_localized = some (new_localized_string []);
}

abbrev dpis : Dpi
dpis =
    dpi_of (
      dpi_choice 300 300 (bytes "300dpi") false ∷ dpi_choice 600 300 (bytes "600x300dpi") true ∷ [])

convert_dpi_run : convert_dpi tray_entry ≡ some dpis
unfolding convert_dpi dpi_options dpi_option resolution_match cut_digits with_default mark_default
    parse_int parse_uint str_eq
convert_dpi_run = refl

convert_dpi-IsChosen_example : IsChosen tray_entry dpis
convert_dpi-IsChosen_example = convert_dpi-IsChosen tray_entry dpis convert_dpi_run

abbrev color_entry : Entry
color_entry = record {
  main_keyword = bytes "ColorModel";
  translation = bytes "Color";
  entry_type = EntryType.pick_one;
  default_value = bytes "RGB";
  options =
      record {
        main_keyword = bytes "ColorModel";
        option_keyword = bytes "Gray";
        translation = bytes "Off - 600";
        value = [];
      }
      ∷ record {
        main_keyword = bytes "ColorModel";
        option_keyword = bytes "RGB";
        translation = bytes "Colors";
        value = [];
      }
      ∷ [];
}

abbrev palette : Color
palette = record {
  option =
      record {
        vendor_id = bytes "ColorModel:RGB";
        type = ColorType.type_standard_color;
        custom_display_name = [];
        is_default = true;
        custom_display_name_localized = some (new_localized_string (bytes "Colors"));
      }
      ∷ record {
        vendor_id = bytes "ColorModel:Gray";
        type = ColorType.type_standard_monochrome;
        custom_display_name = [];
        is_default = false;
        custom_display_name_localized = some (new_localized_string (bytes "Gray, 600"));
      }
      ∷ [];
}

convert_color_ppd_run : convert_color_ppd color_entry ≡ some palette
unfolding convert_color_ppd all_color_options ppd_color_option cleanup_color_name without_prefix
    skip_spaces is_gray is_color starts_with lower with_default mark_default str_eq
convert_color_ppd_run = refl

convert_color_ppd-IsPalette_example : IsPalette color_entry palette
convert_color_ppd-IsPalette_example =
    convert_color_ppd-IsPalette color_entry palette convert_color_ppd_run
