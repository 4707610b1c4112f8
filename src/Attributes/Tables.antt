-- ===== src/Attributes/Tables.antt =====
-- The tables of `cups/translate-attrs.go`. A table is the list of its entries.
use cc_deb_pkg.Prelude.{List, [], ◌∷◌, ◌++◌, bytes, GoString, false, some}
use cc_deb_pkg.Prelude.GoMap.{GoMap}
use cc_deb_pkg.Cdd.Capabilities.{ColorOption}
use cc_deb_pkg.Cdd.Localized.{new_localized_string}
use cc_deb_pkg.Cdd.Ticket.{PageOrientationType, ColorType}
use cc_deb_pkg.Cdd.Units.{MarkerColorType}
use cc_deb_pkg.Attributes.Names.{attr_print_color_mode}

abbrev pub mime_types_allowed : List GoString
mime_types_allowed =
    bytes "application/pdf"
    ∷ bytes "application/postscript"
    ∷ bytes "image/pwg-raster"
    ∷ bytes "image/gif"
    ∷ bytes "image/jp2"
    ∷ bytes "image/jpeg"
    ∷ bytes "image/png"
    ∷ bytes "image/tiff"
    ∷ bytes "text/plain"
    ∷ bytes "text/rtf"
    ∷ []

abbrev pub cups_marker_name_to_gcp : GoMap MarkerColorType
cups_marker_name_to_gcp =
    (bytes "black", MarkerColorType.black)
    ∷ (bytes "color", MarkerColorType.color)
    ∷ (bytes "cyan", MarkerColorType.cyan)
    ∷ (bytes "magenta", MarkerColorType.magenta)
    ∷ (bytes "yellow", MarkerColorType.yellow)
    ∷ (bytes "lightcyan", MarkerColorType.light_cyan)
    ∷ (bytes "lightmagenta", MarkerColorType.light_magenta)
    ∷ (bytes "gray", MarkerColorType.gray)
    ∷ (bytes "lightgray", MarkerColorType.light_gray)
    ∷ (bytes "pigmentblack", MarkerColorType.pigment_black)
    ∷ (bytes "matteblack", MarkerColorType.matte_black)
    ∷ (bytes "photocyan", MarkerColorType.photo_cyan)
    ∷ (bytes "photomagenta", MarkerColorType.photo_magenta)
    ∷ (bytes "photoyellow", MarkerColorType.photo_yellow)
    ∷ (bytes "photogray", MarkerColorType.photo_gray)
    ∷ (bytes "red", MarkerColorType.red)
    ∷ (bytes "green", MarkerColorType.green)
    ∷ (bytes "blue", MarkerColorType.blue)
    ∷ []

abbrev pub page_orientation_by_value : GoMap PageOrientationType
page_orientation_by_value =
    (bytes "3", PageOrientationType.portrait)
    ∷ (bytes "4", PageOrientationType.landscape)
    ∷ (bytes "auto", PageOrientationType.auto)
    ∷ []

abbrev pub keyword_option : GoString → ColorType → GoString → ColorOption
keyword_option keyword type name = record {
  vendor_id = attr_print_color_mode ++ bytes ":" ++ keyword;
  type = type;
  custom_display_name = [];
  is_default = false;
  custom_display_name_localized = some (new_localized_string name);
}

abbrev pub color_by_keyword : GoMap ColorOption
color_by_keyword =
    (bytes "auto", keyword_option (bytes "auto") ColorType.type_auto (bytes "Auto"))
    ∷ (bytes "color", keyword_option (bytes "color") ColorType.type_standard_color (bytes "Color"))
    ∷ (
      bytes "monochrome",
      keyword_option (bytes "monochrome") ColorType.type_standard_monochrome (bytes "Monochrome"),
    )
    ∷ []
