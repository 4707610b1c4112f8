-- ===== src/Attributes/Content.antt =====
-- The formats that a printer takes: `getAdobeVersionRange` and `convertSupportedContentType` of
-- `cups/translate-attrs.go`.
pub mod Range
use cc_deb_pkg.Prelude.{
  ℕ, Bool, true, false, ◌||◌, ◌&&◌, not, Option, none, some, List, [], ◌∷◌, ◌++◌, map, drop, length,
  GoString, bytes, str_eq, str_lt, starts_with, keep_if, ◌==◌, if◌then◌else◌,
}
use cc_deb_pkg.Prelude.GoMap.{lookup}
use cc_deb_pkg.Cdd.Units.{SupportedContentType}
use cc_deb_pkg.Attributes.Names.{attr_document_format_supported, attr_pdf_versions_supported}
use cc_deb_pkg.Attributes.State.{Tags, values_of}
use cc_deb_pkg.Attributes.Tables.{mime_types_allowed}

-- An ASCII space that is no newline.
abbrev is_blank : ℕ → Bool
is_blank c = c == b' ' || c == 9 || c == 11 || c == 12 || c == 13

-- `%s`: the bytes up to a space.
unfoldable pub scan_word : GoString → GoString
scan_word [] = []
scan_word (c ∷ s) = let rest = scan_word s in if is_blank c || c == 10 then [] else c ∷ rest

-- Blanks are skipped; a newline or the end of the text is an error.
unfoldable pub scan_blanks : GoString → Option GoString
unfolding scan_word
scan_blanks [] = none
scan_blanks (c ∷ s) =
    let rest = scan_blanks s in
    if c == 10 then none else if is_blank c then rest else some (scan_word (c ∷ s))

-- `fmt.Sscanf(s, "adobe-%s", &v)`, with an empty `v` as an error.
unfoldable pub scan_adobe : GoString → Option GoString
unfolding scan_blanks
scan_adobe s =
    if starts_with s (bytes "adobe-") then scan_blanks (drop (length (bytes "adobe-")) s) else none

-- The lower and the upper of two versions, where the empty one is none.
abbrev pub lower_version : GoString → GoString → GoString
lower_version min v = if str_eq min [] || str_lt v min then v else min

abbrev pub upper_version : GoString → GoString → GoString
upper_version max v = if str_eq max [] || str_lt max v then v else max

abbrev pub widen : GoString × GoString → Option GoString → GoString × GoString
widen range none = range
widen (min, max) (some v) = (lower_version min v, upper_version max v)

-- The loop over the versions supported.
unfoldable pub version_loop : GoString × GoString → List GoString → GoString × GoString
version_loop range [] = range
version_loop range (s ∷ ss) = version_loop (widen range (scan_adobe s)) ss

unfoldable pub get_adobe_version_range : List GoString → GoString × GoString
unfolding version_loop
get_adobe_version_range versions = version_loop ([], []) versions

unfoldable pub member : List GoString → GoString → Bool
member [] s = false
member (t ∷ ts) s = str_eq t s || member ts s

-- A format that is added behind PDF and PostScript.
unfoldable pub is_extra : GoString → Bool
unfolding member
is_extra mime =
    not (
      str_eq mime (bytes "application/pdf")
      || str_eq mime (bytes "application/postscript")
      || str_eq mime (bytes "image/pwg-raster"))
    && member mime_types_allowed mime

abbrev plain_type : GoString → SupportedContentType
plain_type mime = record { content_type = mime; min_version = []; max_version = [] }

abbrev pdf_type : GoString × GoString → SupportedContentType
pdf_type (min, max) =
    if not (str_eq min []) && not (str_eq max [])
    then record { content_type = bytes "application/pdf"; min_version = min; max_version = max }
    else plain_type (bytes "application/pdf")

abbrev content_types : Tags → Option (List GoString) → Option (List SupportedContentType)
content_types tags (some (m ∷ ms)) = some (
    pdf_type (get_adobe_version_range (values_of attr_pdf_versions_supported tags))
    ∷ plain_type (bytes "application/postscript")
    ∷ map plain_type (keep_if is_extra (m ∷ ms)))
content_types tags _ = none

unfoldable pub convert_supported_content_type : Tags → Option (List SupportedContentType)
convert_supported_content_type tags =
    content_types tags (lookup attr_document_format_supported tags)
