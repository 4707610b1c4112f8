-- ===== src/Attributes/Required.antt =====
-- The attributes that the connector asks CUPS for, and what it makes of their values:
-- `checkPrinterAttributes` and the end of `attributesToTags` of `cups/cups.go`.
use cc_deb_pkg.Prelude.{
  ◌≡◌, ◌≢◌, ◌↔◌, ◌⊎◌, inl, inr, refl, Bool, true, false, Bool-cases, ◌||◌, Option, none, some, List,
  [], ◌∷◌, ◌++◌, All, join, GoString, bytes, str_eq, if◌then◌else◌,
}
use cc_deb_pkg.Attributes.Names.{
  attr_copies_default, attr_copies_supported, attr_device_uri, attr_document_format_supported,
  attr_marker_levels, attr_marker_names, attr_marker_types, attr_number_up_default,
  attr_number_up_supported, attr_orientation_requested_default,
  attr_orientation_requested_supported, attr_pdf_versions_supported, attr_print_color_mode_default,
  attr_print_color_mode_supported, attr_printer_info, attr_printer_name, attr_printer_state,
  attr_printer_state_reasons, attr_printer_uuid,
}

abbrev pub required_printer_attributes : List GoString
required_printer_attributes =
    attr_copies_default ∷ attr_copies_supported ∷ attr_device_uri ∷ attr_document_format_supported
    ∷ attr_marker_levels ∷ attr_marker_names ∷ attr_marker_types ∷ attr_number_up_default
    ∷ attr_number_up_supported ∷ attr_orientation_requested_default
    ∷ attr_orientation_requested_supported ∷ attr_pdf_versions_supported
    ∷ attr_print_color_mode_default ∷ attr_print_color_mode_supported ∷ attr_printer_info
    ∷ attr_printer_name ∷ attr_printer_state ∷ attr_printer_state_reasons ∷ attr_printer_uuid ∷ []

unfoldable pub contains : List GoString → GoString → Bool
contains [] needle = false
contains (h ∷ haystack) needle = str_eq needle h || contains haystack needle

unfoldable pub find_missing : List GoString → List GoString → List GoString
find_missing haystack [] = []
find_missing haystack (n ∷ needles) =
    let rest = find_missing haystack needles in if contains haystack n then rest else n ∷ rest

abbrev missing_error : List GoString → Option GoString
missing_error [] = none
missing_error (m ∷ ms) =
    some (bytes "Printer attributes missing from config file: " ++ join (bytes ",") (m ∷ ms))

-- `none` is no error.
unfoldable pub check_printer_attributes : List GoString → Option GoString
unfolding contains find_missing
check_printer_attributes attributes =
    if contains attributes (bytes "all")
    then none
    else missing_error (find_missing attributes required_printer_attributes)

-- A value that is the only one and says nothing leaves an empty list.
unfoldable pub tag_values : List GoString → List GoString
tag_values (v ∷ []) = if str_eq v (bytes "none") || str_eq v [] then [] else v ∷ []
tag_values vs = vs

find_missing_iff :
    (haystack needles : List GoString)
    → (missing_error (find_missing haystack needles) ≡ none)
      ↔ All (λ n. contains haystack n ≡ true) needles
unfolding find_missing
find_missing_iff haystack [] = (λ h. tt, λ h. refl)
find_missing_iff haystack (n ∷ needles) = elim (Bool-cases (contains haystack n)) [
  | inl q ↦ (
    (λ h. (q, (find_missing_iff haystack needles).0 (rw q at h))),
    (λ h. rw q ((find_missing_iff haystack needles).1 h.1)),
  )
  | inr q ↦ ((λ h. absurd (no_error _ _ (rw q at h))), (λ h. absurd (apart q h.0)))
]
  where
    no_error : (m : GoString) (ms : List GoString) → missing_error (m ∷ ms) ≢ none
    no_error m ms h = absurd cc

    apart : {b : Bool} → b ≡ false → b ≢ true
    apart e h = absurd cc

unless_iff :
    (b : Bool) (r : Option GoString) (P : Type 0)
    → (r ≡ none) ↔ P
    → ((if b then none else r) ≡ none) ↔ ((b ≡ true) ⊎ P)
unless_iff true r P e = (λ h. inl refl, λ h. refl)
unless_iff false r P e = (λ h. inr (e.0 h), λ h. elim h [ inl q ↦ absurd cc | inr p ↦ e.1 p ])

-- The configuration is accepted exactly if it asks for all attributes, or for each required one.
check_printer_attributes_iff :
    (attributes : List GoString)
    → (check_printer_attributes attributes ≡ none) ↔ (
        (contains attributes (bytes "all") ≡ true)
        ⊎ All (λ n. contains attributes n ≡ true) required_printer_attributes)
unfolding check_printer_attributes
check_printer_attributes_iff attributes =
    unless_iff (contains attributes (bytes "all"))
      (missing_error (find_missing attributes required_printer_attributes))
      (All (λ n. contains attributes n ≡ true) required_printer_attributes)
      (find_missing_iff attributes required_printer_attributes)
