-- ===== src/Ppd/Duplexing.antt =====
-- `convertDuplex` and `convertKMDuplex` of `cups/translate-ppd.go`.
pub mod Offered
use cc_deb_pkg.Prelude.{
  Bool, true, false, ◌||◌, Option, none, some, List, [], ◌∷◌, ◌++◌, GoString, bytes, str_eq,
  starts_with, if◌then◌else◌,
}
use cc_deb_pkg.Cdd.Capabilities.{Duplex, DuplexOption}
use cc_deb_pkg.Cdd.Ticket.{DuplexType}
use cc_deb_pkg.Ppd.{Statement}
use cc_deb_pkg.Ppd.Entries.{Entry, has_option}
use cc_deb_pkg.Ppd.Keywords.{
  ppd_duplex_no_tumble, ppd_duplex_tumble, ppd_false, ppd_km_double, ppd_km_single, ppd_none,
  ppd_true,
}

abbrev pub first_default : List DuplexOption → List DuplexOption
first_default [] = []
first_default (o ∷ os) = record o { is_default = true } ∷ os

-- What both functions do last: nil on no options; the first is the default if none was found.
abbrev pub duplex_of : Bool → List DuplexOption → Option Duplex
duplex_of found [] = none
duplex_of true (o ∷ os) = some (record { option = o ∷ os })
duplex_of false (o ∷ os) = some (record { option = first_default (o ∷ os) })

-- One of the three blocks of `convertDuplex`.
abbrev pub offered : Entry → GoString → DuplexType → List DuplexOption
offered e keyword type =
    if has_option keyword e.options
    then record { type = type; is_default = str_eq keyword e.default_value } ∷ []
    else []

abbrev pub is_found : Entry → GoString → Bool
is_found e keyword = if has_option keyword e.options then str_eq keyword e.default_value else false

unfoldable pub convert_duplex : Entry → Option Duplex
unfolding has_option
convert_duplex e =
    duplex_of
      (is_found e ppd_none || is_found e ppd_duplex_no_tumble || is_found e ppd_duplex_tumble)
      (offered e ppd_none DuplexType.no_duplex
        ++ offered e ppd_duplex_no_tumble DuplexType.long_edge
        ++ offered e ppd_duplex_tumble DuplexType.short_edge)

-- The type that `convertKMDuplex` sees in an option.
unfoldable pub km_duplex_type : GoString → Option DuplexType
km_duplex_type k =
    if str_eq k ppd_false || str_eq k ppd_km_single
    then some DuplexType.no_duplex
    else if str_eq k ppd_true || str_eq k ppd_km_double
    then some DuplexType.long_edge
    else if starts_with k (bytes "1")
    then some DuplexType.no_duplex
    else if starts_with k (bytes "2")
    then some DuplexType.long_edge
    else none

unfoldable pub km_options : GoString → List Statement → List DuplexOption
unfolding km_duplex_type
km_options default [] = []
km_options default (o ∷ os) =
    let rest = km_options default os in
    elim (km_duplex_type o.option_keyword) [
      | some type ↦ record { type = type; is_default = str_eq o.option_keyword default } ∷ rest
      | none ↦ rest
    ]

-- Every option that is added sets `foundDefault`, also one that is not the default.
abbrev found_any : List DuplexOption → Bool
found_any [] = false
found_any (o ∷ os) = true

unfoldable pub convert_km_duplex : Entry → Option Duplex
unfolding km_options
convert_km_duplex e =
    let options = km_options e.default_value e.options in duplex_of (found_any options) options
