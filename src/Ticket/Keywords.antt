-- ===== src/Ticket/Keywords.antt =====
-- The PPD keywords of job options, and the tables from what the cloud says to them: constants of
-- `cups/translate-ppd.go` and `cups/translate-attrs.go`.
use cc_deb_pkg.Prelude.{◌++◌, GoString, bytes, Option, none, some}
use cc_deb_pkg.Cdd.Ticket.{DuplexType, PageOrientationType}

abbrev pub ppd_duplex : GoString
ppd_duplex = bytes "Duplex"

abbrev pub ppd_page_size : GoString
ppd_page_size = bytes "PageSize"

abbrev pub ppd_resolution : GoString
ppd_resolution = bytes "Resolution"

-- "JobType:LockedPrint/LockedPrintPassword"
abbrev pub ricoh_password_vendor_id : GoString
ricoh_password_vendor_id =
    bytes "JobType" ++ bytes ":" ++ bytes "LockedPrint" ++ bytes "/" ++ bytes "LockedPrintPassword"

unfoldable pub duplex_ppd_by_cdd : DuplexType → Option GoString
duplex_ppd_by_cdd DuplexType.no_duplex = some (bytes "None")
duplex_ppd_by_cdd DuplexType.long_edge = some (bytes "DuplexNoTumble")
duplex_ppd_by_cdd DuplexType.short_edge = some (bytes "DuplexTumble")
duplex_ppd_by_cdd (DuplexType.unlisted s) = none

unfoldable pub orientation_value_by_type : PageOrientationType → Option GoString
orientation_value_by_type PageOrientationType.portrait = some (bytes "3")
orientation_value_by_type PageOrientationType.landscape = some (bytes "4")
orientation_value_by_type _ = none
