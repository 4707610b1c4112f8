-- ===== src/Cdd/Units.antt =====
-- The parts of a printer: trays, bins, markers, covers and paths of `cdd/cdd.go`.
-- A type of named strings is the enumeration of its constants; `unlisted` is any other string.
use cc_deb_pkg.Prelude.{ℕ, Bool, GoString, List, Option, ℤ}
use cc_deb_pkg.Cdd.Localized.{LocalizedString}
use cc_deb_pkg.Cdd.Ticket.{ColorType}

pub record SupportedContentType : Type 0 where
  pub content_type : GoString
  pub min_version : GoString
  pub max_version : GoString

pub record PrintingSpeedOption : Type 0 where
  -- The bits of a `float32`.
  pub speed_ppm : ℕ
  pub color_type : Option (List ColorType)
  pub media_size_name : Option (List GoString)

pub record PrintingSpeed : Type 0 where
  pub option : List PrintingSpeedOption

pub record PwgRasterConfigResolution : Type 0 where
  pub cross_feed_dir : ℤ
  pub feed_dir : ℤ

pub record PwgRasterConfig : Type 0 where
  pub document_resolution_supported : Option (List PwgRasterConfigResolution)
  pub document_type_supported : Option (List GoString)
  pub document_sheet_back : GoString
  pub reverse_order_streaming : Option Bool
  pub rotate_all_pages : Option Bool

pub data InputTrayUnitType : Type 0 where
  custom input_tray bypass_tray manual_feed_tray lct envelope_tray roll : InputTrayUnitType
  unlisted : GoString → InputTrayUnitType

pub record InputTrayUnit : Type 0 where
  pub vendor_id : GoString
  pub type : InputTrayUnitType
  pub index : Option ℤ
  pub custom_display_name : GoString
  pub custom_display_name_localized : Option (List LocalizedString)

pub data OutputBinUnitType : Type 0 where
  custom output_bin mailbox stacker : OutputBinUnitType
  unlisted : GoString → OutputBinUnitType

pub record OutputBinUnit : Type 0 where
  pub vendor_id : GoString
  pub type : OutputBinUnitType
  pub index : Option ℤ
  pub custom_display_name : GoString
  pub custom_display_name_localized : Option (List LocalizedString)

pub data MarkerType : Type 0 where
  custom toner ink staples : MarkerType
  unlisted : GoString → MarkerType

pub data MarkerColorType : Type 0 where
  custom black color cyan magenta yellow light_cyan light_magenta gray light_gray pigment_black
        matte_black photo_cyan photo_magenta photo_yellow photo_gray red green blue :
      MarkerColorType
  unlisted : GoString → MarkerColorType

pub record MarkerColor : Type 0 where
  pub type : MarkerColorType
  pub custom_display_name : GoString
  pub custom_display_name_localized : Option (List LocalizedString)

pub record Marker : Type 0 where
  pub vendor_id : GoString
  pub type : MarkerType
  pub color : Option MarkerColor
  pub custom_display_name : GoString
  pub custom_display_name_localized : Option (List LocalizedString)

pub data CoverType : Type 0 where
  type_custom type_door type_cover : CoverType
  unlisted : GoString → CoverType

pub record Cover : Type 0 where
  pub vendor_id : GoString
  pub type : CoverType
  pub index : Option ℤ
  pub custom_display_name : GoString
  pub custom_display_name_localized : Option (List LocalizedString)

pub record MediaPath : Type 0 where
  pub vendor_id : GoString
