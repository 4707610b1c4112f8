-- ===== src/Cdd/Description.antt =====
-- `PrinterDescriptionSection` of `cdd/cdd.go`.
use cc_deb_pkg.Prelude.{GoString, List, Option}
use cc_deb_pkg.Cdd.Capabilities.{
  Collate, Color, Copies, Dpi, Duplex, FitToPage, Margins, MediaSize, PageOrientation, PageRange,
  ReverseOrder, VendorCapability,
}
use cc_deb_pkg.Cdd.Units.{
  Cover, InputTrayUnit, Marker, MediaPath, OutputBinUnit, PrintingSpeed, PwgRasterConfig,
  SupportedContentType,
}

pub record PrinterDescriptionSection : Type 0 where
  pub supported_content_type : Option (List SupportedContentType)
  pub printing_speed : Option PrintingSpeed
  pub pwg_raster_config : Option PwgRasterConfig
  pub input_tray_unit : Option (List InputTrayUnit)
  pub output_bin_unit : Option (List OutputBinUnit)
  pub marker : Option (List Marker)
  pub cover : Option (List Cover)
  pub media_path : Option (List MediaPath)
  pub vendor_capability : Option (List VendorCapability)
  pub color : Option Color
  pub duplex : Option Duplex
  pub page_orientation : Option PageOrientation
  pub copies : Option Copies
  pub margins : Option Margins
  pub dpi : Option Dpi
  pub fit_to_page : Option FitToPage
  pub page_range : Option PageRange
  pub media_size : Option MediaSize
  pub collate : Option Collate
  pub reverse_order : Option ReverseOrder

pub record CloudDeviceDescription : Type 0 where
  pub version : GoString
  pub printer : Option PrinterDescriptionSection
