-- ===== src/Cdd/Capabilities.antt =====
-- What a printer can do: the capabilities and media of `cdd/cdd.go`.
-- A type of named strings is the enumeration of its constants; `unlisted` is any other string.
use cc_deb_pkg.Prelude.{Bool, GoString, List, Option, ℤ}
use cc_deb_pkg.Cdd.Localized.{LocalizedString}
use cc_deb_pkg.Cdd.Ticket.{
  ColorType, DuplexType, FitToPageType, PageOrientationType, PageRangeInterval,
}

pub data VendorCapabilityType : Type 0 where
  range select typed_value : VendorCapabilityType
  unlisted : GoString → VendorCapabilityType

pub data RangeCapabilityValueType : Type 0 where
  float integer : RangeCapabilityValueType
  unlisted : GoString → RangeCapabilityValueType

pub record RangeCapability : Type 0 where
  pub value_type : RangeCapabilityValueType
  pub default : GoString
  pub min : GoString
  pub max : GoString

pub record SelectCapabilityOption : Type 0 where
  pub value : GoString
  pub display_name : GoString
  pub is_default : Bool
  pub display_name_localized : Option (List LocalizedString)

pub record SelectCapability : Type 0 where
  pub option : List SelectCapabilityOption

pub data TypedValueCapabilityValueType : Type 0 where
  boolean float integer string : TypedValueCapabilityValueType
  unlisted : GoString → TypedValueCapabilityValueType

pub record TypedValueCapability : Type 0 where
  pub value_type : TypedValueCapabilityValueType
  pub default : GoString

pub record VendorCapability : Type 0 where
  pub id : GoString
  pub display_name : GoString
  pub type : VendorCapabilityType
  pub range_cap : Option RangeCapability
  pub select_cap : Option SelectCapability
  pub typed_value_cap : Option TypedValueCapability
  pub display_name_localized : Option (List LocalizedString)

pub record ColorOption : Type 0 where
  pub vendor_id : GoString
  pub type : ColorType
  pub custom_display_name : GoString
  pub is_default : Bool
  pub custom_display_name_localized : Option (List LocalizedString)

pub record Color : Type 0 where
  pub option : List ColorOption

pub record DuplexOption : Type 0 where
  pub type : DuplexType
  pub is_default : Bool

pub record Duplex : Type 0 where
  pub option : List DuplexOption

pub record PageOrientationOption : Type 0 where
  pub type : PageOrientationType
  pub is_default : Bool

pub record PageOrientation : Type 0 where
  pub option : List PageOrientationOption

pub record Copies : Type 0 where
  pub default : ℤ
  pub max : ℤ

pub data MarginsType : Type 0 where
  borderless standard custom : MarginsType
  unlisted : GoString → MarginsType

pub record MarginsOption : Type 0 where
  pub type : MarginsType
  pub top_microns : ℤ
  pub right_microns : ℤ
  pub bottom_microns : ℤ
  pub left_microns : ℤ
  pub is_default : Bool

pub record Margins : Type 0 where
  pub option : List MarginsOption

pub record DpiOption : Type 0 where
  pub horizontal_dpi : ℤ
  pub vertical_dpi : ℤ
  pub is_default : Bool
  pub custom_display_name : GoString
  pub vendor_id : GoString
  pub custom_display_name_localized : Option (List LocalizedString)

pub record Dpi : Type 0 where
  pub option : List DpiOption
  pub min_horizontal_dpi : ℤ
  pub max_horizontal_dpi : ℤ
  pub min_vertical_dpi : ℤ
  pub max_vertical_dpi : ℤ

pub record FitToPageOption : Type 0 where
  pub type : FitToPageType
  pub is_default : Bool

pub record FitToPage : Type 0 where
  pub option : List FitToPageOption

pub record PageRange : Type 0 where
  pub interval : List PageRangeInterval

pub record MediaSizeOption : Type 0 where
  pub name : GoString
  pub width_microns : ℤ
  pub height_microns : ℤ
  pub is_continuous_feed : Bool
  pub is_default : Bool
  pub custom_display_name : GoString
  pub vendor_id : GoString
  pub custom_display_name_localized : Option (List LocalizedString)

pub record MediaSize : Type 0 where
  pub option : List MediaSizeOption
  pub max_width_microns : ℤ
  pub max_height_microns : ℤ
  pub min_width_microns : ℤ
  pub min_height_microns : ℤ

pub record Collate : Type 0 where
  pub default : Bool

pub record ReverseOrder : Type 0 where
  pub default : Bool
