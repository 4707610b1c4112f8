-- ===== src/Cdd/Ticket.antt =====
-- Print tickets: `cdd/cjt.go`, with the types of its options from `cdd/cdd.go`.
-- A type of named strings is the enumeration of its constants; `unlisted` is any other string.
use cc_deb_pkg.Prelude.{Bool, GoString, List, Option, ℤ}

pub data ColorType : Type 0 where
  type_standard_color type_standard_monochrome type_custom_color type_custom_monochrome type_auto :
      ColorType
  unlisted : GoString → ColorType

pub data DuplexType : Type 0 where
  no_duplex long_edge short_edge : DuplexType
  unlisted : GoString → DuplexType

pub data PageOrientationType : Type 0 where
  portrait landscape auto : PageOrientationType
  unlisted : GoString → PageOrientationType

pub data FitToPageType : Type 0 where
  no_fitting fit_to_page grow_to_page shrink_to_page fill_page : FitToPageType
  unlisted : GoString → FitToPageType

pub record PageRangeInterval : Type 0 where
  pub start : ℤ
  pub end : ℤ

pub record VendorTicketItem : Type 0 where
  pub id : GoString
  pub value : GoString

pub record ColorTicketItem : Type 0 where
  pub vendor_id : GoString
  pub type : ColorType

pub record DuplexTicketItem : Type 0 where
  pub type : DuplexType

pub record PageOrientationTicketItem : Type 0 where
  pub type : PageOrientationType

pub record CopiesTicketItem : Type 0 where
  pub copies : ℤ

pub record MarginsTicketItem : Type 0 where
  pub top_microns : ℤ
  pub right_microns : ℤ
  pub bottom_microns : ℤ
  pub left_microns : ℤ

pub record DpiTicketItem : Type 0 where
  pub horizontal_dpi : ℤ
  pub vertical_dpi : ℤ
  pub vendor_id : GoString

pub record FitToPageTicketItem : Type 0 where
  pub type : FitToPageType

pub record PageRangeTicketItem : Type 0 where
  pub interval : List PageRangeInterval

pub record MediaSizeTicketItem : Type 0 where
  pub width_microns : ℤ
  pub height_microns : ℤ
  pub is_continuous_feed : Bool
  pub vendor_id : GoString

pub record CollateTicketItem : Type 0 where
  pub collate : Bool

pub record ReverseOrderTicketItem : Type 0 where
  pub reverse_order : Bool

pub record PrintTicketSection : Type 0 where
  pub vendor_ticket_item : List VendorTicketItem
  pub color : Option ColorTicketItem
  pub duplex : Option DuplexTicketItem
  pub page_orientation : Option PageOrientationTicketItem
  pub copies : Option CopiesTicketItem
  pub margins : Option MarginsTicketItem
  pub dpi : Option DpiTicketItem
  pub fit_to_page : Option FitToPageTicketItem
  pub page_range : Option PageRangeTicketItem
  pub media_size : Option MediaSizeTicketItem
  pub collate : Option CollateTicketItem
  pub reverse_order : Option ReverseOrderTicketItem

pub record CloudJobTicket : Type 0 where
  pub version : GoString
  pub print : PrintTicketSection
