-- ===== src/Attributes/Translate.antt =====
-- `translateAttrs` of `cups/translate-attrs.go`: all parts of a printer, or a panic.
pub mod Total
use cc_deb_pkg.Prelude.{Option, none, some, List, [], ◌∷◌, map, GoString, bytes, join}
use cc_deb_pkg.Prelude.Answer.{Answer, panicked, unavailable, available}
use cc_deb_pkg.Prelude.GoMap.{GoMap}
use cc_deb_pkg.Cdd.Capabilities.{Color, Copies, VendorCapability}
use cc_deb_pkg.Cdd.Description.{PrinterDescriptionSection}
use cc_deb_pkg.Cdd.State.{
  CloudDeviceStateType, MarkerState, MarkerStateItem, PrinterStateSection, VendorState,
}
use cc_deb_pkg.Cdd.Units.{Marker}
use cc_deb_pkg.Attributes.Names.{attr_printer_info, attr_printer_name}
use cc_deb_pkg.Attributes.State.{Tags, values_of, get_state, get_uuid, get_vendor_state}
use cc_deb_pkg.Attributes.Content.{convert_supported_content_type}
use cc_deb_pkg.Attributes.Markers.{MarkerLists, convert_markers}
use cc_deb_pkg.Attributes.Options.{
  convert_color_attrs, convert_copies, convert_page_orientation, convert_pages_per_sheet,
}

pub record Translated : Type 0 where
  pub description : PrinterDescriptionSection
  pub state : PrinterStateSection
  pub name : GoString
  pub info : GoString
  pub uuid : GoString
  pub tags : GoMap GoString

-- The parts on which the function can panic, in a form with none.
pub record Parts : Type 0 where
  pub uuid : GoString
  pub state : CloudDeviceStateType
  pub copies : Option Copies
  pub color : Option Color
  pub pages : Option VendorCapability

-- The panic, or the value or nil.
abbrev pub no_panic {ℓ} : {A : Type ℓ} → Answer A → Option (Option A)
no_panic panicked = none
no_panic unavailable = some none
no_panic (available a) = some (some a)

abbrev pub collect :
    Option GoString
    → Option CloudDeviceStateType
    → Option (Option Copies)
    → Option (Option Color)
    → Option (Option VendorCapability)
    → Option Parts
collect (some uuid) (some state) (some copies) (some color) (some pages) =
    some (record { uuid = uuid; state = state; copies = copies; color = color; pages = pages })
collect _ _ _ _ _ = none

unfoldable pub parts : Tags → Option Parts
parts tags =
    collect (get_uuid tags) (get_state tags) (no_panic (convert_copies tags))
      (no_panic (convert_color_attrs tags)) (no_panic (convert_pages_per_sheet tags))

abbrev first_or_empty : List GoString → GoString
first_or_empty [] = []
first_or_empty (v ∷ vs) = v

abbrev capabilities : Option VendorCapability → List VendorCapability
capabilities none = []
capabilities (some c) = c ∷ []

abbrev marker_units : Option MarkerLists → Option (List Marker)
marker_units none = none
marker_units (some (ms, ss)) = some ms

abbrev marker_states : Option MarkerLists → Option MarkerState
marker_states none = none
marker_states (some (ms, ss)) = some (record { item = ss })

-- The reasons are sorted in the map before its values are joined.
abbrev pub translated : Tags → Tags × Option VendorState → Parts → Translated
translated tags (sorted, vendor_state) p = record {
  description = record {
    supported_content_type = convert_supported_content_type tags;
    printing_speed = none;
    pwg_raster_config = none;
    input_tray_unit = none;
    output_bin_unit = none;
    marker = marker_units (convert_markers tags);
    cover = none;
    media_path = none;
    vendor_capability = some (capabilities p.pages);
    color = p.color;
    duplex = none;
    page_orientation = convert_page_orientation tags;
    copies = p.copies;
    margins = none;
    dpi = none;
    fit_to_page = none;
    page_range = none;
    media_size = none;
    collate = none;
    reverse_order = none;
  };
  state = record {
    state = p.state;
    input_tray_state = none;
    output_bin_state = none;
    marker_state = marker_states (convert_markers tags);
    cover_state = none;
    media_path_state = none;
    vendor_state = vendor_state;
  };
  name = first_or_empty (values_of attr_printer_name tags);
  info = first_or_empty (values_of attr_printer_info tags);
  uuid = p.uuid;
  tags = map (λ e. (e.0, join (bytes ",") e.1)) sorted;
}

-- `none` is a panic.
unfoldable pub translate_attrs : Tags → Option Translated
translate_attrs tags = elim (parts tags) [
  | some p ↦ some (translated tags (get_vendor_state tags) p)
  | none ↦ none
]
