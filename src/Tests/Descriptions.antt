-- ===== src/Tests/Descriptions.antt =====
-- Runs of `Absorb`.
use cc_deb_pkg.Prelude.{
  ltb, if◌then◌else◌, ◌≡◌, refl, none, some, List, [], ◌∷◌, ◌++◌, GoString, bytes,
}
use cc_deb_pkg.Cdd.Capabilities.{VendorCapability, VendorCapabilityType}
use cc_deb_pkg.Cdd.Description.{PrinterDescriptionSection}
use cc_deb_pkg.Cdd.Absorb.{absorb, absorb_idem, count_id, absorb-vendor_capability}

abbrev capability : GoString → VendorCapability
capability id = record {
  id = id;
  type = VendorCapabilityType.typed_value;
  display_name = [];
  display_name_localized = none;
  range_cap = none;
  select_cap = none;
  typed_value_cap = none;
}

abbrev description : List VendorCapability → PrinterDescriptionSection
description vs = record {
  supported_content_type = none;
  printing_speed = none;
  pwg_raster_config = none;
  input_tray_unit = none;
  output_bin_unit = none;
  marker = none;
  cover = none;
  media_path = none;
  vendor_capability = some vs;
  color = none;
  duplex = none;
  page_orientation = none;
  copies = none;
  margins = none;
  dpi = none;
  fit_to_page = none;
  page_range = none;
  media_size = none;
  collate = none;
  reverse_order = none;
}

abbrev old_capabilities : List VendorCapability
old_capabilities = capability (bytes "a") ∷ []

abbrev new_capabilities : List VendorCapability
new_capabilities = capability (bytes "b") ∷ capability (bytes "a") ∷ []

absorb-vendor_capability_example :
    (added : List VendorCapability) × ((absorb
        (description old_capabilities)
        (description new_capabilities)).vendor_capability
      ≡ some (old_capabilities ++ added))
    × ((id : GoString)
        → count_id id (old_capabilities ++ added) ≡ (
            if ltb 0 (count_id id old_capabilities)
            then count_id id old_capabilities
            else count_id id new_capabilities))
absorb-vendor_capability_example =
    absorb-vendor_capability (description old_capabilities) (description new_capabilities)
      old_capabilities new_capabilities refl refl

absorb_idem_example :
    absorb
      (absorb (description old_capabilities) (description new_capabilities))
      (description new_capabilities)
    ≡ absorb (description old_capabilities) (description new_capabilities)
absorb_idem_example = absorb_idem (description old_capabilities) (description new_capabilities)
