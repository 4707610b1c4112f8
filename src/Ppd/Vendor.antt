-- ===== src/Ppd/Vendor.antt =====
-- `convertVendorCapability` and `convertRicohLockedPrintPassword` of `cups/translate-ppd.go`. A panic is
-- `none`.
pub mod Selected
use cc_deb_pkg.Prelude.{
  Bool, true, false, ◌||◌, Option, none, some, List, [], ◌∷◌, map, GoString, bytes, str_eq,
  if◌then◌else◌,
}
use cc_deb_pkg.Cdd.Capabilities.{
  SelectCapabilityOption, TypedValueCapabilityValueType, VendorCapability, VendorCapabilityType,
}
use cc_deb_pkg.Cdd.Localized.{new_localized_string}
use cc_deb_pkg.Ppd.{Statement}
use cc_deb_pkg.Ppd.Entries.{Entry, EntryType, has_option}
use cc_deb_pkg.Ticket.Keywords.{ricoh_password_vendor_id}

unfoldable pub select_option : GoString → Statement → SelectCapabilityOption
select_option default o = record {
  value = o.option_keyword;
  display_name = [];
  is_default = str_eq default o.option_keyword;
  display_name_localized = some (new_localized_string o.translation);
}

abbrev pub select_default : List SelectCapabilityOption → Option (List SelectCapabilityOption)
select_default [] = none
select_default (o ∷ os) = some (record o { is_default = true } ∷ os)

-- The first option is the default if none has the value; it panics where there is no option.
abbrev pub selected : Bool → List SelectCapabilityOption → Option (List SelectCapabilityOption)
selected true os = some os
selected false os = select_default os

unfoldable pub select_options : Entry → Option (List SelectCapabilityOption)
unfolding has_option select_option
select_options e =
    selected (has_option e.default_value e.options) (map (select_option e.default_value) e.options)

abbrev select_capability : Entry → Option (List SelectCapabilityOption) → Option VendorCapability
select_capability e none = none
select_capability e (some os) = some (record {
  id = e.main_keyword;
  display_name = [];
  type = VendorCapabilityType.select;
  range_cap = none;
  select_cap = some (record { option = os });
  typed_value_cap = none;
  display_name_localized = some (new_localized_string e.translation);
})

abbrev boolean_capability : Entry → VendorCapability
boolean_capability e = record {
  id = e.main_keyword;
  display_name = [];
  type = VendorCapabilityType.typed_value;
  range_cap = none;
  select_cap = none;
  typed_value_cap =
      some
        (record { value_type = TypedValueCapabilityValueType.boolean; default = e.default_value });
  display_name_localized = some (new_localized_string e.translation);
}

abbrev typed_capability : EntryType → Entry → Option VendorCapability
typed_capability EntryType.pick_one e = select_capability e (select_options e)
typed_capability EntryType.boolean e = some (boolean_capability e)

unfoldable pub convert_vendor_capability : Entry → Option VendorCapability
unfolding select_options
convert_vendor_capability e = typed_capability e.entry_type e

-- nil where the job types have no locked print.
unfoldable pub convert_ricoh_locked_print_password : Entry → Entry → Option VendorCapability
unfolding has_option
convert_ricoh_locked_print_password job_type password =
    if has_option (bytes "LockedPrint") job_type.options
    then some (record {
      id = ricoh_password_vendor_id;
      display_name = [];
      type = VendorCapabilityType.typed_value;
      range_cap = none;
      select_cap = none;
      typed_value_cap =
          some (record { value_type = TypedValueCapabilityValueType.string; default = [] });
      display_name_localized = some (new_localized_string (bytes "Password (4 numbers)"));
    })
    else none
