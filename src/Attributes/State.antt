-- ===== src/Attributes/State.antt =====
-- The UUID, the state and the reasons of a printer: `getUUID`, `getState` and `getVendorState` of
-- `cups/translate-attrs.go`.
use cc_deb_pkg.Prelude.{
  Option, none, some, List, [], ◌∷◌, map, GoString, bytes, str_eq, str_lt, ends_with, trim_prefix,
  if◌then◌else◌,
}
use cc_deb_pkg.Prelude.GoMap.{GoMap, lookup, insert}
use cc_deb_pkg.Cdd.Localized.{new_localized_string}
use cc_deb_pkg.Cdd.State.{CloudDeviceStateType, VendorState, VendorStateItem, VendorStateType}
use cc_deb_pkg.Attributes.Names.{
  attr_printer_name, attr_printer_state, attr_printer_state_reasons, attr_printer_uuid,
}

abbrev pub Tags : Type 0
Tags = GoMap (List GoString)

-- `printerTags[k]`: the empty list on a missing key.
unfoldable pub values_of : GoString → Tags → List GoString
values_of k tags = elim (lookup k tags) [ some vs ↦ vs | none ↦ [] ]

-- `vs[0]`: a panic, `none`, on no value.
abbrev pub first : List GoString → Option GoString
first [] = none
first (v ∷ vs) = some v

abbrev pub named_uuid : Option (List GoString) → Option GoString
named_uuid (some ns) = first ns
named_uuid none = some []

abbrev pub uuid_of : Option GoString → Option GoString
uuid_of (some u) = some (trim_prefix (trim_prefix u (bytes "urn:")) (bytes "uuid:"))
uuid_of none = none

-- `none` is a panic.
unfoldable pub get_uuid : Tags → Option GoString
get_uuid tags = elim (lookup attr_printer_uuid tags) [
  | some us ↦ uuid_of (first us)
  | none ↦ named_uuid (lookup attr_printer_name tags)
]

abbrev state_of : GoString → CloudDeviceStateType
state_of s =
    if str_eq s (bytes "3")
    then CloudDeviceStateType.idle
    else if str_eq s (bytes "4")
    then CloudDeviceStateType.processing
    else if str_eq s (bytes "5")
    then CloudDeviceStateType.stopped
    else CloudDeviceStateType.idle

abbrev pub first_state : List GoString → Option CloudDeviceStateType
first_state [] = none
first_state (s ∷ ss) = some (state_of s)

-- `none` is a panic.
unfoldable pub get_state : Tags → Option CloudDeviceStateType
get_state tags = elim (lookup attr_printer_state tags) [
  | some ss ↦ first_state ss
  | none ↦ some CloudDeviceStateType.idle
]

-- `sort.Strings`: strings that are not ordered are equal, so any sort gives this list.
unfoldable pub insert_string : GoString → List GoString → List GoString
insert_string s [] = s ∷ []
insert_string s (t ∷ ts) =
    let rest = insert_string s ts in if str_lt t s then t ∷ rest else s ∷ t ∷ ts

unfoldable pub sort_strings : List GoString → List GoString
unfolding insert_string
sort_strings [] = []
sort_strings (s ∷ ss) = insert_string s (sort_strings ss)

unfoldable pub reason_state : GoString → VendorStateType
unfolding ends_with
reason_state reason =
    if ends_with reason (bytes "-error")
    then VendorStateType.error
    else if ends_with reason (bytes "-warning")
    then VendorStateType.warning
    else if ends_with reason (bytes "-report")
    then VendorStateType.info
    else VendorStateType.error

abbrev reason_item : GoString → VendorStateItem
reason_item reason = record {
  state = reason_state reason;
  description = [];
  description_localized = some (new_localized_string reason);
}

abbrev reasons_state : Tags → Option (List GoString) → Tags × Option VendorState
reasons_state tags (some (r ∷ rs)) =
    let sorted = sort_strings (r ∷ rs) in
    (insert attr_printer_state_reasons sorted tags, some (record { item = map reason_item sorted }))
reasons_state tags _ = (tags, none)

-- The sort is in place: the map holds the sorted reasons afterwards.
unfoldable pub get_vendor_state : Tags → Tags × Option VendorState
get_vendor_state tags = reasons_state tags (lookup attr_printer_state_reasons tags)
