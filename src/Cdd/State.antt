-- ===== src/Cdd/State.antt =====
-- Printer states: `cdd/cds.go`.
-- A type of named strings is the enumeration of its constants; `unlisted` is any other string.
use cc_deb_pkg.Prelude.{GoString, List, Option, ℤ}
use cc_deb_pkg.Cdd.Localized.{LocalizedString}

pub data CloudConnectionStateType : Type 0 where
  unknown not_configured online offline : CloudConnectionStateType
  unlisted : GoString → CloudConnectionStateType

pub data CloudDeviceStateType : Type 0 where
  idle processing stopped : CloudDeviceStateType
  unlisted : GoString → CloudDeviceStateType

pub data InputTrayStateType : Type 0 where
  ok empty opened off failure : InputTrayStateType
  unlisted : GoString → InputTrayStateType

pub record InputTrayStateItem : Type 0 where
  pub vendor_id : GoString
  pub state : InputTrayStateType
  pub level_percent : Option ℤ
  pub vendor_message : GoString

pub record InputTrayState : Type 0 where
  pub item : List InputTrayStateItem

pub data OutputBinStateType : Type 0 where
  ok full opened off failure : OutputBinStateType
  unlisted : GoString → OutputBinStateType

pub record OutputBinStateItem : Type 0 where
  pub vendor_id : GoString
  pub state : OutputBinStateType
  pub level_percent : Option ℤ
  pub vendor_message : GoString

pub record OutputBinState : Type 0 where
  pub item : List OutputBinStateItem

pub data MarkerStateType : Type 0 where
  ok exhausted removed failure : MarkerStateType
  unlisted : GoString → MarkerStateType

pub record MarkerStateItem : Type 0 where
  pub vendor_id : GoString
  pub state : MarkerStateType
  pub level_percent : Option ℤ
  pub level_pages : Option ℤ
  pub vendor_message : GoString

pub record MarkerState : Type 0 where
  pub item : List MarkerStateItem

pub data CoverStateType : Type 0 where
  ok opened failure : CoverStateType
  unlisted : GoString → CoverStateType

pub record CoverStateItem : Type 0 where
  pub vendor_id : GoString
  pub state : CoverStateType
  pub vendor_message : GoString

pub record CoverState : Type 0 where
  pub item : List CoverStateItem

pub data MediaPathStateType : Type 0 where
  ok media_jam failure : MediaPathStateType
  unlisted : GoString → MediaPathStateType

pub record MediaPathStateItem : Type 0 where
  pub vendor_id : GoString
  pub state : MediaPathStateType
  pub vendor_message : GoString

pub record MediaPathState : Type 0 where
  pub item : List MediaPathStateItem

pub data VendorStateType : Type 0 where
  error warning info : VendorStateType
  unlisted : GoString → VendorStateType

pub record VendorStateItem : Type 0 where
  pub state : VendorStateType
  pub description : GoString
  pub description_localized : Option (List LocalizedString)

pub record VendorState : Type 0 where
  pub item : List VendorStateItem

pub record PrinterStateSection : Type 0 where
  pub state : CloudDeviceStateType
  pub input_tray_state : Option InputTrayState
  pub output_bin_state : Option OutputBinState
  pub marker_state : Option MarkerState
  pub cover_state : Option CoverState
  pub media_path_state : Option MediaPathState
  pub vendor_state : Option VendorState

pub record CloudDeviceState : Type 0 where
  pub version : GoString
  pub cloud_connection_state : Option CloudConnectionStateType
  pub printer : Option PrinterStateSection
