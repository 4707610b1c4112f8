-- ===== src/Ppd/Keywords.antt =====
-- The keywords of PPD files: constants of `cups/translate-ppd.go`.
use cc_deb_pkg.Prelude.{GoString, bytes}

abbrev pub ppd_boolean : GoString
ppd_boolean = bytes "Boolean"

abbrev pub ppd_close_group : GoString
ppd_close_group = bytes "CloseGroup"

abbrev pub ppd_close_sub_group : GoString
ppd_close_sub_group = bytes "CloseSubGroup"

abbrev pub ppd_close_ui : GoString
ppd_close_ui = bytes "CloseUI"

abbrev pub ppd_default : GoString
ppd_default = bytes "Default"

abbrev pub ppd_duplex_no_tumble : GoString
ppd_duplex_no_tumble = bytes "DuplexNoTumble"

abbrev pub ppd_duplex_tumble : GoString
ppd_duplex_tumble = bytes "DuplexTumble"

abbrev pub ppd_false : GoString
ppd_false = bytes "False"

abbrev pub ppd_installable_options : GoString
ppd_installable_options = bytes "InstallableOptions"

abbrev pub ppd_jcl_close_ui : GoString
ppd_jcl_close_ui = bytes "JCLCloseUI"

abbrev pub ppd_jcl_open_ui : GoString
ppd_jcl_open_ui = bytes "JCLOpenUI"

abbrev pub ppd_none : GoString
ppd_none = bytes "None"

abbrev pub ppd_open_group : GoString
ppd_open_group = bytes "OpenGroup"

abbrev pub ppd_open_sub_group : GoString
ppd_open_sub_group = bytes "OpenSubGroup"

abbrev pub ppd_open_ui : GoString
ppd_open_ui = bytes "OpenUI"

abbrev pub ppd_pick_one : GoString
ppd_pick_one = bytes "PickOne"

abbrev pub ppd_true : GoString
ppd_true = bytes "True"

abbrev pub ppd_ui_constraints : GoString
ppd_ui_constraints = bytes "UIConstraints"

abbrev pub ppd_km_single : GoString
ppd_km_single = bytes "Single"

abbrev pub ppd_km_double : GoString
ppd_km_double = bytes "Double"
