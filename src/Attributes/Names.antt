-- ===== src/Attributes/Names.antt =====
-- The attribute names of CUPS that the connector reads and writes: the constants of `cups/cups.go`.
use cc_deb_pkg.Prelude.{GoString, bytes}

abbrev pub attr_cups_version : GoString
attr_cups_version = bytes "cups-version"

abbrev pub attr_copies_default : GoString
attr_copies_default = bytes "copies-default"

abbrev pub attr_copies_supported : GoString
attr_copies_supported = bytes "copies-supported"

abbrev pub attr_device_uri : GoString
attr_device_uri = bytes "device-uri"

abbrev pub attr_document_format_supported : GoString
attr_document_format_supported = bytes "document-format-supported"

abbrev pub attr_marker_levels : GoString
attr_marker_levels = bytes "marker-levels"

abbrev pub attr_marker_names : GoString
attr_marker_names = bytes "marker-names"

abbrev pub attr_marker_types : GoString
attr_marker_types = bytes "marker-types"

abbrev pub attr_number_up_default : GoString
attr_number_up_default = bytes "number-up-default"

abbrev pub attr_number_up_supported : GoString
attr_number_up_supported = bytes "number-up-supported"

abbrev pub attr_orientation_requested_default : GoString
attr_orientation_requested_default = bytes "orientation-requested-default"

abbrev pub attr_orientation_requested_supported : GoString
attr_orientation_requested_supported = bytes "orientation-requested-supported"

abbrev pub attr_pdf_versions_supported : GoString
attr_pdf_versions_supported = bytes "pdf-versions-supported"

abbrev pub attr_print_color_mode_default : GoString
attr_print_color_mode_default = bytes "print-color-mode-default"

abbrev pub attr_print_color_mode_supported : GoString
attr_print_color_mode_supported = bytes "print-color-mode-supported"

abbrev pub attr_printer_info : GoString
attr_printer_info = bytes "printer-info"

abbrev pub attr_printer_name : GoString
attr_printer_name = bytes "printer-name"

abbrev pub attr_printer_state : GoString
attr_printer_state = bytes "printer-state"

abbrev pub attr_printer_state_reasons : GoString
attr_printer_state_reasons = bytes "printer-state-reasons"

abbrev pub attr_printer_uuid : GoString
attr_printer_uuid = bytes "printer-uuid"

abbrev pub attr_copies : GoString
attr_copies = bytes "copies"

abbrev pub attr_collate : GoString
attr_collate = bytes "collate"

abbrev pub attr_false : GoString
attr_false = bytes "false"

abbrev pub attr_fit_to_page : GoString
attr_fit_to_page = bytes "fit-to-page"

abbrev pub attr_media_bottom_margin : GoString
attr_media_bottom_margin = bytes "media-bottom-margin"

abbrev pub attr_media_left_margin : GoString
attr_media_left_margin = bytes "media-left-margin"

abbrev pub attr_media_right_margin : GoString
attr_media_right_margin = bytes "media-right-margin"

abbrev pub attr_media_top_margin : GoString
attr_media_top_margin = bytes "media-top-margin"

abbrev pub attr_normal : GoString
attr_normal = bytes "normal"

abbrev pub attr_number_up : GoString
attr_number_up = bytes "number-up"

abbrev pub attr_orientation_requested : GoString
attr_orientation_requested = bytes "orientation-requested"

abbrev pub attr_output_order : GoString
attr_output_order = bytes "outputorder"

abbrev pub attr_print_color_mode : GoString
attr_print_color_mode = bytes "print-color-mode"

abbrev pub attr_reverse : GoString
attr_reverse = bytes "reverse"

abbrev pub attr_true : GoString
attr_true = bytes "true"

abbrev pub attr_job_media_sheets_completed : GoString
attr_job_media_sheets_completed = bytes "job-media-sheets-completed"

abbrev pub attr_job_state : GoString
attr_job_state = bytes "job-state"
