-- ===== src/Tests/Tickets.antt =====
-- Runs of the translation of tickets.
use cc_deb_pkg.Prelude.{
  ℕ, ◌≢◌, ◌≡◌, ◌↔◌, refl, none, some, List, [], ◌∷◌, bytes, str_eq, split_byte, pos,
}
use cc_deb_pkg.Prelude.GoMap.{insert, lookup}
use cc_deb_pkg.Prelude.Strconv.{format_int, format_uint, digit_char}
use cc_deb_pkg.Cdd.Ticket.{
  CloudJobTicket, ColorType, FitToPageType, PrintTicketSection, VendorTicketItem,
}
use cc_deb_pkg.Attributes.Names.{attr_print_color_mode}
use cc_deb_pkg.Attributes.Options.{color_option}
use cc_deb_pkg.Ticket.{
  Options, cut_colon, has_newline, is_ricoh_password, set_collate, set_color, set_copies, set_dpi,
  set_duplex, set_fields, set_fit_to_page, set_margins, set_media_size, set_option,
  set_page_orientation, set_reverse_order, translate_ticket, vendor_id_key_value, vendor_items,
}
use cc_deb_pkg.Ticket.Accepted.{HasMalformed, IsFourDigits, translate_ticket_iff}
use cc_deb_pkg.Ticket.Assignments.{last_value}
use cc_deb_pkg.Ticket.Reading.{code_reading, code_reading-IsReading}
use cc_deb_pkg.Ticket.Colors.{set_color-color_option}
use cc_deb_pkg.Ticket.Fields.{assignments, lookup-translate_ticket}

abbrev print : List VendorTicketItem → PrintTicketSection
print items = record {
  vendor_ticket_item = items;
  color = none;
  duplex = none;
  page_orientation = none;
  copies = some (record { copies = pos 2 });
  margins = none;
  dpi = some (record { horizontal_dpi = pos 600; vertical_dpi = pos 300; vendor_id = [] });
  fit_to_page = some (record { type = FitToPageType.no_fitting });
  page_range = none;
  media_size = none;
  collate = none;
  reverse_order = none;
}

abbrev ticket : List VendorTicketItem → CloudJobTicket
ticket items = record { version = bytes "1.0"; print = print items }

-- Two options in one item; the first has a value of its own.
abbrev items : List VendorTicketItem
items = record { id = bytes "Mode:A:B/copies"; value = bytes "7" } ∷ []

abbrev options : Options
options =
    (bytes "Mode", bytes "A:B")
    ∷ (bytes "copies", bytes "2")
    ∷ (bytes "Resolution", bytes "600x300dpi")
    ∷ (bytes "fit-to-page", bytes "false")
    ∷ []

translate_ticket_run : translate_ticket (some (ticket items)) ≡ some options
unfolding translate_ticket set_fields set_option vendor_items set_collate set_color set_copies
    set_dpi set_duplex set_fit_to_page set_margins set_media_size set_page_orientation
    set_reverse_order vendor_id_key_value cut_colon has_newline split_byte insert str_eq format_int
    format_uint digit_char is_ricoh_password
translate_ticket_run = refl

lookup-translate_ticket_example :
    lookup (bytes "copies") options
    ≡ last_value (bytes "copies") (assignments code_reading (ticket items).print) none
lookup-translate_ticket_example =
    lookup-translate_ticket code_reading code_reading-IsReading (ticket items) options
      (bytes "copies") translate_ticket_run

-- A password of three digits.
abbrev short_password : List VendorTicketItem
short_password =
    record { id = bytes "JobType:LockedPrint/LockedPrintPassword"; value = bytes "123" } ∷ []

translate_ticket_iff_example :
    (translate_ticket (some (ticket short_password)) ≡ none) ↔ HasMalformed short_password
translate_ticket_iff_example = translate_ticket_iff (ticket short_password)

short_password-rejected : translate_ticket (some (ticket short_password)) ≡ none
short_password-rejected = translate_ticket_iff_example.1 (record {
  index = 0;
  item = record { id = bytes "JobType:LockedPrint/LockedPrintPassword"; value = bytes "123" };
  listed = refl;
  malformed = record { named = refl; malformed = short };
})
  where
    short : ¬ IsFourDigits (bytes "123")
    short f = absurd (three _ _ _ _ f.all)
      where
        three : (a b c d : ℕ) → bytes "123" ≢ a ∷ b ∷ c ∷ d ∷ []
        three a b c d h = absurd cc

set_color-color_option_example :
    set_color
      (some (record {
        vendor_id = (color_option (bytes "color")).vendor_id;
        type = ColorType.type_standard_color;
      }))
      options
    ≡ insert attr_print_color_mode (bytes "color") options
unfolding has_newline
set_color-color_option_example =
    set_color-color_option b'c' (bytes "olor") ColorType.type_standard_color options refl
