-- ===== src/Ticket.antt =====
-- Job tickets: `translateTicket` of `cups/translate-ticket.go`. The options of a CUPS job are a map.
pub mod Keywords
pub mod Points
pub mod Accepted
pub mod Reading
pub mod Assignments
pub mod Fields
pub mod Colors
use cc_deb_pkg.Prelude.{
  ℕ, Bool, true, false, ◌||◌, ◌&&◌, not, Option, none, some, List, [], ◌∷◌, ◌++◌, GoString, bytes,
  str_eq, split_byte, leb, ◌==◌, if◌then◌else◌,
}
use cc_deb_pkg.Prelude.GoMap.{GoMap, insert}
use cc_deb_pkg.Prelude.Strconv.{format_int}
use cc_deb_pkg.Cdd.Ticket.{
  CloudJobTicket, CollateTicketItem, ColorTicketItem, CopiesTicketItem, DpiTicketItem,
  DuplexTicketItem, FitToPageTicketItem, FitToPageType, MarginsTicketItem, MediaSizeTicketItem,
  PageOrientationTicketItem, PrintTicketSection, ReverseOrderTicketItem, VendorTicketItem,
}
use cc_deb_pkg.Attributes.Names.{
  attr_collate, attr_copies, attr_false, attr_fit_to_page, attr_media_bottom_margin,
  attr_media_left_margin, attr_media_right_margin, attr_media_top_margin,
  attr_orientation_requested, attr_output_order, attr_true,
}
use cc_deb_pkg.Ticket.Keywords.{
  duplex_ppd_by_cdd, orientation_value_by_type, ppd_duplex, ppd_page_size, ppd_resolution,
  ricoh_password_vendor_id,
}
use cc_deb_pkg.Ticket.Points.{microns_to_points}

abbrev pub Options : Type 0
Options = GoMap GoString

-- The text up to the first colon, and what is behind it.
abbrev pub push_key : ℕ → GoString × Option GoString → GoString × Option GoString
push_key c (key, value) = (c ∷ key, value)

unfoldable pub cut_colon : GoString → GoString × Option GoString
cut_colon [] = ([], none)
cut_colon (c ∷ s) = let rest = cut_colon s in if c == b':' then ([], some s) else push_key c rest

unfoldable pub has_newline : GoString → Bool
has_newline [] = false
has_newline (c ∷ s) = let rest = has_newline s in c == b'\n' || rest

-- The groups of a match of `rVendorIDKeyValue`; the second is empty if it takes no part.
abbrev pub groups : GoString × Option GoString → Option (GoString × GoString)
groups ([], value) = none
groups (c ∷ key, none) = some (c ∷ key, [])
groups (c ∷ key, some []) = none
groups (c ∷ key, some (d ∷ value)) =
    if has_newline (d ∷ value) then none else some (c ∷ key, d ∷ value)

unfoldable pub vendor_id_key_value : GoString → Option (GoString × GoString)
unfolding cut_colon has_newline
vendor_id_key_value id = groups (cut_colon id)

abbrev is_digit : ℕ → Bool
is_digit c = leb b'0' c && leb c b'9'

-- `rRicohPasswordFormat`: four digits.
unfoldable pub is_ricoh_password : GoString → Bool
is_ricoh_password (a ∷ b ∷ c ∷ d ∷ []) = is_digit a && is_digit b && is_digit c && is_digit d
is_ricoh_password _ = false

-- A second group that is empty leaves the option and the item's value.
abbrev pub key_and_value : GoString → GoString → Option (GoString × GoString) → GoString × GoString
key_and_value option value none = (option, value)
key_and_value option value (some (k, [])) = (option, value)
key_and_value option value (some (k, c ∷ v)) = (k, c ∷ v)

unfoldable pub set_option : GoString → GoString → Options → Options
unfolding vendor_id_key_value
set_option value option m =
    let kv = key_and_value option value (vendor_id_key_value option) in insert kv.0 kv.1 m

abbrev pub set_options : GoString → List GoString → Options → Options
set_options value [] m = m
set_options value (o ∷ os) m = set_options value os (set_option value o m)

abbrev pub is_rejected : VendorTicketItem → Bool
is_rejected vti = str_eq vti.id ricoh_password_vendor_id && not (is_ricoh_password vti.value)

-- `none` is the error of a password's format.
unfoldable pub vendor_items : List VendorTicketItem → Options → Option Options
unfolding set_option is_ricoh_password
vendor_items [] m = some m
vendor_items (vti ∷ vtis) m =
    let rest = vendor_items vtis (set_options vti.value (split_byte b'/' vti.id) m) in
    if is_rejected vti then none else rest

abbrev pub set_group : Option (GoString × GoString) → Options → Options
set_group (some (k, c ∷ v)) m = insert k (c ∷ v) m
set_group _ m = m

unfoldable pub set_color : Option ColorTicketItem → Options → Options
unfolding vendor_id_key_value
set_color none m = m
set_color (some color) m = set_group (vendor_id_key_value color.vendor_id) m

abbrev pub set_found : GoString → Option GoString → Options → Options
set_found key none m = m
set_found key (some value) m = insert key value m

unfoldable pub set_duplex : Option DuplexTicketItem → Options → Options
unfolding duplex_ppd_by_cdd
set_duplex none m = m
set_duplex (some duplex) m = set_found ppd_duplex (duplex_ppd_by_cdd duplex.type) m

unfoldable pub set_page_orientation : Option PageOrientationTicketItem → Options → Options
unfolding orientation_value_by_type
set_page_orientation none m = m
set_page_orientation (some orientation) m =
    set_found attr_orientation_requested (orientation_value_by_type orientation.type) m

unfoldable pub set_copies : Option CopiesTicketItem → Options → Options
set_copies none m = m
set_copies (some copies) m = insert attr_copies (format_int copies.copies) m

unfoldable pub set_margins : Option MarginsTicketItem → Options → Options
set_margins none m = m
set_margins (some margins) m =
    insert attr_media_bottom_margin (microns_to_points margins.bottom_microns) (
      insert attr_media_top_margin (microns_to_points margins.top_microns) (
        insert attr_media_right_margin (microns_to_points margins.right_microns)
          (insert attr_media_left_margin (microns_to_points margins.left_microns) m)))

-- The vendor ID, or text made of the numbers.
abbrev pub vendor_or : GoString → GoString → GoString
vendor_or [] other = other
vendor_or (c ∷ id) other = c ∷ id

unfoldable pub set_dpi : Option DpiTicketItem → Options → Options
set_dpi none m = m
set_dpi (some dpi) m =
    insert ppd_resolution
      (vendor_or dpi.vendor_id
        (format_int dpi.horizontal_dpi ++ bytes "x" ++ format_int dpi.vertical_dpi ++ bytes "dpi"))
      m

abbrev pub fit_value : FitToPageType → Option GoString
fit_value FitToPageType.fit_to_page = some attr_true
fit_value FitToPageType.no_fitting = some attr_false
fit_value _ = none

unfoldable pub set_fit_to_page : Option FitToPageTicketItem → Options → Options
set_fit_to_page none m = m
set_fit_to_page (some fit) m = set_found attr_fit_to_page (fit_value fit.type) m

unfoldable pub set_media_size : Option MediaSizeTicketItem → Options → Options
set_media_size none m = m
set_media_size (some size) m =
    insert ppd_page_size
      (vendor_or size.vendor_id (
        bytes "Custom."
        ++ microns_to_points size.width_microns
        ++ bytes "x"
        ++ microns_to_points size.height_microns))
      m

unfoldable pub set_collate : Option CollateTicketItem → Options → Options
set_collate none m = m
set_collate (some collate) m =
    insert attr_collate (if collate.collate then attr_true else attr_false) m

unfoldable pub set_reverse_order : Option ReverseOrderTicketItem → Options → Options
set_reverse_order none m = m
set_reverse_order (some order) m =
    insert attr_output_order (if order.reverse_order then bytes "reverse" else bytes "normal") m

-- The fields of the ticket behind its vendor items, in the order of the code.
unfoldable pub set_fields : PrintTicketSection → Options → Options
set_fields print m = set_reverse_order print.reverse_order (
    set_collate print.collate (
      set_media_size print.media_size (
        set_fit_to_page print.fit_to_page (
          set_dpi print.dpi (
            set_margins print.margins (
              set_copies print.copies (
                set_page_orientation print.page_orientation
                  (set_duplex print.duplex (set_color print.color m)))))))))

abbrev pub with_fields : PrintTicketSection → Option Options → Option Options
with_fields print none = none
with_fields print (some m) = some (set_fields print m)

-- A nil ticket has no options; `none` is an error, with no options.
unfoldable pub translate_ticket : Option CloudJobTicket → Option Options
unfolding vendor_items
translate_ticket none = some []
translate_ticket (some ticket) =
    with_fields ticket.print (vendor_items ticket.print.vendor_ticket_item [])
