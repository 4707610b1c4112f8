-- ===== src/Ticket/Fields.antt =====
-- The fields of a ticket as assignments: `translateTicket` of `cups/translate-ticket.go`.
use cc_deb_pkg.Prelude.{
  ◌≡◌, refl, sym, ap, ◌∙◌, Option, none, some, of_some, [], ◌∷◌, ◌++◌, GoString, bytes,
  if◌then◌else◌,
}
use cc_deb_pkg.Prelude.GoMap.{lookup}
use cc_deb_pkg.Prelude.Strconv.{format_int}
use cc_deb_pkg.Cdd.Ticket.{
  CloudJobTicket, CollateTicketItem, ColorTicketItem, CopiesTicketItem, DpiTicketItem,
  DuplexTicketItem, FitToPageTicketItem, MarginsTicketItem, MediaSizeTicketItem,
  PageOrientationTicketItem, PrintTicketSection, ReverseOrderTicketItem,
}
use cc_deb_pkg.Attributes.Names.{
  attr_collate, attr_copies, attr_false, attr_fit_to_page, attr_media_bottom_margin,
  attr_media_left_margin, attr_media_right_margin, attr_media_top_margin,
  attr_orientation_requested, attr_output_order, attr_true,
}
use cc_deb_pkg.Ticket.Keywords.{
  duplex_ppd_by_cdd, orientation_value_by_type, ppd_duplex, ppd_page_size, ppd_resolution,
}
use cc_deb_pkg.Ticket.Points.{microns_to_points}
use mathlib.Core.Path.{fun_ext}
use cc_deb_pkg.Ticket.Reading.{IsReading, IsReading-unique, code_reading, valued}
use cc_deb_pkg.Ticket.{
  Options, fit_value, set_collate, set_color, set_copies, set_dpi, set_duplex, set_fields,
  set_fit_to_page, set_found, set_group, set_margins, set_media_size, set_page_orientation,
  set_reverse_order, translate_ticket, vendor_id_key_value, vendor_items, with_fields,
}
use cc_deb_pkg.Ticket.Assignments.{
  Assignments, assign_all, assign_all-append, last_value, lookup-assign_all, vendor_assignments,
  vendor_items-assign_all,
}

-- The assignment of one value, or of none.
abbrev assigned : GoString → Option GoString → Assignments
assigned k none = []
assigned k (some v) = (k, v) ∷ []

abbrev color_assignments : Option (GoString × GoString) → Assignments
color_assignments none = []
color_assignments (some kv) = kv ∷ []

abbrev margin_assignments : Option MarginsTicketItem → Assignments
margin_assignments none = []
margin_assignments (some margins) =
    (attr_media_left_margin, microns_to_points margins.left_microns)
    ∷ (attr_media_right_margin, microns_to_points margins.right_microns)
    ∷ (attr_media_top_margin, microns_to_points margins.top_microns)
    ∷ (attr_media_bottom_margin, microns_to_points margins.bottom_microns)
    ∷ []

abbrev and_also {ℓ} : {A : Type ℓ} → Option A → (A → Option GoString) → Option GoString
and_also none f = none
and_also (some a) f = f a

-- The vendor's text, or another if that is empty.
abbrev filled_or : GoString → GoString → GoString
filled_or [] other = other
filled_or (c ∷ text) other = c ∷ text

abbrev resolution : DpiTicketItem → GoString
resolution dpi =
    filled_or dpi.vendor_id
      (format_int dpi.horizontal_dpi ++ bytes "x" ++ format_int dpi.vertical_dpi ++ bytes "dpi")

abbrev page_size : MediaSizeTicketItem → GoString
page_size size = filled_or size.vendor_id (
    bytes "Custom."
    ++ microns_to_points size.width_microns
    ++ bytes "x"
    ++ microns_to_points size.height_microns)

-- What the fields of a ticket say of a job, field by field.
abbrev pub field_assignments :
    (GoString → Option (GoString × GoString)) → PrintTicketSection → Assignments
field_assignments read print =
    color_assignments (elim print.color [ some c ↦ read c.vendor_id | none ↦ none ])
    ++ assigned ppd_duplex (and_also print.duplex (λ d. duplex_ppd_by_cdd d.type))
    ++ assigned attr_orientation_requested
        (and_also print.page_orientation (λ o. orientation_value_by_type o.type))
    ++ assigned attr_copies (and_also print.copies (λ c. some (format_int c.copies)))
    ++ margin_assignments print.margins
    ++ assigned ppd_resolution (and_also print.dpi (λ d. some (resolution d)))
    ++ assigned attr_fit_to_page (and_also print.fit_to_page (λ f. fit_value f.type))
    ++ assigned ppd_page_size (and_also print.media_size (λ s. some (page_size s)))
    ++ assigned attr_collate
        (and_also print.collate (λ c. some (if c.collate then attr_true else attr_false)))
    ++ assigned attr_output_order (
        and_also print.reverse_order
          (λ r. some (if r.reverse_order then bytes "reverse" else bytes "normal")))

set_found-assign_all :
    (k : GoString) (v : Option GoString) (m : Options)
    → set_found k v m ≡ assign_all (assigned k v) m
set_found-assign_all k none m = refl
set_found-assign_all k (some v) m = refl

set_group-assign_all :
    (g : Option (GoString × GoString)) (m : Options)
    → set_group g m ≡ assign_all (color_assignments (valued g)) m
set_group-assign_all none m = refl
set_group-assign_all (some (k, [])) m = refl
set_group-assign_all (some (k, c ∷ v)) m = refl

set_color-assign_all :
    (color : Option ColorTicketItem) (m : Options)
    → set_color color m
      ≡ assign_all
          (color_assignments (elim color [ some c ↦ code_reading c.vendor_id | none ↦ none ]))
          m
unfolding set_color
set_color-assign_all none m = refl
set_color-assign_all (some c) m = set_group-assign_all (vendor_id_key_value c.vendor_id) m

set_margins-assign_all :
    (margins : Option MarginsTicketItem) (m : Options)
    → set_margins margins m ≡ assign_all (margin_assignments margins) m
unfolding set_margins
set_margins-assign_all none m = refl
set_margins-assign_all (some margins) m = refl

set_duplex-assign_all :
    (duplex : Option DuplexTicketItem) (m : Options)
    → set_duplex duplex m
      ≡ assign_all (assigned ppd_duplex (and_also duplex (λ d. duplex_ppd_by_cdd d.type))) m
unfolding set_duplex
set_duplex-assign_all none m = refl
set_duplex-assign_all (some duplex) m = set_found-assign_all ppd_duplex _ m

set_page_orientation-assign_all :
    (orientation : Option PageOrientationTicketItem) (m : Options)
    → set_page_orientation orientation m
      ≡ assign_all
          (assigned attr_orientation_requested
            (and_also orientation (λ o. orientation_value_by_type o.type)))
          m
unfolding set_page_orientation
set_page_orientation-assign_all none m = refl
set_page_orientation-assign_all (some orientation) m =
    set_found-assign_all attr_orientation_requested _ m

set_copies-assign_all :
    (copies : Option CopiesTicketItem) (m : Options)
    → set_copies copies m
      ≡ assign_all (assigned attr_copies (and_also copies (λ c. some (format_int c.copies)))) m
unfolding set_copies
set_copies-assign_all none m = refl
set_copies-assign_all (some copies) m = refl

set_dpi-assign_all :
    (dpi : Option DpiTicketItem) (m : Options)
    → set_dpi dpi m
      ≡ assign_all (assigned ppd_resolution (and_also dpi (λ d. some (resolution d)))) m
unfolding set_dpi
set_dpi-assign_all none m = refl
set_dpi-assign_all (some dpi) m = refl

set_fit_to_page-assign_all :
    (fit : Option FitToPageTicketItem) (m : Options)
    → set_fit_to_page fit m
      ≡ assign_all (assigned attr_fit_to_page (and_also fit (λ f. fit_value f.type))) m
unfolding set_fit_to_page
set_fit_to_page-assign_all none m = refl
set_fit_to_page-assign_all (some fit) m = set_found-assign_all attr_fit_to_page _ m

set_media_size-assign_all :
    (size : Option MediaSizeTicketItem) (m : Options)
    → set_media_size size m
      ≡ assign_all (assigned ppd_page_size (and_also size (λ s. some (page_size s)))) m
unfolding set_media_size
set_media_size-assign_all none m = refl
set_media_size-assign_all (some size) m = refl

set_collate-assign_all :
    (collate : Option CollateTicketItem) (m : Options)
    → set_collate collate m
      ≡ assign_all
          (assigned attr_collate
            (and_also collate (λ c. some (if c.collate then attr_true else attr_false))))
          m
unfolding set_collate
set_collate-assign_all none m = refl
set_collate-assign_all (some collate) m = refl

set_reverse_order-assign_all :
    (order : Option ReverseOrderTicketItem) (m : Options)
    → set_reverse_order order m
      ≡ assign_all
          (assigned attr_output_order (
            and_also order
              (λ r. some (if r.reverse_order then bytes "reverse" else bytes "normal"))))
          m
unfolding set_reverse_order
set_reverse_order-assign_all none m = refl
set_reverse_order-assign_all (some order) m = refl

set_fields-assign_all :
    (print : PrintTicketSection) (m : Options)
    → set_fields print m ≡ assign_all (field_assignments code_reading print) m
unfolding set_fields
set_fields-assign_all print m =
    simp
      (
        assign_all-append, set_color-assign_all, set_duplex-assign_all,
        set_page_orientation-assign_all, set_copies-assign_all, set_margins-assign_all,
        set_dpi-assign_all, set_fit_to_page-assign_all, set_media_size-assign_all,
        set_collate-assign_all, set_reverse_order-assign_all,
      )
      refl

-- All that a ticket says of a job, in order.
abbrev pub assignments :
    (GoString → Option (GoString × GoString)) → PrintTicketSection → Assignments
assignments read print =
    vendor_assignments read print.vendor_ticket_item ++ field_assignments read print

with_fields-assign_all :
    (print : PrintTicketSection) (o : Option Options) (m : Options)
    → vendor_items print.vendor_ticket_item [] ≡ o
    → with_fields print o ≡ some m
    → m ≡ assign_all (assignments code_reading print) []
with_fields-assign_all print none m e h = absurd cc
with_fields-assign_all print (some r) m e h =
    of_some (sym h)
    ∙ set_fields-assign_all print r
    ∙ ap (assign_all (field_assignments code_reading print))
        (vendor_items-assign_all print.vendor_ticket_item [] r e)
    ∙ sym (assign_all-append (vendor_assignments code_reading print.vendor_ticket_item) _ [])

-- Where `translateTicket` returns options, the value of a key is that of the last assignment to it
-- among the vendor items and then the fields of the ticket, and there is none without one. The items
-- and the color are read by any function that finds a key with no colon, a colon and a value with no
-- line break exactly where they are.
pub lookup-translate_ticket :
    (read : GoString → Option (GoString × GoString))
    → IsReading read
    → (ticket : CloudJobTicket) (m : Options) (k : GoString)
    → translate_ticket (some ticket) ≡ some m
    → lookup k m ≡ last_value k (assignments read ticket.print) none
unfolding translate_ticket lookup
lookup-translate_ticket read r ticket m k h =
    ap (lookup k) (with_fields-assign_all ticket.print _ m refl h)
    ∙ lookup-assign_all k (assignments code_reading ticket.print) []
    ∙ ap (λ f. last_value k (assignments f ticket.print) none) (fun_ext (IsReading-unique read r))
