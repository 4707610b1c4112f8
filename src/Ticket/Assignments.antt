-- ===== src/Ticket/Assignments.antt =====
-- The options of a job as a list of assignments: the last one to a key gives its value, in
-- `translateTicket` of `cups/translate-ticket.go`.
use cc_deb_pkg.Prelude.{
  ◌≡◌, refl, sym, ap, ◌∙◌, Option, none, some, List, [], ◌∷◌, ◌++◌, map, GoString, str_eq,
  split_byte, if◌then◌else◌, arith,
}
use cc_deb_pkg.Prelude.GoMap.{insert, lookup, lookup-insert}
use cc_deb_pkg.Cdd.Ticket.{VendorTicketItem}
use cc_deb_pkg.Ticket.Reading.{code_reading, valued}
use cc_deb_pkg.Ticket.{
  Options, key_and_value, set_option, set_options, vendor_id_key_value, vendor_items,
}

abbrev pub Assignments : Type 0
Assignments = List (GoString × GoString)

-- The value of the last assignment to a key, or the one from before.
abbrev pub last_value : GoString → Assignments → Option GoString → Option GoString
last_value k [] before = before
last_value k ((j, v) ∷ assigned) before =
    last_value k assigned (if str_eq j k then some v else before)

abbrev pub assign_all : Assignments → Options → Options
assign_all [] m = m
assign_all ((k, v) ∷ assigned) m = assign_all assigned (insert k v m)

pub lookup-assign_all :
    (k : GoString) (assigned : Assignments) (m : Options)
    → lookup k (assign_all assigned m) ≡ last_value k assigned (lookup k m)
lookup-assign_all k [] m = refl
lookup-assign_all k ((j, v) ∷ assigned) m =
    lookup-assign_all k assigned (insert j v m) ∙ ap (last_value k assigned) (lookup-insert j k v m)

pub assign_all-append :
    (earlier later : Assignments) (m : Options)
    → assign_all (earlier ++ later) m ≡ assign_all later (assign_all earlier m)
assign_all-append [] later m = refl
assign_all-append ((k, v) ∷ earlier) later m = assign_all-append earlier later (insert k v m)

-- The pair that is read, or the option and the value of the item.
abbrev pub or_item : GoString → GoString → Option (GoString × GoString) → GoString × GoString
or_item option value none = (option, value)
or_item option value (some kv) = kv

abbrev pub option_assignments :
    (GoString → Option (GoString × GoString)) → GoString → List GoString → Assignments
option_assignments read value os = map (λ option. or_item option value (read option)) os

abbrev pub vendor_assignments :
    (GoString → Option (GoString × GoString)) → List VendorTicketItem → Assignments
vendor_assignments read [] = []
vendor_assignments read (vti ∷ vtis) =
    option_assignments read vti.value (split_byte b'/' vti.id) ++ vendor_assignments read vtis

key_and_value_lem :
    (option value : GoString) (o : Option (GoString × GoString))
    → key_and_value option value o ≡ or_item option value (valued o)
key_and_value_lem option value none = refl
key_and_value_lem option value (some (k, [])) = refl
key_and_value_lem option value (some (k, c ∷ v)) = refl

set_options-assign_all :
    (value : GoString) (os : List GoString) (m : Options)
    → set_options value os m ≡ assign_all (option_assignments code_reading value os) m
unfolding set_option
set_options-assign_all value [] m = refl
set_options-assign_all value (o ∷ os) m =
    set_options-assign_all value os (set_option value o m)
    ∙ ap (λ kv. assign_all (option_assignments code_reading value os) (insert kv.0 kv.1 m))
        (key_and_value_lem o value (vendor_id_key_value o))

pub vendor_items-assign_all :
    (vtis : List VendorTicketItem) (m r : Options)
    → vendor_items vtis m ≡ some r
    → r ≡ assign_all (vendor_assignments code_reading vtis) m
unfolding vendor_items
vendor_items-assign_all [] m r h = cc
vendor_items-assign_all (vti ∷ vtis) m r h =
    let os = split_byte b'/' vti.id in
    let next = set_options vti.value os m in
    vendor_items-assign_all vtis next r (ground (arith, h))
    ∙ ap (assign_all (vendor_assignments code_reading vtis)) (set_options-assign_all vti.value os m)
    ∙ sym (
        assign_all-append (option_assignments code_reading vti.value os)
          (vendor_assignments code_reading vtis) m)
