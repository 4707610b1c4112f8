-- ===== src/Ticket/Accepted.antt =====
-- Which tickets `translateTicket` of `cups/translate-ticket.go` refuses.
use cc_deb_pkg.Prelude.{
  ℕ, zero, suc, ◌≤◌, ap, ◌∙◌, GoString, get_elem?, of_some, subst, sym, ◌≡◌, ◌↔◌, refl, Bool, true,
  false, Bool-cases, inl, inr, ◌||◌, Option, none, some, List, [], ◌∷◌, str_eq_sound, str_eq_of_eq,
  split_byte, arith,
}
use cc_deb_pkg.Ticket.Keywords.{ricoh_password_vendor_id}
use cc_deb_pkg.Cdd.Ticket.{CloudJobTicket, PrintTicketSection, VendorTicketItem}
use cc_deb_pkg.Ticket.{
  Options, is_rejected, is_ricoh_password, set_options, translate_ticket, vendor_items, with_fields,
}

abbrev any_rejected : List VendorTicketItem → Bool
any_rejected [] = false
any_rejected (vti ∷ vtis) = is_rejected vti || any_rejected vtis

vendor_items_iff :
    (vtis : List VendorTicketItem) (m : Options)
    → (vendor_items vtis m ≡ none) ↔ (any_rejected vtis ≡ true)
unfolding vendor_items
vendor_items_iff [] m = (λ h. absurd cc, λ h. absurd cc)
vendor_items_iff (vti ∷ vtis) m =
    ground (arith, vendor_items_iff vtis (set_options vti.value (split_byte b'/' vti.id) m))

abbrev pub Digit : ℕ → Type 0
Digit c = (b'0' ≤ c) × (c ≤ b'9')

-- Four decimal digits and nothing else.
pub record IsFourDigits (value : GoString) : Type 0 where
  pub first : ℕ
  pub second : ℕ
  pub third : ℕ
  pub fourth : ℕ
  pub all : value ≡ first ∷ second ∷ third ∷ fourth ∷ []
  pub digits : Digit first × Digit second × Digit third × Digit fourth

four_digits :
    (a b c d : ℕ)
    → is_ricoh_password (a ∷ b ∷ c ∷ d ∷ []) ≡ true
    → Digit a × Digit b × Digit c × Digit d
unfolding is_ricoh_password
four_digits a b c d h = (
  (ground arith, ground arith),
  (ground arith, ground arith),
  (ground arith, ground arith),
  (ground arith, ground arith),
)

is_ricoh_password_sound : (value : GoString) → is_ricoh_password value ≡ true → IsFourDigits value
unfolding is_ricoh_password
is_ricoh_password_sound [] h = absurd cc
is_ricoh_password_sound (a ∷ []) h = absurd cc
is_ricoh_password_sound (a ∷ b ∷ []) h = absurd cc
is_ricoh_password_sound (a ∷ b ∷ c ∷ []) h = absurd cc
is_ricoh_password_sound (a ∷ b ∷ c ∷ d ∷ []) h = record {
  first = a;
  second = b;
  third = c;
  fourth = d;
  all = refl;
  digits = four_digits a b c d h;
}
is_ricoh_password_sound (a ∷ b ∷ c ∷ d ∷ e ∷ s) h = absurd cc

is_ricoh_password_complete :
    (value : GoString) → IsFourDigits value → is_ricoh_password value ≡ true
unfolding is_ricoh_password
is_ricoh_password_complete value f =
    let ((a0, a9), (b0, b9), (c0, c9), (d0, d9)) = f.digits in
    ap is_ricoh_password f.all ∙ ground (arith, a0, a9, b0, b9, c0, c9, d0, d9)

-- An item for the password of a locked job, with a value that is not four digits.
pub record IsMalformed (vti : VendorTicketItem) : Type 0 where
  pub named : vti.id ≡ ricoh_password_vendor_id
  pub malformed : ¬ IsFourDigits vti.value

is_rejected_iff : (vti : VendorTicketItem) → (is_rejected vti ≡ true) ↔ IsMalformed vti
is_rejected_iff vti = (
  (λ h. record {
    named = str_eq_sound _ _ (ground (arith, h));
    malformed = λ f. absurd (ground (arith, h, is_ricoh_password_complete vti.value f));
  }),
  (λ h. elim (Bool-cases (is_ricoh_password vti.value)) [
    | inl r ↦ absurd (h.malformed (is_ricoh_password_sound vti.value r))
    | inr r ↦ ground (arith, str_eq_of_eq _ _ h.named, r)
  ]),
)

-- One of the items is malformed.
pub record HasMalformed (vtis : List VendorTicketItem) : Type 0 where
  pub index : ℕ
  pub item : VendorTicketItem
  pub listed : get_elem? vtis index ≡ some item
  pub malformed : IsMalformed item

any_rejected_sound : (vtis : List VendorTicketItem) → any_rejected vtis ≡ true → HasMalformed vtis
any_rejected_sound [] h = absurd cc
any_rejected_sound (vti ∷ vtis) h = elim (Bool-cases (is_rejected vti)) [
  | inl r ↦ record { index = 0; item = vti; listed = refl; malformed = (is_rejected_iff vti).0 r }
  | inr r ↦
      let later = any_rejected_sound vtis (ground (arith, r, h)) in
      record {
        index = suc later.index;
        item = later.item;
        listed = later.listed;
        malformed = later.malformed;
      }
]

any_rejected_complete :
    (vtis : List VendorTicketItem) (i : ℕ) (vti : VendorTicketItem)
    → get_elem? vtis i ≡ some vti
    → IsMalformed vti
    → any_rejected vtis ≡ true
any_rejected_complete [] i vti listed bad = absurd cc
any_rejected_complete (v ∷ vtis) zero vti listed bad =
    ground (arith, (is_rejected_iff v).1 (subst IsMalformed (sym (of_some listed)) bad))
any_rejected_complete (v ∷ vtis) (suc i) vti listed bad =
    ground (arith, any_rejected_complete vtis i vti listed bad)

any_rejected_iff : (vtis : List VendorTicketItem) → (any_rejected vtis ≡ true) ↔ HasMalformed vtis
any_rejected_iff vtis =
    (any_rejected_sound vtis, (λ h. any_rejected_complete vtis h.index h.item h.listed h.malformed))

with_fields_iff :
    (print : PrintTicketSection) (o : Option Options) → (with_fields print o ≡ none) ↔ (o ≡ none)
with_fields_iff print none = (λ h. h, λ h. h)
with_fields_iff print (some m) = (λ h. absurd cc, λ h. absurd cc)

-- `translateTicket` fails on a ticket exactly if an item for the password of a locked job has a value
-- that is not four digits.
pub translate_ticket_iff :
    (ticket : CloudJobTicket)
    → (translate_ticket (some ticket) ≡ none) ↔ HasMalformed ticket.print.vendor_ticket_item
unfolding translate_ticket
translate_ticket_iff ticket =
    let items = ticket.print.vendor_ticket_item in
    let failed = with_fields_iff ticket.print (vendor_items items []) in
    let rejected = vendor_items_iff items [] in
    let listed = any_rejected_iff items in
    ((λ h. listed.0 (rejected.0 (failed.0 h))), (λ h. failed.1 (rejected.1 (listed.1 h))))
