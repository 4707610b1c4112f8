-- ===== src/Attributes/Translate/Total.antt =====
-- When `translateAttrs` of `cups/translate-attrs.go` does not panic.
use cc_deb_pkg.Prelude.{◌≡◌, ◌≢◌, refl, ◌∙◌, Option, none, some, List, [], ◌∷◌, GoString, ℤ}
use cc_deb_pkg.Prelude.Answer.{Answer, panicked, unavailable, available}
use cc_deb_pkg.Prelude.GoMap.{lookup}
use cc_deb_pkg.Prelude.Strconv.{parse_int}
use cc_deb_pkg.Cdd.Capabilities.{Color, Copies, VendorCapability}
use cc_deb_pkg.Cdd.State.{CloudDeviceStateType}
use cc_deb_pkg.Attributes.Names.{
  attr_copies_default, attr_copies_supported, attr_number_up_default, attr_number_up_supported,
  attr_print_color_mode_default, attr_print_color_mode_supported, attr_printer_name,
  attr_printer_state, attr_printer_uuid,
}
use cc_deb_pkg.Attributes.State.{Tags, get_state, get_uuid, get_vendor_state, named_uuid}
use cc_deb_pkg.Attributes.Options.{
  behind_tilde, convert_color_attrs, convert_copies, convert_pages_per_sheet, copies_answer,
  copies_range, with_max, default_copies, colors_answer, pages_options, pages_answer,
}
use cc_deb_pkg.Attributes.Translate.{
  Parts, Translated, collect, no_panic, parts, translate_attrs, translated,
}

-- Every attribute has a value, and a single range of copies has a tilde.
pub record IsComplete (tags : Tags) : Type 0 where
  pub nonempty : (k : GoString) → lookup k tags ≢ some []
  pub ranged :
      (r : GoString) → lookup attr_copies_supported tags ≡ some (r ∷ []) → behind_tilde r ≢ none

not_none {ℓ} : {A : Type ℓ} {a : A} → some a ≢ none
not_none h = absurd cc

not_unavailable {ℓ} : {A : Type ℓ} (a : Answer A) → a ≡ unavailable → a ≢ panicked
not_unavailable a e h = absurd cc

not_panicked {ℓ} : {A : Type ℓ} (o : Answer A) → o ≢ panicked → no_panic o ≢ none
not_panicked panicked safe h = safe refl
not_panicked unavailable safe h = absurd cc
not_panicked (available a) safe h = absurd cc

collect_total :
    (u : Option GoString) (s : Option CloudDeviceStateType) (c : Option (Option Copies))
    (k : Option (Option Color)) (n : Option (Option VendorCapability))
    → u ≢ none
    → s ≢ none
    → c ≢ none
    → k ≢ none
    → n ≢ none
    → (p : Parts) × (collect u s c k n ≡ some p)
collect_total none s c k n hu hs hc hk hn = absurd (hu refl)
collect_total (some u) none c k n hu hs hc hk hn = absurd (hs refl)
collect_total (some u) (some s) none k n hu hs hc hk hn = absurd (hc refl)
collect_total (some u) (some s) (some c) none n hu hs hc hk hn = absurd (hk refl)
collect_total (some u) (some s) (some c) (some k) none hu hs hc hk hn = absurd (hn refl)
collect_total (some u) (some s) (some c) (some k) (some n) hu hs hc hk hn = (_, refl)

module _ (tags : Tags) (complete : IsComplete tags) where
  named_total :
      (o : Option (List GoString)) → lookup attr_printer_name tags ≡ o → named_uuid o ≢ none
  named_total none e = not_none
  named_total (some []) e = absurd (complete.nonempty attr_printer_name e)
  named_total (some (n ∷ ns)) e = not_none

  uuid_total :
      (o : Option (List GoString)) → lookup attr_printer_uuid tags ≡ o → get_uuid tags ≢ none
  unfolding get_uuid
  uuid_total none e h = named_total (lookup attr_printer_name tags) refl (rw (e, get_uuid) at h)
  uuid_total (some []) e h = absurd (complete.nonempty attr_printer_uuid e)
  uuid_total (some (u ∷ us)) e h = not_none (rw (e, get_uuid) at h)

  state_total :
      (o : Option (List GoString)) → lookup attr_printer_state tags ≡ o → get_state tags ≢ none
  unfolding get_state
  state_total none e h = not_none (rw (e, get_state) at h)
  state_total (some []) e h = absurd (complete.nonempty attr_printer_state e)
  state_total (some (s ∷ ss)) e h = not_none (rw (e, get_state) at h)

  range_total : (o : Option GoString) (d : ℤ) → o ≢ none → copies_range d o ≢ panicked
  range_total none d tilde h = tilde refl
  range_total (some max) d tilde h = max_total (parse_int 32 max) d h
    where
      max_total : (o : Option ℤ) (d : ℤ) → with_max d o ≢ panicked
      max_total none d h = absurd cc
      max_total (some max) d h = absurd cc

  copies_total :
      (o : Option (List GoString)) (d : ℤ)
      → lookup attr_copies_supported tags ≡ o
      → copies_answer d o ≢ panicked
  copies_total none d e h = absurd cc
  copies_total (some []) d e h = absurd cc
  copies_total (some (r ∷ [])) d e h = range_total (behind_tilde r) d (complete.ranged r e) h
  copies_total (some (r ∷ r' ∷ rs)) d e h = absurd cc

  colors_total :
      (cs : List GoString) (d : Option (List GoString))
      → some cs ≢ some []
      → colors_answer cs d ≢ panicked
  colors_total [] d nonempty h = absurd (nonempty refl)
  colors_total (c ∷ cs) none nonempty h = absurd cc
  colors_total (c ∷ cs) (some []) nonempty h = absurd cc
  colors_total (c ∷ cs) (some (d ∷ [])) nonempty h = absurd cc
  colors_total (c ∷ cs) (some (d ∷ d' ∷ ds)) nonempty h = absurd cc

  color_total :
      (o : Option (List GoString))
      → lookup attr_print_color_mode_supported tags ≡ o
      → convert_color_attrs tags ≢ panicked
  unfolding convert_color_attrs
  color_total none e h = not_unavailable _ refl (rw (e, convert_color_attrs) at h)
  color_total (some cs) e h =
      colors_total cs (lookup attr_print_color_mode_default tags)
        (λ e'. complete.nonempty attr_print_color_mode_supported (e ∙ e'))
        (rw (e, convert_color_attrs) at h)

  numbers_total :
      (d : Option (List GoString)) (ns : List GoString)
      → d ≢ some []
      → pages_answer (pages_options d ns) ≢ panicked
  numbers_total none [] nonempty h = absurd cc
  numbers_total none (n ∷ ns) nonempty h = absurd cc
  numbers_total (some []) ns nonempty h = absurd (nonempty refl)
  numbers_total (some (d ∷ ds)) [] nonempty h = absurd cc
  numbers_total (some (d ∷ ds)) (n ∷ ns) nonempty h = absurd cc

  pages_total :
      (o : Option (List GoString))
      → lookup attr_number_up_supported tags ≡ o
      → convert_pages_per_sheet tags ≢ panicked
  unfolding convert_pages_per_sheet
  pages_total none e h = not_unavailable _ refl (rw (e, convert_pages_per_sheet) at h)
  pages_total (some ns) e h =
      numbers_total (lookup attr_number_up_default tags) ns
        (complete.nonempty attr_number_up_default) (rw (e, convert_pages_per_sheet) at h)

  copies_safe : convert_copies tags ≢ panicked
  unfolding convert_copies
  copies_safe =
      copies_total (lookup attr_copies_supported tags)
        (default_copies (lookup attr_copies_default tags)) refl

  parts_total : (p : Parts) × (parts tags ≡ some p)
  unfolding parts
  parts_total =
      collect_total _ _ _ _ _ (uuid_total _ refl) (state_total _ refl)
        (not_panicked (convert_copies tags) copies_safe)
        (not_panicked (convert_color_attrs tags) (color_total _ refl))
        (not_panicked (convert_pages_per_sheet tags) (pages_total _ refl))

  -- `translateAttrs` returns when each attribute has a value and a single range of copies a tilde.
  pub translate_attrs-IsComplete : (t : Translated) × (translate_attrs tags ≡ some t)
  unfolding translate_attrs parts_total
  translate_attrs-IsComplete =
      (translated tags (get_vendor_state tags) parts_total.0, rw (parts_total.1, translate_attrs))
