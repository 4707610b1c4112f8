-- ===== src/Ticket/Colors.antt =====
-- What a vendor ID of a color says: `convertColorAttrs` of `cups/translate-attrs.go` writes what
-- `translateTicket` of `cups/translate-ticket.go` reads.
use cc_deb_pkg.Prelude.{
  ℕ, ◌≡◌, refl, ap, ◌∙◌, Bool, true, false, Option, none, some, All, [], ◌∷◌, ◌++◌, GoString, drop,
  str_eq_sound, ◌==◌, if◌then◌else◌, arith,
}
use cc_deb_pkg.Prelude.GoMap.{GoMap, insert, lookup}
use cc_deb_pkg.Cdd.Capabilities.{ColorOption}
use cc_deb_pkg.Cdd.Ticket.{ColorType}
use cc_deb_pkg.Attributes.Names.{attr_print_color_mode}
use cc_deb_pkg.Attributes.Options.{color_option}
use cc_deb_pkg.Attributes.Tables.{color_by_keyword}
use cc_deb_pkg.Ticket.{
  Options, cut_colon, groups, has_newline, set_color, set_group, vendor_id_key_value,
}

abbrev has_colon : GoString → Bool
has_colon [] = false
has_colon (c ∷ s) = if c == b':' then true else has_colon s

cut_colon-append :
    (key value : GoString)
    → has_colon key ≡ false
    → cut_colon (key ++ b':' ∷ value) ≡ (key, some value)
unfolding cut_colon
cut_colon-append [] value h = refl
cut_colon-append (c ∷ key) value h = ground (arith, cut_colon-append key value)

-- A key with no colon and a value with no line break are read back from the ID that joins them.
vendor_id_key_value-append :
    (k c : ℕ) (key value : GoString)
    → has_colon (k ∷ key) ≡ false
    → has_newline (c ∷ value) ≡ false
    → vendor_id_key_value ((k ∷ key) ++ b':' ∷ c ∷ value) ≡ some (k ∷ key, c ∷ value)
unfolding vendor_id_key_value
vendor_id_key_value-append k c key value hk hv =
    ap groups (cut_colon-append (k ∷ key) (c ∷ value) hk) ∙ rw hv refl

-- A choice by such an ID sets the key to the value.
set_color-vendor_id :
    (k c : ℕ) (key value : GoString) (type : ColorType) (m : Options)
    → has_colon (k ∷ key) ≡ false
    → has_newline (c ∷ value) ≡ false
    → set_color (some (record { vendor_id = (k ∷ key) ++ b':' ∷ c ∷ value; type = type })) m
      ≡ insert (k ∷ key) (c ∷ value) m
unfolding set_color
set_color-vendor_id k c key value type m hk hv =
    ap (λ g. set_group g m) (vendor_id_key_value-append k c key value hk hv)

-- The vendor ID of a keyword.
abbrev mode_id : GoString → GoString
mode_id color = attr_print_color_mode ++ b':' ∷ color

abbrev Named : GoString × ColorOption → Type 0
Named (color, option) = option.vendor_id ≡ mode_id color

lookup-Named :
    (color : GoString) (option : ColorOption) (table : GoMap ColorOption)
    → All Named table
    → lookup color table ≡ some option
    → option.vendor_id ≡ mode_id color
unfolding lookup
lookup-Named color option [] named e = absurd cc
lookup-Named color option ((k, o) ∷ table) (n, named) e =
    ground (arith, str_eq_sound k color, lookup-Named color option table named)

color_option-vendor_id :
    (color : GoString) (o : Option ColorOption)
    → lookup color color_by_keyword ≡ o
    → (color_option color).vendor_id ≡ mode_id color
unfolding color_option
color_option-vendor_id color none e = rw (e, color_option) refl
color_option-vendor_id color (some option) e =
    rw (e, color_option) (lookup-Named color option color_by_keyword (refl, (refl, (refl, tt))) e)

pub set_color-color_option :
    (c : ℕ) (color : GoString) (type : ColorType) (m : Options)
    → has_newline (c ∷ color) ≡ false
    → set_color (some (record { vendor_id = (color_option (c ∷ color)).vendor_id; type = type })) m
      ≡ insert attr_print_color_mode (c ∷ color) m
set_color-color_option c color type m h =
    rw (color_option-vendor_id (c ∷ color) (lookup (c ∷ color) color_by_keyword) refl)
      (set_color-vendor_id b'p' c (drop 1 attr_print_color_mode) color type m refl h)
