-- ===== src/Printer/Diff.antt =====
-- What `diffPrinter` answers.
use cc_deb_pkg.Prelude.{str_lt}
use cc_deb_pkg.Prelude.{
  ◌≡◌, refl, ◌≢◌, ◌↔◌, ◌⊎◌, true, false, Option, none, some, GoString, str_eq_iff, str_eq_refl,
  str_eq_of_eq, arith,
}
use cc_deb_pkg.Prelude.GoMap.{lookup}
use cc_deb_pkg.Cdd.Equality.{PrinterStateSection-discrete, PrinterDescriptionSection-discrete}
use cc_deb_pkg.Printer.{
  Printer, update_printer, no_change_to_printer, PrinterDiff, plain_diff, deep_equal, tagshash,
  hash_differs, flags, any_changed, diff_printer,
}

deep_equal_sound :
    {A : Type 0} (dec : Discrete A) (a b : Option A) → deep_equal dec a b ≡ true → a ≡ b
unfolding deep_equal
deep_equal_sound dec none none h = refl
deep_equal_sound dec none (some b) h = cc
deep_equal_sound dec (some a) none h = cc
deep_equal_sound dec (some a) (some b) h = ground arith

deep_equal_refl : {A : Type 0} (dec : Discrete A) (a : Option A) → deep_equal dec a a ≡ true
unfolding deep_equal
deep_equal_refl dec none = refl
deep_equal_refl dec (some a) = ground arith

-- The two printers agree on the fields that `diffPrinter` compares, and both carry the same hash of
-- their tags. The UUID, which a registration sends to GCP, is not among them.
pub record Agree (pc pg : Printer) : Type 0 where
  pub default_display_name : pg.default_display_name ≡ pc.default_display_name
  pub manufacturer : pg.manufacturer ≡ pc.manufacturer
  pub model : pg.model ≡ pc.model
  pub gcp_version : pg.gcp_version ≡ pc.gcp_version
  pub setup_url : pg.setup_url ≡ pc.setup_url
  pub support_url : pg.support_url ≡ pc.support_url
  pub update_url : pg.update_url ≡ pc.update_url
  pub connector_version : pg.connector_version ≡ pc.connector_version
  pub state : pg.state ≡ pc.state
  pub description : pg.description ≡ pc.description
  pub caps_hash : pg.caps_hash ≡ pc.caps_hash
  pub hashed :
      (h : GoString) × (lookup tagshash pg.tags ≡ some h) × (lookup tagshash pc.tags ≡ some h)

hash_differs-false :
    (g c : Option GoString)
    → hash_differs g c ≡ false
    → (h : GoString) × (g ≡ some h) × (c ≡ some h)
unfolding hash_differs
hash_differs-false (some g) (some c) h = (g, refl, ground (arith, str_eq_iff g c))
hash_differs-false (some g) none h = cc
hash_differs-false none (some c) h = cc
hash_differs-false none none h = cc

no_flag-Agree : (pc pg : Printer) → any_changed (flags pc pg) ≡ false → Agree pc pg
unfolding any_changed flags
no_flag-Agree pc pg h = record {
  default_display_name = ground (arith, str_eq_iff pg.default_display_name pc.default_display_name);
  manufacturer = ground (arith, str_eq_iff pg.manufacturer pc.manufacturer);
  model = ground (arith, str_eq_iff pg.model pc.model);
  gcp_version = ground (arith, str_eq_iff pg.gcp_version pc.gcp_version);
  setup_url = ground (arith, str_eq_iff pg.setup_url pc.setup_url);
  support_url = ground (arith, str_eq_iff pg.support_url pc.support_url);
  update_url = ground (arith, str_eq_iff pg.update_url pc.update_url);
  connector_version = ground (arith, str_eq_iff pg.connector_version pc.connector_version);
  state = ground (arith, deep_equal_sound PrinterStateSection-discrete pg.state pc.state);
  description =
      ground
        (arith, deep_equal_sound PrinterDescriptionSection-discrete pg.description pc.description);
  caps_hash = ground (arith, str_eq_iff pg.caps_hash pc.caps_hash);
  hashed = hash_differs-false (lookup tagshash pg.tags) (lookup tagshash pc.tags) (ground arith);
}

Agree-no_flag : (pc pg : Printer) → Agree pc pg → any_changed (flags pc pg) ≡ false
unfolding any_changed flags
Agree-no_flag pc pg a =
    let (h, g, c) = a.hashed in
    rw
      (
        a.default_display_name, a.manufacturer, a.model, a.gcp_version, a.setup_url, a.support_url,
        a.update_url, a.connector_version, a.state, a.description, a.caps_hash, g, c,
      )
      (simp (str_eq_refl, deep_equal_refl))

flags-update :
    (pc pg : Printer) → ((flags pc pg).operation ≡ update_printer) × ((flags pc pg).printer ≡ pc)
unfolding flags
flags-update pc pg = (refl, refl)

-- GCP has a later version of the protocol for the printer.
abbrev pub IsDowngrade : Printer → Printer → Type 0
IsDowngrade pc pg =
    (pg.gcp_version ≢ pc.gcp_version) × (str_lt pc.gcp_version pg.gcp_version ≡ true)

-- `diffPrinter` panics exactly on a downgrade.
pub diff_printer-none_iff : (pc pg : Printer) → (diff_printer pc pg ≡ none) ↔ IsDowngrade pc pg
unfolding diff_printer
diff_printer-none_iff pc pg = (
  λ h. ground (arith, str_eq_iff pg.gcp_version pc.gcp_version),
  λ (ne, lt). ground (arith, str_eq_iff pg.gcp_version pc.gcp_version),
)

unchanged-Agree :
    (pc pg : Printer) → diff_printer pc pg ≡ some (plain_diff no_change_to_printer pg) → Agree pc pg
unfolding diff_printer
unchanged-Agree pc pg h = no_flag-Agree pc pg (ground (arith, flags-update pc pg))

Agree-unchanged :
    (pc pg : Printer) → Agree pc pg → diff_printer pc pg ≡ some (plain_diff no_change_to_printer pg)
unfolding diff_printer
Agree-unchanged pc pg a =
    rw (Agree-no_flag pc pg a, str_eq_of_eq pg.gcp_version pc.gcp_version a.gcp_version) refl

-- The answer of `diffPrinter` to two printers that do not agree in this sense, where it is no panic,
-- is an update to the CUPS printer with a change marked.
pub not_Agree-update :
    (pc pg : Printer) (d : PrinterDiff)
    → diff_printer pc pg ≡ some d
    → ¬ Agree pc pg
    → (d.operation ≡ update_printer) × (d.printer ≡ pc) × (any_changed d ≡ true)
unfolding diff_printer
not_Agree-update pc pg d h n = ground (arith, flags-update pc pg, no_flag-Agree pc pg)

-- `diffPrinter` answers that nothing changed, with the GCP printer, exactly if the two printers
-- agree on what it compares.
pub diff_printer-Agree_iff :
    (pc pg : Printer)
    → (diff_printer pc pg ≡ some (plain_diff no_change_to_printer pg)) ↔ Agree pc pg
diff_printer-Agree_iff pc pg = (unchanged-Agree pc pg, Agree-unchanged pc pg)

-- An answer of `diffPrinter` is the one to unchanged printers, or an update to the CUPS printer.
pub diff_printer-cases :
    (pc pg : Printer) (d : PrinterDiff)
    → diff_printer pc pg ≡ some d
    → (d ≡ plain_diff no_change_to_printer pg) ⊎ ((d.operation ≡ update_printer) × (d.printer ≡ pc))
unfolding diff_printer
diff_printer-cases pc pg d h = ground (arith, flags-update pc pg)
