-- ===== src/Printer.antt =====
-- Printers and what is pushed to the cloud for them: `lib/printer.go`. A semaphore is an address,
-- since a copy of a printer shares the semaphore. The changed flags of a diff are set one by one;
-- `none` is the panic on a downgraded GCP version.
pub mod Diff
pub mod Raw
pub mod Sync
pub mod Kept
pub mod Count
pub mod Outcome
pub mod Round
pub mod Current
pub mod Converge
pub mod Settled
use Prim.Native.Nat.{compare, Ordering}
use cc_deb_pkg.Prelude.{
  str_lt, ℕ, Bool, true, false, not, ◌||◌, ◌&&◌, Option, none, some, List, [], ◌∷◌, ◌++◌, map,
  GoString, bytes, str_eq, if◌then◌else◌,
}
use cc_deb_pkg.Prelude.GoMap.{GoMap, lookup, insert}
use cc_deb_pkg.Cdd.State.{PrinterStateSection}
use cc_deb_pkg.Cdd.Description.{PrinterDescriptionSection}
use cc_deb_pkg.Cdd.Equality.{PrinterStateSection-discrete, PrinterDescriptionSection-discrete}

pub record Printer : Type 0 where
  pub gcp_id : GoString
  pub name : GoString
  pub default_display_name : GoString
  pub uuid : GoString
  pub manufacturer : GoString
  pub model : GoString
  pub gcp_version : GoString
  pub setup_url : GoString
  pub support_url : GoString
  pub update_url : GoString
  pub connector_version : GoString
  pub state : Option PrinterStateSection
  pub description : Option PrinterDescriptionSection
  pub caps_hash : GoString
  pub tags : GoMap GoString
  pub cups_job_semaphore : Option ℕ

pub data PrinterDiffOperation : Type 0 where
  register_printer update_printer delete_printer no_change_to_printer : PrinterDiffOperation

pub record PrinterDiff : Type 0 where
  pub operation : PrinterDiffOperation
  pub printer : Printer
  pub default_display_name_changed : Bool
  pub manufacturer_changed : Bool
  pub model_changed : Bool
  pub gcp_version_changed : Bool
  pub setup_url_changed : Bool
  pub support_url_changed : Bool
  pub update_url_changed : Bool
  pub connector_version_changed : Bool
  pub state_changed : Bool
  pub description_changed : Bool
  pub caps_hash_changed : Bool
  pub tags_changed : Bool

-- `PrinterDiff{Operation: o, Printer: p}`
abbrev pub plain_diff : PrinterDiffOperation → Printer → PrinterDiff
plain_diff o p = record {
  operation = o;
  printer = p;
  default_display_name_changed = false;
  manufacturer_changed = false;
  model_changed = false;
  gcp_version_changed = false;
  setup_url_changed = false;
  support_url_changed = false;
  update_url_changed = false;
  connector_version_changed = false;
  state_changed = false;
  description_changed = false;
  caps_hash_changed = false;
  tags_changed = false;
}

module _ {A : Type 0} where
  -- `reflect.DeepEqual` on two pointers.
  unfoldable pub deep_equal : Discrete A → Option A → Option A → Bool
  deep_equal dec none none = true
  deep_equal dec (some a) (some b) = elim (dec a b) [ yes e ↦ true | no n ↦ false ]
  deep_equal dec _ _ = false

unfoldable pub tagshash : GoString
tagshash = bytes "tagshash"

-- Whether the tags' hashes differ or one is missing.
hash_differs : Option GoString → Option GoString → Bool
hash_differs (some g) (some c) = not (str_eq g c)
hash_differs _ _ = true

-- The diff that `diffPrinter` fills in, all its fields compared.
unfoldable pub flags : Printer → Printer → PrinterDiff
unfolding deep_equal tagshash hash_differs
flags pc pg = record {
  operation = update_printer;
  printer = pc;
  default_display_name_changed = not (str_eq pg.default_display_name pc.default_display_name);
  manufacturer_changed = not (str_eq pg.manufacturer pc.manufacturer);
  model_changed = not (str_eq pg.model pc.model);
  gcp_version_changed = not (str_eq pg.gcp_version pc.gcp_version);
  setup_url_changed = not (str_eq pg.setup_url pc.setup_url);
  support_url_changed = not (str_eq pg.support_url pc.support_url);
  update_url_changed = not (str_eq pg.update_url pc.update_url);
  connector_version_changed = not (str_eq pg.connector_version pc.connector_version);
  state_changed = not (deep_equal PrinterStateSection-discrete pg.state pc.state);
  description_changed =
      not (deep_equal PrinterDescriptionSection-discrete pg.description pc.description);
  caps_hash_changed = not (str_eq pg.caps_hash pc.caps_hash);
  tags_changed = hash_differs (lookup tagshash pg.tags) (lookup tagshash pc.tags);
}

-- Whether one of the twelve flags is set.
unfoldable pub any_changed : PrinterDiff → Bool
any_changed d =
    d.default_display_name_changed
    || (d.manufacturer_changed
        || (d.model_changed
            || (d.gcp_version_changed
                || (d.setup_url_changed
                    || (d.support_url_changed
                        || (d.update_url_changed
                            || (d.connector_version_changed
                                || (d.state_changed
                                    || (d.description_changed
                                        || (d.caps_hash_changed || d.tags_changed))))))))))

unfoldable pub diff_printer : Printer → Printer → Option PrinterDiff
diff_printer pc pg =
    if not (str_eq pg.gcp_version pc.gcp_version) && str_lt pc.gcp_version pg.gcp_version
    then none
    else some
        (if any_changed (flags pc pg) then flags pc pg else plain_diff no_change_to_printer pg)

-- The loop of `printerSliceToMapByName`: a later printer of a name takes its place.
slice_loop : GoMap Printer → List Printer → GoMap Printer
slice_loop m [] = m
slice_loop m (p ∷ s) = slice_loop (insert p.name p m) s

unfoldable pub printer_slice_to_map_by_name : List Printer → GoMap Printer
unfolding slice_loop
printer_slice_to_map_by_name s = slice_loop [] s
