-- ===== src/Tests/Apply.antt =====
-- A run of `syncPrinters`.
use cc_deb_pkg.Prelude.{str_lt}
use mathlib.Core.List.{Permᴰ}
use cc_deb_pkg.Prelude.{
  ◌≤◌, ◌≡◌, refl, true, false, none, some, List, [], ◌∷◌, All, keep_if, Perm, GoString, bytes,
  str_eq, str_eq_iff, arith,
}
use cc_deb_pkg.Prelude.GoMap.{lookup, insert}
use cc_deb_pkg.Printer.{
  Printer, PrinterDiff, plain_diff, update_printer, register_printer, delete_printer, any_changed,
  flags, deep_equal, diff_printer, tagshash, printer_slice_to_map_by_name,
}
use cc_deb_pkg.Printer.Sync.{
  diff_printers, adopt, gcp_loop, gcp_step, compare_known, cups_loop, exists_key,
}
use cc_deb_pkg.Printer.Kept.{count_name}
use cc_deb_pkg.Printer.Current.{IsHashed}
use cc_deb_pkg.PrinterMap.{new_concurrent_printer_map, refresh, get_all}
use cc_deb_pkg.Semaphore.{new_semaphore}
use cc_deb_pkg.Manager.{PrinterManager}
use cc_deb_pkg.Manager.Apply.{
  Services, apply_diff, has_printer_name, sent_printers, make_semaphores, synced,
}
use cc_deb_pkg.Manager.Apply.Synced.{Registers, HasName, SyncStep-settled}
use cc_deb_pkg.Tests.Samples.{lobby, attic, old_lobby, cellar, cups_printers, register}

abbrev services : Services
services = record {
  gcp = true;
  privet = true;
  can_share = true;
  cloud_id = λ p. some (bytes "new");
  cloud_deletes = λ p. true;
  new_address = λ p. 1;
}

abbrev before : PrinterManager
before = record {
  printers = new_concurrent_printer_map (old_lobby ∷ cellar ∷ []);
  sems = λ a. new_semaphore 3;
  jobs_done = 0;
  jobs_error = 0;
  jobs_in_flight = [];
  cups_queue_size = 3;
  job_full_username = false;
  ignore_raw_printers = true;
  share_scope = [];
}

abbrev diffs : List PrinterDiff
diffs =
    record (plain_diff update_printer (adopt lobby old_lobby)) { model_changed = true }
    ∷ plain_diff delete_printer cellar
    ∷ plain_diff register_printer attic
    ∷ []

compared : diff_printers cups_printers (get_all before.printers) ≡ some (some diffs)
unfolding diff_printers printer_slice_to_map_by_name gcp_loop gcp_step compare_known cups_loop
    exists_key diff_printer flags any_changed lookup insert str_eq str_lt deep_equal tagshash
    new_concurrent_printer_map refresh get_all
compared = refl

-- The attic arrives first.
abbrev current : List Printer
current = register attic ∷ adopt lobby old_lobby ∷ []

arrived : Perm (keep_if has_printer_name (sent_printers services false diffs)) current
unfolding keep_if has_printer_name sent_printers apply_diff str_eq
arrived = ∣ Permᴰ.swap refl refl ∣₁

registers : Registers services
registers p = (bytes "new", refl)

unique : (n : GoString) → count_name n cups_printers ≤ 1
unfolding count_name
unique n = ground (arith, str_eq_iff (bytes "lobby") n, str_eq_iff (bytes "attic") n)

named : All HasName cups_printers
unfolding has_printer_name str_eq
named = (refl, (refl, tt))

hashed : All IsHashed cups_printers
unfolding lookup str_eq tagshash
hashed = ((_, refl), ((_, refl), tt))

abbrev after : PrinterManager
after = record before {
  printers = refresh before.printers current;
  sems = make_semaphores services false 3 diffs before.sems;
}

SyncStep-settled_example : diff_printers cups_printers (get_all after.printers) ≡ some none
SyncStep-settled_example =
    SyncStep-settled services false cups_printers before registers unique named hashed
      (synced diffs current compared arrived)
