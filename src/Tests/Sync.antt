-- ===== src/Tests/Sync.antt =====
-- Runs of the synchronization of printers.
use cc_deb_pkg.Prelude.{str_lt}
use cc_deb_pkg.Prelude.{
  ℕ, ◌≤◌, ◌≡◌, ◌↔◌, refl, ap, true, none, some, List, [], ◌∷◌, All, Perm, GoString, bytes, str_eq,
  str_eq_iff, arith,
}
use mathlib.Core.List.{Permᴰ}
use cc_deb_pkg.Prelude.GoMap.{lookup, insert}
use cc_deb_pkg.Printer.{
  Printer, PrinterDiff, plain_diff, update_printer, register_printer, delete_printer,
  no_change_to_printer, any_changed, flags, deep_equal, diff_printer, tagshash,
  printer_slice_to_map_by_name,
}
use cc_deb_pkg.Printer.Diff.{Agree, diff_printer-Agree_iff}
use cc_deb_pkg.Printer.Sync.{
  diff_printers, adopt, gcp_loop, gcp_step, compare_known, cups_loop, exists_key,
}
use cc_deb_pkg.Printer.Kept.{count_name, outcome, kept}
use cc_deb_pkg.Printer.Count.{KeepsName}
use cc_deb_pkg.Printer.Outcome.{diff_printers-count}
use cc_deb_pkg.Printer.Current.{IsRegistration, IsHashed}
use cc_deb_pkg.Printer.Converge.{InSync, diff_printers-InSync}
use cc_deb_pkg.Printer.Settled.{InSync-nil, diff_printers_converge}
use cc_deb_pkg.PrinterMap.{
  new_concurrent_printer_map, refresh, get_by_cups_name, get_by_gcp_id, last_or,
  get_by_cups_name-refresh,
}
use cc_deb_pkg.Tests.Samples.{
  lobby, attic, old_lobby, cellar, cups_printers, gcp_printers, register, synced_printers,
}

-- The lobby is updated, its duplicate and the cellar are deleted, and the attic is registered.
abbrev first_sync : List PrinterDiff
first_sync =
    record (plain_diff update_printer (adopt lobby old_lobby)) { model_changed = true }
    ∷ plain_diff delete_printer old_lobby
    ∷ plain_diff delete_printer cellar
    ∷ plain_diff register_printer attic
    ∷ []

first_run : diff_printers cups_printers gcp_printers ≡ some (some first_sync)
unfolding diff_printers printer_slice_to_map_by_name gcp_loop gcp_step compare_known cups_loop
    exists_key diff_printer flags any_changed lookup insert str_eq str_lt deep_equal tagshash
first_run = refl

first_outcome : outcome register gcp_printers (some first_sync) ≡ synced_printers
unfolding kept
first_outcome = refl

registers : IsRegistration register
registers p = refl

unique : (n : GoString) → count_name n cups_printers ≤ 1
unfolding count_name
unique n = ground (arith, str_eq_iff (bytes "lobby") n, str_eq_iff (bytes "attic") n)

hashed : All IsHashed cups_printers
unfolding lookup str_eq tagshash
hashed = ((_, refl), ((_, refl), tt))

keeps : KeepsName register
keeps p = refl

-- The attic stands first in the manager's order.
reordered :
    Perm
      (outcome register gcp_printers (some first_sync))
      (register attic ∷ adopt lobby old_lobby ∷ [])
unfolding kept
reordered = ∣ Permᴰ.swap refl refl ∣₁

diff_printers_converge_example :
    diff_printers cups_printers (register attic ∷ adopt lobby old_lobby ∷ []) ≡ some none
diff_printers_converge_example =
    diff_printers_converge register cups_printers gcp_printers
      (register attic ∷ adopt lobby old_lobby ∷ []) (some first_sync) registers unique hashed
      first_run reordered

diff_printers-InSync_example :
    InSync cups_printers (outcome register gcp_printers (some first_sync))
diff_printers-InSync_example =
    diff_printers-InSync register cups_printers gcp_printers (some first_sync) registers unique
      hashed first_run

diff_printers-count_example :
    count_name (bytes "lobby") (outcome register gcp_printers (some first_sync))
    ≡ count_name (bytes "lobby") cups_printers
diff_printers-count_example =
    diff_printers-count register cups_printers gcp_printers (bytes "lobby") (some first_sync) keeps
      (unique (bytes "lobby")) first_run

in_sync : InSync cups_printers (outcome register gcp_printers (some first_sync))
in_sync =
    diff_printers-InSync register cups_printers gcp_printers (some first_sync) registers unique
      hashed first_run

InSync-nil_example :
    diff_printers cups_printers (outcome register gcp_printers (some first_sync)) ≡ some none
InSync-nil_example =
    InSync-nil cups_printers (outcome register gcp_printers (some first_sync)) in_sync

lobby_unchanged_iff :
    (diff_printer lobby old_lobby ≡ some (plain_diff no_change_to_printer old_lobby))
    ↔ Agree lobby old_lobby
lobby_unchanged_iff = diff_printer-Agree_iff lobby old_lobby

abbrev model_diff : PrinterDiff
model_diff = record (plain_diff update_printer lobby) { model_changed = true }

lobby_differs : diff_printer lobby old_lobby ≡ some model_diff
unfolding diff_printer flags any_changed lookup str_eq str_lt deep_equal tagshash
lobby_differs = refl

models_disagree : ¬ Agree lobby old_lobby
models_disagree a = absurd (omega (arith, ap second a.model))
  where
    second : GoString → ℕ
    second (x ∷ y ∷ s) = y
    second _ = 0

abbrev known : List Printer
known = old_lobby ∷ cellar ∷ []

get_by_cups_name-refresh_example :
    (get_by_cups_name (refresh (new_concurrent_printer_map cups_printers) known) (bytes "lobby")
      ≡ last_or (λ p. str_eq p.name (bytes "lobby")) none known)
    × (get_by_gcp_id (refresh (new_concurrent_printer_map cups_printers) known) [] ≡ none)
get_by_cups_name-refresh_example =
    get_by_cups_name-refresh (new_concurrent_printer_map cups_printers) known (bytes "lobby")
