-- ===== src/Manager/Apply/Synced.antt =====
-- A sync by `syncPrinters` in which the cloud registers what it is asked to.
use mathlib.Core.Logic.{∥∥₁_elim}
use cc_deb_pkg.Prelude.{
  ap, ◌∙◌, map, ◌≤◌, ◌≡◌, refl, sym, subst, Bool, true, false, not, Option, none, some, List, [],
  ◌∷◌, ◌++◌, keep_if, All, All-map, GoString, str_eq, str_eq_refl, if◌then◌else◌,
}
use cc_deb_pkg.Prelude.GoMap.{GoMap, lookup, lookup-insert}
use cc_deb_pkg.Printer.{
  Printer, PrinterDiffOperation, register_printer, update_printer, delete_printer,
  no_change_to_printer, PrinterDiff, plain_diff, tagshash, printer_slice_to_map_by_name,
}
use cc_deb_pkg.Cdd.Description.{PrinterDescriptionSection}
use cc_deb_pkg.Printer.Raw.{filter_raw_printers}
use cc_deb_pkg.Printer.Sync.{adopt, diff_printers}
use cc_deb_pkg.Printer.Kept.{count_name, kept, left_of, printer_slice_to_map_by_name-IsByName}
use cc_deb_pkg.Printer.Current.{IsRegistration, IsHashed, IsCurrent, by_name-property}
use cc_deb_pkg.Printer.Converge.{InSync, diff_printers-InSync}
use cc_deb_pkg.Printer.Settled.{InSync-nil, InSync-Permᴰ, PrinterDiffs-set}
use cc_deb_pkg.PrinterMap.{get_all, get_all-refresh}
use cc_deb_pkg.Manager.{PrinterManager}
use cc_deb_pkg.Manager.Apply.{
  Services, add_locally, registered, apply_operation, apply_diff, set_hashes, snapshot,
  has_printer_name, sent_printers, SyncStep, unchanged, synced,
}

-- The cloud gives an ID to every printer that it is asked to register.
abbrev pub Registers : Services → Type 0
Registers s = (p : Printer) → (id : GoString) × (s.cloud_id p ≡ some id)

abbrev pub HasName : Printer → Type 0
HasName p = has_printer_name p ≡ true

module _ (s : Services) (ignore_privet : Bool) (registers : Registers s) where
  -- What a registration makes of a printer.
  abbrev registration : Printer → Printer
  registration p =
      (apply_operation s ignore_privet (plain_diff register_printer p) register_printer).sent

  adopts :
      (p : Printer) (cloud : Bool) (o : Option GoString) (id : GoString)
      → o ≡ some id
      → let r =
          (if cloud
            then registered s ignore_privet p o
            else add_locally s ignore_privet [] p).sent in
        r ≡ adopt p r
  adopts p true none id e = absurd cc
  adopts p true (some j) id e = refl
  adopts p false o id e = refl

  registration-IsRegistration : IsRegistration registration
  registration-IsRegistration p = let (id, e) = registers p in adopts p s.gcp (s.cloud_id p) id e

  keep_if-step :
      (d : PrinterDiff) (op : PrinterDiffOperation) (rest ks : List Printer)
      → (All HasName ks → rest ≡ ks)
      → All HasName (left_of registration op d.printer ++ ks)
      → (let p = (apply_operation s ignore_privet d op).sent in
          if has_printer_name p then p ∷ rest else rest)
        ≡ left_of registration op d.printer ++ ks
  unfolding has_printer_name str_eq
  keep_if-step d register_printer rest ks f a = rw (a.0, f a.1)
  keep_if-step d update_printer rest ks f a = rw (a.0, f a.1)
  keep_if-step d delete_printer rest ks f a = f a
  keep_if-step d no_change_to_printer rest ks f a = rw (a.0, f a.1)

  keep_if-sent :
      (ds : List PrinterDiff)
      → All HasName (kept registration ds)
      → keep_if has_printer_name (sent_printers s ignore_privet ds) ≡ kept registration ds
  unfolding sent_printers kept keep_if apply_diff
  keep_if-sent [] a = refl
  keep_if-sent (d ∷ ds) a =
      keep_if-step d d.operation (keep_if has_printer_name (sent_printers s ignore_privet ds))
        (kept registration ds) (keep_if-sent ds) a

-- The known printers of a sync have the names of CUPS.
current_named :
    (cups : List Printer)
    → All HasName cups
    → (g : Printer) → IsCurrent (printer_slice_to_map_by_name cups) g
    → HasName g
unfolding has_printer_name
current_named cups named g (c, found, agree) =
    let n = by_name-property HasName cups named g.name c found in
    let same = printer_slice_to_map_by_name-IsByName cups g.name c found in
    subst (λ k. not (str_eq k []) ≡ true) same n

module _ (hash_tags : GoMap GoString → GoString)
    (hash_description : Option PrinterDescriptionSection → GoString) where
  set_hashes-IsHashed :
      (ps : List Printer) → All IsHashed (map (set_hashes hash_tags hash_description) ps)
  unfolding set_hashes
  set_hashes-IsHashed [] = tt
  set_hashes-IsHashed (p ∷ ps) = (
    (
      hash_tags p.tags,
      lookup-insert tagshash tagshash (hash_tags p.tags) p.tags
          ∙ ap (λ b. if b then some (hash_tags p.tags) else lookup tagshash p.tags)
              (str_eq_refl tagshash),
    ),
    set_hashes-IsHashed ps,
  )

  -- Every printer of a snapshot has hashed tags, whatever CUPS lists, SNMP adds and the hash functions
  -- answer.
  pub snapshot-IsHashed :
      (ignore_raw : Bool) (augment : List Printer → List Printer) (cups : List Printer)
      → All IsHashed (snapshot ignore_raw augment hash_tags hash_description cups)
  unfolding snapshot
  snapshot-IsHashed ignore_raw augment cups =
      set_hashes-IsHashed (augment (if ignore_raw then (filter_raw_printers cups).0 else cups))

-- If CUPS's printers have different names, none of them empty, and hashed tags, and the cloud gives an
-- ID to every printer that it is asked to register, then after a sync, in whatever order the printers
-- arrive, the next comparison with the same snapshot answers nil.
pub SyncStep-settled :
    (s : Services) (ignore_privet : Bool) (cups : List Printer) (pm : PrinterManager)
    → Registers s
    → ((n : GoString) → count_name n cups ≤ 1)
    → All HasName cups
    → All IsHashed cups
    → {pm' : PrinterManager} → SyncStep s ignore_privet cups pm pm'
    → diff_printers cups (get_all pm'.printers) ≡ some none
SyncStep-settled s ignore_privet cups pm registers unique named hashed (unchanged e) = e
SyncStep-settled s ignore_privet cups pm registers unique named hashed
      (synced ds current e arrived) =
    ∥∥₁_elim arrived (PrinterDiffs-set _ _) (λ p.
      let settled = InSync-Permᴰ cups p (subst (InSync cups) (sym all_sent) in_sync) in
      subst (λ l. diff_printers cups l ≡ some none)
        (sym (get_all-refresh pm.printers current settled.distinct))
        (InSync-nil cups current settled))
  where
    register : Printer → Printer
    register = registration s ignore_privet registers

    in_sync : InSync cups (kept register ds)
    in_sync =
        diff_printers-InSync register cups (get_all pm.printers) (some ds)
          (registration-IsRegistration s ignore_privet registers) unique hashed e

    all_sent : keep_if has_printer_name (sent_printers s ignore_privet ds) ≡ kept register ds
    all_sent =
        keep_if-sent s ignore_privet registers ds
          (All-map _ HasName (kept register ds) (current_named cups named) in_sync.current)
