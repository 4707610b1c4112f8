-- ===== src/Manager/Apply.antt =====
-- `applyDiff` and `syncPrinters` of `manager/printermanager.go`. What the cloud and the local network
-- answer is an argument, and the calls made to them are listed. The diffs are applied side by side, so
-- the printers come over the channel in any order.
pub mod Synced
use cc_deb_pkg.Prelude.{
  ℕ, ◌≡◌, Bool, true, false, not, ◌&&◌, Option, none, some, List, [], ◌∷◌, ◌++◌, map, keep_if, Perm,
  GoString, str_eq, if◌then◌else◌, ◌==◌,
}
use cc_deb_pkg.Prelude.GoMap.{GoMap, insert}
use cc_deb_pkg.Cdd.Description.{PrinterDescriptionSection}
use cc_deb_pkg.Printer.{
  Printer, PrinterDiffOperation, register_printer, update_printer, delete_printer,
  no_change_to_printer, PrinterDiff, tagshash,
}
use cc_deb_pkg.Printer.Raw.{filter_raw_printers}
use cc_deb_pkg.Printer.Sync.{diff_printers}
use cc_deb_pkg.PrinterMap.{refresh, get_all}
use cc_deb_pkg.Semaphore.{Semaphore, new_semaphore}
use cc_deb_pkg.Manager.{PrinterManager}

-- Which services there are and what they answer: the ID that `Register` puts into a printer or its
-- error, and whether `Delete` succeeds. `new_address` is where a printer's new semaphore is made.
pub record Services : Type 0 where
  pub gcp : Bool
  pub privet : Bool
  pub can_share : Bool
  pub cloud_id : Printer → Option GoString
  pub cloud_deletes : Printer → Bool
  pub new_address : Printer → ℕ

pub data ServiceCall : Type 0 where
  cloud_register cloud_share cloud_update cloud_delete : Printer → ServiceCall
  local_add local_update local_delete remove_cached_ppd : Printer → ServiceCall

-- `lib.Printer{}`
abbrev pub zero_printer : Printer
zero_printer = record {
  gcp_id = [];
  name = [];
  default_display_name = [];
  uuid = [];
  manufacturer = [];
  model = [];
  gcp_version = [];
  setup_url = [];
  support_url = [];
  update_url = [];
  connector_version = [];
  state = none;
  description = none;
  caps_hash = [];
  tags = [];
  cups_job_semaphore = none;
}

-- The printer sent over the channel, the calls made, and the address of the semaphore made.
pub record Applied : Type 0 where
  pub sent : Printer
  pub calls : List ServiceCall
  pub made : Option ℕ

abbrev pub call_if : Bool → ServiceCall → List ServiceCall
call_if true c = c ∷ []
call_if false c = []

-- From the new semaphore on.
abbrev pub add_locally : Services → Bool → List ServiceCall → Printer → Applied
add_locally s ignore_privet calls p =
    let p' = record p { cups_job_semaphore = some (s.new_address p) } in
    record {
      sent = p';
      calls = calls ++ call_if (s.privet && not ignore_privet) (local_add p');
      made = some (s.new_address p);
    }

-- What `Register` answered.
abbrev pub registered : Services → Bool → Printer → Option GoString → Applied
registered s ignore_privet p none = record {
  sent = zero_printer;
  calls = cloud_register p ∷ [];
  made = none;
}
registered s ignore_privet p (some id) =
    let p' = record p { gcp_id = id } in
    add_locally s ignore_privet (cloud_register p ∷ call_if s.can_share (cloud_share p')) p'

-- The branches of `applyDiff`.
abbrev pub apply_operation : Services → Bool → PrinterDiff → PrinterDiffOperation → Applied
apply_operation s ignore_privet d register_printer =
    if s.gcp
    then registered s ignore_privet d.printer (s.cloud_id d.printer)
    else add_locally s ignore_privet [] d.printer
apply_operation s ignore_privet d update_printer = record {
  sent = d.printer;
  calls =
      call_if s.gcp (cloud_update d.printer)
      ++ call_if (s.privet && not ignore_privet && d.default_display_name_changed)
          (local_update d.printer);
  made = none;
}
apply_operation s ignore_privet d delete_printer = record {
  sent = zero_printer;
  calls =
      remove_cached_ppd d.printer
      ∷ (call_if s.gcp (cloud_delete d.printer)
          ++ call_if
              ((if s.gcp then s.cloud_deletes d.printer else true) && s.privet && not ignore_privet)
              (local_delete d.printer));
  made = none;
}
apply_operation s ignore_privet d no_change_to_printer = record {
  sent = d.printer;
  calls = [];
  made = none;
}

unfoldable pub apply_diff : Services → Bool → PrinterDiff → Applied
apply_diff s ignore_privet d = apply_operation s ignore_privet d d.operation

-- The hashes of a snapshot's printers, by functions for `DeepHash` of the tags and the description.
unfoldable pub set_hashes :
    (GoMap GoString → GoString) → (Option PrinterDescriptionSection → GoString) → Printer → Printer
set_hashes hash_tags hash_description p = record p {
  tags = insert tagshash (hash_tags p.tags) p.tags;
  caps_hash = hash_description p.description;
}

-- The printers that `syncPrinters` keeps of those sent: the zero printer has no name.
unfoldable pub has_printer_name : Printer → Bool
has_printer_name p = not (str_eq p.name [])

-- The printers that come over the channel, in the order of the diffs.
unfoldable pub sent_printers : Services → Bool → List PrinterDiff → List Printer
sent_printers s ignore_privet ds = map (λ d. (apply_diff s ignore_privet d).sent) ds

abbrev put_semaphore : Option ℕ → Semaphore → (ℕ → Semaphore) → ℕ → Semaphore
put_semaphore none new sems = sems
put_semaphore (some a) new sems = λ b. if b == a then new else sems b

-- The heap with the semaphores that the diffs made.
unfoldable pub make_semaphores :
    Services → Bool → ℕ → List PrinterDiff → (ℕ → Semaphore) → ℕ → Semaphore
make_semaphores s ignore_privet size [] sems = sems
make_semaphores s ignore_privet size (d ∷ ds) sems =
    make_semaphores s ignore_privet size ds
      (put_semaphore (apply_diff s ignore_privet d).made (new_semaphore size) sems)

-- The snapshot that is compared, from what CUPS lists: raw printers go if they are ignored, SNMP adds
-- what it knows, and the hashes are set.
unfoldable pub snapshot :
    Bool
    → (List Printer → List Printer)
    → (GoMap GoString → GoString)
    → (Option PrinterDescriptionSection → GoString)
    → List Printer
    → List Printer
snapshot ignore_raw augment hash_tags hash_description cups =
    map (set_hashes hash_tags hash_description)
      (augment (if ignore_raw then (filter_raw_printers cups).0 else cups))

-- `syncPrinters` from the snapshot on, where `DiffPrinters` does not panic. The printers sent that
-- have a name arrive in any order.
pub data SyncStep (s : Services) (ignore_privet : Bool) (cups : List Printer) (pm : PrinterManager)
    : PrinterManager → Type 0 where
  unchanged :
      diff_printers cups (get_all pm.printers) ≡ some none → SyncStep s ignore_privet cups pm pm
  synced :
      (ds : List PrinterDiff) (current : List Printer)
      → diff_printers cups (get_all pm.printers) ≡ some (some ds)
      → Perm (keep_if has_printer_name (sent_printers s ignore_privet ds)) current
      → SyncStep s ignore_privet cups pm (record pm {
        printers = refresh pm.printers current;
        sems = make_semaphores s ignore_privet pm.cups_queue_size ds pm.sems;
      })
