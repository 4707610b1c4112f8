-- ===== src/Tests/Samples.antt =====
-- Printers, descriptions and a manager for the runs.
use cc_deb_pkg.Prelude.{none, some, List, [], ◌∷◌, GoString, bytes}
use cc_deb_pkg.Printer.{Printer, tagshash}
use cc_deb_pkg.Printer.Sync.{adopt}

-- A printer of a name, a model, a GCP ID and tags whose hash is given.
abbrev pub printer : GoString → GoString → GoString → GoString → Printer
printer name model gcp_id hash = record {
  gcp_id = gcp_id;
  name = name;
  default_display_name = name;
  uuid = [];
  manufacturer = bytes "ACME";
  model = model;
  gcp_version = bytes "2.0";
  setup_url = [];
  support_url = [];
  update_url = [];
  connector_version = bytes "1";
  state = none;
  description = none;
  caps_hash = [];
  tags = (tagshash, hash) ∷ [];
  cups_job_semaphore = none;
}

abbrev pub lobby : Printer
lobby = printer (bytes "lobby") (bytes "M1") [] (bytes "h1")

abbrev pub attic : Printer
attic = printer (bytes "attic") (bytes "M2") [] (bytes "h2")

-- What GCP has: an older lobby, a duplicate of it, and a printer that CUPS does not have.
abbrev pub old_lobby : Printer
old_lobby = printer (bytes "lobby") (bytes "M0") (bytes "g1") (bytes "h1")

abbrev pub cellar : Printer
cellar = printer (bytes "cellar") (bytes "M3") (bytes "g3") (bytes "h3")

abbrev pub cups_printers : List Printer
cups_printers = lobby ∷ attic ∷ []

abbrev pub gcp_printers : List Printer
gcp_printers = old_lobby ∷ old_lobby ∷ cellar ∷ []

-- A registration: GCP gives an ID, and the manager makes a semaphore.
abbrev pub register : Printer → Printer
register p = record p { gcp_id = bytes "new"; cups_job_semaphore = some 1 }

-- The printers after a sync, in another order.
abbrev pub synced_printers : List Printer
synced_printers = adopt lobby old_lobby ∷ register attic ∷ []
