-- ===== src/Manager/Restore/Returns.antt =====
-- When `printJob` returns.
use cc_deb_pkg.Prelude.{ℕ, ◌≡◌, Bool, Option, none, some, ◌⊎◌}
use cc_deb_pkg.PrinterMap.{get_by_cups_name}
use cc_deb_pkg.Printer.{Printer}
use cc_deb_pkg.Semaphore.{Semaphore, acquire}
use cc_deb_pkg.Manager.{PrinterManager}
use cc_deb_pkg.Manager.Poll.{finished}
use cc_deb_pkg.Manager.Updates.{verdict}
use cc_deb_pkg.Manager.Print.{PrintEnd, Job, Cups, returned, ignored}

-- CUPS refuses the job, or takes it and its answers come to a decision.
abbrev pub Decides : Cups → Job → Type 0
Decides cups job =
    (cups.print job ≡ none)
    ⊎ ((n : ℕ) × (success : Bool) × (cups.print job ≡ some n)
        × (verdict (cups.job_states n) ≡ finished success))

-- Each printer that the name leads to has a semaphore with a token left.
abbrev pub IsFree : PrinterManager → Job → Type 0
IsFree pm job =
    (p : Printer)
    → get_by_cups_name pm.printers job.cups_printer_name ≡ some p
    → (a : ℕ) × (s : Semaphore) × (p.cups_job_semaphore ≡ some a) × (acquire (pm.sems a) ≡ some s)

-- How a call ends, by what the jobs in flight have for the job.
abbrev pub ending : Option (Unit {0}) → PrintEnd
ending none = returned
ending (some u) = ignored
