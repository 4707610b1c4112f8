-- ===== src/Manager.antt =====
-- The printer manager, `manager/printermanager.go`: its state, its counters and the set of the jobs
-- in flight. Children: the polling of one job (`Poll`), what its updates say (`Updates`), `printJob`
-- (`Print`), what it leaves behind (`Restore`), and the synchronization of printers (`Apply`).
pub mod Poll
pub mod Updates
pub mod Print
pub mod Restore
pub mod Apply
use cc_deb_pkg.Prelude.{
  ℕ, ◌+◌, ◌%◌, ◌^◌, Bool, true, false, Option, none, some, List, [], ◌∷◌, GoString, if◌then◌else◌,
}
use cc_deb_pkg.Prelude.GoMap.{GoMap, lookup, insert, delete}
use cc_deb_pkg.PrinterMap.{ConcurrentPrinterMap, get_all}
use cc_deb_pkg.Printer.{Printer}
use cc_deb_pkg.Semaphore.{Semaphore, count}

-- The fields that change or are read; `sems` is the heap of semaphores, by address.
pub record PrinterManager : Type 0 where
  pub printers : ConcurrentPrinterMap
  pub sems : ℕ → Semaphore
  pub jobs_done : ℕ
  pub jobs_error : ℕ
  pub jobs_in_flight : GoMap (Unit {0})
  pub cups_queue_size : ℕ
  pub job_full_username : Bool
  pub ignore_raw_printers : Bool
  pub share_scope : GoString

-- A `uint` counter wraps.
abbrev pub count_up : ℕ → ℕ
count_up n = (n + 1) % 2 ^ 64

unfoldable pub increment_jobs_processed : Bool → PrinterManager → PrinterManager
increment_jobs_processed success pm =
    if success
    then record pm { jobs_done = count_up pm.jobs_done }
    else record pm { jobs_error = count_up pm.jobs_error }

-- `true`: the ID was added; `false`: it was there.
unfoldable pub add_in_flight_job : GoString → PrinterManager → PrinterManager × Bool
add_in_flight_job job_id pm = elim (lookup job_id pm.jobs_in_flight) [
  | some _ ↦ (pm, false)
  | none ↦ (record pm { jobs_in_flight = insert job_id tt pm.jobs_in_flight }, true)
]

unfoldable pub delete_in_flight_job : GoString → PrinterManager → PrinterManager
delete_in_flight_job job_id pm = record pm { jobs_in_flight = delete job_id pm.jobs_in_flight }

-- The sum over the printers' semaphores; a printer with no semaphore is a nil dereference: `none`.
processing_loop : (ℕ → Semaphore) → ℕ → List Printer → Option ℕ
processing_loop sems processing [] = some processing
processing_loop sems processing (p ∷ ps) = elim p.cups_job_semaphore [
  | some a ↦ processing_loop sems ((processing + count (sems a)) % 2 ^ 64) ps
  | none ↦ none
]

unfoldable pub get_job_stats : PrinterManager → Option (ℕ × ℕ × ℕ)
unfolding processing_loop
get_job_stats pm = elim (processing_loop pm.sems 0 (get_all pm.printers)) [
  | some processing ↦ some (pm.jobs_done, pm.jobs_error, processing)
  | none ↦ none
]
