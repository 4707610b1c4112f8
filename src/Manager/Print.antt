-- ===== src/Manager/Print.antt =====
-- `printJob` of `manager/printermanager.go` as one goroutine runs it with nobody else about. CUPS is
-- an argument: what `Print` answers, and what `GetJobState` answers at each tick.
use cc_deb_pkg.Prelude.{
  ℕ, Bool, true, false, Option, none, some, List, [], ◌∷◌, GoString, ◌==◌, if◌then◌else◌, ℤ,
}
use cc_deb_pkg.Cdd.Job.{PrintJobStateDiff, aborted, DeviceActionCauseCode, ServiceActionCauseCode}
use cc_deb_pkg.Cdd.Ticket.{CloudJobTicket}
use cc_deb_pkg.Printer.{Printer}
use cc_deb_pkg.PrinterMap.{get_by_cups_name}
use cc_deb_pkg.Semaphore.{Semaphore, acquire, release}
use cc_deb_pkg.Manager.{
  PrinterManager, increment_jobs_processed, add_in_flight_job, delete_in_flight_job,
}
use cc_deb_pkg.Manager.Poll.{
  plain_state, state_diff, device_aborted, PollRun, PollEnd, finished, waiting, crashed, poll,
}

-- The parameters of `printJob` but `updateJob`, whose calls are listed in the run: `lib.Job`.
pub record Job : Type 0 where
  pub cups_printer_name : GoString
  pub filename : GoString
  pub title : GoString
  pub user : GoString
  pub job_id : GoString
  pub ticket : Option CloudJobTicket

-- What CUPS answers: `Print` with a CUPS job ID or an error, `GetJobState` at each tick.
pub record Cups : Type 0 where
  pub print : Job → Option ℕ
  pub job_states : ℕ → List (Option ℤ)

-- `strings.Split(user, "@")[0]`
unfoldable pub before_at : GoString → GoString
before_at [] = []
before_at (c ∷ s) = let rest = before_at s in if c == b'@' then [] else c ∷ rest

-- How the goroutine stands.
pub data PrintEnd : Type 0 where
  ignored : PrintEnd
  returned : PrintEnd
  blocked : PrintEnd
  printing : PrintEnd
  panicked : PrintEnd

-- The manager, the states passed to `updateJob`, the job handed to CUPS, and how it stands.
pub record PrintRun : Type 0 where
  pub pm : PrinterManager
  pub updates : List PrintJobStateDiff
  pub submitted : Option Job
  pub end : PrintEnd

abbrev pub set_sem : ℕ → Semaphore → PrinterManager → PrinterManager
set_sem a s pm = record pm { sems = λ b. if b == a then s else pm.sems b }

-- The deferred calls behind the acquired semaphore: `Release`, then `deleteInFlightJob`.
unfoldable pub give_back : ℕ → GoString → PrinterManager → Option PrinterManager
give_back a job_id pm = elim (release (pm.sems a)) [
  | some s ↦ some (delete_in_flight_job job_id (set_sem a s pm))
  | none ↦ none
]

abbrev pub returning :
    Option PrinterManager → PrinterManager → List PrintJobStateDiff → Option Job → PrintRun
returning (some pm') pm us job = record { pm = pm'; updates = us; submitted = job; end = returned }
returning none pm us job = record { pm = pm; updates = us; submitted = job; end = panicked }

unfoldable pub printer_deleted : PrintJobStateDiff
printer_deleted = state_diff (record (plain_state aborted) {
  service_action_cause = some (record { error_code = ServiceActionCauseCode.printer_deleted });
})

unfoldable pub print_failed : PrintJobStateDiff
print_failed = state_diff (device_aborted aborted DeviceActionCauseCode.print_failure)

unfoldable pub no_diff : PrintJobStateDiff
no_diff = record { state = none; pages_printed = none }

-- The end of the polling loop.
unfoldable pub after_poll : ℕ → Job → PrinterManager → PollRun → PollEnd → PrintRun
after_poll a job pm r (finished success) =
    let pm' = increment_jobs_processed success pm in
    returning (give_back a job.job_id pm') pm' r.updates (some job)
after_poll a job pm r waiting = record {
  pm = pm;
  updates = r.updates;
  submitted = some job;
  end = printing;
}
after_poll a job pm r crashed = record {
  pm = pm;
  updates = r.updates;
  submitted = some job;
  end = panicked;
}

-- From the call of `Print` on, with the semaphore acquired.
unfoldable pub submit : Cups → ℕ → Job → PrinterManager → Option ℕ → PrintRun
submit cups a job pm none =
    let pm' = increment_jobs_processed false pm in
    returning (give_back a job.job_id pm') pm' (print_failed ∷ []) (some job)
submit cups a job pm (some cups_job_id) =
    let r = poll no_diff (cups.job_states cups_job_id) in after_poll a job pm r r.end

-- The wait for the printer's semaphore at an address; `none` is the wait.
unfoldable pub acquired : Cups → Job → ℕ → PrinterManager → Option Semaphore → PrintRun
acquired cups job a pm none = record { pm = pm; updates = []; submitted = none; end = blocked }
acquired cups job a pm (some s) = submit cups a job (set_sem a s pm) (cups.print job)

-- A printer with no semaphore is a nil dereference.
unfoldable pub with_printer : Cups → Job → PrinterManager → Option ℕ → PrintRun
with_printer cups job pm none = record { pm = pm; updates = []; submitted = none; end = panicked }
with_printer cups job pm (some a) = acquired cups job a pm (acquire (pm.sems a))

-- The look-up of the printer, with the job in flight.
unfoldable pub in_flight : Cups → Job → PrinterManager → Option Printer → PrintRun
in_flight cups job pm none = record {
  pm = delete_in_flight_job job.job_id (increment_jobs_processed false pm);
  updates = printer_deleted ∷ [];
  submitted = none;
  end = returned;
}
in_flight cups job pm (some p) =
    with_printer cups (record job { cups_printer_name = p.name }) pm p.cups_job_semaphore

-- The branch on the answer of `addInFlightJob`.
unfoldable pub added_job : Cups → Job → PrinterManager × Bool → PrintRun
added_job cups job (pm, true) =
    in_flight cups
      (record job { user = if pm.job_full_username then job.user else before_at job.user }) pm
      (get_by_cups_name pm.printers job.cups_printer_name)
added_job cups job (pm, false) = record { pm = pm; updates = []; submitted = none; end = ignored }

unfoldable pub print_job : Cups → Job → PrinterManager → PrintRun
print_job cups job pm = added_job cups job (add_in_flight_job job.job_id pm)
