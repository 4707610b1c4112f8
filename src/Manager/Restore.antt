-- ===== src/Manager/Restore.antt =====
-- What `printJob` leaves behind when it returns.
pub mod Returns
use cc_deb_pkg.Prelude.{
  ℕ, ◌≡◌, refl, ap, sym, ◌∙◌, subst, Bool, true, false, ◌⊎◌, Option, none, some, List, [], ◌∷◌,
  GoString, str_eq_iff, if◌then◌else◌, arith, Option-cases, inl, inr, ◌==◌,
}
use cc_deb_pkg.Prelude.GoMap.{GoMap, lookup, insert, delete, lookup-insert, lookup-delete}
use cc_deb_pkg.PrinterMap.{get_by_cups_name}
use cc_deb_pkg.Cdd.Job.{PrintJobStateDiff}
use cc_deb_pkg.Printer.{Printer}
use cc_deb_pkg.Semaphore.{Semaphore, acquire, release}
use cc_deb_pkg.Manager.{
  PrinterManager, count_up, increment_jobs_processed, add_in_flight_job, delete_in_flight_job,
}
use cc_deb_pkg.Manager.Poll.{PollRun, PollEnd, finished, waiting, crashed, poll}
use cc_deb_pkg.Manager.Print.{
  before_at, Job, Cups, ignored, returned, set_sem, give_back, returning, after_poll, submit,
  acquired, with_printer, added_job, in_flight, print_job, print_failed, no_diff,
}

-- The job counted once, as done or as an error, and nothing else changed: the jobs in flight, every
-- semaphore and the printers are what they were.
pub record Restored (pm pm' : PrinterManager) : Type 0 where
  pub flights : (k : GoString) → lookup k pm'.jobs_in_flight ≡ lookup k pm.jobs_in_flight
  pub semaphores : (b : ℕ) → pm'.sems b ≡ pm.sems b
  pub counted :
      ((pm'.jobs_done ≡ count_up pm.jobs_done) × (pm'.jobs_error ≡ pm.jobs_error))
      ⊎ ((pm'.jobs_done ≡ pm.jobs_done) × (pm'.jobs_error ≡ count_up pm.jobs_error))
  pub printers : pm'.printers ≡ pm.printers

-- A semaphore acquired and released is what it was.
pub release-acquire : (s t : Semaphore) → acquire s ≡ some t → release t ≡ some s
unfolding acquire release
release-acquire s t h = ground arith

-- The jobs in flight with one more.
abbrev flying : GoString → PrinterManager → PrinterManager
flying id pm = record pm { jobs_in_flight = insert id tt pm.jobs_in_flight }

lookup-delete-insert :
    (id k : GoString) (m : GoMap (Unit {0}))
    → lookup id m ≡ none
    → lookup k (delete id (insert id tt m)) ≡ lookup k m
lookup-delete-insert id k m h =
    ground (arith, lookup-delete id k (insert id tt m), lookup-insert id k tt m, str_eq_iff id k)

same_sem : (f : ℕ → Semaphore) (a : ℕ) (t : Semaphore) → (if a == a then t else f a) ≡ t
same_sem f a t = ground arith

set_back :
    (f : ℕ → Semaphore) (a b : ℕ) (s : Semaphore)
    → (if b == a then f a else if b == a then s else f b) ≡ f b
set_back f a b s = ground arith

give_back-some :
    (a : ℕ) (id : GoString) (pm : PrinterManager) (t : Semaphore)
    → release (pm.sems a) ≡ some t
    → give_back a id pm ≡ some (delete_in_flight_job id (set_sem a t pm))
unfolding give_back
give_back-some a id pm t h = rw (h, give_back)

module _ (pm : PrinterManager) (id : GoString) (new : lookup id pm.jobs_in_flight ≡ none) where
  -- A job of a missing printer.
  missing-Restored :
      Restored pm (delete_in_flight_job id (increment_jobs_processed false (flying id pm)))
  unfolding delete_in_flight_job increment_jobs_processed
  missing-Restored = record {
    flights = λ k. lookup-delete-insert id k pm.jobs_in_flight new;
    semaphores = λ b. refl;
    counted = inr (refl, refl);
    printers = refl;
  }

  module _ (a : ℕ) (s : Semaphore) (acquired : acquire (pm.sems a) ≡ some s) where
    abbrev holding : PrinterManager
    holding = set_sem a s (flying id pm)

    released : (f : ℕ → Semaphore) → release (if a == a then s else f a) ≡ some (pm.sems a)
    released f = ap release (same_sem f a s) ∙ release-acquire (pm.sems a) s acquired

    restored :
        (success : Bool)
        → Restored pm (
            delete_in_flight_job id
              (set_sem a (pm.sems a) (increment_jobs_processed success holding)))
    unfolding delete_in_flight_job increment_jobs_processed
    restored true = record {
      flights = λ k. lookup-delete-insert id k pm.jobs_in_flight new;
      semaphores = λ b. set_back pm.sems a b s;
      counted = inl (refl, refl);
      printers = refl;
    }
    restored false = record {
      flights = λ k. lookup-delete-insert id k pm.jobs_in_flight new;
      semaphores = λ b. set_back pm.sems a b s;
      counted = inr (refl, refl);
      printers = refl;
    }

    still_held :
        (success : Bool)
        → release ((increment_jobs_processed success holding).sems a) ≡ some (pm.sems a)
    unfolding increment_jobs_processed
    still_held true = released pm.sems
    still_held false = released pm.sems

    gives_back :
        (success : Bool)
        → (pm' : PrinterManager) × (give_back a id (increment_jobs_processed success holding)
            ≡ some pm')
          × Restored pm pm'
    gives_back success = (
      delete_in_flight_job id (set_sem a (pm.sems a) (increment_jobs_processed success holding)),
      give_back-some a id (increment_jobs_processed success holding) (pm.sems a)
          (still_held success),
      restored success,
    )

    -- Whatever the loop's end, a run that returns has restored the manager.
    returning-Restored :
        (success : Bool) (us : List PrintJobStateDiff) (job : Option Job)
        → let pm' = increment_jobs_processed success holding in
          Restored pm (returning (give_back a id pm') pm' us job).pm
    returning-Restored success us job =
        let (pm', given, r) = gives_back success in
        subst (λ o. Restored pm (returning o (increment_jobs_processed success holding) us job).pm)
          (sym given) r

    after_poll-Restored :
        (job : Job) (r : PollRun) (e : PollEnd)
        → job.job_id ≡ id
        → (after_poll a job holding r e).end ≡ returned
        → Restored pm (after_poll a job holding r e).pm
    unfolding after_poll
    after_poll-Restored job r (finished success) i h =
        subst
          (λ k.
            let pm' = increment_jobs_processed success holding in
            Restored pm (returning (give_back a k pm') pm' r.updates (some job)).pm)
          (sym i) (returning-Restored success r.updates (some job))
    after_poll-Restored job r waiting i h = cc
    after_poll-Restored job r crashed i h = cc

    submit-Restored :
        (cups : Cups) (job : Job) (answer : Option ℕ)
        → job.job_id ≡ id
        → (submit cups a job holding answer).end ≡ returned
        → Restored pm (submit cups a job holding answer).pm
    unfolding submit
    submit-Restored cups job none i h =
        subst
          (λ k.
            let pm' = increment_jobs_processed false holding in
            Restored pm (returning (give_back a k pm') pm' (print_failed ∷ []) (some job)).pm)
          (sym i) (returning-Restored false (print_failed ∷ []) (some job))
    submit-Restored cups job (some n) i h =
        let r = poll no_diff (cups.job_states n) in after_poll-Restored job r r.end i h

  acquired-Restored :
      (cups : Cups) (job : Job) (a : ℕ) (o : Option Semaphore)
      → acquire (pm.sems a) ≡ o
      → job.job_id ≡ id
      → (acquired cups job a (flying id pm) o).end ≡ returned
      → Restored pm (acquired cups job a (flying id pm) o).pm
  unfolding acquired
  acquired-Restored cups job a none e i h = cc
  acquired-Restored cups job a (some s) e i h = submit-Restored a s e cups job (cups.print job) i h

  with_printer-Restored :
      (cups : Cups) (job : Job) (sem : Option ℕ)
      → job.job_id ≡ id
      → (with_printer cups job (flying id pm) sem).end ≡ returned
      → Restored pm (with_printer cups job (flying id pm) sem).pm
  unfolding with_printer
  with_printer-Restored cups job none i h = cc
  with_printer-Restored cups job (some a) i h =
      acquired-Restored cups job a (acquire (pm.sems a)) refl i h

  in_flight-Restored :
      (cups : Cups) (job : Job) (found : Option Printer)
      → job.job_id ≡ id
      → (in_flight cups job (flying id pm) found).end ≡ returned
      → Restored pm (in_flight cups job (flying id pm) found).pm
  unfolding in_flight
  in_flight-Restored cups job none i h =
      subst
        (λ k. Restored pm (delete_in_flight_job k (increment_jobs_processed false (flying id pm))))
        (sym i) missing-Restored
  in_flight-Restored cups job (some p) i h =
      with_printer-Restored cups (record job { cups_printer_name = p.name }) p.cups_job_semaphore i
        h

-- The two answers of `addInFlightJob`.
module _ (pm : PrinterManager) (id : GoString) where
  add_new : lookup id pm.jobs_in_flight ≡ none → add_in_flight_job id pm ≡ (flying id pm, true)
  unfolding add_in_flight_job
  add_new h = rw (h, add_in_flight_job)

  add_old :
      {u : Unit {0}} → lookup id pm.jobs_in_flight ≡ some u → add_in_flight_job id pm ≡ (pm, false)
  unfolding add_in_flight_job
  add_old h = rw (h, add_in_flight_job)

module _ (cups : Cups) (job : Job) (pm : PrinterManager) where
  new_job-Restored :
      lookup job.job_id pm.jobs_in_flight ≡ none
      → (added_job cups job (flying job.job_id pm, true)).end ≡ returned
      → Restored pm (added_job cups job (flying job.job_id pm, true)).pm
  unfolding added_job
  new_job-Restored new h =
      let job' = record job {
        user = if pm.job_full_username then job.user else before_at job.user;
      } in
      in_flight-Restored pm job.job_id new cups job'
        (get_by_cups_name pm.printers job.cups_printer_name) refl h

  old_job-ignored : (added_job cups job (pm, false)).end ≡ ignored
  unfolding added_job
  old_job-ignored = refl

  -- A call of `printJob` that returns, and does not throw the job away as one already in flight, has
  -- counted the job once, as done or as an error; the jobs in flight, every semaphore and the printers
  -- are what they were before.
  pub print_job-Restored :
      (print_job cups job pm).end ≡ returned → Restored pm (print_job cups job pm).pm
  unfolding print_job
  print_job-Restored h = elim (Option-cases (lookup job.job_id pm.jobs_in_flight)) [
    | inl new ↦
        subst (λ r. (added_job cups job r).end ≡ returned → Restored pm (added_job cups job r).pm)
          (sym (add_new pm job.job_id new)) (new_job-Restored new) h
    | inr (u, old) ↦
        let h' = subst (λ r. (added_job cups job r).end ≡ returned) (add_old pm job.job_id old) h in
        let e = old_job-ignored in cc
  ]
