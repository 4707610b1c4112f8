-- ===== src/Tests/Jobs.antt =====
-- Runs of print jobs, of the semaphores that bound them, and of the cache of local jobs.
use cc_deb_pkg.Prelude.{
  ◌≤◌, ◌≡◌, ◌≢◌, ◌↔◌, refl, true, false, Option, none, some, List, [], ◌∷◌, ℤ, pos, bytes, str_eq,
  length, arith,
}
use cc_deb_pkg.Prelude.GoMap.{lookup, insert, delete}
use cc_deb_pkg.Cdd.Job.{JobState}
use cc_deb_pkg.Semaphore.{new_semaphore, acquire, try_acquire, release, count, size}
use cc_deb_pkg.Semaphore.Fleet.{
  Fleet, acquires, Reach, here, next, start, reachable_holders, reachable_release, reachable_full,
}
use cc_deb_pkg.PrinterMap.{refresh, new_concurrent_printer_map, get_by_cups_name}
use cc_deb_pkg.Manager.{
  PrinterManager, increment_jobs_processed, add_in_flight_job, delete_in_flight_job,
}
use cc_deb_pkg.Manager.Poll.{
  is_in_progress, is_done, finished, poll, convert_job_state, after_tick, convert_number,
}
use cc_deb_pkg.Manager.Updates.{
  IsOpen, Changes, last_update, verdict, verdict_of, poll-verdict, poll-Changes, poll-last_update,
}
use cc_deb_pkg.Manager.Print.{
  Job, Cups, returned, no_diff, print_job, added_job, in_flight, with_printer, acquired, submit,
  after_poll, give_back,
}
use cc_deb_pkg.Manager.Restore.{Restored, print_job-Restored}
use cc_deb_pkg.JobCache.{new_job_cache, create_job}
use cc_deb_pkg.JobCache.Issued.{CacheCall, create, remove, perform, run, create_job-fresh}
use cc_deb_pkg.JobCache.Apart.{perform-apart}
use cc_deb_pkg.Tests.Samples.{lobby, register}

-- Two goroutines hold both tokens of a semaphore.
abbrev two_held : Fleet
two_held = record { sem = record { tokens = 2; room = 2 }; holders = 8 ∷ 7 ∷ [] }

two_held-Reach : Reach (start 2) two_held
unfolding new_semaphore acquire
two_held-Reach = next (next here (acquires (start 2) 7 refl)) (acquires _ 8 refl)

reachable_holders_example :
    (length two_held.holders ≤ 2)
    × (count two_held.sem ≡ length two_held.holders)
    × (size two_held.sem ≡ 2)
reachable_holders_example = reachable_holders 2 two_held two_held-Reach

held : two_held.holders ≢ []
held e = cc

reachable_release_example : release two_held.sem ≢ none
reachable_release_example = reachable_release 2 two_held two_held-Reach held

reachable_full_example :
    ((acquire two_held.sem ≡ none) ↔ (length two_held.holders ≡ 2))
    × (((try_acquire two_held.sem).1 ≡ false) ↔ (length two_held.holders ≡ 2))
reachable_full_example = reachable_full 2 two_held two_held-Reach

-- CUPS answers that the job is pending, processing, and completed.
abbrev answers : List (Option ℤ)
answers = some (pos 3) ∷ some (pos 5) ∷ some (pos 9) ∷ []

nothing_known : IsOpen no_diff
unfolding no_diff
nothing_known s e = cc

poll-verdict_example : (poll no_diff answers).end ≡ verdict answers
poll-verdict_example = poll-verdict no_diff answers

poll-Changes_example : Changes no_diff (poll no_diff answers).updates
poll-Changes_example = poll-Changes no_diff answers nothing_known

done_at_last : (poll no_diff answers).end ≡ finished true
unfolding verdict verdict_of
done_at_last = poll-verdict no_diff answers

poll-last_update_example :
    (s : JobState) × ((last_update no_diff (poll no_diff answers).updates).state ≡ some s)
    × (is_in_progress s.type ≡ false)
    × (is_done s.type ≡ true)
poll-last_update_example = poll-last_update no_diff answers true nothing_known done_at_last

abbrev manager : PrinterManager
manager = record {
  printers = new_concurrent_printer_map (register lobby ∷ []);
  sems = λ a. new_semaphore 3;
  jobs_done = 0;
  jobs_error = 0;
  jobs_in_flight = [];
  cups_queue_size = 3;
  job_full_username = false;
  ignore_raw_printers = true;
  share_scope = [];
}

abbrev job : Job
job = record {
  cups_printer_name = bytes "lobby";
  filename = bytes "/tmp/j";
  title = bytes "t";
  user = bytes "u@example.org";
  job_id = bytes "j1";
  ticket = none;
}

abbrev cups : Cups
cups = record { print = λ j. some 17; job_states = λ n. answers }

job_returns : (print_job cups job manager).end ≡ returned
unfolding print_job added_job in_flight with_printer acquired submit after_poll give_back
    add_in_flight_job new_concurrent_printer_map refresh get_by_cups_name lookup insert delete
    str_eq new_semaphore acquire release increment_jobs_processed delete_in_flight_job poll
    convert_job_state after_tick convert_number
job_returns = refl

print_job-Restored_example : Restored manager (print_job cups job manager).pm
print_job-Restored_example = print_job-Restored cups job manager job_returns

new_job : lookup job.job_id manager.jobs_in_flight ≡ none
unfolding lookup
new_job = refl

abbrev calls : List CacheCall
calls = create 5 none ∷ create 6 none ∷ remove (bytes "3") ∷ []

create_job-fresh_example :
    lookup (create_job 9 none (run calls (new_job_cache 1))).1 (run calls (new_job_cache 1)).entries
    ≡ none
create_job-fresh_example = create_job-fresh 1 calls 9 none (omega arith)

apart : str_eq (bytes "3") (bytes "2") ≡ false
unfolding str_eq
apart = refl

perform-apart_example :
    lookup (bytes "2") (perform (remove (bytes "3")) (run calls (new_job_cache 1))).entries
    ≡ lookup (bytes "2") (run calls (new_job_cache 1)).entries
perform-apart_example =
    perform-apart (remove (bytes "3")) (bytes "2") (run calls (new_job_cache 1)) apart
