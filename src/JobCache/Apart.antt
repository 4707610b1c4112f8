-- ===== src/JobCache/Apart.antt =====
-- An operation of the cache of `privet/jobcache.go` on one job leaves the others alone.
use cc_deb_pkg.Prelude.{ℕ, ℤ, ◌≡◌, refl, false, Option, none, some, GoString, str_eq}
use cc_deb_pkg.Cdd.Job.{PrintJobStateDiff}
use cc_deb_pkg.Prelude.GoMap.{lookup, lookup-insert, lookup-delete}
use cc_deb_pkg.JobCache.{
  Entry, JobCache, get_next_job_id, create_job, submit_job, delete_job, update_job,
}
use cc_deb_pkg.JobCache.Issued.{CacheCall, create, submit, update, remove, perform}

-- The job that a call is about: the new one of `createJob`.
abbrev pub subject : CacheCall → JobCache → GoString
subject (create now ticket) jc = (get_next_job_id jc).1
subject (submit now id name type size) jc = id
subject (update id diff) jc = id
subject (remove id) jc = id

module _ (id k : GoString) (jc : JobCache) (other : str_eq id k ≡ false) where
  submit_job-apart :
      (now : ℕ) (name type : GoString) (size : ℤ) (o : Option Entry)
      → lookup id jc.entries ≡ o
      → lookup k (submit_job now id name type size jc).0.entries ≡ lookup k jc.entries
  unfolding submit_job
  submit_job-apart now name type size none e = rw (e, submit_job)
  submit_job-apart now name type size (some old) e = rw (e, submit_job, lookup-insert, other)

  update_job-apart :
      (diff : PrintJobStateDiff) (o : Option Entry)
      → lookup id jc.entries ≡ o
      → lookup k (update_job id diff jc).entries ≡ lookup k jc.entries
  unfolding update_job
  update_job-apart diff none e = rw (e, update_job)
  update_job-apart diff (some old) e = rw (e, update_job, lookup-insert, other)

-- A call leaves the entry of every other job as it was, and makes none.
pub perform-apart :
    (c : CacheCall) (k : GoString) (jc : JobCache)
    → str_eq (subject c jc) k ≡ false
    → lookup k (perform c jc).entries ≡ lookup k jc.entries
unfolding perform create_job get_next_job_id delete_job
perform-apart (create now ticket) k jc other = rw (lookup-insert, other)
perform-apart (submit now id name type size) k jc other =
    submit_job-apart id k jc other now name type size (lookup id jc.entries) refl
perform-apart (update id diff) k jc other =
    update_job-apart id k jc other diff (lookup id jc.entries) refl
perform-apart (remove id) k jc other = rw (lookup-delete, other)
