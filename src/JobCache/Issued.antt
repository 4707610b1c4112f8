-- ===== src/JobCache/Issued.antt =====
-- Which job IDs the cache of `privet/jobcache.go` has given out, over any run of its operations.
use cc_deb_pkg.Prelude.{
  ℕ, suc, ◌+◌, ◌^◌, ◌≤◌, ◌<◌, ◌≡◌, refl, ap, sym, ◌∙◌, Option, none, some, List, [], ◌∷◌, length,
  GoString, str_eq, str_eq_iff, ℤ, pos, arith, Bool-cases, Option-cases, inl, inr,
}
use cc_deb_pkg.Prelude.GoMap.{GoMap, lookup, insert, delete, lookup-insert, lookup-delete}
use cc_deb_pkg.Prelude.Strconv.{format_uint, format_uint-injective}
use cc_deb_pkg.Cdd.Job.{PrintJobStateDiff}
use cc_deb_pkg.Cdd.Ticket.{CloudJobTicket}
use cc_deb_pkg.JobCache.{
  Entry, JobCache, new_job_cache, new_entry, increment, format_id, get_next_job_id, create_job,
  submit_job, delete_job, update_job,
}

-- A call of an operation that changes the cache, with its time where the operation reads the clock.
pub data CacheCall : Type 0 where
  create : ℕ → Option CloudJobTicket → CacheCall
  submit : ℕ → GoString → GoString → GoString → ℤ → CacheCall
  update : GoString → PrintJobStateDiff → CacheCall
  remove : GoString → CacheCall

unfoldable pub perform : CacheCall → JobCache → JobCache
perform (create now ticket) jc = (create_job now ticket jc).0
perform (submit now id name type size) jc = (submit_job now id name type size jc).0
perform (update id diff) jc = update_job id diff jc
perform (remove id) jc = delete_job id jc

unfoldable pub run : List CacheCall → JobCache → JobCache
run [] jc = jc
run (c ∷ cs) jc = run cs (perform c jc)

-- Every ID in the map is a number up to `n`, printed to base 36.
abbrev Upto : ℕ → GoMap Entry → Type 0
Upto n m =
    (k : GoString) (e : Entry) → lookup k m ≡ some e → (i : ℕ) × (i ≤ n) × (k ≡ format_uint 36 i)

-- The counter, and the IDs up to it.
abbrev Issued : ℕ → JobCache → Type 0
Issued n jc = (jc.next_job_id ≡ pos n) × Upto n jc.entries

Upto-insert :
    (n : ℕ) (m : GoMap Entry) (id : GoString) (e : Entry)
    → Upto n m
    → (i : ℕ) × (i ≤ n) × (id ≡ format_uint 36 i)
    → Upto n (insert id e m)
Upto-insert n m id e h w k e' found = elim (Bool-cases (str_eq id k)) [
  | inl same ↦ let (i, le, eq) = w in (i, le, sym ((str_eq_iff id k).0 same) ∙ eq)
  | inr other ↦ h k e' (sym (rw (lookup-insert id k e m, other)) ∙ found)
]

Upto-delete : (n : ℕ) (m : GoMap Entry) (id : GoString) → Upto n m → Upto n (delete id m)
Upto-delete n m id h k e found = elim (Bool-cases (str_eq id k)) [
  | inl same ↦
      let gone : lookup k (delete id m) ≡ none = rw (lookup-delete id k m, same) in absurd cc
  | inr other ↦ h k e (sym (rw (lookup-delete id k m, other)) ∙ found)
]

Upto-suc : (n : ℕ) (m : GoMap Entry) → Upto n m → Upto (suc n) m
Upto-suc n m h k e found = let (i, le, eq) = h k e found in (i, omega arith, eq)

increment_small : (n : ℕ) → n + 1 < 2 ^ 63 → increment (pos n) ≡ pos (suc n)
unfolding increment
increment_small n small = ground arith

module _ (n : ℕ) (small : n + 1 < 2 ^ 63) (jc : JobCache) (at : jc.next_job_id ≡ pos n) where
  next_number : increment jc.next_job_id ≡ pos (suc n)
  next_number = ap increment at ∙ increment_small n small

  next_id : format_id (increment jc.next_job_id) ≡ format_uint 36 (suc n)
  unfolding format_id
  next_id = rw next_number

  create_job-id :
      (now : ℕ) (ticket : Option CloudJobTicket)
      → (create_job now ticket jc).1 ≡ format_uint 36 (suc n)
  unfolding create_job get_next_job_id new_entry
  create_job-id now ticket = next_id

  perform-create-Issued :
      (now : ℕ) (ticket : Option CloudJobTicket)
      → Upto n jc.entries
      → Issued (suc n) (perform (create now ticket) jc)
  unfolding perform create_job get_next_job_id
  perform-create-Issued now ticket upto = (
    next_number,
    Upto-insert (suc n) jc.entries (format_id (increment jc.next_job_id)) _
        (Upto-suc n jc.entries upto) (suc n, omega arith, next_id),
  )

  -- The ID that the next job gets is in no entry.
  create_job-new :
      (now : ℕ) (ticket : Option CloudJobTicket)
      → Upto n jc.entries
      → lookup (create_job now ticket jc).1 jc.entries ≡ none
  create_job-new now ticket upto =
      elim (Option-cases (lookup (create_job now ticket jc).1 jc.entries)) [
        | inl absent ↦ absent
        | inr (e, found) ↦
            let (i, le, eq) = upto (create_job now ticket jc).1 e found in
            let same =
              format_uint-injective 36 (suc n) i (omega arith)
                (sym (create_job-id now ticket) ∙ eq) in
            absurd (omega arith)
      ]

module _ (n : ℕ) (jc : JobCache) (issued : Issued n jc) where
  submit-Issued :
      (now : ℕ) (id name type : GoString) (size : ℤ) (o : Option Entry)
      → lookup id jc.entries ≡ o
      → Issued n (submit_job now id name type size jc).0
  unfolding submit_job
  submit-Issued now id name type size none e = rw (e, submit_job) issued
  submit-Issued now id name type size (some old) e =
      rw (e, submit_job) (issued.0, Upto-insert n jc.entries id _ issued.1 (issued.1 id old e))

  update-Issued :
      (id : GoString) (diff : PrintJobStateDiff) (o : Option Entry)
      → lookup id jc.entries ≡ o
      → Issued n (update_job id diff jc)
  unfolding update_job
  update-Issued id diff none e = rw (e, update_job) issued
  update-Issued id diff (some old) e =
      rw (e, update_job) (issued.0, Upto-insert n jc.entries id _ issued.1 (issued.1 id old e))

-- A call gives out at most one ID.
perform-Issued :
    (n : ℕ) (c : CacheCall) (jc : JobCache)
    → n + 1 < 2 ^ 63
    → Issued n jc
    → (n' : ℕ) × (n' ≤ suc n) × Issued n' (perform c jc)
unfolding perform delete_job
perform-Issued n (create now ticket) jc small issued =
    (suc n, omega arith, perform-create-Issued n small jc issued.0 now ticket issued.1)
perform-Issued n (submit now id name type size) jc small issued =
    (n, omega arith, submit-Issued n jc issued now id name type size (lookup id jc.entries) refl)
perform-Issued n (update id diff) jc small issued =
    (n, omega arith, update-Issued n jc issued id diff (lookup id jc.entries) refl)
perform-Issued n (remove id) jc small issued =
    (n, omega arith, (issued.0, Upto-delete n jc.entries id issued.1))

run-Issued :
    (n : ℕ) (cs : List CacheCall) (jc : JobCache)
    → n + length cs < 2 ^ 63
    → Issued n jc
    → (n' : ℕ) × (n' ≤ n + length cs) × Issued n' (run cs jc)
unfolding run
run-Issued n [] jc small issued = (n, omega arith, issued)
run-Issued n (c ∷ cs) jc small issued =
    let (k, le, i) = perform-Issued n c jc (omega arith) issued in
    let (n', le', i') = run-Issued k cs (perform c jc) (omega arith) i in (n', omega arith, i')

new_job_cache-Issued : (t : ℕ) → Issued t (new_job_cache t)
unfolding new_job_cache lookup
new_job_cache-Issued t = (refl, λ k e found. absurd cc)

-- Behind any run of the operations on a new cache, the job that `createJob` makes gets an ID that no
-- entry has, so no entry is overwritten, as long as the clock at the start and the calls made do not
-- reach the end of an `int64`.
pub create_job-fresh :
    (t : ℕ) (cs : List CacheCall) (now : ℕ) (ticket : Option CloudJobTicket)
    → t + length cs + 1 < 2 ^ 63
    → let jc = run cs (new_job_cache t) in lookup (create_job now ticket jc).1 jc.entries ≡ none
create_job-fresh t cs now ticket small =
    let (n, le, issued) =
      run-Issued t cs (new_job_cache t) (omega arith) (new_job_cache-Issued t) in
    create_job-new n (omega arith) (run cs (new_job_cache t)) issued.0 now ticket issued.1
