-- ===== src/JobCache.antt =====
-- The cache of the local print jobs: `privet/jobcache.go`. A time is its nanoseconds, and the time of
-- a call is an argument. The timer of an entry is the call of `deleteJob` that it makes, which may
-- come between any two operations. The JSON encoder is a parameter. An operation holds a lock while it
-- reads and writes the entries, so that those of several goroutines are one sequence; `createJob`,
-- which takes its number under a lock of its own and then writes the entry, is one step here.
pub mod Issued
pub mod Apart
use cc_deb_pkg.Prelude.{
  ℕ, zero, suc, ◌+◌, ◌-◌, ◌*◌, ◌/◌, ◌^◌, Bool, true, false, Option, none, some, List, [], ◌∷◌,
  if◌then◌else◌, ltb, ◌==◌, GoString, bytes, ℤ, pos, negsuc,
}
use cc_deb_pkg.Prelude.GoMap.{GoMap, lookup, insert, delete}
use cc_deb_pkg.Prelude.Strconv.{format_uint}
use cc_deb_pkg.Cdd.Job.{JobState, JobStateType, PrintJobState, PrintJobStateDiff}
use cc_deb_pkg.Cdd.Ticket.{CloudJobTicket}

-- An hour.
abbrev pub job_lifetime : ℕ
job_lifetime = 3600 * 1000000000

pub record Entry : Type 0 where
  pub job_id : GoString
  pub ticket : Option CloudJobTicket
  pub expires_at : ℕ
  pub state : JobState
  pub pages_printed : Option ℤ
  pub job_name : GoString
  pub job_type : GoString
  pub job_size : ℤ

abbrev new_type : Option CloudJobTicket → JobStateType
new_type none = JobStateType.draft
new_type (some t) = JobStateType.queued

unfoldable pub new_entry : ℕ → GoString → Option CloudJobTicket → Entry
new_entry now job_id ticket = record {
  job_id = job_id;
  ticket = ticket;
  expires_at = now + job_lifetime;
  state = record {
    type = new_type ticket;
    user_action_cause = none;
    device_state_cause = none;
    device_action_cause = none;
    service_action_cause = none;
  };
  pages_printed = none;
  job_name = [];
  job_type = [];
  job_size = pos 0;
}

-- The whole seconds that are left, and 0 behind the end. They are below 2 ^ 31 for an entry whose
-- end is at most an hour away.
unfoldable pub expires_in : ℕ → Entry → ℕ
expires_in now e = (e.expires_at - now) / 1000000000

pub record JobCache : Type 0 where
  pub next_job_id : ℤ
  pub entries : GoMap Entry

unfoldable pub new_job_cache : ℕ → JobCache
new_job_cache now = record { next_job_id = pos now; entries = [] }

-- An `int64` plus 1, which wraps.
unfoldable pub increment : ℤ → ℤ
increment (pos n) = if n + 1 == 2 ^ 63 then negsuc (2 ^ 63 - 1) else pos (n + 1)
increment (negsuc zero) = pos 0
increment (negsuc (suc n)) = negsuc n

-- `strconv.FormatInt(z, 36)`
unfoldable pub format_id : ℤ → GoString
format_id (pos n) = format_uint 36 n
format_id (negsuc n) = b'-' ∷ format_uint 36 (n + 1)

unfoldable pub get_next_job_id : JobCache → JobCache × GoString
get_next_job_id jc =
    let next = increment jc.next_job_id in (record jc { next_job_id = next }, format_id next)

-- The new cache, the job's ID, and the seconds that it lives.
unfoldable pub create_job : ℕ → Option CloudJobTicket → JobCache → JobCache × GoString × ℕ
create_job now ticket jc =
    let (jc', job_id) = get_next_job_id jc in
    let e = new_entry now job_id ticket in
    (record jc' { entries = insert job_id e jc'.entries }, e.job_id, job_lifetime / 1000000000)

unfoldable pub get_job_expires_in : ℕ → GoString → JobCache → Option (ℕ × Option CloudJobTicket)
get_job_expires_in now job_id jc = elim (lookup job_id jc.entries) [
  | some e ↦ some (expires_in now e, e.ticket)
  | none ↦ none
]

unfoldable pub submit_job : ℕ → GoString → GoString → GoString → ℤ → JobCache → JobCache × ℕ
submit_job now job_id job_name job_type job_size jc = elim (lookup job_id jc.entries) [
  | some e ↦
      let e' = record e { job_name = job_name; job_type = job_type; job_size = job_size } in
      (record jc { entries = insert job_id e' jc.entries }, expires_in now e')
  | none ↦ (jc, 0)
]

unfoldable pub delete_job : GoString → JobCache → JobCache
delete_job job_id jc = record jc { entries = delete job_id jc.entries }

abbrev put_state : Option JobState → Entry → Entry
put_state (some s) e = record e { state = s }
put_state none e = e

abbrev put_pages : Option ℤ → Entry → Entry
put_pages (some n) e = record e { pages_printed = some n }
put_pages none e = e

-- What a diff makes of an entry: the state and the pages that it holds.
unfoldable pub update_entry : PrintJobStateDiff → Entry → Entry
update_entry diff e = put_pages diff.pages_printed (put_state diff.state e)

unfoldable pub update_job : GoString → PrintJobStateDiff → JobCache → JobCache
update_job job_id diff jc = elim (lookup job_id jc.entries) [
  | some e ↦ record jc { entries = insert job_id (update_entry diff e) jc.entries }
  | none ↦ jc
]

-- The response that `jobState` encodes.
pub record JobResponse : Type 0 where
  pub job_id : GoString
  pub state : JobStateType
  pub expires_in : ℕ
  pub job_type : GoString
  pub job_size : ℤ
  pub job_name : GoString
  pub semantic_state : PrintJobState

unfoldable pub response : ℕ → GoString → Entry → JobResponse
response now job_id e = record {
  job_id = job_id;
  state = e.state.type;
  expires_in = expires_in now e;
  job_type = e.job_type;
  job_size = e.job_size;
  job_name = e.job_name;
  semantic_state = record {
    version = bytes "1.0";
    state = e.state;
    pages_printed = e.pages_printed;
    delivery_attempts = none;
  };
}

-- `none` is the empty answer with `false`: no such job, or an error of the encoder.
unfoldable pub job_state :
    (JobResponse → Option GoString) → ℕ → GoString → JobCache → Option GoString
job_state marshal now job_id jc = elim (lookup job_id jc.entries) [
  | some e ↦ marshal (response now job_id e)
  | none ↦ none
]
