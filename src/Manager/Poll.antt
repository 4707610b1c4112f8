-- ===== src/Manager/Poll.antt =====
-- `printJob` of `manager/printermanager.go` from the submission to CUPS on: the errors, and the loop
-- that polls CUPS once a second and passes on what changed. `convertJobState` is in `cups/cups.go`.
use cc_deb_pkg.Prelude.{
  ℕ, Bool, true, false, ◌||◌, Option, none, some, List, [], ◌∷◌, ◌++◌, ◌==◌, if◌then◌else◌, ℤ, pos,
  negsuc,
}
use native.Mathlib.Decide.{ℕ_discrete}
use cc_deb_pkg.Cdd.Job.{
  JobStateType, in_progress, stopped, done, aborted, JobState, PrintJobStateDiff,
  UserActionCauseCode, DeviceActionCauseCode,
}

abbrev pub plain_state : JobStateType → JobState
plain_state t = record {
  type = t;
  user_action_cause = none;
  device_state_cause = none;
  device_action_cause = none;
  service_action_cause = none;
}

abbrev pub state_diff : JobState → PrintJobStateDiff
state_diff s = record { state = some s; pages_printed = none }

-- `DeviceActionCause: &cdd.DeviceActionCause{ErrorCode: code}`
abbrev pub device_aborted : JobStateType → DeviceActionCauseCode → JobState
device_aborted t code = record (plain_state t) {
  device_action_cause = some (record { error_code = code });
}

-- `switch cupsState` of `convertJobState` on a state that is not negative.
unfoldable pub convert_number : ℕ → Option JobState
convert_number n =
    if n == 3 || n == 4 || n == 5
    then some (plain_state in_progress)
    else if n == 6
    then some (device_aborted stopped DeviceActionCauseCode.other)
    else if n == 7
    then some (record (plain_state aborted) {
      user_action_cause = some (record { action_code = UserActionCauseCode.canceled });
    })
    else if n == 8
    then some (device_aborted aborted DeviceActionCauseCode.print_failure)
    else if n == 9
    then some (plain_state done)
    else none

-- A state that CUPS does not document leaves the pointer nil.
unfoldable pub convert_job_state : ℤ → PrintJobStateDiff
unfolding convert_number
convert_job_state (pos n) = record { state = convert_number n; pages_printed = none }
convert_job_state (negsuc n) = record { state = none; pages_printed = none }

unfoldable pub PrintJobStateDiff-discrete : Discrete PrintJobStateDiff
PrintJobStateDiff-discrete = hlevel ℕ_discrete

-- `reflect.DeepEqual(cupsState, state)`
unfoldable pub same_diff : PrintJobStateDiff → PrintJobStateDiff → Bool
same_diff a b = elim (PrintJobStateDiff-discrete a b) [ yes e ↦ true | no n ↦ false ]

-- How the loop stands: it returned and reported success or not, it waits for another tick, or it
-- panicked on a nil pointer.
pub data PollEnd : Type 0 where
  finished : Bool → PollEnd
  waiting : PollEnd
  crashed : PollEnd

-- The updates passed on, and the end.
pub record PollRun : Type 0 where
  pub updates : List PrintJobStateDiff
  pub end : PollEnd

abbrev pub is_in_progress : JobStateType → Bool
is_in_progress in_progress = true
is_in_progress _ = false

abbrev pub is_done : JobStateType → Bool
is_done done = true
is_done _ = false

abbrev pub prepend : List PrintJobStateDiff → PollRun → PollRun
prepend us r = record { updates = us ++ r.updates; end = r.end }

-- The tests on the type of the state reached; `rest` is the run from the next tick on.
unfoldable pub after_tick : Option JobState → PollRun → PollRun
after_tick none rest = record { updates = []; end = crashed }
after_tick (some s) rest =
    if is_in_progress s.type then rest else record { updates = []; end = finished (is_done s.type) }

-- The update for a failed `GetJobState`: the pages printed so far are kept.
abbrev pub lost_diff : PrintJobStateDiff → PrintJobStateDiff
lost_diff state = record {
  state = some (device_aborted aborted DeviceActionCauseCode.other);
  pages_printed = state.pages_printed;
}

-- The loop over the ticks, from the last state passed on; an answer is what `GetJobState` returns,
-- `none` its error.
unfoldable pub poll : PrintJobStateDiff → List (Option ℤ) → PollRun
unfolding after_tick
poll state [] = record { updates = []; end = waiting }
poll state (none ∷ answers) = record { updates = lost_diff state ∷ []; end = finished false }
poll state (some z ∷ answers) =
    let cups_state = convert_job_state z in
    let rest = poll cups_state answers in
    prepend (if same_diff cups_state state then [] else cups_state ∷ [])
      (after_tick cups_state.state rest)
