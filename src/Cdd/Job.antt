-- ===== src/Cdd/Job.antt =====
-- Print job states: `cdd/cjs.go`.
-- A type of named strings is the enumeration of its constants; `unlisted` is any other string.
use cc_deb_pkg.Prelude.{GoString, Option, ℤ}

pub data JobStateType : Type 0 where
  draft held queued in_progress stopped done aborted : JobStateType
  unlisted : GoString → JobStateType

pub data UserActionCauseCode : Type 0 where
  canceled paused other : UserActionCauseCode
  unlisted : GoString → UserActionCauseCode

pub record UserActionCause : Type 0 where
  pub action_code : UserActionCauseCode

pub data DeviceStateCauseCode : Type 0 where
  input_tray marker media_path media_size media_type other : DeviceStateCauseCode
  unlisted : GoString → DeviceStateCauseCode

pub record DeviceStateCause : Type 0 where
  pub error_code : DeviceStateCauseCode

pub data DeviceActionCauseCode : Type 0 where
  download_failure invalid_ticket print_failure other : DeviceActionCauseCode
  unlisted : GoString → DeviceActionCauseCode

pub record DeviceActionCause : Type 0 where
  pub error_code : DeviceActionCauseCode

pub data ServiceActionCauseCode : Type 0 where
  communication conversion_error conversion_file_too_big conversion_type delivery_failure expiration
        fetch_forbidden fetch_not_found drive_quota inconsistent_job inconsistent_printer
        printer_deleted remote_job_no_exist remote_job_error remote_job_timeout remote_job_aborted
        other :
      ServiceActionCauseCode
  unlisted : GoString → ServiceActionCauseCode

pub record ServiceActionCause : Type 0 where
  pub error_code : ServiceActionCauseCode

pub record JobState : Type 0 where
  pub type : JobStateType
  pub user_action_cause : Option UserActionCause
  pub device_state_cause : Option DeviceStateCause
  pub device_action_cause : Option DeviceActionCause
  pub service_action_cause : Option ServiceActionCause

pub record PrintJobState : Type 0 where
  pub version : GoString
  pub state : JobState
  pub pages_printed : Option ℤ
  pub delivery_attempts : Option ℤ

pub record PrintJobStateDiff : Type 0 where
  pub state : Option JobState
  pub pages_printed : Option ℤ
