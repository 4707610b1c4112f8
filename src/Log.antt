-- ===== src/Log.antt =====
-- The logger: `log/log.go`. The time, the message that `fmt` makes of its arguments and
-- `strings.ToLower` are arguments.
use cc_deb_pkg.Prelude.{
  ◌≡◌, ◌≢◌, refl, ℕ, Bool, true, false, ltb, Option, none, some, [], ◌∷◌, ◌++◌, GoString, bytes,
  str_eq, if◌then◌else◌,
}

pub data LogLevel : Type 0 where
  fatal_level : LogLevel
  error_level : LogLevel
  warning_level : LogLevel
  info_level : LogLevel
  debug_level : LogLevel

-- The number of a level, as `iota` counts.
unfoldable pub severity : LogLevel → ℕ
severity fatal_level = 0
severity error_level = 1
severity warning_level = 2
severity info_level = 3
severity debug_level = 4

unfoldable pub level_to_initial : LogLevel → GoString
level_to_initial fatal_level = bytes "X"
level_to_initial error_level = bytes "E"
level_to_initial warning_level = bytes "W"
level_to_initial info_level = bytes "I"
level_to_initial debug_level = bytes "D"

-- `none` stands for an answer whose second part is false.
unfoldable pub level_of_lower : GoString → Option LogLevel
level_of_lower s =
    if str_eq s (bytes "fatal")
    then some fatal_level
    else if str_eq s (bytes "error")
    then some error_level
    else if str_eq s (bytes "warning")
    then some warning_level
    else if str_eq s (bytes "info")
    then some info_level
    else if str_eq s (bytes "debug")
    then some info_level
    else none

abbrev pub level_from_string : (GoString → GoString) → GoString → Option LogLevel
level_from_string to_lower level = level_of_lower (to_lower level)

-- `[`, a word, `] `.
abbrev bracketed : GoString → GoString
bracketed s = bytes "[" ++ s ++ bytes "] "

unfoldable pub log_subject : GoString → GoString → GoString
log_subject [] [] = []
log_subject [] (j ∷ job_id) = bracketed (bytes "Job " ++ j ∷ job_id)
log_subject (p ∷ printer_id) job_id = bracketed (bytes "Printer " ++ p ∷ printer_id)

-- What is written to the writer at `logger_level`, if anything.
unfoldable pub log :
    LogLevel → GoString → LogLevel → GoString → GoString → GoString → Option GoString
unfolding severity level_to_initial log_subject
log logger_level date_time level printer_id job_id message =
    if ltb (severity logger_level) (severity level)
    then none
    else some (
        level_to_initial level
        ++ bytes " "
        ++ bracketed date_time
        ++ log_subject printer_id job_id
        ++ message
        ++ bytes "\n")

is_set : (k : LogLevel) → k ≢ debug_level → some k ≢ some debug_level
is_set k n h = n cc

if-avoids :
    (b : Bool) (k : LogLevel) {y : Option LogLevel}
    → k ≢ debug_level
    → y ≢ some debug_level
    → (if b then some k else y) ≢ some debug_level
if-avoids true k n m = is_set k n
if-avoids false k n m = m

fatal_apart : fatal_level ≢ debug_level
fatal_apart h = absurd cc

error_apart : error_level ≢ debug_level
error_apart h = absurd cc

warning_apart : warning_level ≢ debug_level
warning_apart h = absurd cc

info_apart : info_level ≢ debug_level
info_apart h = absurd cc

no_level : none ≢ some debug_level
no_level h = absurd cc

-- No string is read as DEBUG.
level_of_lower-not_debug : (s : GoString) → level_of_lower s ≢ some debug_level
unfolding level_of_lower
level_of_lower-not_debug s = if-avoids _ fatal_level fatal_apart (
    if-avoids _ error_level error_apart (
      if-avoids _ warning_level warning_apart
        (if-avoids _ info_level info_apart (if-avoids _ info_level info_apart no_level))))

severity-below : (l : LogLevel) → (l ≢ debug_level) → ltb (severity l) (severity debug_level) ≡ true
unfolding severity
severity-below fatal_level n = refl
severity-below error_level n = refl
severity-below warning_level n = refl
severity-below info_level n = refl
severity-below debug_level n = absurd (n refl)

-- With a level that LevelFromString gives, no message of DEBUG is written.
log-level_from_string :
    (to_lower : GoString → GoString) (s : GoString) (l : LogLevel)
    → level_from_string to_lower s ≡ some l
    → (date_time printer_id job_id message : GoString)
    → log l date_time debug_level printer_id job_id message ≡ none
unfolding log severity
log-level_from_string to_lower s l h date_time printer_id job_id message =
    rw (severity-below l (λ e. level_of_lower-not_debug (to_lower s) (cc)))
