-- ===== src/Tests/Logs.antt =====
-- Runs of the rolling of log files.
use cc_deb_pkg.Prelude.{
  keep_if, List, ℕ, zero, suc, ◌≡◌, refl, subst, Bool, false, none, some, [], ◌∷◌, take, get_elem?,
  GoString, bytes, starts_with, str_eq, arith,
}
use cc_deb_pkg.Prelude.GoMap.{lookup}
use cc_deb_pkg.Prelude.Strconv.{digit_char, format_uint, pad_uint}
use cc_deb_pkg.LogRoller.{Directory, LogRoller, Rolled, new_path, roll}
use mathlib.Core.List.{Permᴰ}
use cc_deb_pkg.LogRoller.Paths.{apart_name, path_apart}
use cc_deb_pkg.LogRoller.Shifted.{HasLogs, HasRolled, roll-HasRolled}

abbrev roller : LogRoller
roller = record {
  file_name = bytes "log";
  file_max_bytes = 100;
  max_files = 3;
  digits = 1;
  is_open = false;
  file_size = 0;
}

-- Two old logs, listed out of order.
abbrev logs : Directory
logs = (bytes "log", bytes "c") ∷ (bytes "log.1", bytes "a") ∷ (bytes "log.0", bytes "b") ∷ []

abbrev olds : List GoString
olds = bytes "b" ∷ bytes "a" ∷ []

zero_path : new_path roller 0 ≡ bytes "log.0"
unfolding pad_uint format_uint digit_char
zero_path = refl

one_path : new_path roller 1 ≡ bytes "log.1"
unfolding pad_uint format_uint digit_char
one_path = refl

lookup-no_log :
    (k : GoString)
    → str_eq (bytes "log") k ≡ false
    → str_eq (bytes "log.1") k ≡ false
    → str_eq (bytes "log.0") k ≡ false
    → lookup k logs ≡ none
unfolding lookup
lookup-no_log k main one none_0 = rw (main, one, none_0) refl

first_log : lookup (new_path roller 0) logs ≡ some (bytes "b")
unfolding lookup str_eq pad_uint format_uint digit_char
first_log = refl

second_log : lookup (new_path roller 1) logs ≡ some (bytes "a")
unfolding lookup str_eq pad_uint format_uint digit_char
second_log = refl

logs_at : (i : ℕ) → lookup (new_path roller i) logs ≡ get_elem? olds i
logs_at zero = first_log
logs_at (suc zero) = second_log
logs_at (suc (suc i)) =
    lookup-no_log (new_path roller (suc (suc i))) (apart_name roller (suc (suc i)))
      (subst (λ path. str_eq path (new_path roller (suc (suc i))) ≡ false) one_path
        (path_apart roller 1 (suc (suc i)) (λ e. absurd (omega (arith, e)))))
      (subst (λ path. str_eq path (new_path roller (suc (suc i))) ≡ false) zero_path
        (path_apart roller 0 (suc (suc i)) (λ e. absurd (omega (arith, e)))))

logs-HasLogs : HasLogs roller (bytes "c") olds logs
unfolding lookup str_eq starts_with keep_if pad_uint format_uint digit_char
logs-HasLogs = record {
  current = refl;
  at = logs_at;
  order = 1 ∷ 0 ∷ [];
  listed = refl;
  reordered = Permᴰ.swap refl refl;
}

abbrev never : GoString → Bool
never path = false

roll-HasRolled_example :
    (d' : Directory) × ((roll never roller logs ≡ Rolled.done d')
      × HasRolled roller (take 3 (bytes "c" ∷ olds)) d')
roll-HasRolled_example =
    roll-HasRolled roller never (λ path. refl) (bytes "c") olds logs (omega arith) (omega arith)
      (omega arith) logs-HasLogs
