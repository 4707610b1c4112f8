-- ===== src/LogRoller.antt =====
-- The rolling of log files: `log/logroller.go`. A directory is the map from its paths to their contents.
-- The name of the log file has no pattern character and no percent sign.
pub mod Paths
pub mod Found
pub mod Shifted
use cc_deb_pkg.Prelude.{
  ℕ, zero, suc, ◌+◌, ◌-◌, ◌%◌, ◌^◌, Bool, true, false, ◌&&◌, ◌||◌, not, Option, none, some, List,
  [], ◌∷◌, ◌++◌, length, drop, GoString, bytes, starts_with, ltb, leb, ◌==◌, if◌then◌else◌,
}
use cc_deb_pkg.Prelude.GoMap.{GoMap, delete, insert, lookup}
use cc_deb_pkg.Prelude.Strconv.{pad_uint, parse_uint}

abbrev pub Directory : Type 0
Directory = GoMap GoString

-- `digits` is the width in `rollFormat`.
pub record LogRoller : Type 0 where
  pub file_name : GoString
  pub file_max_bytes : ℕ
  pub max_files : ℕ
  pub digits : ℕ
  pub is_open : Bool
  pub file_size : ℕ

-- `log10` is the whole part of the logarithm, a floating-point number in the code.
unfoldable pub new_log_roller : (ℕ → ℕ) → GoString → ℕ → ℕ → LogRoller
new_log_roller log10 file_name file_max_bytes max_files = record {
  file_name = file_name;
  file_max_bytes = file_max_bytes;
  max_files = max_files;
  digits = if ltb 0 max_files then log10 max_files + 1 else 0;
  is_open = false;
  file_size = 0;
}

-- `fmt.Sprintf("%s.%s", lr.fileName, number)`
abbrev pub old_path : LogRoller → GoString → GoString
old_path lr number = lr.file_name ++ b'.' ∷ number

-- `fmt.Sprintf(lr.rollFormat, n)`
abbrev pub new_path : LogRoller → ℕ → GoString
new_path lr n = lr.file_name ++ b'.' ∷ pad_uint lr.digits n

unfoldable pub has_slash : GoString → Bool
has_slash [] = false
has_slash (c ∷ s) = let rest = has_slash s in c == b'/' || rest

-- What the matches of the glob have behind the file name.
unfoldable pub roll_suffixes : GoString → Directory → List GoString
unfolding starts_with has_slash
roll_suffixes name [] = []
roll_suffixes name ((path, content) ∷ d) =
    let rest = roll_suffixes name d in
    let suffix = drop (length name) path in
    if starts_with path (name ++ b'.' ∷ []) && not (has_slash suffix) then suffix ∷ rest else rest

unfoldable pub all_digits : GoString → Bool
all_digits [] = true
all_digits (c ∷ s) = let rest = all_digits s in (leb b'0' c && leb c b'9') && rest

-- The group of a match of `rollPattern`.
unfoldable pub roll_number : GoString → Option GoString
unfolding all_digits
roll_number [] = none
roll_number (c ∷ []) = none
roll_number (c ∷ d ∷ s) = if c == b'.' && all_digits (d ∷ s) then some (d ∷ s) else none

-- A number that is out of range is passed over; a suffix that does not match panics: `none`.
abbrev pub add_number : Option GoString → Option (List GoString) → Option (List GoString)
add_number none rest = none
add_number (some number) none = none
add_number (some number) (some numbers) = elim (parse_uint 16 number) [
  | some n ↦ some (number ∷ numbers)
  | none ↦ some numbers
]

unfoldable pub numbers_of : List GoString → Option (List GoString)
unfolding roll_number
numbers_of [] = some []
numbers_of (s ∷ ss) = add_number (roll_number s) (numbers_of ss)

unfoldable pub number_value : GoString → ℕ
number_value s = elim (parse_uint 16 s) [ some n ↦ n | none ↦ 0 ]

-- `sort.Sort`: of two ways to write a number, either may come first.
unfoldable pub insert_number : GoString → List GoString → List GoString
unfolding number_value
insert_number s [] = s ∷ []
insert_number s (t ∷ ts) =
    let rest = insert_number s ts in
    if ltb (number_value t) (number_value s) then t ∷ rest else s ∷ t ∷ ts

unfoldable pub sort_numbers : List GoString → List GoString
unfolding insert_number
sort_numbers [] = []
sort_numbers (s ∷ ss) = insert_number s (sort_numbers ss)

abbrev sorted : Option (List GoString) → Option (List GoString)
sorted none = none
sorted (some numbers) = some (sort_numbers numbers)

unfoldable pub rolled_numbers : LogRoller → Directory → Option (List GoString)
unfolding roll_suffixes numbers_of sort_numbers
rolled_numbers lr d = sorted (numbers_of (roll_suffixes lr.file_name d))

-- What a step leaves: an error leaves the directory as far as it came.
pub data Rolled : Type 0 where
  panicked : Rolled
  failed : Directory → Rolled
  done : Directory → Rolled

-- The paths of which the system refuses a change.
module _ (refused : GoString → Bool) where
  abbrev pub refuse_or : GoString → Directory → Directory → Rolled
  refuse_or path d changed = if refused path then Rolled.failed d else Rolled.done changed

  -- `os.Remove` and `os.Rename`.
  unfoldable pub remove_file : GoString → Directory → Rolled
  remove_file path d = elim (lookup path d) [
    | some content ↦ refuse_or path d (delete path d)
    | none ↦ Rolled.failed d
  ]

  unfoldable pub rename_file : GoString → GoString → Directory → Rolled
  rename_file old new d = elim (lookup old d) [
    | some content ↦ refuse_or old d (insert new content (delete old d))
    | none ↦ Rolled.failed d
  ]

  -- One iteration, at index `i`.
  unfoldable pub roll_step : LogRoller → ℕ → GoString → Directory → Rolled
  roll_step lr i number d =
      if leb lr.max_files (i + 1)
      then remove_file (old_path lr number) d
      else rename_file (old_path lr number) (new_path lr (number_value number + 1)) d

  abbrev pub and_step : Rolled → (Directory → Rolled) → Rolled
  and_step (Rolled.done d) step = step d
  and_step r step = r

  -- The loop runs from the last index down to `i`.
  unfoldable pub roll_loop : LogRoller → ℕ → List GoString → Directory → Rolled
  unfolding roll_step
  roll_loop lr i [] d = Rolled.done d
  roll_loop lr i (number ∷ numbers) d =
      and_step (roll_loop lr (suc i) numbers d) (roll_step lr i number)

  abbrev pub roll_main : LogRoller → Directory → Rolled
  roll_main lr d =
      if ltb 0 lr.max_files then rename_file lr.file_name (new_path lr 0) d else Rolled.done d

  abbrev pub roll_found : LogRoller → Directory → Option (List GoString) → Rolled
  roll_found lr d none = Rolled.panicked
  roll_found lr d (some numbers) = and_step (roll_loop lr 0 numbers d) (roll_main lr)

  unfoldable pub roll : LogRoller → Directory → Rolled
  unfolding roll_loop
  roll lr d = elim (lookup lr.file_name d) [
    | some content ↦ roll_found lr d (rolled_numbers lr d)
    | none ↦ Rolled.done d
  ]

  -- `openFile`: the roll, and a new file that is empty.
  unfoldable pub open_file : LogRoller → Directory → Rolled
  unfolding roll
  open_file lr d =
      and_step (roll lr d) (λ d'. refuse_or lr.file_name d' (insert lr.file_name [] d'))

  -- What `Write` leaves: an error or the number of bytes written.
  pub data Written : Type 0 where
    crashed : Written
    unwritten : LogRoller → Directory → Written
    wrote : ℕ → LogRoller → Directory → Written

  abbrev content_of : Option GoString → GoString
  content_of (some content) = content
  content_of none = []

  -- The size with what was written, a `uint`; a file above the limit is closed.
  abbrev grown : LogRoller → ℕ → LogRoller
  grown lr n =
      let size = (lr.file_size + n) % 2 ^ 64 in
      record lr { file_size = size; is_open = leb size lr.file_max_bytes }

  unfoldable pub write_open : LogRoller → Directory → GoString → Written
  write_open lr d p =
      if refused lr.file_name
      then Written.unwritten lr d
      else Written.wrote (length p) (grown lr (length p))
          (insert lr.file_name (content_of (lookup lr.file_name d) ++ p) d)

  abbrev write_opened : LogRoller → GoString → Rolled → Written
  write_opened lr p Rolled.panicked = Written.crashed
  write_opened lr p (Rolled.failed d) = Written.unwritten lr d
  write_opened lr p (Rolled.done d) = write_open (record lr { is_open = true }) d p

  -- The content of the open file is that of its path.
  unfoldable pub write : LogRoller → Directory → GoString → Written
  unfolding open_file write_open
  write lr d p =
      if lr.is_open
      then write_open lr d p
      else write_opened (record lr { file_size = 0 }) p (open_file lr d)
