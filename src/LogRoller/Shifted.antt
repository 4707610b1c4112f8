-- ===== src/LogRoller/Shifted.antt =====
-- What `roll` of `log/logroller.go` does to a log file and the files rolled before it.
use cc_deb_pkg.Prelude.{
  ℕ, zero, suc, ◌+◌, ◌-◌, ◌^◌, ◌≤◌, ◌<◌, ◌≡◌, refl, sym, subst, ap, ◌∙◌, Bool, true, false,
  Bool-cases, inl, inr, Option, none, some, List, ◌∷◌, map, length, take, get_elem?, GoString, ltb,
  leb, ◌==◌, ==_iff, if◌then◌else◌, arith,
}
use cc_deb_pkg.Prelude.GoMap.{delete, insert, lookup}
use cc_deb_pkg.Prelude.Strconv.{pad_uint}
use mathlib.Core.List.{Permᴰ}
use cc_deb_pkg.LogRoller.Found.{range, rolled_numbers-range, rolled_paths}
use cc_deb_pkg.LogRoller.{
  Directory, LogRoller, Rolled, new_path, refuse_or, remove_file, rename_file, roll, roll_loop,
  roll_main, roll_step, rolled_numbers,
}
use cc_deb_pkg.LogRoller.Paths.{
  get_elem_below, get_elem_beyond, get_elem_take, path_apart, name_apart, apart_name,
  number_value-pad_uint, lookup-delete_apart, lookup-insert_apart, lookup-delete_same,
  lookup-insert_same,
}

module _ (lr : LogRoller) where
  -- The content at each number, when the loop has come down to index `j`: below it the old one, at
  -- it none, above it the one from one number below, if that is within the number of files.
  abbrev content : List GoString → ℕ → ℕ → Option GoString
  content olds j i =
      if ltb i j
      then get_elem? olds i
      else if i == j
      then none
      else if ltb i lr.max_files
      then get_elem? olds (i - 1)
      else none

  record IsDown (main : GoString) (olds : List GoString) (j : ℕ) (d : Directory) : Type 0 where
    current : lookup lr.file_name d ≡ some main
    at : (i : ℕ) → lookup (new_path lr i) d ≡ content olds j i

  removed-IsDown :
      (main : GoString) (olds : List GoString) (j : ℕ) (d : Directory)
      → lr.max_files ≤ j + 1
      → IsDown main olds (suc j) d
      → IsDown main olds j (delete (new_path lr j) d)
  removed-IsDown main olds j d last down = record {
    current = lookup-delete_apart _ _ d (name_apart lr j) ∙ down.current;
    at = λ i. elim (Bool-cases (i == j)) [
      | inl q ↦
          subst (λ n. lookup (new_path lr n) (delete (new_path lr j) d) ≡ content olds j n)
            (sym ((==_iff i j).0 q)) (lookup-delete_same _ d ∙ ground arith)
      | inr q ↦
          lookup-delete_apart _ _ d (path_apart lr j i (ground (arith, q)))
          ∙ down.at i
          ∙ ground (arith, q, last)
    ];
  }

  renamed-IsDown :
      (main : GoString) (olds : List GoString) (j : ℕ) (c : GoString) (d : Directory)
      → j + 1 < lr.max_files
      → get_elem? olds j ≡ some c
      → IsDown main olds (suc j) d
      → IsDown main olds j (insert (new_path lr (j + 1)) c (delete (new_path lr j) d))
  renamed-IsDown main olds j c d more e down = record {
    current =
        lookup-insert_apart _ _ c (delete (new_path lr j) d) (name_apart lr (j + 1))
        ∙ lookup-delete_apart _ _ d (name_apart lr j)
        ∙ down.current;
    at = λ i. elim (Bool-cases (i == j + 1)) [
      | inl q ↦
          subst
            (λ n.
              lookup (new_path lr n) (insert (new_path lr (j + 1)) c (delete (new_path lr j) d))
              ≡ content olds j n)
            (sym ((==_iff i (j + 1)).0 q)) (lookup-insert_same _ c _ ∙ sym e ∙ next)
      | inr q ↦
          lookup-insert_apart _ _ c _ (path_apart lr (j + 1) i (ground (arith, q)))
          ∙ elim (Bool-cases (i == j)) [
            | inl r ↦
                subst (λ n. lookup (new_path lr n) (delete (new_path lr j) d) ≡ content olds j n)
                  (sym ((==_iff i j).0 r)) (lookup-delete_same _ d ∙ ground arith)
            | inr r ↦
                lookup-delete_apart _ _ d (path_apart lr j i (ground (arith, r)))
                ∙ down.at i
                ∙ ground (arith, q, r)
          ]
    ];
  }
    where
      before : j ≡ j + 1 - 1
      before = omega arith

      next : get_elem? olds j ≡ content olds j (j + 1)
      next = ground (arith, more, ap (get_elem? olds) before)

  -- A log file, and the files rolled before it, the last one first, that the directory lists in any
  -- order. No other path begins with the name and a dot.
  pub record HasLogs (main : GoString) (olds : List GoString) (d : Directory) : Type 0 where
    pub current : lookup lr.file_name d ≡ some main
    pub at : (i : ℕ) → lookup (new_path lr i) d ≡ get_elem? olds i
    pub order : List ℕ
    pub listed : rolled_paths lr d ≡ map (new_path lr) order
    pub reordered : Permᴰ (range 0 (length olds)) order

  -- No log file, and these files rolled.
  pub record HasRolled (olds : List GoString) (d : Directory) : Type 0 where
    pub gone : lookup lr.file_name d ≡ none
    pub at : (i : ℕ) → lookup (new_path lr i) d ≡ get_elem? olds i

  HasLogs-IsDown :
      (main : GoString) (olds : List GoString) (d : Directory)
      → HasLogs main olds d
      → IsDown main olds (length olds) d
  HasLogs-IsDown main olds d h = record { current = h.current; at = λ i. h.at i ∙ start i }
    where
      start : (i : ℕ) → get_elem? olds i ≡ content olds (length olds) i
      start i = elim (Bool-cases (ltb i (length olds))) [
        | inl q ↦ ground (arith, q)
        | inr q ↦
            ground
              (arith, q, get_elem_beyond olds i (ground (arith, q)), get_elem_beyond olds (i - 1))
      ]

  module _ (refused : GoString → Bool) (allowed : (path : GoString) → refused path ≡ false) where
    refuse_or-done :
        (path : GoString) (d d' : Directory) → refuse_or refused path d d' ≡ Rolled.done d'
    refuse_or-done path d d' = rw (allowed path) refl

    rename_file-done :
        (old new content : GoString) (d : Directory)
        → lookup old d ≡ some content
        → rename_file refused old new d ≡ Rolled.done (insert new content (delete old d))
    unfolding rename_file
    rename_file-done old new content d e = rw (e, rename_file) (refuse_or-done old d _)

    remove_file-done :
        (path content : GoString) (d : Directory)
        → lookup path d ≡ some content
        → remove_file refused path d ≡ Rolled.done (delete path d)
    unfolding remove_file
    remove_file-done path content d e = rw (e, remove_file) (refuse_or-done path d _)

    -- One iteration at an index that has a file.
    step-IsDown :
        (main : GoString) (olds : List GoString) (j : ℕ) (d : Directory) (c : GoString)
        → j < 2 ^ 16
        → get_elem? olds j ≡ some c
        → length olds ≤ lr.max_files
        → IsDown main olds (suc j) d
        → (d' : Directory) × ((roll_step refused lr j (pad_uint lr.digits j) d ≡ Rolled.done d')
            × IsDown main olds j d')
    unfolding roll_step
    step-IsDown main olds j d c small e fits down = elim (Bool-cases (leb lr.max_files (j + 1))) [
      | inl q ↦ (
        delete (new_path lr j) d,
        (
          rw (q, roll_step) (remove_file-done (new_path lr j) c d found),
          removed-IsDown main olds j d (ground (arith, q)) down,
        ),
      )
      | inr q ↦ (
        insert (new_path lr (j + 1)) c (delete (new_path lr j) d),
        (
          rw (q, number_value-pad_uint lr j small, roll_step)
              (rename_file-done (new_path lr j) (new_path lr (j + 1)) c d found),
          renamed-IsDown main olds j c d (ground (arith, q)) e down,
        ),
      )
    ]
      where
        found : lookup (new_path lr j) d ≡ some c
        found = down.at j ∙ ground (arith, e)

    loop-IsDown :
        (main : GoString) (olds : List GoString) (d : Directory) (n i : ℕ)
        → i + n ≡ length olds
        → length olds ≤ 2 ^ 16
        → length olds ≤ lr.max_files
        → IsDown main olds (length olds) d
        → (d' : Directory) × ((roll_loop refused lr i (map (pad_uint lr.digits) (range i n)) d
              ≡ Rolled.done d')
            × IsDown main olds i d')
    unfolding roll_loop
    loop-IsDown main olds d zero i e small fits down =
        (d, (refl, subst (λ j. IsDown main olds j d) (omega arith) down))
    loop-IsDown main olds d (suc n) i e small fits down =
        let (d', (run, down')) = loop-IsDown main olds d n (suc i) (omega arith) small fits down in
        let (c, here) = get_elem_below olds i (omega arith) in
        let (d'', (step, down'')) = step-IsDown main olds i d' c (omega arith) here fits down' in
        (d'', (rw run step, down''))

    main-HasRolled :
        (main : GoString) (olds : List GoString) (d : Directory)
        → 0 < lr.max_files
        → IsDown main olds 0 d
        → HasRolled
            (take lr.max_files (main ∷ olds))
            (insert (new_path lr 0) main (delete lr.file_name d))
    main-HasRolled main olds d positive down = record {
      gone = lookup-insert_apart _ _ main _ (name_apart lr 0) ∙ lookup-delete_same lr.file_name d;
      at = shifted_at;
    }
      where
        before : (i : ℕ) → suc i - 1 ≡ i
        before i = omega arith

        shifted_at :
            (i : ℕ)
            → lookup (new_path lr i) (insert (new_path lr 0) main (delete lr.file_name d))
              ≡ get_elem? (take lr.max_files (main ∷ olds)) i
        shifted_at zero =
            lookup-insert_same (new_path lr 0) main _
            ∙ sym (get_elem_take lr.max_files (main ∷ olds) 0 ∙ ground (arith, positive))
        shifted_at (suc i) =
            lookup-insert_apart _ _ main _
              (path_apart lr 0 (suc i) (λ e. absurd (omega (arith, e))))
            ∙ lookup-delete_apart lr.file_name (new_path lr (suc i)) d (apart_name lr (suc i))
            ∙ down.at (suc i)
            ∙ ground (arith, ap (get_elem? olds) (before i))
            ∙ sym (get_elem_take lr.max_files (main ∷ olds) (suc i))

    roll_main-done :
        (main : GoString) (d : Directory)
        → 0 < lr.max_files
        → lookup lr.file_name d ≡ some main
        → roll_main refused lr d ≡ Rolled.done (insert (new_path lr 0) main (delete lr.file_name d))
    roll_main-done main d positive e =
        rw some_files (rename_file-done lr.file_name (new_path lr 0) main d e)
      where
        some_files : ltb 0 lr.max_files ≡ true
        some_files = ground (arith, positive)

    -- Where the system refuses no change, and a log file and the files rolled before it, numbered from 0
    -- and no more than allowed, of which there are one to 65536, stand in the directory in any order,
    -- and no other path begins with the name and a dot, `roll` succeeds, the log file is gone, and at
    -- the numbers from 0 on stand the log file and the others in order, as many as are allowed.
    pub roll-HasRolled :
        (main : GoString) (olds : List GoString) (d : Directory)
        → 0 < lr.max_files
        → lr.max_files ≤ 2 ^ 16
        → length olds ≤ lr.max_files
        → HasLogs main olds d
        → (d' : Directory) × ((roll refused lr d ≡ Rolled.done d')
            × HasRolled (take lr.max_files (main ∷ olds)) d')
    unfolding roll
    roll-HasRolled main olds d positive bound fits h =
        let (d', (run, down)) =
          loop-IsDown main olds d (length olds) 0 (omega arith) (omega arith) fits
            (HasLogs-IsDown main olds d h) in
        (
          insert (new_path lr 0) main (delete lr.file_name d'),
          (
            rw (h.current, numbers, run, roll) (roll_main-done main d' positive down.current),
            main-HasRolled main olds d' positive down,
          ),
        )
      where
        numbers : rolled_numbers lr d ≡ some (map (pad_uint lr.digits) (range 0 (length olds)))
        numbers = rolled_numbers-range lr d h.order (length olds) (omega arith) h.listed h.reordered
