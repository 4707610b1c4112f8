-- ===== src/Manager/Updates.antt =====
-- What the polling loop of `printJob` passes on, and how it ends.
use cc_deb_pkg.Prelude.{
  ℕ, ◌≡◌, ◌≢◌, refl, ap, sym, ◌∙◌, Bool, true, false, ◌||◌, Option, none, some, List, [], ◌∷◌,
  if◌then◌else◌, arith, ℤ, pos, negsuc, Bool-cases, inl, inr, ◌==◌, of_some, subst,
}
use cc_deb_pkg.Cdd.Job.{JobState, PrintJobStateDiff}
use cc_deb_pkg.Manager.Poll.{
  convert_job_state, same_diff, PollEnd, finished, waiting, crashed, PollRun, is_in_progress,
  is_done, after_tick, prepend, lost_diff, poll,
}

-- A state from which the loop goes on: nothing known yet, or in progress.
abbrev pub IsOpen : PrintJobStateDiff → Type 0
IsOpen d = (s : JobState) → d.state ≡ some s → is_in_progress s.type ≡ true

-- Each update differs from the one before, the first from the state that the loop begins with.
abbrev pub Changes : PrintJobStateDiff → List PrintJobStateDiff → Type 0
Changes d [] = Unit
Changes d (u ∷ us) = (u ≢ d) × Changes u us

-- The last update, or the state before the first.
abbrev pub last_update : PrintJobStateDiff → List PrintJobStateDiff → PrintJobStateDiff
last_update d [] = d
last_update d (u ∷ us) = last_update u us

-- The first answer that is not a state in progress decides: an error fails, COMPLETED (9) succeeds,
-- STOPPED, CANCELED and ABORTED (6, 7, 8) fail, and any other number is a nil dereference.
unfoldable pub verdict_of : ℕ → PollEnd → PollEnd
verdict_of n later =
    if n == 3 || n == 4 || n == 5
    then later
    else if n == 9
    then finished true
    else if n == 6 || n == 7 || n == 8
    then finished false
    else crashed

unfoldable pub verdict : List (Option ℤ) → PollEnd
verdict [] = waiting
verdict (none ∷ answers) = finished false
verdict (some (pos n) ∷ answers) = let later = verdict answers in verdict_of n later
verdict (some (negsuc n) ∷ answers) = crashed

-- The loop ends as the first decisive answer of CUPS says, whatever state it began with.
pub poll-verdict :
    (d : PrintJobStateDiff) (answers : List (Option ℤ)) → (poll d answers).end ≡ verdict answers
unfolding poll verdict verdict_of convert_job_state
poll-verdict d [] = refl
poll-verdict d (none ∷ answers) = refl
poll-verdict d (some (pos n) ∷ answers) =
    ground (arith, poll-verdict (convert_job_state (pos n)) answers)
poll-verdict d (some (negsuc n) ∷ answers) = refl

same_diff_sound : (a b : PrintJobStateDiff) → same_diff a b ≡ true → a ≡ b
unfolding same_diff
same_diff_sound a b h = ground arith

same_diff-ne : (a b : PrintJobStateDiff) → same_diff a b ≡ false → a ≢ b
unfolding same_diff
same_diff-ne a b h = ground arith

lost-ne : (d : PrintJobStateDiff) → IsOpen d → lost_diff d ≢ d
lost-ne d h e = absurd (closed (h _ (sym (ap (λ x. x.state) e))))
  where
    closed : ¬ (false ≡ true)
    closed k = cc

-- The rest of a run, from the state of this tick on.
module _ (d c : PrintJobStateDiff) (rest : PollRun) where
  abbrev tick : PollRun
  tick = prepend (if same_diff c d then [] else c ∷ []) (after_tick c.state rest)

  abbrev Good : PrintJobStateDiff → PollRun → Type 0
  Good x r =
      Changes x r.updates
      × ((b : Bool)
          → r.end ≡ finished b
          → (s : JobState) × ((last_update x r.updates).state ≡ some s)
            × (is_in_progress s.type ≡ false)
            × (is_done s.type ≡ b))

  tick_rest :
      (o : Option JobState) → c.state ≡ o → (IsOpen c → Good c rest) → Good c (after_tick o rest)
  unfolding after_tick
  tick_rest none e later = (tt, λ b h. cc)
  tick_rest (some s) e later = elim (Bool-cases (is_in_progress s.type)) [
    | inl going ↦
        rw going (later (λ t f. ap (λ x. is_in_progress x.type) (of_some (sym f ∙ e)) ∙ going))
    | inr closed ↦ rw closed (tt, λ b h. (s, e, closed, ended b (is_done s.type) h))
  ]
    where
      ended : (b x : Bool) → finished x ≡ finished b → x ≡ b
      ended b x h = cc

  tick-Good : (IsOpen c → Good c rest) → Good d tick
  tick-Good later =
      let g : Good c (after_tick c.state rest) = tick_rest c.state refl later in
      elim (Bool-cases (same_diff c d)) [
        | inl same ↦
            subst (λ b. Good d (prepend (if b then [] else c ∷ []) (after_tick c.state rest)))
              (sym same)
              (subst (λ x. Good x (after_tick c.state rest)) (same_diff_sound c d same) g)
        | inr other ↦
            subst (λ b. Good d (prepend (if b then [] else c ∷ []) (after_tick c.state rest)))
              (sym other) ((same_diff-ne c d other, g.0), g.1)
      ]

poll-updates :
    (d : PrintJobStateDiff) (answers : List (Option ℤ))
    → IsOpen d
    → Changes d (poll d answers).updates
      × ((b : Bool)
          → (poll d answers).end ≡ finished b
          → (s : JobState) × ((last_update d (poll d answers).updates).state ≡ some s)
            × (is_in_progress s.type ≡ false)
            × (is_done s.type ≡ b))
unfolding poll
poll-updates d [] h = (tt, λ b e. cc)
poll-updates d (none ∷ answers) h = ((lost-ne d h, tt), λ b e. (_, refl, refl, failed b e))
  where
    failed : (b : Bool) → finished false ≡ finished b → false ≡ b
    failed b e = cc
poll-updates d (some z ∷ answers) h =
    tick-Good d (convert_job_state z) (poll (convert_job_state z) answers)
      (λ k. poll-updates (convert_job_state z) answers k)

-- From a state that is not final, every update that the loop passes on differs from the state before
-- it.
pub poll-Changes :
    (d : PrintJobStateDiff) (answers : List (Option ℤ))
    → IsOpen d
    → Changes d (poll d answers).updates
poll-Changes d answers h = (poll-updates d answers h).0

-- From a state that is not final, when the loop returns, the last state passed on is not in progress,
-- and is DONE exactly if the job counts as a success.
pub poll-last_update :
    (d : PrintJobStateDiff) (answers : List (Option ℤ)) (success : Bool)
    → IsOpen d
    → (poll d answers).end ≡ finished success
    → (s : JobState) × ((last_update d (poll d answers).updates).state ≡ some s)
      × (is_in_progress s.type ≡ false)
      × (is_done s.type ≡ success)
poll-last_update d answers success h e = (poll-updates d answers h).1 success e
