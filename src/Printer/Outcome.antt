-- ===== src/Printer/Outcome.antt =====
-- The printers known after a sync, whether or not there was anything to do.
use cc_deb_pkg.Prelude.{
  ◌≤◌, ◌≡◌, refl, ap, sym, ◌∙◌, true, false, Option, none, some, List, [], ◌∷◌, ◌++◌, GoString,
  if◌then◌else◌, arith, Option-cases, Bool-cases, inl, inr, of_some,
}
use mathlib.Core.List.{append-nil, append_assoc}
use cc_deb_pkg.Prelude.GoMap.{GoMap, lookup}
use cc_deb_pkg.Printer.{
  Printer, register_printer, PrinterDiff, plain_diff, diff_printer, printer_slice_to_map_by_name,
}
use cc_deb_pkg.Printer.Diff.{diff_printer-cases}
use cc_deb_pkg.Printer.Round.{
  gcp_loop-Round, cups_loop-seen, cups_loop-new, Round, duplicate, unknown, compared,
}
use cc_deb_pkg.Printer.Sync.{
  DiffState, is_no_change, exists_key, push_diff, adopt, gcp_loop, cups_loop, start, answer,
  diff_printers,
}
use cc_deb_pkg.Printer.Kept.{
  count_name, left_of, kept, outcome, kept-append, printer_slice_to_map_by_name-IsByName,
  exists_key-by_name, has_name-count, no_name-count,
}
use cc_deb_pkg.Printer.Count.{KeepsName, gcp_loop-count, cups_loop-count}

module _ (register : Printer → Printer) (cups : GoMap Printer) where
  pub kept-push :
      (ds : List PrinterDiff) (d : PrinterDiff)
      → kept register (ds ++ d ∷ []) ≡ kept register ds ++ left_of register d.operation d.printer
  kept-push ds d = kept-append register ds (d ∷ []) ∙ ap (◌++◌ (kept register ds)) (last_kept d)
    where
      last_kept :
          (e : PrinterDiff) → kept register (e ∷ []) ≡ left_of register e.operation e.printer
      last_kept e = unfold kept in append-nil (left_of register e.operation e.printer)

  unchanged :
      (c g : Printer) (d : PrinterDiff)
      → diff_printer (adopt c g) g ≡ some d
      → is_no_change d.operation ≡ true
      → left_of register d.operation d.printer ≡ g ∷ []
  unchanged c g d h e = ground (arith, diff_printer-cases (adopt c g) g d)

  -- A round that leaves `dirty` unset keeps the printer as it is.
  Round-clean :
      (st : DiffState) (g : Printer) {st' : DiffState}
      → Round cups st g st'
      → st'.dirty ≡ false
      → (st.dirty ≡ false) × (kept register st'.diffs ≡ kept register st.diffs ++ g ∷ [])
  Round-clean st g (duplicate seen) h = cc
  Round-clean st g (unknown new missing) h = cc
  Round-clean st g (compared {c} {d} new found answered) h = (
    ground arith,
    kept-push st.diffs d
        ∙ ap (◌++◌ (kept register st.diffs)) (unchanged c g d answered (ground arith)),
  )

  gcp_loop-clean :
      (st : DiffState) (gs : List Printer) (st' : DiffState)
      → gcp_loop cups st gs ≡ some st'
      → st'.dirty ≡ false
      → (st.dirty ≡ false) × (kept register st'.diffs ≡ kept register st.diffs ++ gs)
  gcp_loop-clean st [] st' h c =
      let e : st ≡ st' = of_some (unfold gcp_loop in h) in
      (ap (λ s. s.dirty) e ∙ c, sym (append-nil _ ∙ ap (λ s. kept register s.diffs) e))
  gcp_loop-clean st (g ∷ gs) st' h c =
      let (mid, round, rest) = gcp_loop-Round cups st st' g gs h in
      let (clean, grown) = gcp_loop-clean mid gs st' rest c in
      let (before, one) = Round-clean st g round clean in
      (before, grown ∙ ap (λ ps. ps ++ gs) one ∙ append_assoc (kept register st.diffs) (g ∷ []) gs)

true≢false : ¬ (true ≡ false)
true≢false h = cc

cups_loop-clean :
    (st : DiffState) (cs : List Printer) → (cups_loop st cs).dirty ≡ false → cups_loop st cs ≡ st
cups_loop-clean st [] h = unfold cups_loop in refl
cups_loop-clean st (c ∷ cs) h = elim (Bool-cases (exists_key c.name st.considered)) [
  | inl seen ↦
      cups_loop-seen st c cs seen ∙ cups_loop-clean st cs (rw (cups_loop-seen st c cs seen) at h)
  | inr new ↦
      let pushed = push_diff st (plain_diff register_printer c) in
      let e : cups_loop pushed cs ≡ pushed =
        cups_loop-clean pushed cs (rw (cups_loop-new st c cs new) at h) in
      absurd (true≢false (sym (ap (λ s. s.dirty) (cups_loop-new st c cs new ∙ e)) ∙ h))
]

start_count : (register : Printer → Printer) (n : GoString) → count_name n (kept register []) ≡ 0
unfolding kept count_name
start_count register n = refl

pub start_unseen : (n : GoString) → exists_key n start.considered ≡ false
unfolding exists_key lookup
start_unseen n = refl

module _ (register : Printer → Printer) (cups gcp : List Printer) where
  none≢some : {r : Option (List PrinterDiff)} → ¬ (none ≡ some r)
  none≢some k = cc

  kept_clean :
      (st : DiffState)
      → gcp_loop (printer_slice_to_map_by_name cups) start gcp ≡ some st
      → (cups_loop st cups).dirty ≡ false
      → gcp ≡ kept register (cups_loop st cups).diffs
  unfolding kept
  kept_clean st e clean =
      let same = cups_loop-clean st cups clean in
      let m = printer_slice_to_map_by_name cups in
      let (before, left) =
        gcp_loop-clean register m start gcp st e (ap (λ s. s.dirty) (sym same) ∙ clean) in
      sym (ap (λ s. kept register s.diffs) same ∙ left)

  outcome-kept :
      (st : DiffState)
      → gcp_loop (printer_slice_to_map_by_name cups) start gcp ≡ some st
      → outcome register gcp (answer (cups_loop st cups)) ≡ kept register (cups_loop st cups).diffs
  outcome-kept st e = elim (Bool-cases (cups_loop st cups).dirty) [
    | inl dirty ↦
        ap (λ b. outcome register gcp (if b then some (cups_loop st cups).diffs else none)) dirty
    | inr clean ↦
        ap (λ b. outcome register gcp (if b then some (cups_loop st cups).diffs else none)) clean
        ∙ kept_clean st e clean
  ]

  -- A run that does not panic ends both loops, and leaves what the diffs of the last state leave.
  pub diff_printers-runs :
      (r : Option (List PrinterDiff))
      → diff_printers cups gcp ≡ some r
      → (st : DiffState) × (gcp_loop (printer_slice_to_map_by_name cups) start gcp ≡ some st)
        × (outcome register gcp r ≡ kept register (cups_loop st cups).diffs)
  unfolding diff_printers
  diff_printers-runs r h =
      elim (Option-cases (gcp_loop (printer_slice_to_map_by_name cups) start gcp)) [
        | inl panic ↦ absurd (none≢some (rw (panic, diff_printers) at h))
        | inr (st, e) ↦ (
          st,
          e,
          ap (outcome register gcp) (sym (of_some (rw (e, diff_printers) at h)))
              ∙ outcome-kept st e,
        )
      ]

  -- If CUPS has at most one printer of the name, a registration keeps a printer's name, and
  -- `DiffPrinters` answers, then applying the answer leaves
  -- as many printers of that name as CUPS has: GCP's duplicates and leftovers are deleted, and what
  -- GCP lacks is registered.
  pub diff_printers-count :
      (n : GoString) (r : Option (List PrinterDiff))
      → KeepsName register
      → count_name n cups ≤ 1
      → diff_printers cups gcp ≡ some r
      → count_name n (outcome register gcp r) ≡ count_name n cups
  diff_printers-count n r keeps unique h =
      let (st, ran, left) = diff_printers-runs r h in
      let m = printer_slice_to_map_by_name cups in
      let (counted, seen) =
        gcp_loop-count register n m (printer_slice_to_map_by_name-IsByName cups) start gcp st ran in
      let total = cups_loop-count register n st cups keeps in
      ap (count_name n) left
      ∙ ground (
        arith,
        counted,
        seen,
        total,
        start_count register n,
        start_unseen n,
        exists_key-by_name n cups,
        has_name-count n cups,
        no_name-count n cups,
      )
