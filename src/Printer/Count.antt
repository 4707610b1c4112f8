-- ===== src/Printer/Count.antt =====
-- How many printers of a name `DiffPrinters` leaves.
use cc_deb_pkg.Prelude.{
  ℕ, ◌+◌, ◌≡◌, ap, ◌∙◌, not, ◌||◌, ◌&&◌, some, List, [], ◌∷◌, ◌++◌, GoString, str_eq, str_eq_iff,
  if◌then◌else◌, arith, Bool-cases, inl, inr,
}
use mathlib.Core.List.{append-nil}
use cc_deb_pkg.Prelude.GoMap.{GoMap}
use cc_deb_pkg.Printer.{
  Printer, register_printer, delete_printer, PrinterDiff, plain_diff, diff_printer,
}
use cc_deb_pkg.Printer.Diff.{diff_printer-cases}
use cc_deb_pkg.Printer.Round.{
  gcp_loop-Round, cups_loop-seen, cups_loop-new, Round, duplicate, unknown, compared,
}
use cc_deb_pkg.Printer.Sync.{DiffState, exists_key, push_diff, adopt, gcp_loop, cups_loop}
use cc_deb_pkg.Printer.Kept.{
  if_named, count_name, left_of, kept, kept-append, count_name-append, IsByName, has_name,
  exists_key-insert, exists_key-none, exists_key-some,
}

-- A registration keeps the name.
abbrev pub KeepsName : (Printer → Printer) → Type 0
KeepsName register = (p : Printer) → (register p).name ≡ p.name

module _ (register : Printer → Printer) (n : GoString) where
  abbrev count_kept : List PrinterDiff → ℕ
  count_kept ds = count_name n (kept register ds)

  kept_one : (d : PrinterDiff) → kept register (d ∷ []) ≡ left_of register d.operation d.printer
  unfolding kept
  kept_one d = append-nil (left_of register d.operation d.printer)

  count_kept-push :
      (ds : List PrinterDiff) (d : PrinterDiff)
      → count_kept (ds ++ d ∷ [])
        ≡ count_kept ds + count_name n (left_of register d.operation d.printer)
  count_kept-push ds d =
      rw (kept-append register ds (d ∷ []), count_name-append)
        (ap (◌+◌ (count_kept ds)) (ap (count_name n) (kept_one d)))

  -- A compared printer stays, under its name.
  count-compared :
      (c g : Printer) (d : PrinterDiff)
      → diff_printer (adopt c g) g ≡ some d
      → c.name ≡ g.name
      → count_name n (left_of register d.operation d.printer) ≡ if_named n g
  unfolding count_name
  count-compared c g d h e = ground (arith, diff_printer-cases (adopt c g) g d)

  module _ (cups : GoMap Printer) (by_name : IsByName cups) where
    -- What a round of the first loop adds: one printer, if the name is new and CUPS knows it.
    abbrev gain : GoMap (Unit {0}) → Printer → ℕ
    gain considered g =
        if not (exists_key n considered) && exists_key n cups then if_named n g else 0

    Round-count :
        (st : DiffState) (g : Printer) {st' : DiffState}
        → Round cups st g st'
        → count_kept st'.diffs ≡ count_kept st.diffs + gain st.considered g
    unfolding count_name
    Round-count st g (duplicate seen) =
        count_kept-push st.diffs (plain_diff delete_printer g) ∙ ground (arith, str_eq_iff g.name n)
    Round-count st g (unknown new missing) =
        count_kept-push st.diffs (plain_diff delete_printer g)
        ∙ ground (arith, str_eq_iff g.name n, exists_key-none g.name cups missing)
    Round-count st g (compared {c} {d} new found answered) =
        count_kept-push st.diffs d
        ∙ ap (◌+◌ (count_kept st.diffs)) (
            count-compared c g d answered (by_name g.name c found)
            ∙ ground (arith, str_eq_iff g.name n, exists_key-some g.name cups found))

    Round-considered :
        (st : DiffState) (g : Printer) {st' : DiffState}
        → Round cups st g st'
        → exists_key n st'.considered ≡ (str_eq g.name n || exists_key n st.considered)
    Round-considered st g (duplicate seen) = ground (arith, str_eq_iff g.name n)
    Round-considered st g (unknown new missing) = exists_key-insert g.name n tt st.considered
    Round-considered st g (compared new found answered) =
        exists_key-insert g.name n tt st.considered

    -- The first loop leaves one printer of the name if GCP and CUPS have it, and else none.
    pub gcp_loop-count :
        (st : DiffState) (gs : List Printer) (st' : DiffState)
        → gcp_loop cups st gs ≡ some st'
        → (count_kept st'.diffs
            ≡ count_kept st.diffs
              + (if not (exists_key n st.considered) && (exists_key n cups && has_name n gs)
                  then 1
                  else 0))
          × (exists_key n st'.considered ≡ (has_name n gs || exists_key n st.considered))
    unfolding has_name gcp_loop
    gcp_loop-count st [] st' h = ground arith
    gcp_loop-count st (g ∷ gs) st' h =
        let (mid, round, rest) = gcp_loop-Round cups st st' g gs h in
        let (counted, seen) = gcp_loop-count mid gs st' rest in
        ground (arith, Round-count st g round, Round-considered st g round)

  pub cups_loop-count :
      (st : DiffState) (cs : List Printer)
      → KeepsName register
      → count_kept (cups_loop st cs).diffs
        ≡ count_kept st.diffs + (if exists_key n st.considered then 0 else count_name n cs)
  unfolding cups_loop count_name
  cups_loop-count st [] k = ground arith
  cups_loop-count st (c ∷ cs) k = elim (Bool-cases (exists_key c.name st.considered)) [
    | inl seen ↦
        rw (cups_loop-seen st c cs seen)
          (ground (arith, cups_loop-count st cs k, str_eq_iff c.name n))
    | inr new ↦ rw (cups_loop-new st c cs new) (
        ground (
          arith,
          cups_loop-count (push_diff st (plain_diff register_printer c)) cs k,
          count_kept-push st.diffs (plain_diff register_printer c),
          str_eq_iff c.name n,
          k c,
        ))
  ]
