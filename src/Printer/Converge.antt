-- ===== src/Printer/Converge.antt =====
-- When the printers are in sync, and that a sync makes them so.
use cc_deb_pkg.Prelude.{
  ◌≤◌, ◌≡◌, refl, ap, sym, ◌∙◌, subst, Option, some, List, [], ◌∷◌, ◌++◌, All, All-append, GoString,
  arith, Bool-cases, inl, inr, of_some,
}
use cc_deb_pkg.Prelude.GoMap.{GoMap, lookup}
use cc_deb_pkg.Printer.{
  Printer, register_printer, delete_printer, PrinterDiff, plain_diff, diff_printer,
  printer_slice_to_map_by_name,
}
use cc_deb_pkg.Printer.Diff.{diff_printer-cases, diff_printer-Agree_iff}
use cc_deb_pkg.Printer.Round.{
  gcp_loop-Round, cups_loop-seen, cups_loop-new, Round, duplicate, unknown, compared,
}
use cc_deb_pkg.Printer.Sync.{
  DiffState, exists_key, push_diff, adopt, gcp_loop, cups_loop, start, diff_printers,
}
use cc_deb_pkg.Printer.Kept.{
  count_name, left_of, kept, outcome, IsByName, printer_slice_to_map_by_name-IsByName,
}
use cc_deb_pkg.Printer.Outcome.{diff_printers-runs, diff_printers-count, kept-push}
use cc_deb_pkg.Printer.Current.{
  IsCurrent, IsRegistration, IsHashed, Agree-adopt, Leads, by_name-Leads, by_name-property,
}

-- The printers known are those of CUPS: each is current, no name stands twice, and every name of
-- CUPS is there.
pub record InSync (cups gcp : List Printer) : Type 0 where
  pub current : All (IsCurrent (printer_slice_to_map_by_name cups)) gcp
  pub distinct : (n : GoString) → count_name n gcp ≤ 1
  pub complete : (n : GoString) → count_name n cups ≤ count_name n gcp

module _ (register : Printer → Printer) (registers : IsRegistration register) (m : GoMap Printer)
    (by_name : IsByName m)
    (hashed : (k : GoString) (c : Printer) → lookup k m ≡ some c → IsHashed c) where
  adopted : (c g : Printer) → lookup g.name m ≡ some c → IsCurrent m (adopt c g)
  adopted c g found = (
    c,
    ap (λ n. lookup n m) (by_name g.name c found) ∙ found,
    Agree-adopt c g (hashed g.name c found),
  )

  push-IsCurrent :
      (ds : List PrinterDiff) (d : PrinterDiff)
      → All (IsCurrent m) (kept register ds)
      → All (IsCurrent m) (left_of register d.operation d.printer)
      → All (IsCurrent m) (kept register (ds ++ d ∷ []))
  push-IsCurrent ds d a l =
      subst (All (IsCurrent m)) (sym (kept-push register m ds d))
        (All-append (IsCurrent m) (kept register ds) (left_of register d.operation d.printer) a l)

  -- A compared printer is current afterwards.
  compared-IsCurrent :
      (c g : Printer) (d : PrinterDiff)
      → lookup g.name m ≡ some c
      → diff_printer (adopt c g) g ≡ some d
      → All (IsCurrent m) (left_of register d.operation d.printer)
  compared-IsCurrent c g d found answered = elim (diff_printer-cases (adopt c g) g d answered) [
    | inl same ↦
        subst (λ e. All (IsCurrent m) (left_of register e.operation e.printer)) (sym same)
          ((c, found, (diff_printer-Agree_iff (adopt c g) g).0 (answered ∙ ap some same)), tt)
    | inr (update, printer) ↦
        subst (λ o. All (IsCurrent m) (left_of register o d.printer)) (sym update)
          (subst (λ p. All (IsCurrent m) (p ∷ [])) (sym printer) (adopted c g found, tt))
  ]

  Round-IsCurrent :
      (st : DiffState) (g : Printer) {st' : DiffState}
      → Round m st g st'
      → All (IsCurrent m) (kept register st.diffs)
      → All (IsCurrent m) (kept register st'.diffs)
  Round-IsCurrent st g (duplicate seen) a =
      push-IsCurrent st.diffs (plain_diff delete_printer g) a tt
  Round-IsCurrent st g (unknown new missing) a =
      push-IsCurrent st.diffs (plain_diff delete_printer g) a tt
  Round-IsCurrent st g (compared {c} {d} new found answered) a =
      push-IsCurrent st.diffs d a (compared-IsCurrent c g d found answered)

  gcp_loop_end : (st st' : DiffState) → gcp_loop m st [] ≡ some st' → st ≡ st'
  unfolding gcp_loop
  gcp_loop_end st st' h = of_some h

  gcp_loop-IsCurrent :
      (st : DiffState) (gs : List Printer) (st' : DiffState)
      → gcp_loop m st gs ≡ some st'
      → All (IsCurrent m) (kept register st.diffs)
      → All (IsCurrent m) (kept register st'.diffs)
  gcp_loop-IsCurrent st [] st' h a =
      subst (λ s. All (IsCurrent m) (kept register s.diffs)) (gcp_loop_end st st' h) a
  gcp_loop-IsCurrent st (g ∷ gs) st' h a =
      let (mid, round, rest) = gcp_loop-Round m st st' g gs h in
      gcp_loop-IsCurrent mid gs st' rest (Round-IsCurrent st g round a)

  cups_loop-IsCurrent :
      (st : DiffState) (cs : List Printer)
      → Leads m cs
      → All (IsCurrent m) (kept register st.diffs)
      → All (IsCurrent m) (kept register (cups_loop st cs).diffs)
  cups_loop-IsCurrent st [] l a = unfold cups_loop in a
  cups_loop-IsCurrent st (c ∷ cs) l a = elim (Bool-cases (exists_key c.name st.considered)) [
    | inl seen ↦ rw (cups_loop-seen st c cs seen) (cups_loop-IsCurrent st cs l.1 a)
    | inr new ↦ rw (cups_loop-new st c cs new) (
        cups_loop-IsCurrent (push_diff st (plain_diff register_printer c)) cs l.1 (
          push-IsCurrent st.diffs (plain_diff register_printer c) a (
            subst (IsCurrent m) (sym (registers c))
                (c, l.0, Agree-adopt c (register c) (hashed c.name c l.0)),
            tt,
          )))
  ]

nothing_kept : (register : Printer → Printer) → kept register [] ≡ []
unfolding kept
nothing_kept register = refl

-- A sync leaves the printers in sync: if CUPS's printers have different names and their tags are
-- hashed, a registration sets only the GCP ID and the semaphore, and `DiffPrinters` answers, then
-- after its answer is applied each printer known is current, no name stands twice, and every name of
-- CUPS is there.
pub diff_printers-InSync :
    (register : Printer → Printer) (cups gcp : List Printer) (r : Option (List PrinterDiff))
    → IsRegistration register
    → ((n : GoString) → count_name n cups ≤ 1)
    → All IsHashed cups
    → diff_printers cups gcp ≡ some r
    → InSync cups (outcome register gcp r)
diff_printers-InSync register cups gcp r registers unique hashed h =
    let m = printer_slice_to_map_by_name cups in
    let (st, ran, left) = diff_printers-runs register cups gcp r h in
    let by_name = printer_slice_to_map_by_name-IsByName cups in
    let hashes = by_name-property IsHashed cups hashed in
    let before =
      gcp_loop-IsCurrent register registers m by_name hashes start gcp st ran
        (subst (All (IsCurrent m)) (sym (nothing_kept register)) tt) in
    let after =
      cups_loop-IsCurrent register registers m by_name hashes st cups (by_name-Leads cups unique)
        before in
    let counts = λ (n : GoString).
      diff_printers-count register cups gcp n r (λ p. ap (λ q. q.name) (registers p)) (unique n)
        h in
    record {
      current = subst (All (IsCurrent m)) (sym left) after;
      distinct = λ n. omega (arith, counts n, unique n);
      complete = λ n. omega (arith, counts n);
    }
