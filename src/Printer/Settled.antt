-- ===== src/Printer/Settled.antt =====
-- A sync of printers in sync has nothing to do.
use cc_deb_pkg.Prelude.Reordered.{All-Permᴰ}
use cc_deb_pkg.Prelude.{
  ◌≤◌, ◌≡◌, refl, ap, ◌∙◌, true, false, ◌||◌, Option, none, some, List, [], ◌∷◌, All, GoString,
  str_eq_refl, if◌then◌else◌, arith,
}
use mathlib.Core.Logic.{∥∥₁_elim}
use mathlib.Core.List.{Permᴰ, Perm}
use cc_deb_pkg.Prelude.GoMap.{GoMap, lookup}
use cc_deb_pkg.Printer.{
  Printer, no_change_to_printer, PrinterDiff, plain_diff, diff_printer,
  printer_slice_to_map_by_name,
}
use cc_deb_pkg.Printer.Diff.{diff_printer-Agree_iff}
use cc_deb_pkg.Printer.Round.{cups_loop-seen}
use cc_deb_pkg.Printer.Sync.{
  DiffState, exists_key, consider, push_compared, adopt, compare_known, gcp_step, gcp_loop,
  cups_loop, start, answer, diff_printers,
}
use cc_deb_pkg.Printer.Kept.{
  outcome, count_name, has_name, printer_slice_to_map_by_name-IsByName, has_name-count,
  no_name-count, exists_key-insert,
}
use cc_deb_pkg.Printer.Count.{gcp_loop-count}
use cc_deb_pkg.Printer.Outcome.{start_unseen}
use cc_deb_pkg.Printer.Current.{IsCurrent, IsRegistration, IsHashed}
use cc_deb_pkg.Printer.Converge.{InSync, diff_printers-InSync}

-- The comparison with CUPS's printer of the name answers that nothing changed.
abbrev IsStill : GoMap Printer → Printer → Type 0
IsStill m g =
    (c : Printer) × (lookup g.name m ≡ some c)
    × (diff_printer (adopt c g) g ≡ some (plain_diff no_change_to_printer g))

IsCurrent-IsStill : (m : GoMap Printer) (g : Printer) → IsCurrent m g → IsStill m g
IsCurrent-IsStill m g (c, found, agree) = (c, found, (diff_printer-Agree_iff (adopt c g) g).1 agree)

gcp_step_still :
    (m : GoMap Printer) (st : DiffState) (g : Printer)
    → exists_key g.name st.considered ≡ false
    → IsStill m g
    → gcp_step m st g ≡ some (push_compared (consider st g) (plain_diff no_change_to_printer g))
unfolding gcp_step compare_known
gcp_step_still m st g new (c, found, same) =
    rw (new, gcp_step) (rw (found, compare_known) (rw (same) refl))

gcp_loop_next :
    (m : GoMap Printer) (st next : DiffState) (g : Printer) (gs : List Printer)
    → gcp_step m st g ≡ some next
    → gcp_loop m st (g ∷ gs) ≡ gcp_loop m next gs
unfolding gcp_loop
gcp_loop_next m st next g gs e = rw (e, gcp_loop)

module _ (st : DiffState) (g : Printer) (gs : List Printer) where
  fewer : (n : GoString) → count_name n (g ∷ gs) ≤ 1 → count_name n gs ≤ 1
  unfolding count_name
  fewer n u = ground arith

  first_new :
      ((n : GoString) → exists_key n st.considered ≡ true → count_name n (g ∷ gs) ≡ 0)
      → exists_key g.name st.considered ≡ false
  unfolding count_name
  first_new f = ground (arith, f g.name, str_eq_refl g.name)

  rest_new :
      (n : GoString)
      → ((n : GoString) → exists_key n st.considered ≡ true → count_name n (g ∷ gs) ≡ 0)
      → count_name n (g ∷ gs) ≤ 1
      → exists_key n (consider st g).considered ≡ true
      → count_name n gs ≡ 0
  unfolding count_name
  rest_new n f u e = ground (arith, f n, exists_key-insert g.name n tt st.considered)

gcp_loop_still :
    (m : GoMap Printer) (st : DiffState) (gs : List Printer)
    → ((n : GoString) → exists_key n st.considered ≡ true → count_name n gs ≡ 0)
    → ((n : GoString) → count_name n gs ≤ 1)
    → All (IsCurrent m) gs
    → (st' : DiffState) × (gcp_loop m st gs ≡ some st') × (st'.dirty ≡ st.dirty)
gcp_loop_still m st [] f u a = (st, unfold gcp_loop in refl, refl)
gcp_loop_still m st (g ∷ gs) f u a =
    let before = IsCurrent-IsStill m g a.0 in
    let new = first_new st g gs f in
    let next = push_compared (consider st g) (plain_diff no_change_to_printer g) in
    let (st', ran, same) =
      gcp_loop_still m next gs (λ n e. rest_new st g gs n f (u n) e) (λ n. fewer st g gs n (u n))
        a.1 in
    (st', gcp_loop_next m st next g gs (gcp_step_still m st g new before) ∙ ran, same)

cups_loop_seen_all :
    (st : DiffState) (cs : List Printer)
    → ((n : GoString) → has_name n cs ≡ true → exists_key n st.considered ≡ true)
    → cups_loop st cs ≡ st
cups_loop_seen_all st [] h = unfold cups_loop in refl
cups_loop_seen_all st (c ∷ cs) h =
    cups_loop-seen st c cs (h c.name (unfold has_name in ground (arith, str_eq_refl c.name)))
    ∙ cups_loop_seen_all st cs (λ n e. h n (unfold has_name in ground arith))

has_name_of_count : (n : GoString) (s : List Printer) → 1 ≤ count_name n s → has_name n s ≡ true
has_name_of_count n s h = ground (arith, no_name-count n s)

count_of_has_name : (n : GoString) (s : List Printer) → has_name n s ≡ true → 1 ≤ count_name n s
count_of_has_name n s h = ground (arith, has_name-count n s)

-- `DiffPrinters` answers nil, and does not panic, on printers in sync.
pub InSync-nil : (cups gcp : List Printer) → InSync cups gcp → diff_printers cups gcp ≡ some none
unfolding diff_printers
InSync-nil cups gcp s =
    let m = printer_slice_to_map_by_name cups in
    let (st, ran, clean) =
      gcp_loop_still m start gcp (λ n e. absurd (unseen n e)) s.distinct s.current in
    let seen = λ (n : GoString).
      (gcp_loop-count (λ p. p) n m (printer_slice_to_map_by_name-IsByName cups) start gcp st
        ran).1 in
    let same = cups_loop_seen_all st cups (λ n e.
      seen n
      ∙ ap (λ b. b || exists_key n start.considered)
          (has_name_of_count n gcp (omega (arith, count_of_has_name n cups e, s.complete n)))) in
    rw (ran, diff_printers)
      (ap some (ap answer same ∙ ap (λ b. if b then some st.diffs else none) clean))
  where
    unseen : (n : GoString) → ¬ (exists_key n start.considered ≡ true)
    unseen n e = cc (start_unseen n)

count_name-Permᴰ :
    (n : GoString) {xs ys : List Printer} → Permᴰ xs ys → count_name n xs ≡ count_name n ys
unfolding count_name
count_name-Permᴰ n Permᴰ.nil = refl
count_name-Permᴰ n (Permᴰ.cons e p) = ground (arith, count_name-Permᴰ n p)
count_name-Permᴰ n (Permᴰ.swap e f) = ground arith
count_name-Permᴰ n (Permᴰ.trans p q) = count_name-Permᴰ n p ∙ count_name-Permᴰ n q

pub InSync-Permᴰ :
    (cups : List Printer) {xs ys : List Printer} → Permᴰ xs ys → InSync cups xs → InSync cups ys
InSync-Permᴰ cups p s = record {
  current = All-Permᴰ (IsCurrent (printer_slice_to_map_by_name cups)) p s.current;
  distinct = λ n. omega (arith, count_name-Permᴰ n p, s.distinct n);
  complete = λ n. omega (arith, count_name-Permᴰ n p, s.complete n);
}

pub PrinterDiffs-set : IsSet (Option (Option (List PrinterDiff)))
PrinterDiffs-set = hlevel

-- Synchronization converges: if CUPS's printers have different names and hashed tags, a registration
-- sets only the GCP ID and the semaphore, and a first `DiffPrinters` answers, then a second one
-- against the same CUPS printers, and the printers known after the first one in any order, answers
-- nil.
pub diff_printers_converge :
    (register : Printer → Printer) (cups gcp gcp' : List Printer) (r : Option (List PrinterDiff))
    → IsRegistration register
    → ((n : GoString) → count_name n cups ≤ 1)
    → All IsHashed cups
    → diff_printers cups gcp ≡ some r
    → Perm (outcome register gcp r) gcp'
    → diff_printers cups gcp' ≡ some none
diff_printers_converge register cups gcp gcp' r registers unique hashed h order =
    ∥∥₁_elim order (PrinterDiffs-set _ _) (λ p.
      InSync-nil cups gcp'
        (InSync-Permᴰ cups p (diff_printers-InSync register cups gcp r registers unique hashed h)))
