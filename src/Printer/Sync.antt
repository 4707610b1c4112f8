-- ===== src/Printer/Sync.antt =====
-- `DiffPrinters` of `lib/printer.go`: the changes that take the printers known (GCP) to those that
-- CUPS has. The outer `none` is the panic of `diffPrinter`, the inner one the nil slice.
use cc_deb_pkg.Prelude.{
  Bool, true, false, Option, none, some, List, [], ◌∷◌, ◌++◌, GoString, if◌then◌else◌,
}
use cc_deb_pkg.Prelude.GoMap.{GoMap, lookup, insert}
use cc_deb_pkg.Printer.{
  Printer, PrinterDiffOperation, register_printer, delete_printer, no_change_to_printer,
  PrinterDiff, plain_diff, diff_printer, printer_slice_to_map_by_name,
}

-- The variables of the two loops.
pub record DiffState : Type 0 where
  pub diffs : List PrinterDiff
  pub considered : GoMap (Unit {0})
  pub dirty : Bool

abbrev pub is_no_change : PrinterDiffOperation → Bool
is_no_change no_change_to_printer = true
is_no_change _ = false

-- `_, exists := m[k]`
unfoldable pub exists_key {ℓ} : {V : Type ℓ} → GoString → GoMap V → Bool
exists_key k m = elim (lookup k m) [ some _ ↦ true | none ↦ false ]

abbrev pub push_diff : DiffState → PrinterDiff → DiffState
push_diff st d = record st { diffs = st.diffs ++ d ∷ []; dirty = true }

-- The CUPS printer with the GCP ID and the semaphore of the printer that GCP has.
abbrev pub adopt : Printer → Printer → Printer
adopt c g = record c { gcp_id = g.gcp_id; cups_job_semaphore = g.cups_job_semaphore }

abbrev pub push_compared : DiffState → PrinterDiff → DiffState
push_compared st d = record st {
  diffs = st.diffs ++ d ∷ [];
  dirty = if is_no_change d.operation then st.dirty else true;
}

abbrev pub add_compared : DiffState → Option PrinterDiff → Option DiffState
add_compared st none = none
add_compared st (some d) = some (push_compared st d)

abbrev pub consider : DiffState → Printer → DiffState
consider st g = record st { considered = insert g.name tt st.considered }

-- The branch for a printer whose name was not seen before.
unfoldable pub compare_known : DiffState → Printer → Option Printer → Option DiffState
compare_known st g (some c) = add_compared st (diff_printer (adopt c g) g)
compare_known st g none = some (push_diff st (plain_diff delete_printer g))

-- One round of the loop over the GCP printers.
unfoldable pub gcp_step : GoMap Printer → DiffState → Printer → Option DiffState
gcp_step cups st g =
    if exists_key g.name st.considered
    then some (push_diff st (plain_diff delete_printer g))
    else compare_known (consider st g) g (lookup g.name cups)

unfoldable pub gcp_loop : GoMap Printer → DiffState → List Printer → Option DiffState
gcp_loop cups st [] = some st
gcp_loop cups st (g ∷ gs) = elim (gcp_step cups st g) [
  | some st' ↦ gcp_loop cups st' gs
  | none ↦ none
]

-- The loop over the CUPS printers.
unfoldable pub cups_loop : DiffState → List Printer → DiffState
cups_loop st [] = st
cups_loop st (c ∷ cs) =
    cups_loop
      (if exists_key c.name st.considered then st else push_diff st (plain_diff register_printer c))
      cs

abbrev pub start : DiffState
start = record { diffs = []; considered = []; dirty = false }

abbrev pub answer : DiffState → Option (List PrinterDiff)
answer st = if st.dirty then some st.diffs else none

unfoldable pub diff_printers : List Printer → List Printer → Option (Option (List PrinterDiff))
diff_printers cups gcp = elim (gcp_loop (printer_slice_to_map_by_name cups) start gcp) [
  | some st ↦ some (answer (cups_loop st cups))
  | none ↦ none
]
