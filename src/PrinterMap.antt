-- ===== src/PrinterMap.antt =====
-- The map of printers that goroutines share: `lib/concprintermap.go`. Each operation runs under the
-- mutex, so a run is a sequence of them. `GetAll` lists the map in the order of the model; Go's order
-- is any rearrangement of it.
use cc_deb_pkg.Prelude.{
  ◌≤◌, ◌<◌, ◌≡◌, refl, ap, sym, ◌∙◌, Bool, Option, none, some, List, [], ◌∷◌, ◌++◌, length,
  GoString, str_eq, str_eq_refl, ltb, if◌then◌else◌, arith,
}
use mathlib.Core.List.{append_assoc, append-nil}
use cc_deb_pkg.Prelude.GoMap.{GoMap, lookup, insert, values, lookup-insert}
use cc_deb_pkg.Printer.{Printer}
use cc_deb_pkg.Printer.Kept.{count_name}

pub record ConcurrentPrinterMap : Type 0 where
  pub by_cups_name : GoMap Printer
  pub by_gcp_id : GoMap Printer

-- `c[printer.Name] = printer`
name_loop : GoMap Printer → List Printer → GoMap Printer
name_loop c [] = c
name_loop c (p ∷ ps) = name_loop (insert p.name p c) ps

-- `g[printer.GCPID] = printer`, where there is an ID.
id_loop : GoMap Printer → List Printer → GoMap Printer
id_loop g [] = g
id_loop g (p ∷ ps) = id_loop (if ltb 0 (length p.gcp_id) then insert p.gcp_id p g else g) ps

unfoldable pub refresh : ConcurrentPrinterMap → List Printer → ConcurrentPrinterMap
unfolding name_loop id_loop
refresh cpm printers = record {
  by_cups_name = name_loop [] printers;
  by_gcp_id = id_loop [] printers;
}

unfoldable pub new_concurrent_printer_map : List Printer → ConcurrentPrinterMap
unfolding refresh
new_concurrent_printer_map printers =
    refresh (record { by_cups_name = []; by_gcp_id = [] }) printers

unfoldable pub get_by_cups_name : ConcurrentPrinterMap → GoString → Option Printer
get_by_cups_name cpm name = lookup name cpm.by_cups_name

unfoldable pub get_by_gcp_id : ConcurrentPrinterMap → GoString → Option Printer
get_by_gcp_id cpm gcp_id = lookup gcp_id cpm.by_gcp_id

unfoldable pub get_all : ConcurrentPrinterMap → List Printer
get_all cpm = values cpm.by_cups_name

-- The last printer of the list that passes the test, or `d`.
pub last_or : (Printer → Bool) → Option Printer → List Printer → Option Printer
last_or test d [] = d
last_or test d (p ∷ ps) = last_or test (if test p then some p else d) ps

name_loop-lookup :
    (n : GoString) (c : GoMap Printer) (ps : List Printer)
    → lookup n (name_loop c ps) ≡ last_or (λ p. str_eq p.name n) (lookup n c) ps
unfolding name_loop last_or
name_loop-lookup n c [] = refl
name_loop-lookup n c (p ∷ ps) =
    name_loop-lookup n (insert p.name p c) ps
    ∙ ap (λ d. last_or (λ q. str_eq q.name n) d ps) (lookup-insert p.name n p c)

-- What a printer with an ID, or with none, does to the map by ID.
put_id : GoString → Printer → GoMap Printer → GoMap Printer
put_id k p g = if ltb 0 (length k) then insert k p g else g

put_id-lookup :
    (i k : GoString) (p : Printer) (g : GoMap Printer)
    → 0 < length i
    → lookup i (put_id k p g) ≡ (if str_eq k i then some p else lookup i g)
unfolding put_id str_eq
put_id-lookup [] k p g h = absurd (omega arith)
put_id-lookup (x ∷ i) [] p g h = refl
put_id-lookup (x ∷ i) (y ∷ k) p g h = ground (arith, lookup-insert (y ∷ k) (x ∷ i) p g)

put_id-empty :
    (k : GoString) (p : Printer) (g : GoMap Printer)
    → lookup [] g ≡ none
    → lookup [] (put_id k p g) ≡ none
unfolding put_id str_eq
put_id-empty [] p g h = h
put_id-empty (y ∷ k) p g h = ground (arith, lookup-insert (y ∷ k) [] p g)

id_loop-lookup :
    (i : GoString) (g : GoMap Printer) (ps : List Printer)
    → 0 < length i
    → lookup i (id_loop g ps) ≡ last_or (λ p. str_eq p.gcp_id i) (lookup i g) ps
unfolding id_loop last_or put_id
id_loop-lookup i g [] h = refl
id_loop-lookup i g (p ∷ ps) h =
    id_loop-lookup i (put_id p.gcp_id p g) ps h
    ∙ ap (λ d. last_or (λ q. str_eq q.gcp_id i) d ps) (put_id-lookup i p.gcp_id p g h)

id_loop-empty :
    (g : GoMap Printer) (ps : List Printer) → lookup [] g ≡ none → lookup [] (id_loop g ps) ≡ none
unfolding id_loop put_id
id_loop-empty g [] h = h
id_loop-empty g (p ∷ ps) h = id_loop-empty (put_id p.gcp_id p g) ps (put_id-empty p.gcp_id p g h)

-- After `Refresh` a name leads to the last printer given that has it, and the empty GCP ID to none.
pub get_by_cups_name-refresh :
    (cpm : ConcurrentPrinterMap) (ps : List Printer) (k : GoString)
    → (get_by_cups_name (refresh cpm ps) k ≡ last_or (λ p. str_eq p.name k) none ps)
      × (get_by_gcp_id (refresh cpm ps) [] ≡ none)
unfolding refresh get_by_cups_name get_by_gcp_id lookup
get_by_cups_name-refresh cpm ps k = (name_loop-lookup k [] ps, id_loop-empty [] ps refl)

-- After `Refresh` a GCP ID that is not empty leads to the last printer given that has it.
pub get_by_gcp_id-refresh :
    (cpm : ConcurrentPrinterMap) (ps : List Printer) (k : GoString)
    → 0 < length k
    → get_by_gcp_id (refresh cpm ps) k ≡ last_or (λ p. str_eq p.gcp_id k) none ps
unfolding refresh get_by_gcp_id lookup
get_by_gcp_id-refresh cpm ps k h = id_loop-lookup k [] ps h

values-insert :
    (k : GoString) (p : Printer) (c : GoMap Printer)
    → lookup k c ≡ none
    → values (insert k p c) ≡ values c ++ p ∷ []
unfolding lookup insert
values-insert k p [] h = refl
values-insert k p ((j, q) ∷ c) h = ground (arith, values-insert k p c)

name_loop-values :
    (c : GoMap Printer) (ps : List Printer)
    → ((n : GoString) → 1 ≤ count_name n ps → lookup n c ≡ none)
    → ((n : GoString) → count_name n ps ≤ 1)
    → values (name_loop c ps) ≡ values c ++ ps
unfolding name_loop
name_loop-values c [] f u = sym (append-nil (values c))
name_loop-values c (p ∷ ps) f u =
    name_loop-values (insert p.name p c) ps (λ n h. later n (f n) (u n) h) (λ n. fewer n (u n))
    ∙ ap (λ vs. vs ++ ps) (values-insert p.name p c (first (f p.name)))
    ∙ append_assoc (values c) (p ∷ []) ps
  where
    later :
        (n : GoString)
        → (1 ≤ count_name n (p ∷ ps) → lookup n c ≡ none)
        → count_name n (p ∷ ps) ≤ 1
        → 1 ≤ count_name n ps
        → lookup n (insert p.name p c) ≡ none
    later n f u h = unfold count_name in ground (arith, lookup-insert p.name n p c)

    fewer : (n : GoString) → count_name n (p ∷ ps) ≤ 1 → count_name n ps ≤ 1
    fewer n u = unfold count_name in omega arith

    first : (1 ≤ count_name p.name (p ∷ ps) → lookup p.name c ≡ none) → lookup p.name c ≡ none
    first f = unfold count_name in ground (arith, str_eq_refl p.name)

-- `GetAll` after `Refresh` with printers of different names returns the printers given.
pub get_all-refresh :
    (cpm : ConcurrentPrinterMap) (ps : List Printer)
    → ((n : GoString) → count_name n ps ≤ 1)
    → get_all (refresh cpm ps) ≡ ps
unfolding refresh get_all
get_all-refresh cpm ps u = name_loop-values [] ps (λ n h. unfold lookup in refl) u
