-- ===== src/Printer/Kept.antt =====
-- The printers that `DiffPrinters` leaves, by name.
use cc_deb_pkg.Prelude.{
  ℕ, ◌+◌, ◌≤◌, ◌≡◌, refl, sym, Bool, true, false, ◌||◌, Option, none, some, List, [], ◌∷◌, ◌++◌,
  GoString, str_eq, str_eq_iff, if◌then◌else◌, arith,
}
use mathlib.Core.List.{append_assoc}
use cc_deb_pkg.Prelude.GoMap.{GoMap, lookup, insert, lookup-insert}
use cc_deb_pkg.Printer.{
  Printer, PrinterDiffOperation, register_printer, delete_printer, PrinterDiff, slice_loop,
  printer_slice_to_map_by_name,
}
use cc_deb_pkg.Printer.Sync.{exists_key}

abbrev pub if_named : GoString → Printer → ℕ
if_named n p = if str_eq p.name n then 1 else 0

-- How many printers have the name.
unfoldable pub count_name : GoString → List Printer → ℕ
count_name n [] = 0
count_name n (p ∷ ps) = if_named n p + count_name n ps

-- What a diff leaves of its printer: nothing, the printer registered, or the printer as it is.
abbrev pub left_of : (Printer → Printer) → PrinterDiffOperation → Printer → List Printer
left_of register register_printer p = register p ∷ []
left_of register delete_printer p = []
left_of register _ p = p ∷ []

-- The printers known once the diffs are applied; `register` is what a registration does to a printer.
unfoldable pub kept : (Printer → Printer) → List PrinterDiff → List Printer
kept register [] = []
kept register (d ∷ ds) = left_of register d.operation d.printer ++ kept register ds

-- The printers known after a sync: on the nil slice those known before.
abbrev pub outcome : (Printer → Printer) → List Printer → Option (List PrinterDiff) → List Printer
outcome register gcp none = gcp
outcome register gcp (some ds) = kept register ds

pub kept-append :
    (register : Printer → Printer) (xs ys : List PrinterDiff)
    → kept register (xs ++ ys) ≡ kept register xs ++ kept register ys
unfolding kept
kept-append register [] ys = refl
kept-append register (d ∷ xs) ys = rw (kept-append register xs ys) (
    sym
      (append_assoc (left_of register d.operation d.printer) (kept register xs) (kept register ys)))

pub count_name-append :
    (n : GoString) (xs ys : List Printer)
    → count_name n (xs ++ ys) ≡ count_name n xs + count_name n ys
unfolding count_name
count_name-append n [] ys = omega arith
count_name-append n (p ∷ xs) ys = omega (arith, count_name-append n xs ys)

-- A key leads to a printer of that name.
abbrev pub IsByName : GoMap Printer → Type 0
IsByName m = (k : GoString) (c : Printer) → lookup k m ≡ some c → c.name ≡ k

insert-IsByName : (m : GoMap Printer) (p : Printer) → IsByName m → IsByName (insert p.name p m)
insert-IsByName m p h k c e = ground (arith, lookup-insert p.name k p m, str_eq_iff p.name k, h k c)

slice_loop-IsByName :
    (s : List Printer) (m : GoMap Printer) → IsByName m → IsByName (slice_loop m s)
unfolding slice_loop
slice_loop-IsByName [] m h = h
slice_loop-IsByName (p ∷ s) m h = slice_loop-IsByName s (insert p.name p m) (insert-IsByName m p h)

pub printer_slice_to_map_by_name-IsByName :
    (s : List Printer) → IsByName (printer_slice_to_map_by_name s)
unfolding printer_slice_to_map_by_name
printer_slice_to_map_by_name-IsByName s = slice_loop-IsByName s [] (λ k c e. unfold lookup in cc)

-- Whether a printer of the list has the name.
unfoldable pub has_name : GoString → List Printer → Bool
has_name n [] = false
has_name n (p ∷ ps) = str_eq p.name n || has_name n ps

pub exists_key-none {ℓ} :
    {V : Type ℓ} (k : GoString) (m : GoMap V) → lookup k m ≡ none → exists_key k m ≡ false
unfolding exists_key
exists_key-none k m h = rw (h, exists_key)

pub exists_key-some {ℓ} :
    {V : Type ℓ} (k : GoString) (m : GoMap V) {v : V} → lookup k m ≡ some v → exists_key k m ≡ true
unfolding exists_key
exists_key-some k m h = rw (h, exists_key)

pub exists_key-insert {ℓ} :
    {V : Type ℓ} (k n : GoString) (v : V) (m : GoMap V)
    → exists_key n (insert k v m) ≡ (str_eq k n || exists_key n m)
unfolding exists_key
exists_key-insert k n v m = ground (arith, lookup-insert k n v m)

exists_key-slice_loop :
    (n : GoString) (s : List Printer) (m : GoMap Printer)
    → exists_key n (slice_loop m s) ≡ (exists_key n m || has_name n s)
unfolding slice_loop has_name
exists_key-slice_loop n [] m = ground arith
exists_key-slice_loop n (p ∷ s) m =
    ground (arith, exists_key-slice_loop n s (insert p.name p m), exists_key-insert p.name n p m)

pub exists_key-by_name :
    (n : GoString) (s : List Printer) → exists_key n (printer_slice_to_map_by_name s) ≡ has_name n s
unfolding printer_slice_to_map_by_name exists_key lookup
exists_key-by_name n s = exists_key-slice_loop n s []

pub has_name-count :
    (n : GoString) (s : List Printer) → (if has_name n s then 1 else 0) ≤ count_name n s
unfolding has_name count_name
has_name-count n [] = omega arith
has_name-count n (p ∷ s) = ground (arith, has_name-count n s)

pub no_name-count : (n : GoString) (s : List Printer) → has_name n s ≡ false → count_name n s ≡ 0
unfolding has_name count_name
no_name-count n [] h = refl
no_name-count n (p ∷ s) h = ground (arith, no_name-count n s)
