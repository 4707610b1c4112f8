-- ===== src/Printer/Current.antt =====
-- Printers that agree with those of CUPS, and how the map by name leads to them.
use cc_deb_pkg.Prelude.{
  ◌≤◌, ◌≡◌, refl, ap, ◌∙◌, subst, some, List, [], ◌∷◌, All, GoString, str_eq, str_eq_refl,
  if◌then◌else◌, arith, Bool-cases, inl, inr, of_some,
}
use cc_deb_pkg.Prelude.GoMap.{GoMap, lookup, insert, lookup-insert}
use cc_deb_pkg.Printer.{Printer, tagshash, slice_loop, printer_slice_to_map_by_name}
use cc_deb_pkg.Printer.Diff.{Agree}
use cc_deb_pkg.Printer.Sync.{adopt}
use cc_deb_pkg.Printer.Kept.{count_name}

-- CUPS has a printer of the name, and the printer agrees with it.
abbrev pub IsCurrent : GoMap Printer → Printer → Type 0
IsCurrent cups g = (c : Printer) × (lookup g.name cups ≡ some c) × Agree (adopt c g) g

-- A registration sets the GCP ID and the semaphore, and nothing else.
abbrev pub IsRegistration : (Printer → Printer) → Type 0
IsRegistration register = (p : Printer) → register p ≡ adopt p (register p)

-- The tags carry their hash, which the sync puts there.
abbrev pub IsHashed : Printer → Type 0
IsHashed p = (h : GoString) × (lookup tagshash p.tags ≡ some h)

pub Agree-adopt : (c g : Printer) → IsHashed c → Agree (adopt c (adopt c g)) (adopt c g)
Agree-adopt c g (h, e) = record {
  default_display_name = refl;
  manufacturer = refl;
  model = refl;
  gcp_version = refl;
  setup_url = refl;
  support_url = refl;
  update_url = refl;
  connector_version = refl;
  state = refl;
  description = refl;
  caps_hash = refl;
  hashed = (h, e, e);
}

module _ (P : Printer → Type 0) where
  slice_loop-property :
      (s : List Printer) (m : GoMap Printer)
      → ((k : GoString) (c : Printer) → lookup k m ≡ some c → P c)
      → All P s
      → (k : GoString) (c : Printer) → lookup k (slice_loop m s) ≡ some c
      → P c
  unfolding slice_loop
  slice_loop-property [] m h a k c e = h k c e
  slice_loop-property (p ∷ s) m h a k c e =
      slice_loop-property s (insert p.name p m) after a.1 k c e
    where
      after : (j : GoString) (q : Printer) → lookup j (insert p.name p m) ≡ some q → P q
      after j q f = elim (Bool-cases (str_eq p.name j)) [
        | inl same ↦ subst P (of_some (rw (lookup-insert, same) at f)) a.0
        | inr other ↦ h j q (rw (lookup-insert, other) at f)
      ]

-- A name that stands once leads to its printer.
slice_loop-lookup :
    (s : List Printer) (m : GoMap Printer) (n : GoString)
    → count_name n s ≡ 0
    → lookup n (slice_loop m s) ≡ lookup n m
unfolding slice_loop count_name
slice_loop-lookup [] m n h = refl
slice_loop-lookup (p ∷ s) m n h =
    ground (arith, slice_loop-lookup s (insert p.name p m) n, lookup-insert p.name n p m)

-- The map by name leads from the name of each printer of the list to that printer.
abbrev pub Leads : GoMap Printer → List Printer → Type 0
Leads m [] = Unit
Leads m (p ∷ ps) = (lookup p.name m ≡ some p) × Leads m ps

slice_loop-Leads :
    (s : List Printer) (m : GoMap Printer)
    → ((n : GoString) → count_name n s ≤ 1)
    → Leads (slice_loop m s) s
unfolding slice_loop
slice_loop-Leads [] m u = tt
slice_loop-Leads (p ∷ s) m u = (
  slice_loop-lookup s (insert p.name p m) p.name (alone p s (u p.name))
      ∙ lookup-insert p.name p.name p m
      ∙ ap (λ b. if b then some p else lookup p.name m) (str_eq_refl p.name),
  slice_loop-Leads s (insert p.name p m) (λ n. rest n p s (u n)),
)
  where
    alone :
        (q : Printer) (r : List Printer) → count_name q.name (q ∷ r) ≤ 1 → count_name q.name r ≡ 0
    alone q r h = unfold count_name in ground (arith, str_eq_refl q.name)

    rest :
        (n : GoString) (q : Printer) (r : List Printer)
        → count_name n (q ∷ r) ≤ 1
        → count_name n r ≤ 1
    rest n q r h = unfold count_name in ground arith

pub by_name-Leads :
    (s : List Printer)
    → ((n : GoString) → count_name n s ≤ 1)
    → Leads (printer_slice_to_map_by_name s) s
unfolding printer_slice_to_map_by_name
by_name-Leads s u = slice_loop-Leads s [] u

pub by_name-property :
    (P : Printer → Type 0) (s : List Printer)
    → All P s
    → (k : GoString) (c : Printer) → lookup k (printer_slice_to_map_by_name s) ≡ some c
    → P c
unfolding printer_slice_to_map_by_name
by_name-property P s a = slice_loop-property P s [] (λ k c e. absurd (nothing k c e)) a
  where
    nothing : (k : GoString) (c : Printer) → ¬ (lookup k [] ≡ some c)
    nothing k c e = unfold lookup in cc
