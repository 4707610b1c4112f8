-- ===== src/PrinterMib/Markers/Counted.antt =====
-- `GetMarkers` of `snmp/oid/printmib.go` reports each supply once.
use cc_deb_pkg.Prelude.{
  ℕ, suc, ◌+◌, ◌≡◌, refl, sym, ap, subst, arith, Bool, true, false, Option, none, some, List, [],
  ◌∷◌, map, length, ltb, ◌==◌, ◌||◌, not, if◌then◌else◌, GoString, ℤ, pos, negsuc,
}
use cc_deb_pkg.Prelude.Answer.{Answer, panicked, unavailable, available}
use cc_deb_pkg.Oid.{Variable, VariableSet, get_subtree}
use cc_deb_pkg.Cdd.State.{MarkerStateItem}
use cc_deb_pkg.Cdd.Units.{Marker, MarkerType}
use cc_deb_pkg.PrinterMib.Identifiers.{PrinterOids}
use cc_deb_pkg.PrinterMib.Markers.{
  Supplies, Supply, SupplyRow, add_supply, before_others, get_markers, numbered_supply,
  parsed_supply, supply, supply_loop, supply_rows, typed_supply, marker_item,
}

-- Each marker has its state under its ID, and `n` supplies are reported.
pub record IsCounted (n : ℕ) (r : Supplies) : Type 0 where
  pub paired :
      map (λ (m : Marker). m.vendor_id) r.markers
      ≡ map (λ (s : MarkerStateItem). s.vendor_id) r.states
  pub reported : length r.markers + length r.vendor_items ≡ n

marker_item-vendor_id :
    (id unit : GoString) (max current : ℤ) → (marker_item id unit max current).vendor_id ≡ id
unfolding marker_item
marker_item-vendor_id id unit (pos max) (pos current) = refl
marker_item-vendor_id id unit (pos max) (negsuc n) = refl
marker_item-vendor_id id unit (negsuc m) current = refl

abbrev Same : Supply → Type 0
Same (Supply.marker m i) = m.vendor_id ≡ i.vendor_id
Same (Supply.vendor v) = Unit

abbrev Counted : ℕ → Answer Supplies → Type 0
Counted n (available r) = IsCounted n r
Counted n _ = Unit

abbrev Paired : Answer Supply → Type 0
Paired (available s) = Same s
Paired _ = Unit

supply_cons :
    (n : ℕ) (s : Supply) (r : Supplies)
    → Same s
    → IsCounted n r
    → IsCounted (suc n) (add_supply s r)
supply_cons n (Supply.marker m i) r same h = record {
  paired = rw (same, h.paired) refl;
  reported = omega (arith, h.reported);
}
supply_cons n (Supply.vendor v) r same h = record {
  paired = h.paired;
  reported = omega (arith, h.reported);
}

before_others-Counted :
    (n : ℕ) (s : Answer Supply) (rest : Answer Supplies)
    → Paired s
    → Counted n rest
    → Counted (suc n) (before_others s rest)
before_others-Counted n panicked rest h hs = tt
before_others-Counted n unavailable rest h hs = tt
before_others-Counted n (available s) panicked h hs = tt
before_others-Counted n (available s) unavailable h hs = tt
before_others-Counted n (available s) (available r) h hs = supply_cons n s r h hs

typed_supply-Same :
    (type : Option MarkerType) (row : SupplyRow) (id : GoString) (max current : ℤ)
    → Same (typed_supply type row id max current)
typed_supply-Same none row id max current = tt
typed_supply-Same (some type) row id max current =
    sym (marker_item-vendor_id id row.unit.value max current)

parsed_supply-Paired :
    (row : SupplyRow) (id : GoString) (max current : Option ℤ)
    → Paired (parsed_supply row id max current)
parsed_supply-Paired row id none current = tt
parsed_supply-Paired row id (some max) none = tt
parsed_supply-Paired row id (some max) (some current) = typed_supply-Same _ row id max current

numbered_supply-Paired : (row : SupplyRow) (n : Option ℕ) → Paired (numbered_supply row n)
numbered_supply-Paired row none = tt
numbered_supply-Paired row (some n) = parsed_supply-Paired row _ _ _

supply_loop-Counted : (rows : List SupplyRow) → Counted (length rows) (supply_loop rows)
unfolding supply_loop supply
supply_loop-Counted [] = record { paired = refl; reported = refl }
supply_loop-Counted (row ∷ rows) =
    before_others-Counted (length rows) (supply row) (supply_loop rows)
      (numbered_supply-Paired row _) (supply_loop-Counted rows)

length-supply_rows :
    (cs ts ds us ms ls ks : List Variable)
    → length cs ≡ length ts
    → length cs ≡ length ds
    → length cs ≡ length us
    → length cs ≡ length ms
    → length cs ≡ length ls
    → length cs ≡ length ks
    → length (supply_rows cs ts ds us ms ls ks) ≡ length cs
unfolding supply_rows
length-supply_rows [] ts ds us ms ls ks h1 h2 h3 h4 h5 h6 = refl
length-supply_rows (c ∷ cs) (t ∷ ts) (d ∷ ds) (u ∷ us) (m ∷ ms) (l ∷ ls) (k ∷ ks) h1 h2 h3 h4 h5
      h6 =
    ap suc (
      length-supply_rows cs ts ds us ms ls ks (omega arith) (omega arith) (omega arith)
        (omega arith) (omega arith) (omega arith))
length-supply_rows (c ∷ cs) [] ds us ms ls ks h1 h2 h3 h4 h5 h6 = absurd (omega arith)
length-supply_rows (c ∷ cs) (t ∷ ts) [] us ms ls ks h1 h2 h3 h4 h5 h6 = absurd (omega arith)
length-supply_rows (c ∷ cs) (t ∷ ts) (d ∷ ds) [] ms ls ks h1 h2 h3 h4 h5 h6 = absurd (omega arith)
length-supply_rows (c ∷ cs) (t ∷ ts) (d ∷ ds) (u ∷ us) [] ls ks h1 h2 h3 h4 h5 h6 =
    absurd (omega arith)
length-supply_rows (c ∷ cs) (t ∷ ts) (d ∷ ds) (u ∷ us) (m ∷ ms) [] ks h1 h2 h3 h4 h5 h6 =
    absurd (omega arith)
length-supply_rows (c ∷ cs) (t ∷ ts) (d ∷ ds) (u ∷ us) (m ∷ ms) (l ∷ ls) [] h1 h2 h3 h4 h5 h6 =
    absurd (omega arith)

guarded-Counted :
    (n : ℕ) (guard : Bool) (r : Answer Supplies)
    → (guard ≡ false → Counted n r)
    → Counted n (if guard then unavailable else r)
guarded-Counted n true r h = tt
guarded-Counted n false r h = h refl

fits7 :
    (c t d u m l k : ℕ)
    → (ltb c 1
        || not (c == t)
        || not (c == d)
        || not (c == u)
        || not (c == m)
        || not (c == l)
        || not (c == k))
      ≡ false
    → (c ≡ t) × ((c ≡ d) × ((c ≡ u) × ((c ≡ m) × ((c ≡ l) × (c ≡ k)))))
fits7 c t d u m l k h = ground arith

supplies-Counted :
    (cs ts ds us ms ls ks : List Variable)
    → Counted (length cs) (
        if ltb (length cs) 1
          || not (length cs == length ts)
          || not (length cs == length ds)
          || not (length cs == length us)
          || not (length cs == length ms)
          || not (length cs == length ls)
          || not (length cs == length ks)
        then unavailable
        else supply_loop (supply_rows cs ts ds us ms ls ks))
supplies-Counted cs ts ds us ms ls ks = guarded-Counted (length cs) _ _ (λ e.
    let (ht, (hd, (hu, (hm, (hl, hk))))) = fits7 _ _ _ _ _ _ _ e in
    subst (λ n. Counted n (supply_loop (supply_rows cs ts ds us ms ls ks)))
      (length-supply_rows cs ts ds us ms ls ks ht hd hu hm hl hk)
      (supply_loop-Counted (supply_rows cs ts ds us ms ls ks)))

-- The markers and their states pair up, and each supply of the tables is reported once.
pub get_markers-IsCounted :
    (oids : PrinterOids) (vs : VariableSet) (r : Supplies)
    → get_markers oids vs ≡ available r
    → IsCounted (length (get_subtree vs oids.printer_marker_supplies_class).vars) r
unfolding get_markers
get_markers-IsCounted oids vs r h =
    subst (Counted (length (get_subtree vs oids.printer_marker_supplies_class).vars)) h (
      supplies-Counted (get_subtree vs oids.printer_marker_supplies_class).vars
        (get_subtree vs oids.printer_marker_supplies_type).vars
        (get_subtree vs oids.printer_marker_supplies_description).vars
        (get_subtree vs oids.printer_marker_supplies_supply_unit).vars
        (get_subtree vs oids.printer_marker_supplies_max_capacity).vars
        (get_subtree vs oids.printer_marker_supplies_level).vars
        (get_subtree vs oids.printer_marker_colorant_value).vars)
