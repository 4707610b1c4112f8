-- ===== src/PrinterMib/Paired.antt =====
-- The two results of a method of `snmp/oid/printmib.go` name the same parts.
use cc_deb_pkg.Prelude.Answer.{Answer, panicked, unavailable, available}
use cc_deb_pkg.Prelude.{
  ℕ, ◌≡◌, refl, subst, Bool, true, false, ◌||◌, Option, none, some, List, [], ◌∷◌, map, length, ltb,
  ◌==◌, not, if◌then◌else◌, GoString, ℤ, arith,
}
use cc_deb_pkg.Prelude.Strconv.{format_int}
use cc_deb_pkg.Oid.{Variable, VariableSet, get_subtree}
use cc_deb_pkg.Cdd.State.{InputTrayStateItem, OutputBinStateItem}
use cc_deb_pkg.Cdd.Units.{InputTrayUnit, OutputBinUnit}
use cc_deb_pkg.PrinterMib.Identifiers.{PrinterOids}
use cc_deb_pkg.PrinterMib.SubUnit.{int64_of, last_number, parse_numbers, cons_both, and_then}
use cc_deb_pkg.PrinterMib.Bins.{leveled_bin, numbered_bin, bin, bin_loop, get_output_bins}
use cc_deb_pkg.Cdd.State.{OutputBinStateType}
use cc_deb_pkg.PrinterMib.Trays.{tray_item, numbered_tray, tray, tray_loop, get_input_trays}

-- The vendor ID that the last number of a name stands for.
abbrev pub last_id : Option ℕ → GoString
last_id (some n) = format_int (int64_of n)
last_id none = []

abbrev pub name_id : Variable → GoString
name_id v = last_id (last_number v.name)

module _ {A B : Type 0} (f : A → GoString) (g : B → GoString) where
  -- An iteration's results carry one ID.
  abbrev Named : GoString → Answer (A × B) → Type 0
  Named id (available (a, b)) = (f a ≡ id) × (g b ≡ id)
  Named id _ = Unit

  abbrev AllNamed : List GoString → Answer (List A × List B) → Type 0
  AllNamed ids (available (xs, ys)) = (map f xs ≡ ids) × (map g ys ≡ ids)
  AllNamed ids _ = Unit

  and_then-AllNamed :
      (id : GoString) (ids : List GoString) (r : Answer (A × B)) (rest : Answer (List A × List B))
      → Named id r
      → AllNamed ids rest
      → AllNamed (id ∷ ids) (and_then r rest)
  unfolding and_then cons_both
  and_then-AllNamed id ids panicked rest h hs = tt
  and_then-AllNamed id ids unavailable rest h hs = tt
  and_then-AllNamed id ids (available (a, b)) panicked h hs = tt
  and_then-AllNamed id ids (available (a, b)) unavailable h hs = tt
  and_then-AllNamed id ids (available (a, b)) (available (xs, ys)) h hs = (cc, cc)

  guarded-AllNamed :
      (ids : List GoString) (guard : Bool) (r : Answer (List A × List B))
      → (guard ≡ false → AllNamed ids r)
      → AllNamed ids (if guard then unavailable else r)
  guarded-AllNamed ids true r h = tt
  guarded-AllNamed ids false r h = h refl

abbrev pub tray_id : InputTrayUnit → GoString
tray_id u = u.vendor_id

abbrev pub tray_item_id : InputTrayStateItem → GoString
tray_item_id i = i.vendor_id

numbered_tray-Named :
    (name : GoString) (numbers : Option (ℕ × ℤ × ℤ)) (n : Option ℕ)
    → Named tray_id tray_item_id (last_id n) (numbered_tray name numbers n)
unfolding tray_item
numbered_tray-Named name none none = tt
numbered_tray-Named name (some t) none = tt
numbered_tray-Named name none (some n) = tt
numbered_tray-Named name (some (status, max, current)) (some n) = (refl, refl)

module _ (ss : List Variable) where
  -- Lists of one length with the statuses.
  abbrev Fits : List Variable → Type 0
  Fits xs = length ss ≡ length xs

tray_loop-AllNamed :
    (ms cs ss ns : List Variable)
    → Fits ss ms
    → Fits ss cs
    → Fits ss ns
    → AllNamed tray_id tray_item_id (map name_id ss) (tray_loop ms cs ss ns)
unfolding tray_loop tray
tray_loop-AllNamed [] cs [] ns hm hc hn = (refl, refl)
tray_loop-AllNamed [] cs (s ∷ ss) ns hm hc hn = absurd (omega arith)
tray_loop-AllNamed (m ∷ ms) cs [] ns hm hc hn = absurd (omega arith)
tray_loop-AllNamed (m ∷ ms) [] (s ∷ ss) ns hm hc hn = absurd (omega arith)
tray_loop-AllNamed (m ∷ ms) (c ∷ cs) (s ∷ ss) [] hm hc hn = absurd (omega arith)
tray_loop-AllNamed (m ∷ ms) (c ∷ cs) (s ∷ ss) (n ∷ ns) hm hc hn =
    and_then-AllNamed tray_id tray_item_id (name_id s) (map name_id ss) (tray m c s n)
      (tray_loop ms cs ss ns)
      (numbered_tray-Named n.value (parse_numbers s.value m.value c.value) (last_number s.name))
      (tray_loop-AllNamed ms cs ss ns (omega arith) (omega arith) (omega arith))

-- The guard of a method on four lists.
fits4 :
    (a b c d : ℕ)
    → (ltb a 1 || not (a == b) || not (a == c) || not (a == d)) ≡ false
    → (a ≡ b) × (a ≡ c) × (a ≡ d)
fits4 a b c d h = (ground arith, ground arith, ground arith)

abbrev pub tray_ids : PrinterOids → VariableSet → List GoString
tray_ids oids vs = map name_id (get_subtree vs oids.printer_input_status).vars

get_input_trays-AllNamed :
    (oids : PrinterOids) (vs : VariableSet)
    → AllNamed tray_id tray_item_id (tray_ids oids vs) (get_input_trays oids vs)
unfolding get_input_trays
get_input_trays-AllNamed oids vs =
    let ms = (get_subtree vs oids.printer_input_max_capacity).vars in
    let cs = (get_subtree vs oids.printer_input_current_level).vars in
    let ss = (get_subtree vs oids.printer_input_status).vars in
    let ns = (get_subtree vs oids.printer_input_name).vars in
    guarded-AllNamed tray_id tray_item_id (tray_ids oids vs)
      (ltb (length ms) 1
        || not (length ms == length cs)
        || not (length ms == length ss)
        || not (length ms == length ns))
      (tray_loop ms cs ss ns)
      (λ e.
        let (c, s, n) = fits4 (length ms) (length cs) (length ss) (length ns) e in
        tray_loop-AllNamed ms cs ss ns (omega arith) (omega arith) (omega arith))

-- Where `GetInputTrays` answers with units and states, both carry the same vendor IDs in the same
-- order: the printed last number of the name of each status variable, one for each.
pub get_input_trays-paired :
    (oids : PrinterOids) (vs : VariableSet) (us : List InputTrayUnit)
    (items : List InputTrayStateItem)
    → get_input_trays oids vs ≡ available (us, items)
    → (map tray_id us ≡ tray_ids oids vs) × (map tray_item_id items ≡ tray_ids oids vs)
get_input_trays-paired oids vs us items e =
    subst (AllNamed tray_id tray_item_id (tray_ids oids vs)) e (get_input_trays-AllNamed oids vs)

abbrev pub bin_id : OutputBinUnit → GoString
bin_id u = u.vendor_id

abbrev pub bin_item_id : OutputBinStateItem → GoString
bin_item_id i = i.vendor_id

leveled_bin-Named :
    (n : ℕ) (name : GoString) (status : ℕ) (o : Option (OutputBinStateType × Option ℤ))
    → Named bin_id bin_item_id (last_id (some n)) (leveled_bin (int64_of n) name status o)
leveled_bin-Named n name status none = tt
leveled_bin-Named n name status (some r) = (refl, refl)

numbered_bin-Named :
    (name : GoString) (numbers : Option (ℕ × ℤ × ℤ)) (n : Option ℕ)
    → Named bin_id bin_item_id (last_id n) (numbered_bin name numbers n)
numbered_bin-Named name none none = tt
numbered_bin-Named name (some t) none = tt
numbered_bin-Named name none (some n) = tt
numbered_bin-Named name (some (status, max, remaining)) (some n) = leveled_bin-Named n name status _

bin_loop-AllNamed :
    (ms rs ss ns : List Variable)
    → Fits ss ms
    → Fits ss rs
    → Fits ss ns
    → AllNamed bin_id bin_item_id (map name_id ss) (bin_loop ms rs ss ns)
unfolding bin_loop bin
bin_loop-AllNamed [] rs [] ns hm hr hn = (refl, refl)
bin_loop-AllNamed [] rs (s ∷ ss) ns hm hr hn = absurd (omega arith)
bin_loop-AllNamed (m ∷ ms) rs [] ns hm hr hn = absurd (omega arith)
bin_loop-AllNamed (m ∷ ms) [] (s ∷ ss) ns hm hr hn = absurd (omega arith)
bin_loop-AllNamed (m ∷ ms) (r ∷ rs) (s ∷ ss) [] hm hr hn = absurd (omega arith)
bin_loop-AllNamed (m ∷ ms) (r ∷ rs) (s ∷ ss) (n ∷ ns) hm hr hn =
    and_then-AllNamed bin_id bin_item_id (name_id s) (map name_id ss) (bin m r s n)
      (bin_loop ms rs ss ns)
      (numbered_bin-Named n.value (parse_numbers s.value m.value r.value) (last_number s.name))
      (bin_loop-AllNamed ms rs ss ns (omega arith) (omega arith) (omega arith))

abbrev pub bin_ids : PrinterOids → VariableSet → List GoString
bin_ids oids vs = map name_id (get_subtree vs oids.printer_output_status).vars

get_output_bins-AllNamed :
    (oids : PrinterOids) (vs : VariableSet)
    → AllNamed bin_id bin_item_id (bin_ids oids vs) (get_output_bins oids vs)
unfolding get_output_bins
get_output_bins-AllNamed oids vs =
    let ms = (get_subtree vs oids.printer_output_max_capacity).vars in
    let rs = (get_subtree vs oids.printer_output_remaining_capacity).vars in
    let ss = (get_subtree vs oids.printer_output_status).vars in
    let ns = (get_subtree vs oids.printer_output_name).vars in
    guarded-AllNamed bin_id bin_item_id (bin_ids oids vs)
      (ltb (length ns) 1
        || not (length ns == length ms)
        || not (length ns == length rs)
        || not (length ns == length ss))
      (bin_loop ms rs ss ns)
      (λ e.
        let (m, r, s) = fits4 (length ns) (length ms) (length rs) (length ss) e in
        bin_loop-AllNamed ms rs ss ns (omega arith) (omega arith) (omega arith))

-- Where `GetOutputBins` answers with units and states, both carry the same vendor IDs in the same
-- order: the printed last number of the name of each status variable, one for each.
pub get_output_bins-paired :
    (oids : PrinterOids) (vs : VariableSet) (us : List OutputBinUnit)
    (items : List OutputBinStateItem)
    → get_output_bins oids vs ≡ available (us, items)
    → (map bin_id us ≡ bin_ids oids vs) × (map bin_item_id items ≡ bin_ids oids vs)
get_output_bins-paired oids vs us items e =
    subst (AllNamed bin_id bin_item_id (bin_ids oids vs)) e (get_output_bins-AllNamed oids vs)
