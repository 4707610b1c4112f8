-- ===== src/PrinterMib/Identifiers.antt =====
-- The object identifiers of `snmp/oid/printmib.go` and how its `var` block fills them. `append`
-- writes into the array of its first argument where that has room, so two identifiers may share an
-- array; how much room a new array has is the choice of the Go runtime, an argument here.
use cc_deb_pkg.Prelude.{
  ℕ, zero, suc, ◌+◌, ◌*◌, List, [], ◌∷◌, ◌++◌, length, take, drop, leb, if◌then◌else◌,
}
use cc_deb_pkg.Oid.{Oid}

pub record PrinterOids : Type 0 where
  pub printer_general_serial_number : Oid
  pub printer_cover_description : Oid
  pub printer_cover_status : Oid
  pub printer_input_max_capacity : Oid
  pub printer_input_current_level : Oid
  pub printer_input_status : Oid
  pub printer_input_name : Oid
  pub printer_output_max_capacity : Oid
  pub printer_output_remaining_capacity : Oid
  pub printer_output_status : Oid
  pub printer_output_name : Oid
  pub printer_marker_supplies_class : Oid
  pub printer_marker_supplies_type : Oid
  pub printer_marker_supplies_description : Oid
  pub printer_marker_supplies_supply_unit : Oid
  pub printer_marker_supplies_max_capacity : Oid
  pub printer_marker_supplies_level : Oid
  pub printer_marker_colorant_value : Oid

-- The elements from the first of the array with this number.
pub record Slice : Type 0 where
  pub array : ℕ
  pub len : ℕ
  pub cap : ℕ

-- What is written in each array.
abbrev pub Arrays : Type 0
Arrays = List Oid

unfoldable pub array_at : Arrays → ℕ → Oid
array_at [] n = []
array_at (a ∷ others) zero = a
array_at (a ∷ others) (suc n) = array_at others n

unfoldable pub set_array : Arrays → ℕ → Oid → Arrays
set_array [] n b = []
set_array (a ∷ others) zero b = b ∷ others
set_array (a ∷ others) (suc n) b = a ∷ set_array others n b

unfoldable pub elements : Arrays → Slice → Oid
unfolding array_at
elements arrays s = take s.len (array_at arrays s.array)

-- `grow` is the capacity of a new array, from the old capacity and the length that is needed.
unfoldable pub append : (ℕ → ℕ → ℕ) → Slice → Oid → Arrays → Slice × Arrays
unfolding elements set_array
append grow s xs arrays =
    let needed = s.len + length xs in
    let written = elements arrays s ++ xs in
    if leb needed s.cap
    then (
      record s { len = needed },
      set_array arrays s.array (written ++ drop needed (array_at arrays s.array)),
    )
    else (
      record { array = length arrays; len = needed; cap = grow s.cap needed },
      arrays ++ written ∷ [],
    )

-- The `var` block, line by line.
unfoldable pub init_oids : (ℕ → ℕ → ℕ) → PrinterOids
unfolding append
init_oids grow =
    let printer_mib : Slice = record { array = 0; len = 7; cap = 7 } in
    let a0 : Arrays = (1 ∷ 3 ∷ 6 ∷ 1 ∷ 2 ∷ 1 ∷ 43 ∷ []) ∷ [] in
    let (printer_mib_general, a1) = append grow printer_mib (5 ∷ []) a0 in
    let (printer_general_serial_number, a2) =
      append grow printer_mib_general (1 ∷ 1 ∷ 17 ∷ 1 ∷ []) a1 in
    let (printer_mib_cover, a3) = append grow printer_mib (6 ∷ []) a2 in
    let (printer_cover_description, a4) = append grow printer_mib_cover (1 ∷ 1 ∷ 2 ∷ 1 ∷ []) a3 in
    let (printer_cover_status, a5) = append grow printer_mib_cover (1 ∷ 1 ∷ 3 ∷ 1 ∷ []) a4 in
    let (printer_mib_input, a6) = append grow printer_mib (8 ∷ []) a5 in
    let (printer_input_max_capacity, a7) = append grow printer_mib_input (2 ∷ 1 ∷ 9 ∷ 1 ∷ []) a6 in
    let (printer_input_current_level, a8) =
      append grow printer_mib_input (2 ∷ 1 ∷ 10 ∷ 1 ∷ []) a7 in
    let (printer_input_status, a9) = append grow printer_mib_input (2 ∷ 1 ∷ 11 ∷ 1 ∷ []) a8 in
    let (printer_input_name, a10) = append grow printer_mib_input (2 ∷ 1 ∷ 13 ∷ 1 ∷ []) a9 in
    let (printer_mib_output, a11) = append grow printer_mib (9 ∷ []) a10 in
    let (printer_output_max_capacity, a12) =
      append grow printer_mib_output (2 ∷ 1 ∷ 4 ∷ 1 ∷ []) a11 in
    let (printer_output_remaining_capacity, a13) =
      append grow printer_mib_output (2 ∷ 1 ∷ 5 ∷ 1 ∷ []) a12 in
    let (printer_output_status, a14) = append grow printer_mib_output (2 ∷ 1 ∷ 6 ∷ 1 ∷ []) a13 in
    let (printer_output_name, a15) = append grow printer_mib_output (2 ∷ 1 ∷ 7 ∷ 1 ∷ []) a14 in
    let (printer_mib_marker, a16) = append grow printer_mib (11 ∷ []) a15 in
    let (printer_marker_supplies_class, a17) =
      append grow printer_mib_marker (1 ∷ 1 ∷ 4 ∷ 1 ∷ []) a16 in
    let (printer_marker_supplies_type, a18) =
      append grow printer_mib_marker (1 ∷ 1 ∷ 5 ∷ 1 ∷ []) a17 in
    let (printer_marker_supplies_description, a19) =
      append grow printer_mib_marker (1 ∷ 1 ∷ 6 ∷ 1 ∷ []) a18 in
    let (printer_marker_supplies_supply_unit, a20) =
      append grow printer_mib_marker (1 ∷ 1 ∷ 7 ∷ 1 ∷ []) a19 in
    let (printer_marker_supplies_max_capacity, a21) =
      append grow printer_mib_marker (1 ∷ 1 ∷ 8 ∷ 1 ∷ []) a20 in
    let (printer_marker_supplies_level, a22) =
      append grow printer_mib_marker (1 ∷ 1 ∷ 9 ∷ 1 ∷ []) a21 in
    let (printer_mib_marker_colorant, a23) = append grow printer_mib (12 ∷ []) a22 in
    let (printer_marker_colorant_value, a24) =
      append grow printer_mib_marker_colorant (1 ∷ 1 ∷ 4 ∷ 1 ∷ []) a23 in
    record {
      printer_general_serial_number = elements a24 printer_general_serial_number;
      printer_cover_description = elements a24 printer_cover_description;
      printer_cover_status = elements a24 printer_cover_status;
      printer_input_max_capacity = elements a24 printer_input_max_capacity;
      printer_input_current_level = elements a24 printer_input_current_level;
      printer_input_status = elements a24 printer_input_status;
      printer_input_name = elements a24 printer_input_name;
      printer_output_max_capacity = elements a24 printer_output_max_capacity;
      printer_output_remaining_capacity = elements a24 printer_output_remaining_capacity;
      printer_output_status = elements a24 printer_output_status;
      printer_output_name = elements a24 printer_output_name;
      printer_marker_supplies_class = elements a24 printer_marker_supplies_class;
      printer_marker_supplies_type = elements a24 printer_marker_supplies_type;
      printer_marker_supplies_description = elements a24 printer_marker_supplies_description;
      printer_marker_supplies_supply_unit = elements a24 printer_marker_supplies_supply_unit;
      printer_marker_supplies_max_capacity = elements a24 printer_marker_supplies_max_capacity;
      printer_marker_supplies_level = elements a24 printer_marker_supplies_level;
      printer_marker_colorant_value = elements a24 printer_marker_colorant_value;
    }

-- The growth of the gc compiler's runtime for a short slice: twice the old capacity, if that is enough.
abbrev pub doubled : ℕ → ℕ → ℕ
doubled cap needed = if leb needed (2 * cap) then 2 * cap else needed

-- No more room than is needed.
abbrev pub exact : ℕ → ℕ → ℕ
exact cap needed = needed
