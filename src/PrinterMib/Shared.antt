-- ===== src/PrinterMib/Shared.antt =====
-- What `var` of `snmp/oid/printmib.go` makes of the identifiers of the printer MIB.
use cc_deb_pkg.Prelude.{ℕ, ◌≡◌, refl, Bool-cases, inl, inr, [], ◌∷◌, leb, if◌then◌else◌}
use cc_deb_pkg.PrinterMib.Identifiers.{
  PrinterOids, append, array_at, elements, init_oids, set_array,
}

-- The identifiers as they are written.
abbrev pub written : PrinterOids
written = record {
  printer_general_serial_number = 1 ∷ 3 ∷ 6 ∷ 1 ∷ 2 ∷ 1 ∷ 43 ∷ 5 ∷ 1 ∷ 1 ∷ 17 ∷ 1 ∷ [];
  printer_cover_description = 1 ∷ 3 ∷ 6 ∷ 1 ∷ 2 ∷ 1 ∷ 43 ∷ 6 ∷ 1 ∷ 1 ∷ 2 ∷ 1 ∷ [];
  printer_cover_status = 1 ∷ 3 ∷ 6 ∷ 1 ∷ 2 ∷ 1 ∷ 43 ∷ 6 ∷ 1 ∷ 1 ∷ 3 ∷ 1 ∷ [];
  printer_input_max_capacity = 1 ∷ 3 ∷ 6 ∷ 1 ∷ 2 ∷ 1 ∷ 43 ∷ 8 ∷ 2 ∷ 1 ∷ 9 ∷ 1 ∷ [];
  printer_input_current_level = 1 ∷ 3 ∷ 6 ∷ 1 ∷ 2 ∷ 1 ∷ 43 ∷ 8 ∷ 2 ∷ 1 ∷ 10 ∷ 1 ∷ [];
  printer_input_status = 1 ∷ 3 ∷ 6 ∷ 1 ∷ 2 ∷ 1 ∷ 43 ∷ 8 ∷ 2 ∷ 1 ∷ 11 ∷ 1 ∷ [];
  printer_input_name = 1 ∷ 3 ∷ 6 ∷ 1 ∷ 2 ∷ 1 ∷ 43 ∷ 8 ∷ 2 ∷ 1 ∷ 13 ∷ 1 ∷ [];
  printer_output_max_capacity = 1 ∷ 3 ∷ 6 ∷ 1 ∷ 2 ∷ 1 ∷ 43 ∷ 9 ∷ 2 ∷ 1 ∷ 4 ∷ 1 ∷ [];
  printer_output_remaining_capacity = 1 ∷ 3 ∷ 6 ∷ 1 ∷ 2 ∷ 1 ∷ 43 ∷ 9 ∷ 2 ∷ 1 ∷ 5 ∷ 1 ∷ [];
  printer_output_status = 1 ∷ 3 ∷ 6 ∷ 1 ∷ 2 ∷ 1 ∷ 43 ∷ 9 ∷ 2 ∷ 1 ∷ 6 ∷ 1 ∷ [];
  printer_output_name = 1 ∷ 3 ∷ 6 ∷ 1 ∷ 2 ∷ 1 ∷ 43 ∷ 9 ∷ 2 ∷ 1 ∷ 7 ∷ 1 ∷ [];
  printer_marker_supplies_class = 1 ∷ 3 ∷ 6 ∷ 1 ∷ 2 ∷ 1 ∷ 43 ∷ 11 ∷ 1 ∷ 1 ∷ 4 ∷ 1 ∷ [];
  printer_marker_supplies_type = 1 ∷ 3 ∷ 6 ∷ 1 ∷ 2 ∷ 1 ∷ 43 ∷ 11 ∷ 1 ∷ 1 ∷ 5 ∷ 1 ∷ [];
  printer_marker_supplies_description = 1 ∷ 3 ∷ 6 ∷ 1 ∷ 2 ∷ 1 ∷ 43 ∷ 11 ∷ 1 ∷ 1 ∷ 6 ∷ 1 ∷ [];
  printer_marker_supplies_supply_unit = 1 ∷ 3 ∷ 6 ∷ 1 ∷ 2 ∷ 1 ∷ 43 ∷ 11 ∷ 1 ∷ 1 ∷ 7 ∷ 1 ∷ [];
  printer_marker_supplies_max_capacity = 1 ∷ 3 ∷ 6 ∷ 1 ∷ 2 ∷ 1 ∷ 43 ∷ 11 ∷ 1 ∷ 1 ∷ 8 ∷ 1 ∷ [];
  printer_marker_supplies_level = 1 ∷ 3 ∷ 6 ∷ 1 ∷ 2 ∷ 1 ∷ 43 ∷ 11 ∷ 1 ∷ 1 ∷ 9 ∷ 1 ∷ [];
  printer_marker_colorant_value = 1 ∷ 3 ∷ 6 ∷ 1 ∷ 2 ∷ 1 ∷ 43 ∷ 12 ∷ 1 ∷ 1 ∷ 4 ∷ 1 ∷ [];
}

-- The identifiers where those of one group are the last of it.
abbrev pub shared : PrinterOids
shared = record {
  printer_general_serial_number = 1 ∷ 3 ∷ 6 ∷ 1 ∷ 2 ∷ 1 ∷ 43 ∷ 5 ∷ 1 ∷ 1 ∷ 17 ∷ 1 ∷ [];
  printer_cover_description = 1 ∷ 3 ∷ 6 ∷ 1 ∷ 2 ∷ 1 ∷ 43 ∷ 6 ∷ 1 ∷ 1 ∷ 3 ∷ 1 ∷ [];
  printer_cover_status = 1 ∷ 3 ∷ 6 ∷ 1 ∷ 2 ∷ 1 ∷ 43 ∷ 6 ∷ 1 ∷ 1 ∷ 3 ∷ 1 ∷ [];
  printer_input_max_capacity = 1 ∷ 3 ∷ 6 ∷ 1 ∷ 2 ∷ 1 ∷ 43 ∷ 8 ∷ 2 ∷ 1 ∷ 13 ∷ 1 ∷ [];
  printer_input_current_level = 1 ∷ 3 ∷ 6 ∷ 1 ∷ 2 ∷ 1 ∷ 43 ∷ 8 ∷ 2 ∷ 1 ∷ 13 ∷ 1 ∷ [];
  printer_input_status = 1 ∷ 3 ∷ 6 ∷ 1 ∷ 2 ∷ 1 ∷ 43 ∷ 8 ∷ 2 ∷ 1 ∷ 13 ∷ 1 ∷ [];
  printer_input_name = 1 ∷ 3 ∷ 6 ∷ 1 ∷ 2 ∷ 1 ∷ 43 ∷ 8 ∷ 2 ∷ 1 ∷ 13 ∷ 1 ∷ [];
  printer_output_max_capacity = 1 ∷ 3 ∷ 6 ∷ 1 ∷ 2 ∷ 1 ∷ 43 ∷ 9 ∷ 2 ∷ 1 ∷ 7 ∷ 1 ∷ [];
  printer_output_remaining_capacity = 1 ∷ 3 ∷ 6 ∷ 1 ∷ 2 ∷ 1 ∷ 43 ∷ 9 ∷ 2 ∷ 1 ∷ 7 ∷ 1 ∷ [];
  printer_output_status = 1 ∷ 3 ∷ 6 ∷ 1 ∷ 2 ∷ 1 ∷ 43 ∷ 9 ∷ 2 ∷ 1 ∷ 7 ∷ 1 ∷ [];
  printer_output_name = 1 ∷ 3 ∷ 6 ∷ 1 ∷ 2 ∷ 1 ∷ 43 ∷ 9 ∷ 2 ∷ 1 ∷ 7 ∷ 1 ∷ [];
  printer_marker_supplies_class = 1 ∷ 3 ∷ 6 ∷ 1 ∷ 2 ∷ 1 ∷ 43 ∷ 11 ∷ 1 ∷ 1 ∷ 9 ∷ 1 ∷ [];
  printer_marker_supplies_type = 1 ∷ 3 ∷ 6 ∷ 1 ∷ 2 ∷ 1 ∷ 43 ∷ 11 ∷ 1 ∷ 1 ∷ 9 ∷ 1 ∷ [];
  printer_marker_supplies_description = 1 ∷ 3 ∷ 6 ∷ 1 ∷ 2 ∷ 1 ∷ 43 ∷ 11 ∷ 1 ∷ 1 ∷ 9 ∷ 1 ∷ [];
  printer_marker_supplies_supply_unit = 1 ∷ 3 ∷ 6 ∷ 1 ∷ 2 ∷ 1 ∷ 43 ∷ 11 ∷ 1 ∷ 1 ∷ 9 ∷ 1 ∷ [];
  printer_marker_supplies_max_capacity = 1 ∷ 3 ∷ 6 ∷ 1 ∷ 2 ∷ 1 ∷ 43 ∷ 11 ∷ 1 ∷ 1 ∷ 9 ∷ 1 ∷ [];
  printer_marker_supplies_level = 1 ∷ 3 ∷ 6 ∷ 1 ∷ 2 ∷ 1 ∷ 43 ∷ 11 ∷ 1 ∷ 1 ∷ 9 ∷ 1 ∷ [];
  printer_marker_colorant_value = 1 ∷ 3 ∷ 6 ∷ 1 ∷ 2 ∷ 1 ∷ 43 ∷ 12 ∷ 1 ∷ 1 ∷ 4 ∷ 1 ∷ [];
}

-- If an array that Go makes for 8 identifiers has room for 12, the identifiers of the covers, inputs,
-- outputs and marker supplies are each the last of their group; if it has not, each is as it is
-- written.
pub init_oids_lem :
    (grow : ℕ → ℕ → ℕ) → init_oids grow ≡ (if leb 12 (grow 7 8) then shared else written)
unfolding init_oids append elements set_array array_at
init_oids_lem grow = elim (Bool-cases (leb 12 (grow 7 8))) [
  | inl room ↦ rw room refl
  | inr full ↦ rw full refl
]
