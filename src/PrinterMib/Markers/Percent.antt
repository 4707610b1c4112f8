-- ===== src/PrinterMib/Markers/Percent.antt =====
-- The percentages of `GetMarkers` of `snmp/oid/printmib.go`.
use native.Mathlib.Nat.{div-lt_iff_lt-mul}
use cc_deb_pkg.Prelude.{ℕ, zero, suc, ◌*◌, ◌/◌, ◌≤◌, ◌<◌, ◌≡◌, refl, arith, pos}
use cc_deb_pkg.PrinterMib.SubUnit.{int32_of}
use cc_deb_pkg.PrinterMib.Markers.{marker_percent}

quotient-lt : (max current : ℕ) → 0 < max → current ≤ max → 100 * current / max < 101
quotient-lt max current positive le = (div-lt_iff_lt-mul positive).1 (omega arith)

small-int32_of : (q : ℕ) → q ≤ 100 → int32_of q ≡ pos q
unfolding int32_of
small-int32_of q le = ground arith

-- A level within the capacity is a percentage, with no overflow of the `int32`.
pub marker_percent-le :
    (max current : ℕ)
    → current ≤ max
    → (p : ℕ) × ((p ≤ 100) × (marker_percent (pos max) (pos current) ≡ pos p))
unfolding marker_percent
marker_percent-le zero current le = (0, (omega arith, refl))
marker_percent-le (suc m) current le =
    let small = quotient-lt (suc m) current (omega arith) le in
    (
      100 * current / suc m,
      (omega arith, ground (arith, small-int32_of (100 * current / suc m) (omega arith))),
    )
