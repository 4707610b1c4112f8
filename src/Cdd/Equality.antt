-- ===== src/Cdd/Equality.antt =====
-- `reflect.DeepEqual` on the sections of a printer that are compared by it: equality decided by the
-- parts.
use native.Mathlib.Decide.{ℕ_discrete}
use cc_deb_pkg.Cdd.State.{PrinterStateSection}
use cc_deb_pkg.Cdd.Description.{PrinterDescriptionSection}

unfoldable pub PrinterStateSection-discrete : Discrete PrinterStateSection
PrinterStateSection-discrete = hlevel ℕ_discrete

unfoldable pub PrinterDescriptionSection-discrete : Discrete PrinterDescriptionSection
PrinterDescriptionSection-discrete = hlevel ℕ_discrete
