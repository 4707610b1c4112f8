-- ===== src/Cdd/Localized.antt =====
-- `LocalizedString` of `cdd/cdd.go`, and what makes one.
use cc_deb_pkg.Prelude.{GoString, List, [], ◌∷◌, bytes}

pub record LocalizedString : Type 0 where
  pub locale : GoString
  pub value : GoString

unfoldable pub new_localized_string : GoString → List LocalizedString
new_localized_string value = record { locale = bytes "EN"; value = value } ∷ []
