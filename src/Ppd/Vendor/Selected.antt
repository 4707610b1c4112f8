-- ===== src/Ppd/Vendor/Selected.antt =====
-- The options that `convertVendorCapability` of `cups/translate-ppd.go` offers.
use cc_deb_pkg.Prelude.{
  ◌≡◌, ◌≢◌, refl, ap, Bool, true, false, ◌||◌, some, List, [], ◌∷◌, map, GoString, str_eq_iff,
  arith,
}
use cc_deb_pkg.Cdd.Capabilities.{SelectCapabilityOption}
use cc_deb_pkg.Ppd.{Statement}
use cc_deb_pkg.Ppd.Entries.{Entry, has_option}
use cc_deb_pkg.Ppd.Vendor.{select_option, select_options, selected}

abbrev pub has_default : List SelectCapabilityOption → Bool
has_default [] = false
has_default (o ∷ os) = o.is_default || has_default os

abbrev pub option_value : SelectCapabilityOption → GoString
option_value o = o.value

abbrev pub keyword : Statement → GoString
keyword o = o.option_keyword

-- The values are the option keywords of the entry in order, and one at least is the default.
pub record IsSelection (e : Entry) (os : List SelectCapabilityOption) : Type 0 where
  pub values : map option_value os ≡ map keyword e.options
  pub default : has_default os ≡ true

values_lem :
    (default : GoString) (ss : List Statement)
    → map option_value (map (select_option default) ss) ≡ map keyword ss
unfolding select_option
values_lem default [] = refl
values_lem default (s ∷ ss) = ap (λ vs. s.option_keyword ∷ vs) (values_lem default ss)

default_lem :
    (default : GoString) (ss : List Statement)
    → has_default (map (select_option default) ss) ≡ has_option default ss
unfolding select_option has_option
default_lem default [] = refl
default_lem default (s ∷ ss) = ground (
  arith,
  default_lem default ss,
  str_eq_iff default s.option_keyword,
  str_eq_iff s.option_keyword default,
)

selected-IsSelection :
    (e : Entry) (found : Bool) (ss : List SelectCapabilityOption)
    → ss ≢ []
    → map option_value ss ≡ map keyword e.options
    → has_default ss ≡ found
    → (r : List SelectCapabilityOption) × ((selected found ss ≡ some r) × IsSelection e r)
selected-IsSelection e true ss ne v d = (ss, (refl, record { values = v; default = d }))
selected-IsSelection e false [] ne v d = absurd (ne refl)
selected-IsSelection e false (o ∷ ss) ne v d =
    (record o { is_default = true } ∷ ss, (refl, record { values = v; default = refl }))

-- An entry with options is offered with no panic, its values are the option keywords in order, and
-- one at least is the default.
pub select_options-IsSelection :
    (e : Entry)
    → e.options ≢ []
    → (r : List SelectCapabilityOption) × ((select_options e ≡ some r) × IsSelection e r)
unfolding select_options
select_options-IsSelection e ne =
    selected-IsSelection e (has_option e.default_value e.options)
      (map (select_option e.default_value) e.options) (map-nonempty e.options ne)
      (values_lem e.default_value e.options) (default_lem e.default_value e.options)
  where
    map-nonempty : (ss : List Statement) → ss ≢ [] → map (select_option e.default_value) ss ≢ []
    map-nonempty [] ne h = ne refl
    map-nonempty (s ∷ ss) ne h = absurd cc
