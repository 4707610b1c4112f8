-- ===== src/Ppd/Resolution/Chosen.antt =====
-- The options that `convertDPI` of `cups/translate-ppd.go` offers.
use cc_deb_pkg.Prelude.{
  ℕ, ◌≡◌, refl, subst, true, false, Option, none, some, of_some, List, [], ◌∷◌, All, All-append,
  GoString, str_eq_refl, arith, ℤ,
}
use cc_deb_pkg.Prelude.Strconv.{parse_int}
use cc_deb_pkg.Cdd.Capabilities.{Dpi, DpiOption}
use cc_deb_pkg.Ppd.{Statement}
use cc_deb_pkg.Ppd.Entries.{Entry, has_option}
use cc_deb_pkg.Ppd.Default.{IsMarked, IsPlain, defaults, with_default, with_default-IsMarked}
use cc_deb_pkg.Ppd.Resolution.{
  as_default, convert_dpi, dpi_id, dpi_option, dpi_options, found_dpi, matched_dpi, parsed_dpi,
  resolution_match,
}

-- The vendor ID is an option keyword of the PPD.
abbrev pub IsListed : List Statement → DpiOption → Type 0
IsListed os d = has_option d.vendor_id os ≡ true

abbrev pub dpi_defaults : List DpiOption → ℕ
dpi_defaults = defaults dpi_id as_default (λ o. o.is_default) (λ o. Unit)

pub record IsChosen (e : Entry) (d : Dpi) : Type 0 where
  pub one_default : dpi_defaults d.option ≡ 1
  pub listed : All (IsListed e.options) d.option

abbrev AreMarked : List Statement → List DpiOption → Type 0
AreMarked os = IsMarked dpi_id as_default (λ o. o.is_default) (IsListed os)

abbrev Plain : List Statement → DpiOption → Type 0
Plain os = IsPlain dpi_id as_default (λ o. o.is_default) (IsListed os)

-- An option of the statement, and no default yet.
record IsMade (o : Statement) (d : DpiOption) : Type 0 where
  keyword : d.vendor_id ≡ o.option_keyword
  plain : d.is_default ≡ false

parsed_dpi-IsMade :
    (o : Statement) (second : GoString) (h : Option ℤ) → All (IsMade o) (parsed_dpi o second h)
parsed_dpi-IsMade o second none = tt
parsed_dpi-IsMade o second (some h) = (record { keyword = refl; plain = refl }, tt)

matched_dpi-IsMade :
    (o : Statement) (m : Option (GoString × GoString)) → All (IsMade o) (matched_dpi o m)
matched_dpi-IsMade o none = tt
matched_dpi-IsMade o (some (first, second)) = parsed_dpi-IsMade o second (parse_int 32 first)

dpi_option-IsMade : (o : Statement) → All (IsMade o) (dpi_option o)
unfolding dpi_option
dpi_option-IsMade o = matched_dpi-IsMade o (resolution_match o.option_keyword)

IsMade-Plain :
    (o : Statement) (os : List Statement) (ds : List DpiOption)
    → All (IsMade o) ds
    → All (Plain (o ∷ os)) ds
unfolding has_option
IsMade-Plain o os [] h = tt
IsMade-Plain o os (d ∷ ds) (m, h) = (
  record { holds = rw m.keyword (ground (arith, str_eq_refl o.option_keyword)); plain = m.plain },
  IsMade-Plain o os ds h,
)

Plain-cons :
    (o : Statement) (os : List Statement) (ds : List DpiOption)
    → All (Plain os) ds
    → All (Plain (o ∷ os)) ds
unfolding has_option
Plain-cons o os [] h = tt
Plain-cons o os (d ∷ ds) (p, h) =
    (record { holds = ground (arith, p.holds); plain = p.plain }, Plain-cons o os ds h)

dpi_options-IsPlain : (os : List Statement) → All (Plain os) (dpi_options os)
unfolding dpi_options
dpi_options-IsPlain [] = tt
dpi_options-IsPlain (o ∷ os) =
    All-append (Plain (o ∷ os)) (dpi_option o) (dpi_options os)
      (IsMade-Plain o os (dpi_option o) (dpi_option-IsMade o))
      (Plain-cons o os (dpi_options os) (dpi_options-IsPlain os))

found_dpi-IsChosen :
    (e : Entry) (o : Option (List DpiOption)) (d : Dpi)
    → ((r : List DpiOption) → o ≡ some r → AreMarked e.options r)
    → found_dpi o ≡ some d
    → IsChosen e d
found_dpi-IsChosen e none d m h = absurd cc
found_dpi-IsChosen e (some r) d m h =
    let f = m r refl in
    subst (IsChosen e) (of_some h) (record { one_default = f.one_default; listed = f.each })

-- Where `convertDPI` answers, exactly one option is the default, and the vendor ID of each is an
-- option keyword of the PPD.
pub convert_dpi-IsChosen : (e : Entry) (d : Dpi) → convert_dpi e ≡ some d → IsChosen e d
unfolding convert_dpi
convert_dpi-IsChosen e d h =
    let options = dpi_options e.options in
    found_dpi-IsChosen e (with_default dpi_id as_default e.default_value options) d
      (λ r.
        with_default-IsMarked dpi_id as_default (λ o. o.is_default) (IsListed e.options) (λ o. refl)
          (λ o l. l) e.default_value options r (dpi_options-IsPlain e.options))
      h
