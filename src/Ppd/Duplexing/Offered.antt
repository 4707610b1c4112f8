-- ===== src/Ppd/Duplexing/Offered.antt =====
-- What `convertDuplex` of `cups/translate-ppd.go` offers, and what `translateTicket` of
-- `cups/translate-ticket.go` makes of a choice.
use cc_deb_pkg.Prelude.{
  ℕ, ◌+◌, ◌≡◌, refl, subst, Bool, true, false, ◌||◌, ◌&&◌, Option, none, some, of_some, List, [],
  ◌∷◌, ◌++◌, All, All-append, GoString, str_eq, str_eq_iff, if◌then◌else◌, arith,
}
use cc_deb_pkg.Cdd.Capabilities.{Duplex, DuplexOption}
use cc_deb_pkg.Cdd.Ticket.{DuplexType}
use cc_deb_pkg.Ticket.Keywords.{duplex_ppd_by_cdd}
use cc_deb_pkg.Ppd.Entries.{Entry, has_option}
use cc_deb_pkg.Ppd.Duplexing.{convert_duplex, duplex_of, first_default, is_found, offered}
use cc_deb_pkg.Ppd.Keywords.{ppd_duplex_no_tumble, ppd_duplex_tumble, ppd_none}

-- How many options are the default.
abbrev pub defaults : List DuplexOption → ℕ
defaults [] = 0
defaults (o ∷ os) = (if o.is_default then 1 else 0) + defaults os

-- A choice of the option's type becomes a keyword that the entry has.
pub record IsChoice (e : Entry) (o : DuplexOption) : Type 0 where
  pub keyword : GoString
  pub translated : duplex_ppd_by_cdd o.type ≡ some keyword
  pub listed : has_option keyword e.options ≡ true

pub record IsOffered (e : Entry) (d : Duplex) : Type 0 where
  pub one_default : defaults d.option ≡ 1
  pub choices : All (IsChoice e) d.option

-- One block of the function, of any test of its keyword.
abbrev block : Bool → Bool → DuplexType → List DuplexOption
block has equal type = if has then record { type = type; is_default = equal } ∷ [] else []

abbrev found : Bool → Bool → Bool
found has equal = if has then equal else false

abbrev Defaulted : Option Duplex → Type 0
Defaulted none = Unit
Defaulted (some d) = defaults d.option ≡ 1

abbrev one : Bool → ℕ
one b = if b then 1 else 0

defaults-append : (os ps : List DuplexOption) → defaults (os ++ ps) ≡ defaults os + defaults ps
defaults-append [] ps = omega arith
defaults-append (o ∷ os) ps = omega (arith, defaults-append os ps)

defaults-block :
    (has equal : Bool) (type : DuplexType) → defaults (block has equal type) ≡ one (found has equal)
defaults-block true equal type = omega arith
defaults-block false equal type = refl

duplex_of-Defaulted :
    (f : Bool) (os : List DuplexOption) → defaults os ≡ one f → Defaulted (duplex_of f os)
duplex_of-Defaulted f [] h = tt
duplex_of-Defaulted true (o ∷ os) h = h
duplex_of-Defaulted false (o ∷ os) h = ground (arith, h)

-- At most one of two different keywords is the default.
found_apart :
    (has has' : Bool) (k j default : GoString)
    → str_eq k j ≡ false
    → (found has (str_eq k default) && found has' (str_eq j default)) ≡ false
found_apart has has' k j default apart =
    ground (arith, str_eq_iff k default, str_eq_iff j default, str_eq_iff k j)

one_of_three :
    (a b c : Bool)
    → (a && b) ≡ false
    → (a && c) ≡ false
    → (b && c) ≡ false
    → one a + one b + one c ≡ one (a || b || c)
one_of_three a b c ab ac bc = ground arith

offered-IsChoice :
    (e : Entry) (keyword : GoString) (type : DuplexType) (has : Bool)
    → has_option keyword e.options ≡ has
    → duplex_ppd_by_cdd type ≡ some keyword
    → All (IsChoice e) (block has (str_eq keyword e.default_value) type)
offered-IsChoice e keyword type false h t = tt
offered-IsChoice e keyword type true h t =
    (record { keyword = keyword; translated = t; listed = h }, tt)

first_default-All :
    (e : Entry) (os : List DuplexOption) → All (IsChoice e) os → All (IsChoice e) (first_default os)
first_default-All e [] h = tt
first_default-All e (o ∷ os) (c, h) =
    (record { keyword = c.keyword; translated = c.translated; listed = c.listed }, h)

duplex_of-All :
    (e : Entry) (f : Bool) (os : List DuplexOption) (d : Duplex)
    → duplex_of f os ≡ some d
    → All (IsChoice e) os
    → All (IsChoice e) d.option
duplex_of-All e f [] d h choices = absurd cc
duplex_of-All e true (o ∷ os) d h choices =
    subst (λ (r : Duplex). All (IsChoice e) r.option) (of_some h) choices
duplex_of-All e false (o ∷ os) d h choices =
    subst (λ (r : Duplex). All (IsChoice e) r.option) (of_some h)
      (first_default-All e (o ∷ os) choices)

module _ (e : Entry) where
  abbrev nothing : List DuplexOption
  nothing = offered e ppd_none DuplexType.no_duplex

  abbrev long : List DuplexOption
  long = offered e ppd_duplex_no_tumble DuplexType.long_edge

  abbrev short : List DuplexOption
  short = offered e ppd_duplex_tumble DuplexType.short_edge

  defaults-offered :
      defaults (nothing ++ long ++ short)
      ≡ one (is_found e ppd_none || is_found e ppd_duplex_no_tumble || is_found e ppd_duplex_tumble)
  unfolding str_eq
  defaults-offered =
      let d = e.default_value in
      let has = λ (keyword : GoString). has_option keyword e.options in
      omega (
        arith,
        defaults-append (nothing ++ long) short,
        defaults-append nothing long,
        defaults-block (has ppd_none) (str_eq ppd_none d) DuplexType.no_duplex,
        defaults-block (has ppd_duplex_no_tumble) (str_eq ppd_duplex_no_tumble d)
            DuplexType.long_edge,
        defaults-block (has ppd_duplex_tumble) (str_eq ppd_duplex_tumble d) DuplexType.short_edge,
        one_of_three (is_found e ppd_none) (is_found e ppd_duplex_no_tumble)
            (is_found e ppd_duplex_tumble) (found_apart _ _ ppd_none ppd_duplex_no_tumble d refl)
            (found_apart _ _ ppd_none ppd_duplex_tumble d refl)
            (found_apart _ _ ppd_duplex_no_tumble ppd_duplex_tumble d refl),
      )

  choices-offered : All (IsChoice e) (nothing ++ long ++ short)
  unfolding duplex_ppd_by_cdd
  choices-offered =
      All-append (IsChoice e) (nothing ++ long) short
        (All-append (IsChoice e) nothing long
          (offered-IsChoice e ppd_none DuplexType.no_duplex _ refl refl)
          (offered-IsChoice e ppd_duplex_no_tumble DuplexType.long_edge _ refl refl))
        (offered-IsChoice e ppd_duplex_tumble DuplexType.short_edge _ refl refl)

-- Where `convertDuplex` answers, exactly one option is the default, and a choice of each option in a
-- ticket becomes a keyword that the entry of the PPD has.
pub convert_duplex-IsOffered : (e : Entry) (d : Duplex) → convert_duplex e ≡ some d → IsOffered e d
unfolding convert_duplex
convert_duplex-IsOffered e d h = record {
  one_default =
      subst Defaulted h
        (duplex_of-Defaulted _ (nothing e ++ long e ++ short e) (defaults-offered e));
  choices = duplex_of-All e _ (nothing e ++ long e ++ short e) d h (choices-offered e);
}
