-- ===== src/Ppd/Colors/Choices.antt =====
-- What `convertColorPPD` of `cups/translate-ppd.go` offers, and what `translateTicket` of
-- `cups/translate-ticket.go` makes of a choice.
use mathlib.Core.List.{append_assoc}
use cc_deb_pkg.Prelude.{
  ℕ, ◌≡◌, refl, subst, Bool, true, false, ◌||◌, Option, none, some, of_some, List, [], ◌∷◌, ◌++◌,
  map, All, All-append, GoString, bytes, str_eq_refl, if◌then◌else◌, arith,
}
use cc_deb_pkg.Cdd.Capabilities.{Color, ColorOption}
use cc_deb_pkg.Cdd.Ticket.{ColorType}
use cc_deb_pkg.Ppd.{Statement}
use cc_deb_pkg.Ppd.Default.{IsMarked, IsPlain, defaults, with_default, with_default-IsMarked}
use cc_deb_pkg.Ppd.Entries.{Entry, has_option}
use cc_deb_pkg.Ppd.Colors.{
  all_color_options, as_default, color_id, color_options, convert_color_ppd, found_color,
  gray_options, is_color, is_gray, other_options, ppd_color_option, typed_options,
}

-- The vendor ID names the entry and an option of it.
pub record IsNamed (k : GoString) (os : List Statement) (c : ColorOption) : Type 0 where
  pub keyword : GoString
  pub vendor_id : c.vendor_id ≡ k ++ b':' ∷ keyword
  pub listed : has_option keyword os ≡ true

abbrev pub color_defaults : List ColorOption → ℕ
color_defaults = defaults color_id as_default (λ o. o.is_default) (λ o. Unit)

pub record IsPalette (e : Entry) (c : Color) : Type 0 where
  pub one_default : color_defaults c.option ≡ 1
  pub named : All (IsNamed e.main_keyword e.options) c.option

-- Each statement is an option of the entry.
abbrev Listed : List Statement → Statement → Type 0
Listed os o = has_option o.option_keyword os ≡ true

Listed-cons :
    (o : Statement) (os : List Statement) (s : Statement) → Listed os s → Listed (o ∷ os) s
unfolding has_option
Listed-cons o os s h = ground (arith, h)

All-Listed-cons :
    (o : Statement) (os ss : List Statement) → All (Listed os) ss → All (Listed (o ∷ os)) ss
All-Listed-cons o os [] h = tt
All-Listed-cons o os (s ∷ ss) (h, hs) = (Listed-cons o os s h, All-Listed-cons o os ss hs)

Listed-head : (o : Statement) (os : List Statement) → Listed (o ∷ os) o
unfolding has_option
Listed-head o os = ground (arith, str_eq_refl o.option_keyword)

-- A statement in front of a list, or not.
if-Listed :
    (b : Bool) (o : Statement) (os ss : List Statement)
    → All (Listed os) ss
    → All (Listed (o ∷ os)) (if b then o ∷ ss else ss)
if-Listed true o os ss h = (Listed-head o os, All-Listed-cons o os ss h)
if-Listed false o os ss h = All-Listed-cons o os ss h

unless-Listed :
    (b : Bool) (o : Statement) (os ss ts : List Statement)
    → All (Listed os) ss
    → All (Listed (o ∷ os)) ts
    → All (Listed (o ∷ os)) (if b then ss else ts)
unless-Listed true o os ss ts h h' = All-Listed-cons o os ss h
unless-Listed false o os ss ts h h' = h'

gray_options-Listed : (os : List Statement) → All (Listed os) (gray_options os)
gray_options-Listed [] = tt
gray_options-Listed (o ∷ os) =
    if-Listed (is_gray o.option_keyword) o os (gray_options os) (gray_options-Listed os)

color_options-Listed : (os : List Statement) → All (Listed os) (color_options os)
color_options-Listed [] = tt
color_options-Listed (o ∷ os) =
    unless-Listed (is_gray o.option_keyword) o os (color_options os) _ (color_options-Listed os)
      (if-Listed (is_color o.option_keyword) o os (color_options os) (color_options-Listed os))

other_options-Listed : (os : List Statement) → All (Listed os) (other_options os)
other_options-Listed [] = tt
other_options-Listed (o ∷ os) =
    unless-Listed (is_gray o.option_keyword || is_color o.option_keyword) o os (other_options os) _
      (other_options-Listed os)
      (Listed-head o os, All-Listed-cons o os (other_options os) (other_options-Listed os))

abbrev Plain : Entry → ColorOption → Type 0
Plain e = IsPlain color_id as_default (λ o. o.is_default) (IsNamed e.main_keyword e.options)

map-Plain :
    (e : Entry) (type : ColorType) (ss : List Statement)
    → All (Listed e.options) ss
    → All (Plain e) (map (ppd_color_option e.main_keyword type) ss)
unfolding ppd_color_option
map-Plain e type [] h = tt
map-Plain e type (s ∷ ss) (h, hs) = (
  record {
    holds = record {
      keyword = s.option_keyword;
      vendor_id = append_assoc e.main_keyword (bytes ":") s.option_keyword;
      listed = h;
    };
    plain = refl;
  },
  map-Plain e type ss hs,
)

typed_options-Plain :
    (e : Entry) (standard custom : ColorType) (ss : List Statement)
    → All (Listed e.options) ss
    → All (Plain e) (typed_options e.main_keyword standard custom ss)
typed_options-Plain e standard custom [] h = tt
typed_options-Plain e standard custom (s ∷ []) h = map-Plain e standard (s ∷ []) h
typed_options-Plain e standard custom (s ∷ t ∷ ss) h = map-Plain e custom (s ∷ t ∷ ss) h

all_color_options-Plain : (e : Entry) → All (Plain e) (all_color_options e)
unfolding all_color_options
all_color_options-Plain e =
    let color =
      typed_options e.main_keyword ColorType.type_standard_color ColorType.type_custom_color
        (color_options e.options) in
    let gray =
      typed_options e.main_keyword ColorType.type_standard_monochrome
        ColorType.type_custom_monochrome (gray_options e.options) in
    let other =
      map (ppd_color_option e.main_keyword ColorType.type_custom_monochrome)
        (other_options e.options) in
    All-append (Plain e) (color ++ gray) other
      (All-append (Plain e) color gray
        (typed_options-Plain e ColorType.type_standard_color ColorType.type_custom_color
          (color_options e.options) (color_options-Listed e.options))
        (typed_options-Plain e ColorType.type_standard_monochrome ColorType.type_custom_monochrome
          (gray_options e.options) (gray_options-Listed e.options)))
      (map-Plain e ColorType.type_custom_monochrome (other_options e.options)
        (other_options-Listed e.options))

found_color-IsPalette :
    (e : Entry) (o : Option (List ColorOption)) (c : Color)
    → ((r : List ColorOption)
        → o ≡ some r
        → IsMarked color_id as_default (λ k. k.is_default) (IsNamed e.main_keyword e.options) r)
    → found_color o ≡ some c
    → IsPalette e c
found_color-IsPalette e none c m h = absurd cc
found_color-IsPalette e (some r) c m h =
    let f = m r refl in
    subst (IsPalette e) (of_some h) (record { one_default = f.one_default; named = f.each })

-- Where `convertColorPPD` answers, exactly one option is the default, and the vendor ID of each is the
-- keyword of the entry, a colon and an option keyword of the entry.
pub convert_color_ppd-IsPalette :
    (e : Entry) (c : Color) → convert_color_ppd e ≡ some c → IsPalette e c
unfolding convert_color_ppd
convert_color_ppd-IsPalette e c h =
    let default = e.main_keyword ++ bytes ":" ++ e.default_value in
    found_color-IsPalette e (with_default color_id as_default default (all_color_options e)) c
      (λ r.
        with_default-IsMarked color_id as_default (λ k. k.is_default)
          (IsNamed e.main_keyword e.options) (λ k. refl)
          (λ k n. record { keyword = n.keyword; vendor_id = n.vendor_id; listed = n.listed })
          default (all_color_options e) r (all_color_options-Plain e))
      h
