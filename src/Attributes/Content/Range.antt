-- ===== src/Attributes/Content/Range.antt =====
-- The range that `getAdobeVersionRange` of `cups/translate-attrs.go` returns.
use cc_deb_pkg.Prelude.{
  ◌≡◌, refl, true, false, Option, none, some, List, [], ◌∷◌, ◌++◌, drop, length, bytes, GoString,
  str_eq, str_lt, arith,
}
use cc_deb_pkg.Attributes.Content.{
  scan_word, scan_blanks, scan_adobe, widen, version_loop, get_adobe_version_range,
}

str_lt_irrefl : (s : GoString) → str_lt s s ≡ false
unfolding str_lt
str_lt_irrefl [] = refl
str_lt_irrefl (x ∷ s) = ground (arith, str_lt_irrefl s)

str_lt_trans : (s t u : GoString) → str_lt s t ≡ true → str_lt t u ≡ true → str_lt s u ≡ true
unfolding str_lt
str_lt_trans s [] u p q = ground arith
str_lt_trans s (y ∷ t) [] p q = ground arith
str_lt_trans [] (y ∷ t) (z ∷ u) p q = refl
str_lt_trans (x ∷ s) (y ∷ t) (z ∷ u) p q = ground (arith, str_lt_trans s t u)

-- The range has both ends, and the version is between them.
pub record Covers (range : GoString × GoString) (v : GoString) : Type 0 where
  pub has_min : str_eq range.0 [] ≡ false
  pub has_max : str_eq range.1 [] ≡ false
  pub above_min : str_lt v range.0 ≡ false
  pub below_max : str_lt range.1 v ≡ false

widen-Covers :
    (range : GoString × GoString) (v w : GoString)
    → str_eq w [] ≡ false
    → Covers range v
    → Covers (widen range (some w)) v
widen-Covers range v w full c = ground (arith, str_lt_trans v w range.0, str_lt_trans range.1 w v)

widen-new :
    (range : GoString × GoString) (w : GoString)
    → str_eq w [] ≡ false
    → Covers (widen range (some w)) w
widen-new range w full = ground (arith, str_lt_irrefl w)

scan_blanks_full : (s v : GoString) → scan_blanks s ≡ some v → str_eq v [] ≡ false
unfolding scan_blanks scan_word str_eq
scan_blanks_full [] v h = cc
scan_blanks_full (c ∷ s) v h = ground (arith, scan_blanks_full s v)

scan_adobe_full : (s v : GoString) → scan_adobe s ≡ some v → str_eq v [] ≡ false
unfolding scan_adobe
scan_adobe_full s v h = ground (arith, scan_blanks_full (drop (length (bytes "adobe-")) s) v)

widen_scan-Covers :
    (range : GoString × GoString) (v s : GoString) (o : Option GoString)
    → scan_adobe s ≡ o
    → Covers range v
    → Covers (widen range o) v
widen_scan-Covers range v s none e c = c
widen_scan-Covers range v s (some w) e c = widen-Covers range v w (scan_adobe_full s w e) c

version_loop-Covers :
    (range : GoString × GoString) (v : GoString) (ss : List GoString)
    → Covers range v
    → Covers (version_loop range ss) v
unfolding version_loop
version_loop-Covers range v [] c = c
version_loop-Covers range v (s ∷ ss) c =
    version_loop-Covers (widen range (scan_adobe s)) v ss
      (widen_scan-Covers range v s (scan_adobe s) refl c)

version_loop-seen :
    (range : GoString × GoString) (before after : List GoString) (s v : GoString)
    → scan_adobe s ≡ some v
    → Covers (version_loop range (before ++ s ∷ after)) v
unfolding version_loop
version_loop-seen range [] after s v e =
    version_loop-Covers (widen range (scan_adobe s)) v after
      (rw e (widen-new range v (scan_adobe_full s v e)))
version_loop-seen range (b ∷ before) after s v e =
    version_loop-seen (widen range (scan_adobe b)) before after s v e

-- Each version that `getAdobeVersionRange` can scan is in the range that it returns: it is not below
-- the lower end nor above the upper one, and neither end is empty.
pub get_adobe_version_range-Covers :
    (before after : List GoString) (s v : GoString)
    → scan_adobe s ≡ some v
    → Covers (get_adobe_version_range (before ++ s ∷ after)) v
unfolding get_adobe_version_range
get_adobe_version_range-Covers before after s v e = version_loop-seen ([], []) before after s v e
