-- ===== src/Markers/Order.antt =====
-- The color read from a name does not depend on the order in which a table is visited.
use mathlib.Core.Logic.{∥∥₁_elim}
use mathlib.Core.List.{Permᴰ}
use cc_deb_pkg.Prelude.{
  ◌≡◌, refl, ◌∙◌, ap, subst, Bool, true, false, not, ◌&&◌, ◌⊎◌, inl, inr, Option, some, [], ◌∷◌,
  Perm, All, GoString, starts_with, if◌then◌else◌, arith,
}
use cc_deb_pkg.Prelude.Reordered.{All-Permᴰ}
use cc_deb_pkg.Prelude.GoMap.{GoMap}
use cc_deb_pkg.Cdd.Units.{MarkerColorType}
use cc_deb_pkg.Attributes.Tables.{cups_marker_name_to_gcp}
use cc_deb_pkg.PrinterMib.Tables.{snmp_marker_color_to_gcp}
use native.Mathlib.Decide.{ℕ_discrete}
use cc_deb_pkg.Markers.{first_prefix, stripped, marker_color, colored}

-- Of two prefixes of a text one is a prefix of the other.
prefixes_nested :
    (s j k : GoString)
    → starts_with s j ≡ true
    → starts_with s k ≡ true
    → (starts_with j k ≡ true) ⊎ (starts_with k j ≡ true)
unfolding starts_with
prefixes_nested s [] k p q = inr refl
prefixes_nested s (y ∷ j) [] p q = inl refl
prefixes_nested [] (y ∷ j) (z ∷ k) p q = ground arith
prefixes_nested (x ∷ s) (y ∷ j) (z ∷ k) p q = ground (arith, prefixes_nested s j k)

module _ {V : Type 0} where
  -- Neither key is a prefix of the other.
  abbrev Apart : GoString × V → GoString × V → Type 0
  Apart (j, v) (k, w) = (starts_with j k ≡ false) × (starts_with k j ≡ false)

  -- No key of the table is a prefix of another.
  abbrev pub PrefixFree : GoMap V → Type 0
  PrefixFree [] = Unit
  PrefixFree (e ∷ table) = All (Apart e) table × PrefixFree table

  first_prefix-swap :
      (a b : GoString × V) (table : GoMap V) (s : GoString)
      → Apart a b
      → first_prefix (a ∷ b ∷ table) s ≡ first_prefix (b ∷ a ∷ table) s
  unfolding first_prefix
  first_prefix-swap (j, v) (k, w) table s apart = ground (arith, prefixes_nested s j k, apart)

  -- The tests of the two predicates.
  apart_all : GoString → GoMap V → Bool
  apart_all j [] = true
  apart_all j ((k, w) ∷ table) =
      (not (starts_with j k) && not (starts_with k j)) && apart_all j table

  prefix_free : GoMap V → Bool
  unfolding apart_all
  prefix_free [] = true
  prefix_free ((k, v) ∷ table) = apart_all k table && prefix_free table

  apart_all_sound :
      (j : GoString) (v : V) (table : GoMap V) → apart_all j table ≡ true → All (Apart (j, v)) table
  unfolding apart_all
  apart_all_sound j v [] h = tt
  apart_all_sound j v ((k, w) ∷ table) h =
      ((ground arith, ground arith), apart_all_sound j v table (ground arith))

  prefix_free-PrefixFree : (table : GoMap V) → prefix_free table ≡ true → PrefixFree table
  unfolding prefix_free
  prefix_free-PrefixFree [] h = tt
  prefix_free-PrefixFree ((k, v) ∷ table) h =
      (apart_all_sound k v table (ground arith), prefix_free-PrefixFree table (ground arith))

  Apart-sym : (a b : GoString × V) → Apart a b → Apart b a
  Apart-sym (j, v) (k, w) (p, q) = (q, p)

  PrefixFree-Permᴰ : {s t : GoMap V} → Permᴰ s t → PrefixFree s → PrefixFree t
  PrefixFree-Permᴰ Permᴰ.nil f = tt
  PrefixFree-Permᴰ (Permᴰ.cons {b = b} {l₁ = l₁} e p) f =
      (All-Permᴰ (Apart b) p (subst (λ x. All (Apart x) l₁) e f.0), PrefixFree-Permᴰ p f.1)
  PrefixFree-Permᴰ (Permᴰ.swap {a = a} {b = b} {b' = d} {l = l} e f) ((ab, al), (bl, h)) =
      subst (λ a'. PrefixFree (a' ∷ d ∷ l)) f
        (subst (λ b'. PrefixFree (b ∷ b' ∷ l)) e ((Apart-sym a b ab, bl), (al, h)))
  PrefixFree-Permᴰ (Permᴰ.trans p q) f = PrefixFree-Permᴰ q (PrefixFree-Permᴰ p f)

  first_prefix-Permᴰ :
      {s t : GoMap V}
      → Permᴰ s t
      → PrefixFree s
      → (text : GoString) → first_prefix t text ≡ first_prefix s text
  unfolding first_prefix
  first_prefix-Permᴰ Permᴰ.nil f text = refl
  first_prefix-Permᴰ (Permᴰ.cons {a = (k, v)} {l₁ = l₁} {l₂ = l₂} e p) f text =
      subst (λ b. first_prefix (b ∷ l₂) text ≡ first_prefix ((k, v) ∷ l₁) text) e
        (ap (λ r. if starts_with text k then some v else r) (first_prefix-Permᴰ p f.1 text))
  first_prefix-Permᴰ (Permᴰ.swap {a = a} {b = b} {b' = d} {l = l} e f) h text =
      subst (λ a'. first_prefix (a' ∷ d ∷ l) text ≡ first_prefix (a ∷ b ∷ l) text) f
        (subst (λ b'. first_prefix (b ∷ b' ∷ l) text ≡ first_prefix (a ∷ b ∷ l) text) e
          (first_prefix-swap b a l text (Apart-sym a b h.0.0)))
  first_prefix-Permᴰ (Permᴰ.trans p q) f text =
      first_prefix-Permᴰ q (PrefixFree-Permᴰ p f) text ∙ first_prefix-Permᴰ p f text

  first_prefix-Perm :
      (s t : GoMap V) (text : GoString)
      → IsSet (Option V)
      → PrefixFree s
      → Perm s t
      → first_prefix t text ≡ first_prefix s text
  first_prefix-Perm s t text set free perm =
      ∥∥₁_elim perm (set _ _) (λ p. first_prefix-Permᴰ p free text)

colors-set : IsSet (Option MarkerColorType)
colors-set = hlevel ℕ_discrete

colors-PrefixFree : PrefixFree cups_marker_name_to_gcp
unfolding starts_with prefix_free
colors-PrefixFree = prefix_free-PrefixFree cups_marker_name_to_gcp refl

-- The color read from a name is the same in whatever order the table of colors is visited.
pub marker_color-Perm :
    (table : GoMap MarkerColorType) (name : GoString)
    → Perm cups_marker_name_to_gcp table
    → marker_color table name ≡ marker_color cups_marker_name_to_gcp name
unfolding marker_color
marker_color-Perm table name perm = ap (colored name) (
    first_prefix-Perm cups_marker_name_to_gcp table (stripped name) colors-set colors-PrefixFree
      perm)

-- The table of `GetMarkers` has the entries of the one of `convertMarkers`.
pub color_tables_agree : snmp_marker_color_to_gcp ≡ cups_marker_name_to_gcp
color_tables_agree = refl
