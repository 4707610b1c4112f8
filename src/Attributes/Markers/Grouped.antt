-- ===== src/Attributes/Markers/Grouped.antt =====
-- How `fixMarkers` of `cups/translate-attrs.go` undoes a split at commas.
use mathlib.Core.List.{append_assoc}
use cc_deb_pkg.Prelude.{
  ℕ, ◌≡◌, ◌≢◌, ◌↔◌, refl, sym, ap, ◌∙◌, Bool, true, false, ==_iff, All, if◌then◌else◌, List, [],
  ◌∷◌, ◌++◌, GoString, bytes, join, Bool-cases, inl, inr,
}
use cc_deb_pkg.Attributes.Markers.{is_tail, fix_loop, fix_markers}

abbrev comma : GoString
comma = bytes ","

-- A value and those that were split off it.
abbrev pub Group : Type 0
Group = GoString × List GoString

-- A space and something behind it, as a comma in a name leaves it.
pub record IsRest (v : GoString) : Type 0 where
  pub next : ℕ
  pub others : GoString
  pub all : v ≡ b' ' ∷ next ∷ others

abbrev pub members : List Group → List GoString
members [] = []
members ((v, rest) ∷ groups) = v ∷ rest ++ members groups

abbrev pub joined : List Group → List GoString
joined [] = []
joined ((v, rest) ∷ groups) = join (bytes ",") (v ∷ rest) ∷ joined groups

-- In each group all but the first value were split off.
abbrev pub AllRest : List Group → Type 0
AllRest [] = Unit
AllRest ((v, rest) ∷ groups) = All IsRest rest × AllRest groups

-- No group begins with a value that was split off, but perhaps the first one.
abbrev pub HeadsApart : List Group → Type 0
HeadsApart [] = Unit
HeadsApart ((v, rest) ∷ groups) = (¬ IsRest v) × HeadsApart groups

abbrev LaterApart : List Group → Type 0
LaterApart [] = Unit
LaterApart (g ∷ groups) = HeadsApart groups

pub record IsGrouped (vs ws : List GoString) : Type 0 where
  pub groups : List Group
  pub given : members groups ≡ vs
  pub returned : joined groups ≡ ws
  pub split_off : AllRest groups
  pub apart : LaterApart groups

is_tail_iff : (v : GoString) → (is_tail v ≡ true) ↔ IsRest v
unfolding is_tail
is_tail_iff [] = (λ h. absurd cc, λ r. absurd (none_such r.all))
  where
    none_such : {c : ℕ} {s : GoString} → [] ≢ b' ' ∷ c ∷ s
    none_such h = absurd cc
is_tail_iff (c ∷ []) = (λ h. absurd cc, λ r. absurd (none_such r.all))
  where
    none_such : {d : ℕ} {s : GoString} → c ∷ [] ≢ b' ' ∷ d ∷ s
    none_such h = absurd cc
is_tail_iff (c ∷ d ∷ s) = (
  (λ h. record { next = d; others = s; all = ap (λ b. b ∷ d ∷ s) ((==_iff c b' ').0 h) }),
  (λ r. ap is_tail r.all ∙ refl),
)

-- The groups that the loop makes of the values behind those of the last group.
abbrev split : GoString → List GoString → List GoString → List Group
split v rest [] = (v, rest) ∷ []
split v rest (w ∷ ws) =
    let wider = split v (rest ++ w ∷ []) ws in
    let later = split w [] ws in if is_tail w then wider else (v, rest) ∷ later

join-behind :
    (v w : GoString) (rest : List GoString)
    → join comma (v ∷ rest) ++ b',' ∷ w ≡ join comma (v ∷ rest ++ w ∷ [])
unfolding join
join-behind v w [] = simp append_assoc
join-behind v w (r ∷ rest) =
    append_assoc (v ++ comma) (join comma (r ∷ rest)) (b',' ∷ w)
    ∙ ap (λ s. (v ++ comma) ++ s) (join-behind r w rest)

fix_loop-split :
    (done : List GoString) (v : GoString) (rest vs : List GoString)
    → fix_loop done (join comma (v ∷ rest)) vs ≡ done ++ joined (split v rest vs)
unfolding fix_loop join
fix_loop-split done v rest [] = refl
fix_loop-split done v rest (w ∷ ws) = elim (Bool-cases (is_tail w)) [
  | inl tail ↦ rw tail (
      ap (λ s. fix_loop done s ws) (join-behind v w rest)
      ∙ fix_loop-split done v (rest ++ w ∷ []) ws)
  | inr other ↦ rw other (
      fix_loop-split (done ++ join comma (v ∷ rest) ∷ []) w [] ws
      ∙ append_assoc done (join comma (v ∷ rest) ∷ []) (joined (split w [] ws)))
]

members-split :
    (v : GoString) (rest vs : List GoString) → members (split v rest vs) ≡ v ∷ rest ++ vs
members-split v rest [] = refl
members-split v rest (w ∷ ws) = elim (Bool-cases (is_tail w)) [
  | inl tail ↦
      rw tail
        (members-split v (rest ++ w ∷ []) ws ∙ ap (λ s. v ∷ s) (append_assoc rest (w ∷ []) ws))
  | inr other ↦ rw other (ap (λ s. v ∷ rest ++ s) (members-split w [] ws))
]

All-behind :
    (rest : List GoString) (w : GoString) → All IsRest rest → IsRest w → All IsRest (rest ++ w ∷ [])
All-behind [] w h r = (r, tt)
All-behind (v ∷ rest) w (hv, h) r = (hv, All-behind rest w h r)

split-AllRest :
    (v : GoString) (rest vs : List GoString) → All IsRest rest → AllRest (split v rest vs)
split-AllRest v rest [] h = (h, tt)
split-AllRest v rest (w ∷ ws) h = elim (Bool-cases (is_tail w)) [
  | inl tail ↦
      rw tail (split-AllRest v (rest ++ w ∷ []) ws (All-behind rest w h ((is_tail_iff w).0 tail)))
  | inr other ↦ rw other (h, split-AllRest w [] ws tt)
]

not-IsRest : (w : GoString) → is_tail w ≡ false → ¬ IsRest w
not-IsRest w other r = absurd (apart other ((is_tail_iff w).1 r))
  where
    apart : {b : Bool} → b ≡ false → b ≢ true
    apart e h = absurd cc

split-apart :
    (v : GoString) (rest vs : List GoString)
    → LaterApart (split v rest vs) × ((¬ IsRest v) → HeadsApart (split v rest vs))
split-apart v rest [] = (tt, λ n. (n, tt))
split-apart v rest (w ∷ ws) = elim (Bool-cases (is_tail w)) [
  | inl tail ↦ rw tail (split-apart v (rest ++ w ∷ []) ws)
  | inr other ↦
      let heads = (split-apart w [] ws).1 (not-IsRest w other) in rw other (heads, λ n. (n, heads))
]

-- `fixMarkers` cuts the values into groups and joins each by commas: a group is a value and all that
-- follow it and begin with a space with something behind it.
pub fix_markers-IsGrouped : (vs : List GoString) → IsGrouped vs (fix_markers vs)
unfolding fix_markers join
fix_markers-IsGrouped [] = record {
  groups = [];
  given = refl;
  returned = refl;
  split_off = tt;
  apart = tt;
}
fix_markers-IsGrouped (v ∷ vs) = record {
  groups = split v [] vs;
  given = members-split v [] vs;
  returned = sym (fix_loop-split [] v [] vs);
  split_off = split-AllRest v [] vs tt;
  apart = (split-apart v [] vs).0;
}
