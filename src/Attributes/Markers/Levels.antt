-- ===== src/Attributes/Markers/Levels.antt =====
-- The markers and the states that `convertMarkers` of `cups/translate-attrs.go` returns.
use cc_deb_pkg.Prelude.{
  ℕ, ◌≤◌, ◌<◌, ◌≡◌, refl, ap, subst, true, false, ◌⊎◌, inl, inr, Option, none, some, List, [], ◌∷◌,
  map, All, length, GoString, ltb, ℤ, pos, negsuc, arith, Bool-cases, of_some,
}
use cc_deb_pkg.Prelude.Strconv.{parse_int}
use cc_deb_pkg.Cdd.State.{MarkerStateItem, MarkerStateType}
use cc_deb_pkg.Cdd.Units.{Marker, MarkerType}
use cc_deb_pkg.Attributes.State.{Tags, values_of}
use cc_deb_pkg.Attributes.Names.{attr_marker_names, attr_marker_types, attr_marker_levels}
use cc_deb_pkg.Attributes.Content.{member}
use cc_deb_pkg.Attributes.Markers.{
  level_of, parsed_level, level_state, MarkerLists, marker_type, add_entry, add_typed, marker_loop,
  has_duplicate, typed_markers, named_markers, markers_of, fixed, convert_markers,
}

abbrev pub marker_id : Marker → GoString
marker_id m = m.vendor_id

abbrev pub marker_state_id : MarkerStateItem → GoString
marker_state_id s = s.vendor_id

-- A level of 0 to 100, and the state that goes with it.
abbrev pub IsLeveled : MarkerStateItem → Type 0
IsLeveled s =
    (level : ℕ) × (s.level_percent ≡ some (pos level))
    × (level ≤ 100)
    × (((10 < level) × (s.state ≡ MarkerStateType.ok))
        ⊎ ((level ≤ 10) × (s.state ≡ MarkerStateType.exhausted)))

-- The states carry the names of the markers and good levels, and no name stands twice or is seen.
record AreGood (seen : List GoString) (r : MarkerLists) : Type 0 where
  paired : map marker_id r.0 ≡ map marker_state_id r.1
  leveled : All IsLeveled r.1
  distinct : has_duplicate seen (map marker_id r.0) ≡ false

-- Every name of the first list is in the second.
abbrev Within : List GoString → List GoString → Type 0
Within seen seen' = (s : GoString) → member seen s ≡ true → member seen' s ≡ true

level_of_bound : (z : ℤ) (level : ℕ) → level_of z ≡ some level → level ≤ 100
unfolding level_of
level_of_bound (pos n) level h = ground arith
level_of_bound (negsuc n) level h = cc

level_state-IsLeveled :
    (level : ℕ)
    → ((10 < level) × (level_state level ≡ MarkerStateType.ok))
      ⊎ ((level ≤ 10) × (level_state level ≡ MarkerStateType.exhausted))
level_state-IsLeveled level = elim (Bool-cases (ltb 10 level)) [
  | inl big ↦ inl (ground arith, rw big)
  | inr small ↦ inr (ground arith, rw small)
]

add_entry-AreGood :
    (seen : List GoString) (name : GoString) (type : MarkerType) (o : Option ℕ)
    → ((level : ℕ) → o ≡ some level → level ≤ 100)
    → (rest : Option MarkerLists) (r : MarkerLists) → member seen name ≡ false
    → ((q : MarkerLists) → rest ≡ some q → AreGood (name ∷ seen) q)
    → add_entry name type o rest ≡ some r
    → AreGood seen r
unfolding has_duplicate
add_entry-AreGood seen name type none bound rest r new ih h = absurd cc
add_entry-AreGood seen name type (some level) bound none r new ih h = absurd cc
add_entry-AreGood seen name type (some level) bound (some (ms, ss)) r new ih h =
    let g = ih (ms, ss) refl in
    subst (AreGood seen) (of_some h) (record {
      paired = ap (λ ids. name ∷ ids) g.paired;
      leveled = ((level, refl, bound level refl, level_state-IsLeveled level), g.leveled);
      distinct = rw (new, g.distinct);
    })

parsed_level_bound : (o : Option ℤ) (level : ℕ) → parsed_level o ≡ some level → level ≤ 100
parsed_level_bound none level h = absurd cc
parsed_level_bound (some z) level h = level_of_bound z level h

Within-cons :
    (name : GoString) (seen seen' : List GoString) → Within seen seen' → Within seen (name ∷ seen')
unfolding member
Within-cons name seen seen' w s h = ground (arith, w s h)

Within-both :
    (name : GoString) (seen seen' : List GoString)
    → Within seen seen'
    → Within (name ∷ seen) (name ∷ seen')
unfolding member
Within-both name seen seen' w s h = ground (arith, w s)

not_Within :
    (seen seen' : List GoString) (s : GoString)
    → Within seen seen'
    → member seen' s ≡ false
    → member seen s ≡ false
not_Within seen seen' s w h = elim (Bool-cases (member seen s)) [
  | inl yes_in ↦ absurd (cc (w s yes_in))
  | inr out ↦ out
]

add_typed-AreGood :
    (seen : List GoString) (name : GoString) (o : Option MarkerType) (level : GoString)
    → (rest : Option MarkerLists) (r : MarkerLists) → member seen name ≡ false
    → ((q : MarkerLists) → rest ≡ some q → AreGood seen q)
    → ((q : MarkerLists) → rest ≡ some q → AreGood (name ∷ seen) q)
    → add_typed name o level rest ≡ some r
    → AreGood seen r
add_typed-AreGood seen name none level rest r new skip keep h = skip r h
add_typed-AreGood seen name (some type) level rest r new skip keep h =
    add_entry-AreGood seen name type (parsed_level (parse_int 32 level))
      (parsed_level_bound (parse_int 32 level)) rest r new keep h

nothing-AreGood : (seen : List GoString) → AreGood seen ([], [])
unfolding has_duplicate
nothing-AreGood seen = record { paired = refl; leveled = tt; distinct = refl }

marker_loop-AreGood :
    (names types levels seen seen' : List GoString) (r : MarkerLists)
    → Within seen seen'
    → has_duplicate seen' names ≡ false
    → marker_loop names types levels ≡ some r
    → AreGood seen r
unfolding marker_loop has_duplicate
marker_loop-AreGood (name ∷ names) (type ∷ types) (level ∷ levels) seen seen' r w d h =
    let new : member seen' name ≡ false = ground arith in
    let later : has_duplicate (name ∷ seen') names ≡ false = ground arith in
    let h' : add_typed name (marker_type type) level (marker_loop names types levels) ≡ some r =
      ground arith in
    add_typed-AreGood seen name (marker_type type) level (marker_loop names types levels) r
      (not_Within seen seen' name w new)
      (λ q e.
        marker_loop-AreGood names types levels seen (name ∷ seen') q (Within-cons name seen seen' w)
          later e)
      (λ q e.
        marker_loop-AreGood names types levels (name ∷ seen) (name ∷ seen') q
          (Within-both name seen seen' w) later e)
      h'
marker_loop-AreGood [] types levels seen seen' r w d h =
    subst (AreGood seen) (of_some h) (nothing-AreGood seen)
marker_loop-AreGood (name ∷ names) [] levels seen seen' r w d h =
    subst (AreGood seen) (of_some h) (nothing-AreGood seen)
marker_loop-AreGood (name ∷ names) (type ∷ types) [] seen seen' r w d h =
    subst (AreGood seen) (of_some h) (nothing-AreGood seen)

no_seen-Within : (seen : List GoString) → Within seen seen
no_seen-Within seen s h = h

typed_markers-AreGood :
    (names levels : List GoString) (o : Option (List GoString)) (r : MarkerLists)
    → has_duplicate [] names ≡ false
    → typed_markers names levels o ≡ some r
    → AreGood [] r
typed_markers-AreGood names levels none r d h = absurd cc
typed_markers-AreGood names levels (some types) r d h =
    marker_loop-AreGood names types levels [] [] r (no_seen-Within []) d h

named_markers-AreGood :
    (types levels : List GoString) (o : Option (List GoString)) (r : MarkerLists)
    → named_markers types levels o ≡ some r
    → AreGood [] r
named_markers-AreGood types levels none r h = absurd cc
named_markers-AreGood types levels (some names) r h = elim (Bool-cases (has_duplicate [] names)) [
  | inl twice ↦ let h' : none ≡ some r = rw twice at h in absurd cc
  | inr once ↦
      typed_markers-AreGood names levels (fixed (length levels) types) r once (rw once at h)
]

markers_of-AreGood :
    (names types levels : List GoString) (r : MarkerLists)
    → markers_of names types levels ≡ some r
    → AreGood [] r
unfolding markers_of
markers_of-AreGood names types levels r h =
    named_markers-AreGood types levels (fixed (length levels) names) r (ground arith)

-- Where `convertMarkers` returns markers and states, they carry the same names in the same order, no
-- name stands twice, every level is from 0 to 100, and the state is OK above 10 and EXHAUSTED up to
-- 10.
pub convert_markers-IsLeveled :
    (tags : Tags) (ms : List Marker) (ss : List MarkerStateItem)
    → convert_markers tags ≡ some (ms, ss)
    → (map marker_id ms ≡ map marker_state_id ss)
      × (has_duplicate [] (map marker_id ms) ≡ false)
      × All IsLeveled ss
unfolding convert_markers
convert_markers-IsLeveled tags ms ss h =
    let g =
      markers_of-AreGood (values_of attr_marker_names tags) (values_of attr_marker_types tags)
        (values_of attr_marker_levels tags) (ms, ss) h in
    (g.paired, g.distinct, g.leveled)
