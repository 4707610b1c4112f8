-- ===== src/Oid.antt =====
-- Object identifiers and variable sets: `snmp/oid/oid.go`. An OID is the slice of its numbers; a
-- `uint` is a number, since the code only compares it and prints it. A variable set is the slice
-- `vars`. Go's `sort.Search` is modelled as its documented loop, with the number of variables as
-- fuel. A slice expression out of range is a panic: `none`.
pub mod Order
pub mod Search
pub mod Subtree
pub mod Quotes
use cc_deb_pkg.Prelude.{
  ℕ, zero, suc, ◌+◌, ◌-◌, ◌/◌, Bool, true, false, not, ◌&&◌, Option, none, some, List, [], ◌∷◌,
  ◌++◌, map, length, get_elem?, take, drop, ltb, leb, ◌==◌, if◌then◌else◌, GoString, starts_with,
  ends_with,
}

-- `type OID []uint`
abbrev pub Oid : Type 0
Oid = List ℕ

-- The loop `for i := 0; i < len(b); i++` of `HasPrefix`, once `a` is known to be long enough.
prefix_loop : Oid → Oid → Bool
prefix_loop a [] = true
prefix_loop [] (y ∷ b) = false
prefix_loop (x ∷ a) (y ∷ b) = if x == y then prefix_loop a b else false

unfoldable pub has_prefix : Oid → Oid → Bool
unfolding prefix_loop
has_prefix a b = if ltb (length a) (length b) then false else prefix_loop a b

-- The loop of `IsEqualTo`, over two slices of one length.
equal_loop : Oid → Oid → Bool
equal_loop (x ∷ a) (y ∷ b) = if x == y then equal_loop a b else false
equal_loop _ _ = true

unfoldable pub is_equal_to : Oid → Oid → Bool
unfolding equal_loop
is_equal_to a b = if length a == length b then equal_loop a b else false

-- The loop of `ComesBefore` over the common length: `some` is a `return` inside the loop.
before_loop : Oid → Oid → Option Bool
before_loop (x ∷ a) (y ∷ b) =
    let rest = before_loop a b in
    if ltb x y then some true else if ltb y x then some false else rest
before_loop _ _ = none

unfoldable pub comes_before : Oid → Oid → Bool
unfolding before_loop
comes_before a b = elim (before_loop a b) [
  | some answer ↦ answer
  | none ↦ ltb (length a) (length b)
]

pub record Variable : Type 0 where
  pub name : Oid
  pub value : GoString

pub record VariableSet : Type 0 where
  pub vars : List Variable

unfoldable pub size : VariableSet → ℕ
size vs = length vs.vars

-- `AddVariable` strips one pair of quotes. A lone quote is its own prefix and suffix, and the
-- slice `value[1:0]` panics: `none`.
unfoldable pub add_variable : VariableSet → Oid → GoString → Option VariableSet
add_variable vs name value =
    if starts_with value (b'"' ∷ []) && ends_with value (b'"' ∷ [])
    then if ltb (length value - 1) 1
      then none
      else some (record {
        vars =
            vs.vars ++ record { name = name; value = take (length value - 2) (drop 1 value) } ∷ [];
      })
    else some (record { vars = vs.vars ++ record { name = name; value = value } ∷ [] })

-- `sort.Search(n, f)`: the smallest index at which `f` holds, by bisection of `lo..hi`.
unfoldable pub sort_search : ℕ → (ℕ → Bool) → ℕ → ℕ → ℕ
sort_search zero f lo hi = lo
sort_search (suc fuel) f lo hi =
    let mid = (lo + hi) / 2 in
    let upper = sort_search fuel f (mid + 1) hi in
    let lower = sort_search fuel f lo mid in
    if ltb lo hi then if f mid then lower else upper else lo

-- The predicate that `GetSubtree` searches with.
unfoldable pub at_or_after : List Variable → Oid → ℕ → Bool
at_or_after vars prefix i = elim (get_elem? vars i) [
  | some v ↦ not (comes_before v.name prefix)
  | none ↦ true
]

-- The loop that moves `tail`: how many variables from `head` on have the prefix.
unfoldable pub tail_loop : List Variable → Oid → ℕ
tail_loop [] prefix = 0
tail_loop (v ∷ vars) prefix =
    let rest = tail_loop vars prefix in if has_prefix v.name prefix then suc rest else 0

unfoldable pub get_subtree : VariableSet → Oid → VariableSet
unfolding sort_search at_or_after tail_loop
get_subtree vs prefix =
    let n = length vs.vars in
    let head = sort_search n (at_or_after vs.vars prefix) 0 n in
    record { vars = take (tail_loop (drop head vs.vars) prefix) (drop head vs.vars) }

unfoldable pub get_values : VariableSet → List GoString
get_values vs = map (λ v. v.value) vs.vars

-- The test of `GetVariable` on the subtree's variables.
first_equal : List Variable → Oid → Option Variable
first_equal [] o = none
first_equal (v ∷ vars) o = if is_equal_to v.name o then some v else none

unfoldable pub get_variable : VariableSet → Oid → Option Variable
unfolding first_equal
get_variable vs o = first_equal (get_subtree vs o).vars o

unfoldable pub get_value : VariableSet → Oid → Option GoString
get_value vs o = elim (get_variable vs o) [ some v ↦ some v.value | none ↦ none ]
