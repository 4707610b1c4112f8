-- ===== src/Ppd/Entries/Headed.antt =====
-- When `openUIStatementsToEntries` of `cups/translate-ppd.go` does not panic.
use cc_deb_pkg.Prelude.{
  ◌≡◌, ◌≢◌, refl, Bool, true, false, Bool-cases, ◌⊎◌, inl, inr, some, List, [], ◌∷◌, map, All,
  All-append, GoString, str_eq, str_eq_sound, keep_if, if◌then◌else◌, arith,
}
use cc_deb_pkg.Ppd.{
  Grouping, Statement, StatementKind, append_last, group_by_kind, group_loop, group_statements,
  group_step, open_group, place, statement_kind, ungrouped,
}
use cc_deb_pkg.Ppd.Constraints.{
  constraints, filter_constraints, has_pair, installed_defaults, is_allowed,
}
use cc_deb_pkg.Ppd.Entries.{Entries, entry_loop, open_ui_statements_to_entries}
use cc_deb_pkg.Ppd.Keywords.{ppd_open_ui, ppd_jcl_open_ui}

-- The keyword opens a group.
abbrev Opens : Statement → Type 0
Opens s = (s.main_keyword ≡ ppd_open_ui) ⊎ (s.main_keyword ≡ ppd_jcl_open_ui)

-- A group begins with the statement that opens it.
abbrev Headed : List Statement → Type 0
Headed [] = ⊥
Headed (s ∷ ss) = Opens s

append_last-Headed :
    (s : Statement) (gs : List (List Statement)) → All Headed gs → All Headed (append_last s gs)
append_last-Headed s [] h = tt
append_last-Headed s ([] ∷ []) h = absurd h.0
append_last-Headed s ((t ∷ g) ∷ []) h = h
append_last-Headed s (g ∷ g' ∷ gs) h = (h.0, append_last-Headed s (g' ∷ gs) h.1)

not_opening :
    (a b c d e : Bool)
    → (if a
        then StatementKind.closes_ui
        else if b
        then StatementKind.opens_group
        else if c
        then StatementKind.closes_group
        else if d
        then StatementKind.sub_group
        else if e
        then StatementKind.constraint
        else StatementKind.other)
      ≢ StatementKind.opens_ui
not_opening a b c d e h = ground (arith, h)

statement_kind-Opens :
    (s : Statement) → statement_kind s.main_keyword ≡ StatementKind.opens_ui → Opens s
unfolding statement_kind
statement_kind-Opens s h = elim (Bool-cases (str_eq s.main_keyword ppd_open_ui)) [
  | inl r ↦ inl (str_eq_sound _ _ r)
  | inr r ↦ elim (Bool-cases (str_eq s.main_keyword ppd_jcl_open_ui)) [
    | inl q ↦ inr (str_eq_sound _ _ q)
    | inr q ↦ absurd (not_opening _ _ _ _ _ (rw (r, q) at h))
  ]
]

place-Headed :
    (installable ui : Bool) (s : Statement) (g : Grouping)
    → All Headed g.open_uis
    → All Headed (place installable ui s g).open_uis
place-Headed true ui s g h = h
place-Headed false true s g h = append_last-Headed s g.open_uis h
place-Headed false false s g h = h

open_group-Headed :
    (installable : Bool) (s : Statement) (g : Grouping)
    → Opens s
    → All Headed g.open_uis
    → All Headed (open_group installable s g).open_uis
open_group-Headed true s g o h = h
open_group-Headed false s g o h = All-append Headed g.open_uis ((s ∷ []) ∷ []) h (o, tt)

installable-Headed :
    (b value : Bool) (g : Grouping)
    → All Headed g.open_uis
    → All Headed (if b then record g { inside_installable = value } else g).open_uis
installable-Headed true value g h = h
installable-Headed false value g h = h

group_by_kind-Headed :
    (k : StatementKind) (s : Statement) (g : Grouping)
    → (k ≡ StatementKind.opens_ui → Opens s)
    → All Headed g.open_uis
    → All Headed (group_by_kind k s g).open_uis
group_by_kind-Headed StatementKind.opens_ui s g o h =
    open_group-Headed g.inside_installable s g (o refl) h
group_by_kind-Headed StatementKind.closes_ui s g o h = h
group_by_kind-Headed StatementKind.opens_group s g o h = installable-Headed _ true g h
group_by_kind-Headed StatementKind.closes_group s g o h = installable-Headed _ false g h
group_by_kind-Headed StatementKind.sub_group s g o h = h
group_by_kind-Headed StatementKind.constraint s g o h = h
group_by_kind-Headed StatementKind.other s g o h =
    place-Headed g.inside_installable g.inside_open_ui s g h

group_loop-Headed :
    (ss : List Statement) (g : Grouping)
    → All Headed g.open_uis
    → All Headed (group_loop ss g).open_uis
unfolding group_loop group_step
group_loop-Headed [] g h = h
group_loop-Headed (s ∷ ss) g h =
    group_loop-Headed ss (group_step s g)
      (group_by_kind-Headed (statement_kind s.main_keyword) s g (statement_kind-Opens s) h)

-- No constraint takes away the statements that open a group.
pub record KeepsHeads (cs : List (GoString × GoString)) : Type 0 where
  pub keeps_open_ui : (o : GoString) → has_pair cs (ppd_open_ui, o) ≡ false
  pub keeps_jcl_open_ui : (o : GoString) → has_pair cs (ppd_jcl_open_ui, o) ≡ false

module _ (cs : List (GoString × GoString)) (keeps : KeepsHeads cs) where
  is_allowed-Opens : (s : Statement) → Opens s → is_allowed cs s ≡ true
  is_allowed-Opens s (inl e) = rw (e, keeps.keeps_open_ui s.option_keyword) refl
  is_allowed-Opens s (inr e) = rw (e, keeps.keeps_jcl_open_ui s.option_keyword) refl

  keep_if-Headed : (g : List Statement) → Headed g → Headed (keep_if (is_allowed cs) g)
  unfolding keep_if
  keep_if-Headed [] h = h
  keep_if-Headed (s ∷ g) h = rw (is_allowed-Opens s h) h

  map-Headed :
      (gs : List (List Statement)) → All Headed gs → All Headed (map (keep_if (is_allowed cs)) gs)
  map-Headed [] h = tt
  map-Headed (g ∷ gs) (h, hs) = (keep_if-Headed g h, map-Headed gs hs)

entry_loop-Headed :
    (gs : List (List Statement)) (es : Entries)
    → All Headed gs
    → (r : Entries) × (entry_loop gs es ≡ some r)
unfolding entry_loop
entry_loop-Headed [] es h = (es, refl)
entry_loop-Headed ([] ∷ gs) es h = absurd h.0
entry_loop-Headed ((s ∷ g) ∷ gs) es h = entry_loop-Headed gs _ h.1

-- The entries of the groups of a file are found with no panic, if none of its constraints that an
-- installed option meets names a statement that opens a group.
pub filter_constraints-entries :
    (ss : List Statement)
    → KeepsHeads (
        constraints
          (installed_defaults (group_statements ss).installables)
          (group_statements ss).ui_constraints)
    → (r : Entries) × (open_ui_statements_to_entries (
          filter_constraints
            (group_statements ss).open_uis
            (group_statements ss).installables
            (group_statements ss).ui_constraints)
        ≡ some r)
unfolding open_ui_statements_to_entries filter_constraints group_statements
filter_constraints-entries ss keeps =
    entry_loop-Headed _ ([], [])
      (map-Headed _ keeps (group_loop ss ungrouped).open_uis (group_loop-Headed ss ungrouped tt))
