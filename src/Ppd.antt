-- ===== src/Ppd.antt =====
-- PPD files: the statements of `cups/translate-ppd.go` and what it makes of them. The parser of a line
-- is not modelled: a file is the list of its statements.
pub mod Keywords
pub mod Constraints
pub mod Entries
pub mod Default
pub mod Colors
pub mod Duplexing
pub mod Resolution
pub mod Vendor
use cc_deb_pkg.Prelude.{
  ℕ, Bool, true, false, ◌||◌, Option, none, some, List, [], ◌∷◌, ◌++◌, GoString, str_eq,
  starts_with, if◌then◌else◌,
}
use cc_deb_pkg.Ppd.Keywords.{
  ppd_close_group, ppd_close_sub_group, ppd_close_ui, ppd_installable_options, ppd_jcl_close_ui,
  ppd_jcl_open_ui, ppd_open_group, ppd_open_sub_group, ppd_open_ui, ppd_ui_constraints,
}

pub record Statement : Type 0 where
  pub main_keyword : GoString
  pub option_keyword : GoString
  pub translation : GoString
  pub value : GoString

-- The variables of `groupStatements`.
pub record Grouping : Type 0 where
  pub open_uis : List (List Statement)
  pub installables : List (List Statement)
  pub ui_constraints : List Statement
  pub stand_alones : List Statement
  pub inside_open_ui : Bool
  pub inside_installable : Bool

-- What the `switch` tells apart.
pub data StatementKind : Type 0 where
  opens_ui closes_ui opens_group closes_group sub_group constraint other : StatementKind

unfoldable pub statement_kind : GoString → StatementKind
statement_kind k =
    if str_eq k ppd_open_ui || str_eq k ppd_jcl_open_ui
    then StatementKind.opens_ui
    else if str_eq k ppd_close_ui || str_eq k ppd_jcl_close_ui
    then StatementKind.closes_ui
    else if str_eq k ppd_open_group
    then StatementKind.opens_group
    else if str_eq k ppd_close_group
    then StatementKind.closes_group
    else if str_eq k ppd_open_sub_group || str_eq k ppd_close_sub_group
    then StatementKind.sub_group
    else if str_eq k ppd_ui_constraints
    then StatementKind.constraint
    else StatementKind.other

-- A statement behind the last group; nothing where there is no group.
abbrev pub append_last : Statement → List (List Statement) → List (List Statement)
append_last s [] = []
append_last s (g ∷ []) = (g ++ s ∷ []) ∷ []
append_last s (g ∷ h ∷ gs) = g ∷ append_last s (h ∷ gs)

abbrev pub open_group : Bool → Statement → Grouping → Grouping
open_group true s g = record g {
  installables = g.installables ++ (s ∷ []) ∷ [];
  inside_open_ui = true;
}
open_group false s g = record g { open_uis = g.open_uis ++ (s ∷ []) ∷ []; inside_open_ui = true }

abbrev pub place : Bool → Bool → Statement → Grouping → Grouping
place true inside_ui s g = record g { installables = append_last s g.installables }
place false true s g = record g { open_uis = append_last s g.open_uis }
place false false s g = record g { stand_alones = g.stand_alones ++ s ∷ [] }

-- The flag, set if the group is the one of installable options.
abbrev set_installable : Bool → Statement → Grouping → Grouping
set_installable value s g =
    if starts_with s.value ppd_installable_options
    then record g { inside_installable = value }
    else g

abbrev pub group_by_kind : StatementKind → Statement → Grouping → Grouping
group_by_kind StatementKind.opens_ui s g = open_group g.inside_installable s g
group_by_kind StatementKind.closes_ui s g = record g { inside_open_ui = false }
group_by_kind StatementKind.opens_group s g = set_installable true s g
group_by_kind StatementKind.closes_group s g = set_installable false s g
group_by_kind StatementKind.sub_group s g = g
group_by_kind StatementKind.constraint s g = record g {
  ui_constraints = g.ui_constraints ++ s ∷ [];
}
group_by_kind StatementKind.other s g = place g.inside_installable g.inside_open_ui s g

-- One iteration.
unfoldable pub group_step : Statement → Grouping → Grouping
unfolding statement_kind
group_step s g = group_by_kind (statement_kind s.main_keyword) s g

unfoldable pub group_loop : List Statement → Grouping → Grouping
group_loop [] g = g
group_loop (s ∷ ss) g = group_loop ss (group_step s g)

abbrev pub ungrouped : Grouping
ungrouped = record {
  open_uis = [];
  installables = [];
  ui_constraints = [];
  stand_alones = [];
  inside_open_ui = false;
  inside_installable = false;
}

unfoldable pub group_statements : List Statement → Grouping
unfolding group_loop
group_statements ss = group_loop ss ungrouped
