-- ===== src/Ppd/Entries.antt =====
-- `openUIStatementsToEntries` of `cups/translate-ppd.go`. A panic is `none`.
pub mod Headed
use cc_deb_pkg.Prelude.{
  Bool, true, false, ◌||◌, not, Option, none, some, List, [], ◌∷◌, ◌++◌, GoString, bytes, str_eq,
  starts_with, trim_prefix, if◌then◌else◌,
}
use cc_deb_pkg.Prelude.GoMap.{GoMap, insert}
use cc_deb_pkg.Ppd.{Statement}
use cc_deb_pkg.Ppd.Keywords.{ppd_boolean, ppd_default, ppd_pick_one}

pub data EntryType : Type 0 where
  pick_one boolean : EntryType

pub record Entry : Type 0 where
  pub main_keyword : GoString
  pub translation : GoString
  pub entry_type : EntryType
  pub default_value : GoString
  pub options : List Statement

-- The types that are supported.
unfoldable pub entry_type_of : GoString → Option EntryType
entry_type_of value =
    if str_eq value ppd_pick_one
    then some EntryType.pick_one
    else if str_eq value ppd_boolean
    then some EntryType.boolean
    else none

-- The last default of the statements, or the one from before.
unfoldable pub last_default : GoString → List Statement → GoString
last_default before [] = before
last_default before (s ∷ ss) =
    last_default (if starts_with s.main_keyword ppd_default then s.value else before) ss

unfoldable pub options_of : GoString → List Statement → List Statement
options_of k [] = []
options_of k (s ∷ ss) =
    let rest = options_of k ss in
    if starts_with s.main_keyword ppd_default
    then rest
    else if starts_with s.main_keyword k
    then s ∷ rest
    else rest

unfoldable pub has_option : GoString → List Statement → Bool
has_option value [] = false
has_option value (o ∷ os) = str_eq o.option_keyword value || has_option value os

abbrev non_empty : GoString → GoString → GoString
non_empty [] other = other
non_empty (c ∷ s) other = c ∷ s

abbrev main_keyword_of : Statement → GoString
main_keyword_of head = trim_prefix head.option_keyword (bytes "*")

-- The default that the options have, or the value of the first option.
abbrev with_options : Statement → EntryType → GoString → List Statement → Option Entry
with_options head type default [] = none
with_options head type default (o ∷ os) = some (record {
  main_keyword = main_keyword_of head;
  translation = non_empty head.translation (main_keyword_of head);
  entry_type = type;
  default_value = if has_option default (o ∷ os) then default else o.value;
  options = o ∷ os;
})

abbrev typed_entry : Option EntryType → Statement → List Statement → Option Entry
typed_entry none head group = none
typed_entry (some type) head group =
    with_options head type (last_default [] group) (options_of (main_keyword_of head) group)

-- The entry of a group with this first statement, if the loop does not `continue`.
unfoldable pub entry : Statement → List Statement → Option Entry
unfolding entry_type_of last_default options_of has_option
entry head group = typed_entry (entry_type_of head.value) head group

abbrev pub Entries : Type 0
Entries = GoMap Entry × GoMap Entry

abbrev add_to_entries : Option Entry → Entries → Entries
add_to_entries none es = es
add_to_entries (some e) (by_main_keyword, by_translation) =
    (insert e.main_keyword e by_main_keyword, insert e.translation e by_translation)

unfoldable pub entry_loop : List (List Statement) → Entries → Option Entries
unfolding entry
entry_loop [] es = some es
entry_loop ([] ∷ gs) es = none
entry_loop ((s ∷ group) ∷ gs) es = entry_loop gs (add_to_entries (entry s (s ∷ group)) es)

unfoldable pub open_ui_statements_to_entries : List (List Statement) → Option Entries
unfolding entry_loop
open_ui_statements_to_entries gs = entry_loop gs ([], [])
