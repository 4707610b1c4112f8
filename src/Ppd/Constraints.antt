-- ===== src/Ppd/Constraints.antt =====
-- `filterConstraints` of `cups/translate-ppd.go`. A set of pairs is a list.
use cc_deb_pkg.Prelude.{
  ℕ, Bool, false, ◌||◌, ◌&&◌, not, Option, none, some, List, [], ◌∷◌, ◌++◌, map, GoString, str_eq,
  starts_with, trim_prefix, push_byte, ◌==◌, if◌then◌else◌, keep_if,
}
use cc_deb_pkg.Ppd.{Statement}
use cc_deb_pkg.Ppd.Keywords.{ppd_default}

abbrev pub Pair : Type 0
Pair = GoString × GoString

unfoldable pub has_pair : List Pair → Pair → Bool
has_pair [] p = false
has_pair (q ∷ qs) p = let rest = has_pair qs p in (str_eq q.0 p.0 && str_eq q.1 p.1) || rest

-- The pairs of an option and its installed default.
abbrev default_of : Statement → List Pair
default_of s =
    if starts_with s.main_keyword ppd_default
    then (trim_prefix s.main_keyword ppd_default, s.value) ∷ []
    else []

abbrev group_defaults : List Statement → List Pair
group_defaults [] = []
group_defaults (s ∷ ss) = default_of s ++ group_defaults ss

unfoldable pub installed_defaults : List (List Statement) → List Pair
installed_defaults [] = []
installed_defaults (g ∷ gs) = group_defaults g ++ installed_defaults gs

-- `\s`
abbrev pub is_space : ℕ → Bool
is_space c = c == b' ' || c == b'\t' || c == b'\n' || c == 12 || c == b'\r'

-- The text cut at each space, with the empty words between two of them.
unfoldable pub cut_spaces : GoString → List GoString
cut_spaces [] = [] ∷ []
cut_spaces (c ∷ s) = let rest = cut_spaces s in if is_space c then [] ∷ rest else push_byte c rest

-- The words: a run of spaces is one border, and an empty word is left only at the end.
abbrev skip_empty : GoString → List GoString → List GoString
skip_empty [] [] = [] ∷ []
skip_empty [] (w ∷ ws) = w ∷ ws
skip_empty (c ∷ w) ws = (c ∷ w) ∷ ws

abbrev join_runs : List GoString → List GoString
join_runs [] = []
join_runs (w ∷ ws) = skip_empty w (join_runs ws)

unfoldable pub has_star : GoString → Bool
has_star [] = false
has_star (c ∷ s) = let rest = has_star s in c == b'*' || rest

-- A word `*K`, with no other star.
abbrev keyword_of : GoString → Option GoString
keyword_of [] = none
keyword_of (c ∷ []) = none
keyword_of (c ∷ d ∷ k) =
    if c == b'*' then (if has_star (d ∷ k) then none else some (d ∷ k)) else none

abbrev both : Option GoString → GoString → Option GoString → GoString → Option (Pair × Pair)
both (some k) (c ∷ v) (some l) (d ∷ w) = some ((k, c ∷ v), (l, d ∷ w))
both _ _ _ _ = none

abbrev four_words : List GoString → Option (Pair × Pair)
four_words (a ∷ b ∷ c ∷ d ∷ []) = both (keyword_of a) b (keyword_of c) d
four_words _ = none

abbrev begins_with_space : GoString → Bool
begins_with_space [] = false
begins_with_space (c ∷ s) = is_space c

-- The groups of a match of `rConstraint`.
unfoldable pub constraint_match : GoString → Option (Pair × Pair)
unfolding cut_spaces has_star
constraint_match s = if begins_with_space s then none else four_words (join_runs (cut_spaces s))

abbrev constraint_of : List Pair → Option (Pair × Pair) → List Pair
constraint_of installed none = []
constraint_of installed (some (p, q)) = if has_pair installed p then q ∷ [] else []

unfoldable pub constraints : List Pair → List Statement → List Pair
unfolding constraint_match has_pair
constraints installed [] = []
constraints installed (s ∷ ss) =
    constraint_of installed (constraint_match s.value) ++ constraints installed ss

abbrev pub is_allowed : List Pair → Statement → Bool
is_allowed cs s = not (has_pair cs (s.main_keyword, s.option_keyword))

unfoldable pub filter_constraints :
    List (List Statement) → List (List Statement) → List Statement → List (List Statement)
unfolding installed_defaults constraints has_pair keep_if
filter_constraints open_uis installables ui_constraints =
    let cs = constraints (installed_defaults installables) ui_constraints in
    map (keep_if (is_allowed cs)) open_uis
