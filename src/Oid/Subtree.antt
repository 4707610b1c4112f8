-- ===== src/Oid/Subtree.antt =====
-- `GetSubtree`, `GetVariable` and `GetValue` on a variable set in order, which is how an SNMP walk
-- answers, against a scan of all the variables.
use cc_deb_pkg.Prelude.{
  ℕ, zero, suc, ◌≤◌, ◌<◌, ◌≡◌, refl, sym, ap, inl, inr, true, false, not, Option, none, some, List,
  [], ◌∷◌, length, take, drop, keep_if, All, if◌then◌else◌, arith, Bool-cases,
}
use mathlib.Core.List.{append-nil}
use cc_deb_pkg.Oid.{
  Oid, Variable, VariableSet, comes_before, has_prefix, is_equal_to, at_or_after, tail_loop,
  get_subtree, get_variable, first_equal,
}
use cc_deb_pkg.Oid.Order.{
  comes_before-connected, has_prefix_iff, comes_before_cotrans, is_equal_to_iff,
  has_prefix-not_before, has_prefix_convex,
}
use cc_deb_pkg.Oid.Search.{IsBorder, sort_search-IsBorder}

-- No variable comes before an earlier one.
abbrev pub IsSorted : List Variable → Type 0
IsSorted [] = Unit
IsSorted (v ∷ vars) = All (λ w. comes_before w.name v.name ≡ false) vars × IsSorted vars

-- How many variables stand at the front that come before `p`.
border : List Variable → Oid → ℕ
border [] p = 0
border (v ∷ vars) p = let rest = border vars p in if comes_before v.name p then suc rest else 0

border-le : (vars : List Variable) (p : Oid) → border vars p ≤ length vars
unfolding border
border-le [] p = omega arith
border-le (v ∷ vars) p = ground (arith, border-le vars p)

at_or_after-below :
    (vars : List Variable) (p : Oid) (i : ℕ) → i < border vars p → at_or_after vars p i ≡ false
unfolding border at_or_after
at_or_after-below [] p i h = absurd (omega arith)
at_or_after-below (v ∷ vars) p zero h = ground arith
at_or_after-below (v ∷ vars) p (suc i) h = ground (arith, at_or_after-below vars p i)

-- In order, what follows a variable that is not before `p` is not before `p` either.
All-not_before :
    (v : Variable) (vars : List Variable) (p : Oid)
    → comes_before v.name p ≡ false
    → All (λ w. comes_before w.name v.name ≡ false) vars
    → All (λ w. comes_before w.name p ≡ false) vars
All-not_before v [] p h a = tt
All-not_before v (w ∷ vars) p h a =
    (comes_before_cotrans v.name w.name p a.0 h, All-not_before v vars p h a.1)

at_or_after-All :
    (vars : List Variable) (p : Oid) (i : ℕ)
    → All (λ w. comes_before w.name p ≡ false) vars
    → at_or_after vars p i ≡ true
unfolding at_or_after
at_or_after-All [] p i a = refl
at_or_after-All (v ∷ vars) p zero a = ap not a.0
at_or_after-All (v ∷ vars) p (suc i) a = at_or_after-All vars p i a.1

at_or_after-above :
    (vars : List Variable) (p : Oid) (i : ℕ)
    → IsSorted vars
    → border vars p ≤ i
    → at_or_after vars p i ≡ true
unfolding border at_or_after
at_or_after-above [] p i s h = refl
at_or_after-above (v ∷ vars) p zero s h = ground arith
at_or_after-above (v ∷ vars) p (suc i) s h =
    ground
      (arith, at_or_after-above vars p i s.1, at_or_after-All vars p i, All-not_before v vars p)

border-IsBorder :
    (vars : List Variable) (p : Oid)
    → IsSorted vars
    → IsBorder (at_or_after vars p) (border vars p) (length vars)
border-IsBorder vars p s = record {
  below = λ i h. at_or_after-below vars p i h;
  above = λ i h m. at_or_after-above vars p i s h;
}

-- Every variable of `vars` from the first one that is not before `p`, in order, keeps the prefix
-- or has lost it for good.
no_prefix-after :
    (v : Variable) (vars : List Variable) (p : Oid)
    → comes_before v.name p ≡ false
    → has_prefix v.name p ≡ false
    → All (λ w. comes_before w.name v.name ≡ false) vars
    → keep_if (λ w. has_prefix w.name p) vars ≡ []
unfolding keep_if
no_prefix-after v [] p h n a = refl
no_prefix-after v (w ∷ vars) p h n a =
    ground (arith, has_prefix_convex v.name w.name p h a.0, no_prefix-after v vars p h n a.1)

tail_loop-keep_if :
    (vars : List Variable) (p : Oid)
    → IsSorted vars
    → All (λ w. comes_before w.name p ≡ false) vars
    → take (tail_loop vars p) vars ≡ keep_if (λ w. has_prefix w.name p) vars
unfolding tail_loop keep_if
tail_loop-keep_if [] p s a = refl
tail_loop-keep_if (v ∷ vars) p s a =
    ground (arith, tail_loop-keep_if vars p s.1 a.1, no_prefix-after v vars p a.0)

from_border-keep_if :
    (vars : List Variable) (p : Oid)
    → IsSorted vars
    → let rest = drop (border vars p) vars in
      take (tail_loop rest p) rest ≡ keep_if (λ w. has_prefix w.name p) vars
unfolding border keep_if
from_border-keep_if [] p s = unfold tail_loop in refl
from_border-keep_if (v ∷ vars) p s = elim (Bool-cases (comes_before v.name p)) [
  | inl before ↦
      rw before (ground (arith, from_border-keep_if vars p s.1, has_prefix-not_before v.name p))
  | inr after ↦
      rw after (tail_loop-keep_if (v ∷ vars) p s (after, All-not_before v vars p after s.0))
]

-- On variables in order, `GetSubtree` returns exactly the variables whose name has the prefix, in
-- their order.
pub get_subtree-keep_if :
    (vs : VariableSet) (p : Oid)
    → IsSorted vs.vars
    → (get_subtree vs p).vars ≡ keep_if (λ w. has_prefix w.name p) vs.vars
unfolding get_subtree
get_subtree-keep_if vs p s =
    rw
      (sort_search-IsBorder n (at_or_after vs.vars p) 0 n (border vs.vars p) n
        (border-IsBorder vs.vars p s) (omega arith) (border-le vs.vars p) (omega arith)
        (omega arith))
      (from_border-keep_if vs.vars p s)
  where
    n : ℕ
    n = length vs.vars

-- The first variable named `o`, by a scan.
pub scan : List Variable → Oid → Option Variable
scan [] o = none
scan (v ∷ vars) o = if is_equal_to v.name o then some v else scan vars o

before_extension :
    (a p : Oid) → has_prefix a p ≡ true → is_equal_to a p ≡ false → comes_before p a ≡ true
before_extension a p h n =
    ground (arith, is_equal_to_iff a p, has_prefix-not_before a p h, comes_before-connected a p)

scan-none :
    (v : Variable) (vars : List Variable) (o : Oid)
    → comes_before o v.name ≡ true
    → All (λ w. comes_before w.name v.name ≡ false) vars
    → scan vars o ≡ none
unfolding scan
scan-none v [] o h a = refl
scan-none v (w ∷ vars) o h a =
    ground (arith, a.0, is_equal_to_iff w.name o, scan-none v vars o h a.1)

has_prefix_self : (o : Oid) → has_prefix o o ≡ true
has_prefix_self o = (has_prefix_iff o o).1 ([], sym (append-nil o))

first_equal-scan :
    (vars : List Variable) (o : Oid)
    → IsSorted vars
    → first_equal (keep_if (λ w. has_prefix w.name o) vars) o ≡ scan vars o
unfolding first_equal scan keep_if
first_equal-scan [] o s = refl
first_equal-scan (v ∷ vars) o s = ground (
  arith,
  first_equal-scan vars o s.1,
  scan-none v vars o,
  before_extension v.name o,
  is_equal_to_iff v.name o,
  has_prefix_self o,
)

-- On variables in order, `GetVariable` finds the first variable whose name is the OID, if there is
-- one, and nothing else.
pub get_variable-scan :
    (vs : VariableSet) (o : Oid) → IsSorted vs.vars → get_variable vs o ≡ scan vs.vars o
unfolding get_variable
get_variable-scan vs o s = rw (get_subtree-keep_if vs o s) (first_equal-scan vs.vars o s)
