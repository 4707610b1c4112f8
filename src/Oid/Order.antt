-- ===== src/Oid/Order.antt =====
-- `ComesBefore`, `HasPrefix` and `IsEqualTo` against their structural descriptions.
use cc_deb_pkg.Prelude.{
  ◌≡◌, refl, sym, ◌∙◌, ◌↔◌, Bool, true, false, [], ◌∷◌, ◌++◌, length, ltb, if◌then◌else◌, arith,
  length-append,
}
use cc_deb_pkg.Oid.{Oid, prefix_loop, has_prefix, equal_loop, is_equal_to, comes_before}

-- The lexicographic order by recursion: the description that `ComesBefore` is held to.
pub lex_before : Oid → Oid → Bool
lex_before [] [] = false
lex_before [] (y ∷ b) = true
lex_before (x ∷ a) [] = false
lex_before (x ∷ a) (y ∷ b) =
    let rest = lex_before a b in if ltb x y then true else if ltb y x then false else rest

-- The loop and the comparison of lengths behind it decide the lexicographic order.
pub comes_before-lex : (a b : Oid) → comes_before a b ≡ lex_before a b
unfolding comes_before lex_before
comes_before-lex [] [] = refl
comes_before-lex [] (y ∷ b) = ground arith
comes_before-lex (x ∷ a) [] = ground arith
comes_before-lex (x ∷ a) (y ∷ b) = ground (arith, comes_before-lex a b)

lex_irrefl : (a : Oid) → lex_before a a ≡ false
unfolding lex_before
lex_irrefl [] = refl
lex_irrefl (x ∷ a) = ground (arith, lex_irrefl a)

lex_trans : (a b c : Oid) → lex_before a b ≡ true → lex_before b c ≡ true → lex_before a c ≡ true
unfolding lex_before
lex_trans [] [] c p q = ground arith
lex_trans [] (y ∷ b) [] p q = ground arith
lex_trans [] (y ∷ b) (z ∷ c) p q = refl
lex_trans (x ∷ a) [] c p q = ground arith
lex_trans (x ∷ a) (y ∷ b) [] p q = ground arith
lex_trans (x ∷ a) (y ∷ b) (z ∷ c) p q = ground (arith, lex_trans a b c)

lex_total : (a b : Oid) → lex_before a b ≡ false → lex_before b a ≡ false → a ≡ b
unfolding lex_before
lex_total [] [] p q = refl
lex_total [] (y ∷ b) p q = ground arith
lex_total (x ∷ a) [] p q = ground arith
lex_total (x ∷ a) (y ∷ b) p q = ground (arith, lex_total a b)

lex_cotrans :
    (a b c : Oid) → lex_before b a ≡ false → lex_before a c ≡ false → lex_before b c ≡ false
unfolding lex_before
lex_cotrans a [] [] p q = refl
lex_cotrans [] [] (z ∷ c) p q = ground arith
lex_cotrans (x ∷ a) [] (z ∷ c) p q = ground arith
lex_cotrans a (y ∷ b) [] p q = refl
lex_cotrans [] (y ∷ b) (z ∷ c) p q = ground arith
lex_cotrans (x ∷ a) (y ∷ b) (z ∷ c) p q = ground (arith, lex_cotrans a b c)

comes_before_strict_total :
    (a b c : Oid)
    → (comes_before a a ≡ false)
      × (comes_before a b ≡ true → comes_before b c ≡ true → comes_before a c ≡ true)
      × (comes_before a b ≡ false → comes_before b a ≡ false → a ≡ b)
comes_before_strict_total a b c =
    rw
      (
        comes_before-lex a a,
        comes_before-lex a b,
        comes_before-lex b c,
        comes_before-lex a c,
        comes_before-lex b a,
      )
      (lex_irrefl a, lex_trans a b c, lex_total a b)

-- An OID that comes before one that comes before a third comes before the third.
pub comes_before_trans :
    (a b c : Oid) → comes_before a b ≡ true → comes_before b c ≡ true → comes_before a c ≡ true
comes_before_trans a b c = (comes_before_strict_total a b c).1

-- Two OIDs of which neither comes before the other are the same.
pub comes_before-connected :
    (a b : Oid) → comes_before a b ≡ false → comes_before b a ≡ false → a ≡ b
comes_before-connected a b = (comes_before_strict_total a b b).2

-- If `b` is not before `a`, and `a` is not before `c`, then `b` is not before `c`.
pub comes_before_cotrans :
    (a b c : Oid) → comes_before b a ≡ false → comes_before a c ≡ false → comes_before b c ≡ false
comes_before_cotrans a b c p q =
    comes_before-lex b c
    ∙ lex_cotrans a b c (sym (comes_before-lex b a) ∙ p) (sym (comes_before-lex a c) ∙ q)

prefix_loop-append : (b rest : Oid) → prefix_loop (b ++ rest) b ≡ true
unfolding prefix_loop
prefix_loop-append [] rest = refl
prefix_loop-append (y ∷ b) rest = ground (arith, prefix_loop-append b rest)

prefix_rest : (a b : Oid) → prefix_loop a b ≡ true → (rest : Oid) × (a ≡ b ++ rest)
unfolding prefix_loop
prefix_rest a [] h = (a, refl)
prefix_rest [] (y ∷ b) h = cc
prefix_rest (x ∷ a) (y ∷ b) h =
    let (rest, e) = prefix_rest a b (ground arith) in (rest, ground arith)

-- `HasPrefix` holds exactly when the OID is the prefix followed by something.
pub has_prefix_iff : (a b : Oid) → (has_prefix a b ≡ true) ↔ ((rest : Oid) × (a ≡ b ++ rest))
unfolding has_prefix
has_prefix_iff a b = (
  λ h. prefix_rest a b (ground arith),
  λ (rest, e). rw e (ground (arith, prefix_loop-append b rest, length-append b rest)),
)

equal_loop_sound : (a b : Oid) → length a ≡ length b → equal_loop a b ≡ true → a ≡ b
unfolding equal_loop
equal_loop_sound [] [] l h = refl
equal_loop_sound [] (y ∷ b) l h = absurd (omega arith)
equal_loop_sound (x ∷ a) [] l h = absurd (omega arith)
equal_loop_sound (x ∷ a) (y ∷ b) l h = ground (arith, equal_loop_sound a b)

equal_loop_refl : (a : Oid) → equal_loop a a ≡ true
unfolding equal_loop
equal_loop_refl [] = refl
equal_loop_refl (x ∷ a) = ground (arith, equal_loop_refl a)

-- `IsEqualTo` decides equality.
pub is_equal_to_iff : (a b : Oid) → (is_equal_to a b ≡ true) ↔ (a ≡ b)
unfolding is_equal_to
is_equal_to_iff a b = (
  λ h. equal_loop_sound a b (ground arith) (ground arith),
  λ e. rw e (ground (arith, equal_loop_refl b)),
)

lex-append : (p rest : Oid) → lex_before (p ++ rest) p ≡ false
unfolding lex_before
lex-append [] [] = refl
lex-append [] (x ∷ rest) = refl
lex-append (y ∷ p) rest = ground (arith, lex-append p rest)

-- An OID with the prefix does not come before it.
pub has_prefix-not_before : (a p : Oid) → has_prefix a p ≡ true → comes_before a p ≡ false
has_prefix-not_before a p h =
    let (rest, e) = (has_prefix_iff a p).0 h in rw (comes_before-lex, e) (lex-append p rest)

lex_between :
    (a c p : Oid)
    → lex_before a p ≡ false
    → lex_before (p ++ c) a ≡ false
    → (rest : Oid) × (a ≡ p ++ rest)
unfolding lex_before
lex_between a c [] h k = (a, refl)
lex_between [] c (y ∷ p) h k = cc
lex_between (x ∷ a) c (y ∷ p) h k =
    let (rest, e) = lex_between a c p (ground arith) (ground arith) in (rest, ground arith)

-- Between the prefix and an OID that has it, every OID has it.
pub has_prefix_convex :
    (a b p : Oid)
    → comes_before a p ≡ false
    → comes_before b a ≡ false
    → has_prefix b p ≡ true
    → has_prefix a p ≡ true
has_prefix_convex a b p h k e =
    let (c, d) = (has_prefix_iff b p).0 e in
    (has_prefix_iff a p).1 (
      lex_between a c p (sym (comes_before-lex a p) ∙ h)
        (sym (comes_before-lex (p ++ c) a) ∙ rw (← d) k))
