-- ===== src/Prelude/Reordered.antt =====
-- A predicate of every entry of a list is one of every entry of a permutation of it.
use mathlib.Core.Path.{subst}
use mathlib.Core.List.{List, Permᴰ}
use cc_deb_pkg.Prelude.Lists.{All}

pub All-Permᴰ {ℓ κ} :
    {A : Type ℓ} (P : A → Type κ) {xs ys : List A} → Permᴰ xs ys → All P xs → All P ys
All-Permᴰ P Permᴰ.nil a = a
All-Permᴰ P (Permᴰ.cons e p) a = (subst P e a.0, All-Permᴰ P p a.1)
All-Permᴰ P (Permᴰ.swap e f) a = (subst P f a.1.0, (subst P e a.0, a.1.1))
All-Permᴰ P (Permᴰ.trans p q) a = All-Permᴰ P q (All-Permᴰ P p a)
