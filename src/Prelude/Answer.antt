-- ===== src/Prelude/Answer.antt =====
-- What a function that returns a pointer or an error does: it panics, it returns nil or `false`, or it
-- returns a value.
pub data Answer {ℓ} (A : Type ℓ) : Type ℓ where
  panicked : Answer A
  unavailable : Answer A
  available : A → Answer A

-- `abbrev`, so that `available a >>= f` computes wherever it stands.
infixl 5 ◌>>=◌
abbrev pub ◌>>=◌ {ℓ κ} : {A : Type ℓ} {B : Type κ} → Answer A → (A → Answer B) → Answer B
panicked >>= f = panicked
unavailable >>= f = unavailable
available a >>= f = f a
