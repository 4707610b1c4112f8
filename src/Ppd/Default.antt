-- ===== src/Ppd/Default.antt =====
-- The end of `convertDPI` and `convertColorPPD` of `cups/translate-ppd.go`: the first option with the ID
-- of the default is the default, or else the first option.
use cc_deb_pkg.Prelude.{
  ℕ, ◌+◌, ◌≡◌, refl, subst, Bool, true, false, Bool-cases, inl, inr, Option, none, some, of_some,
  List, [], ◌∷◌, All, GoString, str_eq, if◌then◌else◌, arith,
}

module _ {A : Type 0} (id_of : A → GoString) (mark : A → A) where
  abbrev push_option : A → Option (List A) → Option (List A)
  push_option o none = none
  push_option o (some os) = some (o ∷ os)

  -- The options with the first one of the ID marked; `none` if there is none.
  unfoldable pub mark_default : GoString → List A → Option (List A)
  mark_default default [] = none
  mark_default default (o ∷ os) =
      let rest = mark_default default os in
      if str_eq (id_of o) default then some (mark o ∷ os) else push_option o rest

  abbrev or_first : List A → Option (List A) → Option (List A)
  or_first [] marked = none
  or_first (o ∷ os) none = some (mark o ∷ os)
  or_first (o ∷ os) (some marked) = some marked

  -- `none` is nil, on no options.
  unfoldable pub with_default : GoString → List A → Option (List A)
  unfolding mark_default
  with_default default os = or_first os (mark_default default os)

  module _ (is_default : A → Bool) (P : A → Type 0) where
    -- How many options are the default.
    abbrev pub defaults : List A → ℕ
    defaults [] = 0
    defaults (o ∷ os) = (if is_default o then 1 else 0) + defaults os

    -- One default, and the property of each option.
    pub record IsMarked (os : List A) : Type 0 where
      pub one_default : defaults os ≡ 1
      pub each : All P os

    pub record IsPlain (o : A) : Type 0 where
      pub holds : P o
      pub plain : is_default o ≡ false

    defaults-IsPlain : (os : List A) → All IsPlain os → defaults os ≡ 0
    defaults-IsPlain [] h = refl
    defaults-IsPlain (o ∷ os) (p, h) = ground (arith, p.plain, defaults-IsPlain os h)

    each-IsPlain : (os : List A) → All IsPlain os → All P os
    each-IsPlain [] h = tt
    each-IsPlain (o ∷ os) (p, h) = (p.holds, each-IsPlain os h)

    module _ (marked : (o : A) → is_default (mark o) ≡ true)
        (kept : (o : A) → P o → P (mark o)) where
      mark-IsMarked : (o : A) (os : List A) → All IsPlain (o ∷ os) → IsMarked (mark o ∷ os)
      mark-IsMarked o os (p, h) = record {
        one_default = ground (arith, marked o, defaults-IsPlain os h);
        each = (kept o p.holds, each-IsPlain os h);
      }

      push_option-IsMarked :
          (o : A) (rest : Option (List A)) (r : List A)
          → IsPlain o
          → ((os : List A) → rest ≡ some os → IsMarked os)
          → push_option o rest ≡ some r
          → IsMarked r
      push_option-IsMarked o none r p h e = absurd cc
      push_option-IsMarked o (some os) r p h e =
          let m = h os refl in
          subst IsMarked (of_some e) (record {
            one_default = ground (arith, p.plain, m.one_default);
            each = (p.holds, m.each);
          })

      mark_default-IsMarked :
          (default : GoString) (os r : List A)
          → All IsPlain os
          → mark_default default os ≡ some r
          → IsMarked r
      unfolding mark_default
      mark_default-IsMarked default [] r h e = absurd cc
      mark_default-IsMarked default (o ∷ os) r (p, h) e =
          elim (Bool-cases (str_eq (id_of o) default)) [
            | inl q ↦ subst IsMarked (of_some (rw q at e)) (mark-IsMarked o os (p, h))
            | inr q ↦
                push_option-IsMarked o (mark_default default os) r p
                  (λ rest. mark_default-IsMarked default os rest h) (rw q at e)
          ]

      or_first-IsMarked :
          (os : List A) (m : Option (List A)) (r : List A)
          → All IsPlain os
          → ((ms : List A) → m ≡ some ms → IsMarked ms)
          → or_first os m ≡ some r
          → IsMarked r
      or_first-IsMarked [] m r h hm e = absurd cc
      or_first-IsMarked (o ∷ os) none r h hm e = subst IsMarked (of_some e) (mark-IsMarked o os h)
      or_first-IsMarked (o ∷ os) (some ms) r h hm e = subst IsMarked (of_some e) (hm ms refl)

      pub with_default-IsMarked :
          (default : GoString) (os r : List A)
          → All IsPlain os
          → with_default default os ≡ some r
          → IsMarked r
      unfolding with_default
      with_default-IsMarked default os r h =
          or_first-IsMarked os (mark_default default os) r h
            (λ ms. mark_default-IsMarked default os ms h)
