-- ===== src/Oid/Quotes.antt =====
-- What `AddVariable` does with quotation marks.
use mathlib.Core.List.{reverse-append}
use cc_deb_pkg.Prelude.{
  ◌≡◌, refl, ap, ◌↔◌, true, none, some, [], ◌∷◌, ◌++◌, length, take, arith, GoString, starts_with,
  ends_with, length-append,
}
use cc_deb_pkg.Oid.{Oid, VariableSet, add_variable}

abbrev quote : GoString
quote = b'"' ∷ []

take_of_append : (s t : GoString) → take (length s) (s ++ t) ≡ s
take_of_append [] t = refl
take_of_append (x ∷ s) t = ap (◌∷◌ x) (take_of_append s t)

ends_with-quote : (s : GoString) → ends_with (s ++ quote) quote ≡ true
unfolding ends_with starts_with
ends_with-quote s = rw (reverse-append s quote) (ground arith)

none-quote :
    (vs : VariableSet) (name : Oid) (value : GoString)
    → add_variable vs name value ≡ none
    → value ≡ quote
unfolding add_variable starts_with
none-quote vs name [] h = cc
none-quote vs name (c ∷ []) h = ground arith
none-quote vs name (c ∷ d ∷ s) h = ground arith

quote-none : (vs : VariableSet) (name : Oid) → add_variable vs name quote ≡ none
unfolding add_variable starts_with ends_with
quote-none vs name = refl

-- `AddVariable` panics exactly on a value that is one quotation mark.
pub add_variable-none_iff :
    (vs : VariableSet) (name : Oid) (value : GoString)
    → (add_variable vs name value ≡ none) ↔ (value ≡ b'"' ∷ [])
add_variable-none_iff vs name value = (none-quote vs name value, λ e. rw e (quote-none vs name))

-- A value in quotation marks is stored without them, behind the variables that are there.
pub add_variable-quoted :
    (vs : VariableSet) (name : Oid) (s : GoString)
    → add_variable vs name (b'"' ∷ (s ++ b'"' ∷ []))
      ≡ some (record { vars = vs.vars ++ record { name = name; value = s } ∷ [] })
unfolding add_variable starts_with
add_variable-quoted vs name s =
    rw (ends_with-quote (b'"' ∷ s)) (ground (arith, length-append s quote, take_of_append s quote))
