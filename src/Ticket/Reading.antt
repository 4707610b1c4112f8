-- ===== src/Ticket/Reading.antt =====
-- The pairs of a key and a value that `rVendorIDKeyValue` of `cups/translate-ticket.go` finds.
use cc_deb_pkg.Prelude.{
  ℕ, ◌≡◌, ◌≢◌, ◌↔◌, refl, sym, subst, ap, ◌∙◌, of_some, false, Bool-cases, inl, inr, ◌==◌, ==_iff,
  Option, none, some, [], ◌∷◌, ◌++◌, All, GoString, arith,
}
use cc_deb_pkg.Ticket.{cut_colon, groups, has_newline, push_key, vendor_id_key_value}

-- A key with no colon, a colon, and a value with no line break; neither is empty.
pub record IsKeyValue (id key value : GoString) : Type 0 where
  pub key_filled : key ≢ []
  pub value_filled : value ≢ []
  pub plain : All (λ c. c ≢ b':') key
  pub one_line : All (λ c. c ≢ b'\n') value
  pub all : id ≡ key ++ b':' ∷ value

-- It finds a pair exactly where there is one.
abbrev pub IsReading : (GoString → Option (GoString × GoString)) → Type 0
IsReading read = (id key value : GoString) → (read id ≡ some (key, value)) ↔ IsKeyValue id key value

-- A pair with a value that is empty is none.
abbrev pub valued : Option (GoString × GoString) → Option (GoString × GoString)
valued (some (k, c ∷ v)) = some (k, c ∷ v)
valued _ = none

abbrev pub code_reading : GoString → Option (GoString × GoString)
code_reading id = valued (vendor_id_key_value id)

abbrev IsCut : GoString → GoString × Option GoString → Type 0
IsCut id (key, none) = Unit
IsCut id (key, some value) = All (λ c. c ≢ b':') key × (id ≡ key ++ b':' ∷ value)

push-IsCut :
    (c : ℕ) (id : GoString) (cut : GoString × Option GoString)
    → c ≢ b':'
    → IsCut id cut
    → IsCut (c ∷ id) (push_key c cut)
push-IsCut c id (key, none) n h = tt
push-IsCut c id (key, some value) n (plain, e) = ((n, plain), ap (λ s. c ∷ s) e)

cut_colon-IsCut : (id : GoString) → IsCut id (cut_colon id)
unfolding cut_colon
cut_colon-IsCut [] = tt
cut_colon-IsCut (c ∷ id) = elim (Bool-cases (c == b':')) [
  | inl q ↦ rw q (tt, ap (λ b. b ∷ id) ((==_iff c b':').0 q))
  | inr q ↦
      rw q
        (push-IsCut c id (cut_colon id) (λ e. absurd (ground (arith, q, e))) (cut_colon-IsCut id))
]

cut_colon-colon :
    (key value : GoString)
    → All (λ c. c ≢ b':') key
    → cut_colon (key ++ b':' ∷ value) ≡ (key, some value)
unfolding cut_colon
cut_colon-colon [] value plain = refl
cut_colon-colon (c ∷ key) value (n, plain) = elim (Bool-cases (c == b':')) [
  | inl q ↦ absurd (n ((==_iff c b':').0 q))
  | inr q ↦ rw q (ap (push_key c) (cut_colon-colon key value plain))
]

has_newline_iff : (s : GoString) → (has_newline s ≡ false) ↔ All (λ c. c ≢ b'\n') s
unfolding has_newline
has_newline_iff [] = (λ h. tt, λ h. refl)
has_newline_iff (c ∷ s) = (
  (λ h. ((λ e. absurd (ground (arith, h, e))), (has_newline_iff s).0 (ground (arith, h)))),
  (λ (n, h). ground (arith, n, (has_newline_iff s).1 h)),
)

groups_sound :
    (id key value : GoString) (cut : GoString × Option GoString)
    → IsCut id cut
    → valued (groups cut) ≡ some (key, value)
    → IsKeyValue id key value
groups_sound id key value ([], v) h e = absurd cc
groups_sound id key value (c ∷ k, none) h e = absurd cc
groups_sound id key value (c ∷ k, some []) h e = absurd cc
groups_sound id key value (c ∷ k, some (d ∷ v)) (plain, all) e =
    elim (Bool-cases (has_newline (d ∷ v))) [
      | inl q ↦ absurd (no_pair (rw q at e))
      | inr q ↦
          subst (λ p. IsKeyValue id p.0 p.1) (of_some (rw q at e))
            (record {
              key_filled = λ h. absurd cc;
              value_filled = λ h. absurd cc;
              plain = plain;
              one_line = (has_newline_iff (d ∷ v)).0 q;
              all = all;
            })
    ]
  where
    no_pair : {p : GoString × GoString} → none ≢ some p
    no_pair h = absurd cc

groups_complete :
    (key value : GoString)
    → key ≢ []
    → value ≢ []
    → All (λ c. c ≢ b'\n') value
    → valued (groups (key, some value)) ≡ some (key, value)
groups_complete [] value n m h = absurd (n refl)
groups_complete (c ∷ key) [] n m h = absurd (m refl)
groups_complete (c ∷ key) (d ∷ value) n m h = rw ((has_newline_iff (d ∷ value)).1 h) refl

pub code_reading-IsReading : IsReading code_reading
unfolding vendor_id_key_value
code_reading-IsReading id key value = (
  groups_sound id key value (cut_colon id) (cut_colon-IsCut id),
  (λ h.
      ap (λ s. valued (groups (cut_colon s))) h.all
      ∙ ap (λ cut. valued (groups cut)) (cut_colon-colon key value h.plain)
      ∙ groups_complete key value h.key_filled h.value_filled h.one_line),
)

same_answers :
    (a b : Option (GoString × GoString))
    → ((p : GoString × GoString) → (a ≡ some p) ↔ (b ≡ some p))
    → a ≡ b
same_answers none none h = refl
same_answers (some p) b h = sym ((h p).0 refl)
same_answers none (some q) h = (h q).1 refl

-- There is one reading.
pub IsReading-unique :
    (read : GoString → Option (GoString × GoString))
    → IsReading read
    → (id : GoString) → code_reading id ≡ read id
IsReading-unique read r id = same_answers _ _ (λ p. (
  (λ h. (r id p.0 p.1).1 ((code_reading-IsReading id p.0 p.1).0 h)),
  (λ h. (code_reading-IsReading id p.0 p.1).1 ((r id p.0 p.1).0 h)),
))
