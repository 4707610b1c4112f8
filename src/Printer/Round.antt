-- ===== src/Printer/Round.antt =====
-- The rounds of the first loop of `DiffPrinters` that do not panic, by their branch.
use cc_deb_pkg.Prelude.{
  ◌≡◌, refl, ap, subst, true, false, Option, none, some, List, ◌∷◌, Option-cases, Bool-cases, inl,
  inr, if◌then◌else◌, of_some,
}
use cc_deb_pkg.Prelude.GoMap.{GoMap, lookup}
use cc_deb_pkg.Printer.{
  Printer, PrinterDiff, plain_diff, delete_printer, register_printer, diff_printer,
}
use cc_deb_pkg.Printer.Sync.{
  DiffState, exists_key, push_diff, push_compared, consider, adopt, compare_known, gcp_step,
  gcp_loop, cups_loop,
}

-- The state behind a round: a second printer of a name, a printer that CUPS does not have, or a
-- printer compared with that of CUPS.
pub data Round (cups : GoMap Printer) (st : DiffState) (g : Printer) : DiffState → Type 0 where
  duplicate :
      exists_key g.name st.considered ≡ true
      → Round cups st g (push_diff st (plain_diff delete_printer g))
  unknown :
      exists_key g.name st.considered ≡ false
      → lookup g.name cups ≡ none
      → Round cups st g (push_diff (consider st g) (plain_diff delete_printer g))
  compared :
      {c : Printer} {d : PrinterDiff}
      → exists_key g.name st.considered ≡ false
      → lookup g.name cups ≡ some c
      → diff_printer (adopt c g) g ≡ some d
      → Round cups st g (push_compared (consider st g) d)

none≢some : {A : Type 0} {a : A} → ¬ (none ≡ some a)
none≢some h = cc

module _ (cups : GoMap Printer) (st st' : DiffState) (g : Printer) where
  compare_known-Round :
      (found : Option Printer)
      → exists_key g.name st.considered ≡ false
      → lookup g.name cups ≡ found
      → compare_known (consider st g) g found ≡ some st'
      → Round cups st g st'
  unfolding compare_known
  compare_known-Round none new e h = subst (Round cups st g) (of_some h) (unknown new e)
  compare_known-Round (some c) new e h = elim (Option-cases (diff_printer (adopt c g) g)) [
    | inl panic ↦ absurd (none≢some (rw panic at h))
    | inr (d, answered) ↦
        subst (Round cups st g) (of_some (rw answered at h)) (compared new e answered)
  ]

  pub gcp_step-Round : gcp_step cups st g ≡ some st' → Round cups st g st'
  unfolding gcp_step
  gcp_step-Round h = elim (Bool-cases (exists_key g.name st.considered)) [
    | inl seen ↦ subst (Round cups st g) (of_some (rw seen at h)) (duplicate seen)
    | inr new ↦ compare_known-Round (lookup g.name cups) new refl (rw new at h)
  ]

-- A run of the loop over one printer more is a round and a run over the rest.
pub gcp_loop-Round :
    (cups : GoMap Printer) (st st' : DiffState) (g : Printer) (gs : List Printer)
    → gcp_loop cups st (g ∷ gs) ≡ some st'
    → (mid : DiffState) × Round cups st g mid × (gcp_loop cups mid gs ≡ some st')
unfolding gcp_loop
gcp_loop-Round cups st st' g gs h = elim (Option-cases (gcp_step cups st g)) [
  | inl panic ↦ absurd (none≢some (rw (panic, gcp_loop) at h))
  | inr (mid, e) ↦ (mid, gcp_step-Round cups st mid g e, rw (e, gcp_loop) at h)
]

module _ (st : DiffState) (c : Printer) (cs : List Printer) where
  pub cups_loop-seen :
      exists_key c.name st.considered ≡ true → cups_loop st (c ∷ cs) ≡ cups_loop st cs
  unfolding cups_loop
  cups_loop-seen seen =
      ap (λ b. cups_loop (if b then st else push_diff st (plain_diff register_printer c)) cs) seen

  pub cups_loop-new :
      exists_key c.name st.considered ≡ false
      → cups_loop st (c ∷ cs) ≡ cups_loop (push_diff st (plain_diff register_printer c)) cs
  unfolding cups_loop
  cups_loop-new new =
      ap (λ b. cups_loop (if b then st else push_diff st (plain_diff register_printer c)) cs) new
