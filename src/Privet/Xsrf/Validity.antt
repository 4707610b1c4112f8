-- ===== src/Privet/Xsrf/Validity.antt =====
-- When `isTokenValidProvideTime` of `privet/xsrf.go` accepts a token.
use cc_deb_pkg.Prelude.{
  ℕ, zero, suc, ◌+◌, ◌≤◌, arith, ◌≡◌, ◌≢◌, refl, sym, ap, ◌∙◌, ◌↔◌, subst, Bool, true, false, not,
  Option, some, Option-cases, inl, inr, [], ◌∷◌, ◌++◌, length, length-append, take, drop, GoString,
  str_eq_of_eq, str_eq_sound, ◌==◌, ==_iff, if◌then◌else◌, pos, pos_part, neg_part, ltb_ℤ,
}
use cc_deb_pkg.Privet.Xsrf.{
  Moment, bytes_to_int64, from_unix, int64_to_bytes, is_payload_valid, is_token_valid, new_token,
  sub, sum_size, token_timeout, unix,
}
use cc_deb_pkg.Privet.Xsrf.Words.{IsInt64, bytes_to_int64-int64_to_bytes, length-int64_to_bytes}

-- t ≤ u
abbrev pub NotAfter : Moment → Moment → Type 0
NotAfter t u = pos_part t + neg_part u ≤ pos_part u + neg_part t

-- u ≤ t + n
abbrev pub Within : ℕ → Moment → Moment → Type 0
Within n t u = pos_part u + neg_part t ≤ pos_part t + neg_part u + n

-- The moments at which a token of the time `t` may be used.
pub record IsFresh (t now : Moment) : Type 0 where
  pub begun : NotAfter (from_unix (unix t)) now
  pub unexpired : Within token_timeout (from_unix (unix t)) now

take_of_append : (s t : GoString) → take (length s) (s ++ t) ≡ s
take_of_append [] t = refl
take_of_append (x ∷ s) t = ap (◌∷◌ x) (take_of_append s t)

drop_of_append : (s t : GoString) → drop (length s) (s ++ t) ≡ t
drop_of_append [] t = refl
drop_of_append (x ∷ s) t = drop_of_append s t

expired_iff :
    (t now : Moment) → (ltb_ℤ (pos token_timeout) (sub now t) ≡ false) ↔ Within token_timeout t now
unfolding sub
expired_iff t now = ground arith

early_iff : (t now : Moment) → (ltb_ℤ (pos 0) (sub t now) ≡ false) ↔ NotAfter t now
unfolding sub
early_iff t now = ground arith

all_pass_iff :
    (expired early signed : Bool)
    → ((if expired then false else if early then false else if not signed then false else true)
        ≡ true)
      ↔ ((signed ≡ true) × ((early ≡ false) × (expired ≡ false)))
all_pass_iff expired early signed = ground arith

first_pass : (c rest : Bool) → (if not c then false else rest) ≡ true → c ≡ true
first_pass true rest h = refl
first_pass false rest h = h

no_payload : false ≢ true
no_payload h = absurd cc

take-drop : (n : ℕ) (s : GoString) → take n s ++ drop n s ≡ s
take-drop zero s = refl
take-drop (suc n) [] = refl
take-drop (suc n) (x ∷ s) = ap (◌∷◌ x) (take-drop n s)

length-take : (n m : ℕ) (s : GoString) → length s ≡ n + m → length (take n s) ≡ n
length-take zero m s h = refl
length-take (suc n) m [] h = absurd (omega arith)
length-take (suc n) m (x ∷ s) h = ap suc (length-take n m s (omega arith))

length-drop : (n m : ℕ) (s : GoString) → length s ≡ n + m → length (drop n s) ≡ m
length-drop zero m s h = omega arith
length-drop (suc n) m [] h = absurd (omega arith)
length-drop (suc n) m (x ∷ s) h = length-drop n m s (omega arith)

module _ (sha1 : GoString → GoString) (encode : GoString → GoString)
    (decode : GoString → Option GoString) where
  -- What the tests ask of a sum and a time stamp.
  record IsAccepted (x sum stamp : GoString) (now : Moment) : Type 0 where
    signed : sha1 (x ++ stamp) ≡ sum
    begun : NotAfter (from_unix (bytes_to_int64 stamp)) now
    unexpired : Within token_timeout (from_unix (bytes_to_int64 stamp)) now

  is_payload_valid_iff :
      (x sum stamp : GoString) (now : Moment)
      → length sum ≡ sum_size
      → length stamp ≡ 8
      → (is_payload_valid sha1 encode decode x (sum ++ stamp) now ≡ true)
        ↔ IsAccepted x sum stamp now
  unfolding is_payload_valid
  is_payload_valid_iff x sum stamp now hs ht =
      rw (length-append sum stamp, hs, ht, front, back)
        (
          (λ h.
              let g = (all_pass_iff _ _ _).0 h in
              record {
                signed = str_eq_sound _ _ g.0;
                begun = (early_iff _ now).0 g.1.0;
                unexpired = (expired_iff _ now).0 g.1.1;
              }),
          (λ a. (all_pass_iff _ _ _).1 (
            str_eq_of_eq _ _ a.signed,
            ((early_iff _ now).1 a.begun, (expired_iff _ now).1 a.unexpired),
          )),
        )
    where
      front : take sum_size (sum ++ stamp) ≡ sum
      front = subst (λ n. take n (sum ++ stamp) ≡ sum) hs (take_of_append sum stamp)

      back : drop sum_size (sum ++ stamp) ≡ stamp
      back = subst (λ n. drop n (sum ++ stamp) ≡ stamp) hs (drop_of_append sum stamp)

  length-is_payload_valid :
      (x b : GoString) (now : Moment)
      → is_payload_valid sha1 encode decode x b now ≡ true
      → length b ≡ sum_size + 8
  unfolding is_payload_valid
  length-is_payload_valid x b now h = (==_iff _ _).0 (first_pass (length b == sum_size + 8) _ h)

  -- What an accepted token is.
  pub record IsSigned (x token : GoString) (now : Moment) : Type 0 where
    pub stamp : GoString
    pub length-stamp : length stamp ≡ 8
    pub signed : decode token ≡ some (sha1 (x ++ stamp) ++ stamp)
    pub begun : NotAfter (from_unix (bytes_to_int64 stamp)) now
    pub unexpired : Within token_timeout (from_unix (bytes_to_int64 stamp)) now

  payload-IsSigned :
      (x token b : GoString) (now : Moment)
      → decode token ≡ some b
      → is_payload_valid sha1 encode decode x b now ≡ true
      → IsSigned x token now
  payload-IsSigned x token b now e h =
      let sum = take sum_size b in
      let stamp = drop sum_size b in
      let size = length-is_payload_valid x b now h in
      let length-stamp = length-drop sum_size 8 b size in
      let accepted =
        (is_payload_valid_iff x sum stamp now (length-take sum_size 8 b size) length-stamp).0 (
          subst (λ s. is_payload_valid sha1 encode decode x s now ≡ true)
            (sym (take-drop sum_size b)) h) in
      record {
        stamp = stamp;
        length-stamp = length-stamp;
        signed =
            e ∙ ap some (sym (take-drop sum_size b) ∙ ap (λ s. s ++ stamp) (sym accepted.signed));
        begun = accepted.begun;
        unexpired = accepted.unexpired;
      }

  -- An accepted token decodes to the sum of the secret and the stamp, and the stamp.
  pub is_token_valid-IsSigned :
      (x token : GoString) (now : Moment)
      → is_token_valid sha1 encode decode x token now ≡ true
      → IsSigned x token now
  unfolding is_token_valid
  is_token_valid-IsSigned x token now h = elim (Option-cases (decode token)) [
    | inl e ↦ absurd (no_payload (rw (e, is_token_valid) at h))
    | inr (b, e) ↦ payload-IsSigned x token b now e (rw (e, is_token_valid) at h)
  ]

  module _ (decode-encode : (b : GoString) → decode (encode b) ≡ some b)
      (length-sha1 : (b : GoString) → length (sha1 b) ≡ sum_size) where
    -- A token of the time `t` is accepted from the beginning of its second for 24 hours.
    pub is_token_valid-new_token :
        (x : GoString) (t now : Moment)
        → IsInt64 (unix t)
        → (is_token_valid sha1 encode decode x (new_token sha1 encode decode x t) now ≡ true)
          ↔ IsFresh t now
    unfolding is_token_valid new_token
    is_token_valid-new_token x t now fits =
        let tb = int64_to_bytes (unix t) in
        let back = bytes_to_int64-int64_to_bytes (unix t) fits in
        let accepted_iff =
          is_payload_valid_iff x (sha1 (x ++ tb)) tb now (length-sha1 (x ++ tb))
            (length-int64_to_bytes (unix t)) in
        rw (decode-encode, is_token_valid, new_token)
          (
            (λ h.
                let a = accepted_iff.0 h in
                record { begun = rw back at a.begun; unexpired = rw back at a.unexpired }),
            (λ f. accepted_iff.1 (record {
              signed = refl;
              begun = rw back f.begun;
              unexpired = rw back f.unexpired;
            })),
          )
