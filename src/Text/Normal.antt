-- ===== src/Text/Normal.antt =====
-- Normal names: lower case and no trailing dot. `normalize` yields them and leaves them as they are.
use dnsbuffer.Prelude.{ℕ, ◌≡◌, refl, ap, ◌∙◌, Bool, [], ◌∷◌, arith, ◌==◌, nat_eq}
use dnsbuffer.Text.{Text, dot, lower, to_lowercase, trim_end, normalize}

lower_idem : (c : ℕ) → lower (lower c) ≡ lower c
unfolding lower
lower_idem c = ground arith

-- Lower-casing neither makes a dot nor removes one.
lower-dot : (c : ℕ) → (lower c == dot) ≡ (c == dot)
unfolding lower
lower-dot c = ground arith

to_lowercase_idem : (s : Text) → to_lowercase (to_lowercase s) ≡ to_lowercase s
unfolding to_lowercase
to_lowercase_idem [] = refl
to_lowercase_idem (c ∷ s) = ground (arith, lower_idem c, to_lowercase_idem s)

trim_end-to_lowercase :
    (s : Text)
    → trim_end (λ c. c == dot) (to_lowercase s) ≡ to_lowercase (trim_end (λ c. c == dot) s)
unfolding trim_end to_lowercase
trim_end-to_lowercase [] = refl
trim_end-to_lowercase (c ∷ s) = ground (arith, lower-dot c, trim_end-to_lowercase s)

trim_end_idem : (p : ℕ → Bool) (s : Text) → trim_end p (trim_end p s) ≡ trim_end p s
unfolding trim_end
trim_end_idem p [] = refl
trim_end_idem p (c ∷ s) = ground (arith, trim_end_idem p s)

-- Normalising a second time changes nothing.
pub normalize_idem : (s : Text) → normalize (normalize s) ≡ normalize s
unfolding normalize
normalize_idem s =
    ap to_lowercase (trim_end-to_lowercase (trim_end (λ c. c == dot) s))
    ∙ to_lowercase_idem (trim_end (λ c. c == dot) (trim_end (λ c. c == dot) s))
    ∙ ap to_lowercase (trim_end_idem (λ c. c == dot) s)

-- Two spellings of a name that differ in case normalise alike.
pub normalize-to_lowercase : (s : Text) → normalize (to_lowercase s) ≡ normalize s
unfolding normalize
normalize-to_lowercase s =
    ap to_lowercase (trim_end-to_lowercase s) ∙ to_lowercase_idem (trim_end (λ c. c == dot) s)
