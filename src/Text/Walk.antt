-- ===== src/Text/Walk.antt =====
-- The loops of hosts.rs and filter.rs that strip the leftmost label of a name, level by level.
use dnsbuffer.Prelude.{
  ℕ, zero, suc, ◌<◌, ◌≡◌, refl, Bool, true, false, List, [], ◌∷◌, Option, none, some, arith, ◌==◌,
  nat_eq, if◌then◌else◌, length, any_of, Option-cases, inl, inr,
}
use dnsbuffer.Text.{Text, dot, after_dot}

-- The names behind each dot of `s`, the nearest first: the domains that `s` is a subdomain of.
unfoldable pub parents : Text → List Text
parents [] = []
parents (c ∷ s) = if c == dot then s ∷ parents s else parents s

parents-after_dot-none : (s : Text) → after_dot s ≡ none → parents s ≡ []
unfolding parents after_dot
parents-after_dot-none [] h = refl
parents-after_dot-none (c ∷ s) h = ground (arith, parents-after_dot-none s)

parents-after_dot-some :
    (s r : Text) → after_dot s ≡ some r → (parents s ≡ r ∷ parents r) × (length r < length s)
unfolding parents after_dot
parents-after_dot-some [] r h = ground arith
parents-after_dot-some (c ∷ s) r h = ground (arith, parents-after_dot-some s r)

module _ {A : Type 0} where
  -- `while let Some(pos) = rest.find('.') { rest = &rest[pos + 1..]; if let Some(v) = f(rest) { return v } }`
  unfoldable pub walk : ℕ → (Text → Option A) → Text → Option A
  walk zero f s = none
  walk (suc fuel) f s = elim (after_dot s) [
    | none ↦ none
    | some rest ↦ elim (f rest) [ some v ↦ some v | none ↦ walk fuel f rest ]
  ]

  unfoldable pub first_some : (Text → Option A) → List Text → Option A
  first_some f [] = none
  first_some f (s ∷ ss) = elim (f s) [ some v ↦ some v | none ↦ first_some f ss ]

  -- With fuel for each character the loop returns the first hit among the parents.
  pub walk-eq-first_some :
      (fuel : ℕ) (f : Text → Option A) (s : Text)
      → length s < fuel
      → walk fuel f s ≡ first_some f (parents s)
  unfolding walk first_some
  walk-eq-first_some zero f s h = absurd (ground arith)
  walk-eq-first_some (suc fuel) f s h = elim (Option-cases (after_dot s)) [
    | inl e ↦ ground (arith, parents-after_dot-none s e)
    | inr (r, e) ↦ ground (arith, parents-after_dot-some s r e, walk-eq-first_some fuel f r)
  ]

-- `loop { if p(candidate) { return true } match candidate.find('.') { Some => step, None => return false } }`
unfoldable pub walk_any : ℕ → (Text → Bool) → Text → Bool
walk_any zero p s = false
walk_any (suc fuel) p s =
    if p s then true else elim (after_dot s) [ none ↦ false | some rest ↦ walk_any fuel p rest ]

-- With fuel for each character the loop tests the name and every parent.
pub walk_any-eq-any_of :
    (fuel : ℕ) (p : Text → Bool) (s : Text)
    → length s < fuel
    → walk_any fuel p s ≡ any_of p (s ∷ parents s)
unfolding walk_any
walk_any-eq-any_of zero p s h = absurd (ground arith)
walk_any-eq-any_of (suc fuel) p s h = elim (Option-cases (after_dot s)) [
  | inl e ↦ ground (arith, parents-after_dot-none s e)
  | inr (r, e) ↦ ground (arith, parents-after_dot-some s r e, walk_any-eq-any_of fuel p r)
]
