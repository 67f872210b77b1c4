-- ===== src/Upstream/Selector.antt =====
-- upstream/selector.rs: the random choice of an index by weight.
use dnsbuffer.Prelude.{
  ℕ, zero, suc, ◌+◌, ◌-◌, ◌<◌, min, ◌≡◌, refl, ◌⊎◌, inl, inr, Bool, true, false, ◌&&◌, Option, none,
  some, List, [], ◌∷◌, arith, if◌then◌else◌, Bool-cases, nat_eq, list_eq, length,
}
use dnsbuffer.Upstream.Floats.{Floats, HasEmptySum}

module _ {F : Type 0} (fl : Floats F) where
  -- `w.is_finite() && *w > 0.0`
  unfoldable pub usable : F → Bool
  usable w = fl.is_finite w && fl.lt (fl.of_count 0) w

  unfoldable pub usable_only : List F → List F
  usable_only [] = []
  usable_only (w ∷ ws) = let rest = usable_only ws in if usable w then w ∷ rest else rest

  -- The loop over the weights from index `i` on, with the sum `acc` of the usable ones before.
  unfoldable pub pick_from : ℕ → F → F → List F → Option ℕ
  pick_from i acc target [] = none
  pick_from i acc target (w ∷ ws) =
      let acc' = if usable w then fl.add acc w else acc in
      if usable w && fl.lt target acc' then some i else pick_from (suc i) acc' target ws

  -- `rposition`, with the indices from `i` on.
  unfoldable pub last_usable : ℕ → List F → Option ℕ
  last_usable i [] = none
  last_usable i (w ∷ ws) = elim (last_usable (suc i) ws) [
    | some j ↦ some j
    | none ↦ if usable w then some i else none
  ]

  -- The sum of the usable weights.
  unfoldable pub total_weight : List F → F
  total_weight ws = fl.sum_of (usable_only ws)

  unfoldable pub pick_weighted : List F → F → Option ℕ
  pick_weighted [] roll = none
  pick_weighted (w ∷ ws) roll =
      let total = total_weight (w ∷ ws) in
      let n = length (w ∷ ws) in
      if fl.le total (fl.of_count 0)
      then some (min (fl.to_count (fl.mul roll (fl.of_count n))) (n - 1))
      else elim (pick_from 0 (fl.of_count 0) (fl.mul roll total) (w ∷ ws)) [
        | some i ↦ some i
        | none ↦ last_usable 0 (w ∷ ws)
      ]

  -- The weight at index `i` is usable.
  pub usable_at : List F → ℕ → Bool
  usable_at [] i = false
  usable_at (w ∷ ws) zero = usable w
  usable_at (w ∷ ws) (suc i) = usable_at ws i

  -- `j` is the index of a usable weight of `ws`, counted from `i` on.
  abbrev IsUsable : ℕ → List F → ℕ → Type 0
  IsUsable i ws j = (n : ℕ) × (j ≡ i + n) × (n < length ws) × (usable_at ws n ≡ true)

  shift : (i j : ℕ) (w : F) (ws : List F) → IsUsable (suc i) ws j → IsUsable i (w ∷ ws) j
  unfolding usable_at
  shift i j w ws (n, e, l, u) = (suc n, omega arith, omega arith, u)

  pick_from_lem :
      (i : ℕ) (acc target : F) (ws : List F)
      → (pick_from i acc target ws ≡ none)
        ⊎ ((j : ℕ) × (pick_from i acc target ws ≡ some j) × IsUsable i ws j)
  unfolding pick_from usable_at
  pick_from_lem i acc target [] = inl refl
  pick_from_lem i acc target (w ∷ ws) =
      let acc' = if usable w then fl.add acc w else acc in
      elim (Bool-cases (usable w && fl.lt target acc')) [
        | inl t ↦ inr (i, rw t refl, (0, omega arith, omega arith, ground (arith, t)))
        | inr f ↦ elim (pick_from_lem (suc i) acc' target ws) [
          | inl none_later ↦ inl (rw f none_later)
          | inr (j, e, u) ↦ inr (j, rw f e, shift i j w ws u)
        ]
      ]

  last_usable_lem :
      (i : ℕ) (ws : List F)
      → ((last_usable i ws ≡ none) × (usable_only ws ≡ []))
        ⊎ ((j : ℕ) × (last_usable i ws ≡ some j) × IsUsable i ws j)
  unfolding last_usable usable_at usable_only
  last_usable_lem i [] = inl (refl, refl)
  last_usable_lem i (w ∷ ws) = elim (last_usable_lem (suc i) ws) [
    | inr (j, e, u) ↦ inr (j, rw e refl, shift i j w ws u)
    | inl (e, no_more) ↦ elim (Bool-cases (usable w)) [
      | inl t ↦ inr (i, rw (e, t) refl, (0, omega arith, omega arith, t))
      | inr f ↦ inl (rw (e, f) refl, rw f no_more)
    ]
  ]

  -- Some index in range is picked whenever there are weights. Its weight is finite and positive,
  -- unless the sum of such weights is not above zero, provided the sum of none is not.
  pub pick_weighted_lem :
      (w : F) (ws : List F) (roll : F)
      → HasEmptySum fl
      → (i : ℕ) × (pick_weighted (w ∷ ws) roll ≡ some i)
        × (i < length (w ∷ ws))
        × ((usable_at (w ∷ ws) i ≡ true) ⊎ (fl.le (total_weight (w ∷ ws)) (fl.of_count 0) ≡ true))
  unfolding pick_weighted total_weight
  pick_weighted_lem w ws roll doc =
      let n = length (w ∷ ws) in
      let total = total_weight (w ∷ ws) in
      elim (Bool-cases (fl.le total (fl.of_count 0))) [
        | inl t ↦
            (min (fl.to_count (fl.mul roll (fl.of_count n))) (n - 1), rw t refl, omega arith, inr t)
        | inr f ↦ elim (pick_from_lem 0 (fl.of_count 0) (fl.mul roll total) (w ∷ ws)) [
          | inr (j, e, (m, same, l, u)) ↦ (j, rw (f, e) refl, omega arith, inl (ground arith))
          | inl e ↦ elim (last_usable_lem 0 (w ∷ ws)) [
            | inr (j, e', (m, same, l, u)) ↦ (j, rw (f, e) e', omega arith, inl (ground arith))
            | inl (e', no_more) ↦ ground arith
          ]
        ]
      ]
