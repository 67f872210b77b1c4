-- ===== src/Upstream/Group/Choice.antt =====
-- Which member is tried next.
use dnsbuffer.Prelude.{
  ℕ, zero, suc, ◌+◌, ◌≤◌, ◌<◌, ◌≡◌, refl, ap, ◌∙◌, ◌⊎◌, inl, inr, true, false, none, some, List, [],
  ◌∷◌, arith, if◌then◌else◌, Bool-cases, ◌==◌, nat_eq, list_eq, length, contains,
}
use dnsbuffer.Upstream.Floats.{Floats, HasEmptySum}
use dnsbuffer.Upstream.Selector.{pick_weighted, pick_weighted_lem}
use dnsbuffer.Upstream.Group.{Member, first_untried, weights_from, choose}

unfoldable remove : ℕ → List ℕ → List ℕ
remove i [] = []
remove i (x ∷ xs) = let rest = remove i xs in if i == x then rest else x ∷ rest

contains-remove : (i j : ℕ) (t : List ℕ) → i < j → contains (remove i t) j ≡ contains t j
unfolding contains remove
contains-remove i j [] less = refl
contains-remove i j (x ∷ t) less = ground (arith, contains-remove i j t less)

length-remove-le : (i : ℕ) (t : List ℕ) → length (remove i t) ≤ length t
unfolding remove
length-remove-le i [] = omega arith
length-remove-le i (x ∷ t) = ground (arith, length-remove-le i t)

length-remove : (i : ℕ) (t : List ℕ) → contains t i ≡ true → length (remove i t) < length t
unfolding contains remove
length-remove i [] h = ground (arith, h)
length-remove i (x ∷ t) h = ground (arith, h, length-remove-le i t, length-remove i t)

first_untried-remove :
    (i j n : ℕ) (t : List ℕ) → i < j → first_untried (remove i t) j n ≡ first_untried t j n
unfolding first_untried
first_untried-remove i j zero t less = refl
first_untried-remove i j (suc n) t less =
    ground (arith, contains-remove i j t less, first_untried-remove i (suc j) n t (omega arith))

-- If all of `n` indices were tried, at least `n` were.
all_tried : (i n : ℕ) (t : List ℕ) → first_untried t i n ≡ none → n ≤ length t
unfolding first_untried
all_tried i zero t h = omega arith
all_tried i (suc n) t h = elim (Bool-cases (contains t i)) [
  | inl c ↦
      let later : first_untried t (suc i) n ≡ none = ground (arith, c, h) in
      omega (
        arith,
        length-remove i t c,
        all_tried (suc i) n (remove i t) (first_untried-remove i (suc i) n t (omega arith) ∙ later),
      )
  | inr f ↦ ground (arith, f, h)
]

untried_index :
    (i n : ℕ) (t : List ℕ)
    → (first_untried t i n ≡ none)
      ⊎ ((j : ℕ) × (first_untried t i n ≡ some j) × (j < i + n) × (contains t j ≡ false))
unfolding first_untried
untried_index i zero t = inl refl
untried_index i (suc n) t = elim (Bool-cases (contains t i)) [
  | inl c ↦ elim (untried_index (suc i) n t) [
    | inl none_left ↦ inl (rw c none_left)
    | inr (j, e, less, f) ↦ inr (j, rw c e, omega arith, f)
  ]
  | inr f ↦ inr (i, rw f refl, omega arith, f)
]

module _ {F : Type 0} (fl : Floats F) (doc : HasEmptySum fl) where
  pick_index :
      (ws : List F) (roll : F)
      → 0 < length ws
      → (i : ℕ) × (pick_weighted fl ws roll ≡ some i) × (i < length ws)
  pick_index [] roll pos = ground arith
  pick_index (w ∷ ws) roll pos =
      let (i, e, less, _) = pick_weighted_lem fl w ws roll doc in (i, e, less)

  length-weights_from :
      (k : F) (exclude : List ℕ) (i : ℕ) (ms : List (Member F))
      → length (weights_from fl k exclude i ms) ≡ length ms
  unfolding weights_from
  length-weights_from k exclude i [] = refl
  length-weights_from k exclude i (m ∷ ms) = ap suc (length-weights_from k exclude (suc i) ms)

  pub choose_lem :
      (k : F) (ms : List (Member F)) (tried : List ℕ) (roll : F)
      → length tried < length ms
      → (i : ℕ) × (choose fl k ms tried roll ≡ some i)
        × (i < length ms)
        × (contains tried i ≡ false)
  unfolding choose
  choose_lem k ms tried roll room =
      let same = length-weights_from k tried 0 ms in
      let (i, e, less) = pick_index (weights_from fl k tried 0 ms) roll (omega (arith, same)) in
      elim (Bool-cases (contains tried i)) [
        | inr f ↦ (i, rw (e, f, choose) refl, omega (arith, same), f)
        | inl c ↦ elim (untried_index 0 (length ms) tried) [
          | inl none_left ↦ ground (arith, room, all_tried 0 (length ms) tried none_left)
          | inr (j, e', less', f) ↦ (j, rw (e, c, choose) e', omega arith, f)
        ]
      ]
