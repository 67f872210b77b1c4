-- ===== src/Dashboard/Store/Rows.antt =====
-- dashboard/store.rs: selections of rows keep their ids apart.
use dnsbuffer.Prelude.{
  ℕ, zero, suc, ◌≡◌, refl, ◌∙◌, inl, inr, Bool, false, ◌||◌, List, [], ◌∷◌, arith, Bool-cases, ◌==◌,
  nat_eq, list_eq, drop, take, any_of,
}
use dnsbuffer.Dashboard.Store.{LogRow, keep, has_id}
use dnsbuffer.Dashboard.Store.Queries.{insert_by, sort_by}

-- The ids of the rows differ.
abbrev pub Distinct : List LogRow → Type 0
Distinct [] = Unit
Distinct (r ∷ rs) = (has_id r.id rs ≡ false) × Distinct rs

module _ {A : Type 0} (p : A → Bool) where
  any_of-insert_by :
      (first : A → A → Bool) (x : A) (xs : List A)
      → any_of p (insert_by first x xs) ≡ (p x || any_of p xs)
  unfolding insert_by
  any_of-insert_by first x [] = ground arith
  any_of-insert_by first x (y ∷ ys) = ground (arith, any_of-insert_by first x ys)

  pub any_of-sort_by :
      (first : A → A → Bool) (xs : List A) → any_of p (sort_by first xs) ≡ any_of p xs
  unfolding sort_by
  any_of-sort_by first [] = refl
  any_of-sort_by first (x ∷ xs) =
      ground (arith, any_of-insert_by first x (sort_by first xs), any_of-sort_by first xs)

  any_of-keep : (q : A → Bool) (xs : List A) → any_of p xs ≡ false → any_of p (keep q xs) ≡ false
  unfolding keep
  any_of-keep q [] h = refl
  any_of-keep q (x ∷ xs) h = ground (arith, any_of-keep q xs)

  any_of-take : (n : ℕ) (xs : List A) → any_of p xs ≡ false → any_of p (take n xs) ≡ false
  any_of-take zero xs h = refl
  any_of-take (suc n) [] h = refl
  any_of-take (suc n) (x ∷ xs) h = ground (arith, any_of-take n xs)

Distinct-insert_by :
    (first : LogRow → LogRow → Bool) (x : LogRow) (xs : List LogRow)
    → has_id x.id xs ≡ false
    → Distinct xs
    → Distinct (insert_by first x xs)
unfolding insert_by
Distinct-insert_by first x [] h d = (refl, tt)
Distinct-insert_by first x (y ∷ ys) h d = elim (Bool-cases (first x y)) [
  | inl before ↦ rw before (h, d)
  | inr behind ↦ rw behind (
    any_of-insert_by (λ r. r.id == y.id) first x ys ∙ ground (arith, d.0, h),
    Distinct-insert_by first x ys (ground (arith, h)) d.1,
  )
]

pub Distinct-sort_by :
    (first : LogRow → LogRow → Bool) (xs : List LogRow) → Distinct xs → Distinct (sort_by first xs)
unfolding sort_by
Distinct-sort_by first [] d = tt
Distinct-sort_by first (x ∷ xs) d =
    Distinct-insert_by first x (sort_by first xs)
      (any_of-sort_by (λ r. r.id == x.id) first xs ∙ d.0) (Distinct-sort_by first xs d.1)

pub Distinct-keep : (q : LogRow → Bool) (xs : List LogRow) → Distinct xs → Distinct (keep q xs)
unfolding keep
Distinct-keep q [] d = tt
Distinct-keep q (x ∷ xs) d = elim (Bool-cases (q x)) [
  | inl kept ↦ rw kept (any_of-keep (λ r. r.id == x.id) q xs d.0, Distinct-keep q xs d.1)
  | inr gone ↦ rw gone (Distinct-keep q xs d.1)
]

pub Distinct-take : (n : ℕ) (xs : List LogRow) → Distinct xs → Distinct (take n xs)
Distinct-take zero xs d = tt
Distinct-take (suc n) [] d = tt
Distinct-take (suc n) (x ∷ xs) d =
    (any_of-take (λ r. r.id == x.id) n xs d.0, Distinct-take n xs d.1)

pub Distinct-drop : (n : ℕ) (xs : List LogRow) → Distinct xs → Distinct (drop n xs)
Distinct-drop zero xs d = d
Distinct-drop (suc n) [] d = tt
Distinct-drop (suc n) (x ∷ xs) d = Distinct-drop n xs d.1
