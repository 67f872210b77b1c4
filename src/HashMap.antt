-- ===== src/HashMap.antt =====
-- `HashMap` and `HashSet` of the standard library: association lists and lists without duplicates.
-- The program never observes their iteration order.
use dnsbuffer.Prelude.{
  ◌≡◌, refl, inl, inr, Bool, ◌||◌, Option, none, some, List, [], ◌∷◌, ◌++◌, arith, if◌then◌else◌,
  Bool-cases, Eq, ◌==◌, nat_eq, list_eq, All, All-append, contains, contains-append,
}

abbrev pub HashMap : Type 0 → Type 0 → Type 0
HashMap K V = List (K × V)

module _ {K V : Type 0} ⦃e : Eq K⦄ where
  unfoldable pub get : HashMap K V → K → Option V
  get [] k = none
  get ((j, v) ∷ m) k = if j == k then some v else get m k

  unfoldable pub insert : HashMap K V → K → V → HashMap K V
  insert [] k v = (k, v) ∷ []
  insert ((j, w) ∷ m) k v = if j == k then (k, v) ∷ m else (j, w) ∷ insert m k v

  pub get-insert :
      (m : HashMap K V) (k j : K) (v : V)
      → get (insert m k v) j ≡ (if k == j then some v else get m j)
  unfolding get insert
  get-insert [] k j v = refl
  get-insert ((i, w) ∷ m) k j v =
      ground (arith, e.beq_iff k j, e.beq_iff i k, e.beq_iff i j, get-insert m k j v)

module _ {A : Type 0} ⦃e : Eq A⦄ where
  -- `HashSet::insert`.
  unfoldable pub add : List A → A → List A
  unfolding contains
  add s a = if contains s a then s else s ++ a ∷ []

  -- `HashSet::extend`.
  unfoldable pub extend : List A → List A → List A
  unfolding add
  extend s [] = s
  extend s (a ∷ bs) = extend (add s a) bs

  pub contains-add : (s : List A) (a b : A) → contains (add s a) b ≡ (b == a || contains s b)
  unfolding add
  contains-add s a b = elim (Bool-cases (contains s a)) [
    | inl old ↦ ground (arith, e.beq_iff b a)
    | inr new ↦ rw (new, contains-append s (a ∷ []) b) (single (contains s b))
  ]
    where
      single : (c : Bool) → (c || contains (a ∷ []) b) ≡ (b == a || c)
      single c = unfold contains in ground arith

  pub contains-extend :
      (s bs : List A) (b : A) → contains (extend s bs) b ≡ (contains s b || contains bs b)
  unfolding extend contains
  contains-extend s [] b = ground arith
  contains-extend s (a ∷ bs) b = ground (arith, contains-extend (add s a) bs b, contains-add s a b)

  pub All-add {κ} : (P : A → Type κ) (s : List A) (a : A) → All P s → P a → All P (add s a)
  unfolding add
  All-add P s a hs ha = elim (Bool-cases (contains s a)) [
    | inl old ↦ rw old hs
    | inr new ↦ rw new (All-append P s (a ∷ []) hs (ha, tt))
  ]

  pub All-extend {κ} : (P : A → Type κ) (s bs : List A) → All P s → All P bs → All P (extend s bs)
  unfolding extend
  All-extend P s [] hs ha = hs
  All-extend P s (a ∷ bs) hs ha = All-extend P (add s a) bs (All-add P s a hs ha.0) ha.1
