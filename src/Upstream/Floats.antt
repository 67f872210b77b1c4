-- ===== src/Upstream/Floats.antt =====
-- The operations of `f64` that the sources use, as an interface: the type `F` is a parameter.
use dnsbuffer.Prelude.{ℕ, Bool, true, List, [], ◌≡◌}

pub record Floats (F : Type 0) : Type 0 where
  pub of_count : ℕ → F
  pub to_count : F → ℕ
  pub add : F → F → F
  pub mul : F → F → F
  pub div : F → F → F
  pub max_of : F → F → F
  pub sum_of : List F → F
  pub lt : F → F → Bool
  pub le : F → F → Bool
  pub is_finite : F → Bool

-- The sum of no numbers is zero, and zero is at most zero.
abbrev pub HasEmptySum : {F : Type 0} → Floats F → Type 0
HasEmptySum fl = fl.le (fl.sum_of []) (fl.of_count 0) ≡ true
