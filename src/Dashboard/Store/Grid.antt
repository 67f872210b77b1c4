-- ===== src/Dashboard/Store/Grid.antt =====
-- Times that lie a whole number of intervals apart.
use dnsbuffer.Prelude.{
  ℕ, suc, ◌+◌, ◌-◌, ◌*◌, ◌≤◌, ◌<◌, ◌≡◌, sym, ap, ◌∙◌, true, false, arith, nat_eq, list_eq,
}
use dnsbuffer.Prelude.Int.{
  ℤ, pos, negsuc, ◌+ℤ◌, ◌-ℤ◌, ◌≤ℤ◌, ltb_ℤ, leb_ℤ, times, pos_part, neg_part, +ℤ_parts, int_laws,
}
use native.Mathlib.Nat.{le_of_mul-le-mul_right, lt_of_mul-lt-mul_right, add-mul}

-- The time of an index.
abbrev pub at : ℤ → ℕ → ℕ → ℤ
at start_ms interval_ms index = start_ms +ℤ pos (index * interval_ms)

-- The later time has the higher index.
pub at-lt :
    (start_ms : ℤ) (w j k : ℕ)
    → ltb_ℤ (at start_ms (suc w) j) (at start_ms (suc w) k) ≡ true
    → j < k
at-lt start_ms w j k h =
    lt_of_mul-lt-mul_right (suc w)
      (ground (arith, +ℤ_parts start_ms (pos (j * suc w)), +ℤ_parts start_ms (pos (k * suc w))))

pub at-injective :
    (start_ms : ℤ) (w j k : ℕ) → at start_ms (suc w) j ≡ at start_ms (suc w) k → j ≡ k
at-injective start_ms w j k h = omega (arith, below, above)
  where
    parts : pos_part (at start_ms (suc w) j) ≡ pos_part (at start_ms (suc w) k)
    parts = ap pos_part h

    parts' : neg_part (at start_ms (suc w) j) ≡ neg_part (at start_ms (suc w) k)
    parts' = ap neg_part h

    same : j * suc w ≡ k * suc w
    same = omega (
      arith,
      parts,
      parts',
      +ℤ_parts start_ms (pos (j * suc w)),
      +ℤ_parts start_ms (pos (k * suc w)),
    )

    below : j ≤ k
    below = le_of_mul-le-mul_right {k = suc w} (omega (arith, same)) (omega arith)

    above : k ≤ j
    above = le_of_mul-le-mul_right {k = suc w} (omega (arith, same)) (omega arith)

-- A difference of products.
times-sub : (a b w : ℕ) → a * suc w ≤ b * suc w → a * suc w + (b - a) * suc w ≡ b * suc w
times-sub a b w h =
    let le : a ≤ b = le_of_mul-le-mul_right {k = suc w} h (omega arith) in
    sym (add-mul a (b - a) (suc w)) ∙ ap (λ n. n * suc w) (omega (arith, le))

-- From one multiple to a later one there is an index.
pub times-at :
    (p q : ℤ) (w : ℕ)
    → times p (suc w) ≤ℤ times q (suc w)
    → (k : ℕ) × (times q (suc w) ≡ at (times p (suc w)) (suc w) k)
unfolding times ◌+ℤ◌
times-at (pos a) (pos b) w h = (b - a, ground (arith, times-sub a b w (ground arith)))
times-at (negsuc a) (pos b) w h = (b + (a + 1), ground (arith, add-mul b (a + 1) (suc w)))
times-at (pos a) (negsuc b) w h = absurd (ground (arith, add-mul b 1 (suc w)))
times-at (negsuc a) (negsuc b) w h = (
  a + 1 - (b + 1),
  ground (
    arith,
    times-sub (b + 1) (a + 1) w (ground (arith, add-mul a 1 (suc w), add-mul b 1 (suc w))),
    add-mul a 1 (suc w),
    add-mul b 1 (suc w),
  ),
)

pub at-ℤ : (start_ms : ℤ) (w k : ℕ) → at start_ms w k -ℤ start_ms ≡ pos (k * w)
at-ℤ start_ms w k = omega int_laws

pub -ℤ_negative : (a b : ℤ) → leb_ℤ b a ≡ false → (m : ℕ) × (a -ℤ b ≡ negsuc m)
unfolding ◌-ℤ◌
-ℤ_negative a b h = (neg_part a + pos_part b - (pos_part a + neg_part b) - 1, ground arith)
