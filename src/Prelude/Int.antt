-- ===== src/Prelude/Int.antt =====
-- `i64`: signed integers over the native numbers, with their checks on overflow. Sums and orders go
-- through the two parts of an integer, which are numbers.
use dnsbuffer.Prelude.{
  ℕ, zero, suc, ◌+◌, ◌-◌, ◌*◌, ◌/◌, ◌%◌, ◌^◌, ◌≤◌, ◌<◌, min, max, ◌≡◌, refl, sym, ap, ◌∙◌, ◌≢◌, ◌↔◌,
  ◌⊎◌, inl, inr, Bool, true, false, not, ◌&&◌, ◌||◌, Option, none, some, List, [], ◌∷◌, ◌++◌, map,
  reverse, arith, ltb, leb, nat_beq, if◌then◌else◌, tests, Bool-cases, Option-cases, Eq, ◌==◌,
  nat_beq_iff, ==_iff, ==_refl, nat_eq, list_beq, list_beq_iff, list_eq, length, get_elem?, drop,
  length-append, All, any_of, All-append, sum, contains, contains-append,
}
use native.Mathlib.Nat.{div-mul-le_self, div-add-mod', mod-lt}

-- `negsuc n` is -(n + 1).
pub data ℤ : Type 0 where
  pos : ℕ → ℤ
  negsuc : ℕ → ℤ

abbrev pub pos_part : ℤ → ℕ
pos_part (pos n) = n
pos_part (negsuc n) = 0

abbrev pub neg_part : ℤ → ℕ
neg_part (pos n) = 0
neg_part (negsuc n) = suc n

-- a - b, as an integer.
abbrev sub_ℕ : ℕ → ℕ → ℤ
sub_ℕ a b = if leb b a then pos (a - b) else negsuc (b - a - 1)

infixl 65 ◌+ℤ◌ ◌-ℤ◌
infix 50 ◌≤ℤ◌
unfoldable pub ◌+ℤ◌ : ℤ → ℤ → ℤ
a +ℤ b = sub_ℕ (pos_part a + pos_part b) (neg_part a + neg_part b)

unfoldable pub ◌-ℤ◌ : ℤ → ℤ → ℤ
a -ℤ b = sub_ℕ (pos_part a + neg_part b) (neg_part a + pos_part b)

abbrev pub ◌≤ℤ◌ : ℤ → ℤ → Type 0
a ≤ℤ b = pos_part a + neg_part b ≤ pos_part b + neg_part a

abbrev pub leb_ℤ : ℤ → ℤ → Bool
leb_ℤ a b = leb (pos_part a + neg_part b) (pos_part b + neg_part a)

abbrev pub ltb_ℤ : ℤ → ℤ → Bool
ltb_ℤ a b = ltb (pos_part a + neg_part b) (pos_part b + neg_part a)

pub +ℤ_parts :
    (a b : ℤ)
    → pos_part (a +ℤ b) + neg_part a + neg_part b ≡ neg_part (a +ℤ b) + pos_part a + pos_part b
unfolding ◌+ℤ◌
+ℤ_parts a b = ground arith

pub -ℤ_parts :
    (a b : ℤ)
    → pos_part (a -ℤ b) + neg_part a + pos_part b ≡ neg_part (a -ℤ b) + pos_part a + neg_part b
unfolding ◌-ℤ◌
-ℤ_parts a b = ground arith

pub eq_of_parts : (a b : ℤ) → pos_part a + neg_part b ≡ pos_part b + neg_part a → a ≡ b
eq_of_parts a b h = ground arith

pub ruleset int_laws = (arith, +ℤ_parts, -ℤ_parts, eq_of_parts)

abbrev int_beq : ℤ → ℤ → Bool
int_beq (pos m) (pos n) = nat_beq m n
int_beq (negsuc m) (negsuc n) = nat_beq m n
int_beq _ _ = false

pub int_beq_iff : (a b : ℤ) → (int_beq a b ≡ true) ↔ (a ≡ b)
int_beq_iff (pos m) (pos n) = ground arith
int_beq_iff (pos m) (negsuc n) = ground arith
int_beq_iff (negsuc m) (pos n) = ground arith
int_beq_iff (negsuc m) (negsuc n) = ground arith

instance abbrev pub int_eq : Eq ℤ
int_eq = record { beq = int_beq; beq_iff = int_beq_iff }

-- The values of an `i64`.
unfoldable pub in_i64 : ℤ → Bool
in_i64 (pos n) = leb n (2 ^ 63 - 1)
in_i64 (negsuc n) = leb n (2 ^ 63 - 1)

-- The result of a checked operation on `i64`.
unfoldable pub checked : ℤ → Option ℤ
checked z = if in_i64 z then some z else none

pub checked_lem : (z y : ℤ) → checked z ≡ some y → z ≡ y
unfolding checked
checked_lem z y h = ground arith

-- `div_euclid` by a number above 0.
unfoldable pub div_euclid : ℤ → ℕ → ℤ
div_euclid (pos n) i = pos (n / i)
div_euclid (negsuc n) i = negsuc (n / i)

-- The product with a number.
unfoldable pub times : ℤ → ℕ → ℤ
times (pos n) i = pos (n * i)
times (negsuc n) i = sub_ℕ 0 ((n + 1) * i)

-- A number rounded down to a multiple of `suc i` is at most itself, and less than `suc i` below.
times-div_euclid_pos : (n i : ℕ) → (n / suc i * suc i ≤ n) × (suc n ≤ n / suc i * suc i + suc i)
times-div_euclid_pos n i =
    (div-mul-le_self n (suc i), omega (arith, div-add-mod' n (suc i), mod-lt n (lt i)))
  where
    lt : (i : ℕ) → 0 < suc i
    lt i = omega arith

pub times-div_euclid :
    (z : ℤ) (i : ℕ)
    → (times (div_euclid z (suc i)) (suc i) ≤ℤ z)
      × (z +ℤ pos 1 ≤ℤ times (div_euclid z (suc i)) (suc i) +ℤ pos (suc i))
unfolding times div_euclid ◌+ℤ◌
times-div_euclid (pos n) i = let b = times-div_euclid_pos n i in (ground arith, ground arith)
times-div_euclid (negsuc n) i = let b = times-div_euclid_pos n i in (ground arith, ground arith)
