-- ===== src/Cache/Entries.antt =====
-- The entries of the cache: their total cost, their keys, and what can be found among them.
use dnsbuffer.Prelude.{
  ℕ, zero, suc, ◌+◌, ◌≤◌, ◌≡◌, refl, ◌≢◌, inl, inr, none, some, [], ◌∷◌, ◌++◌, arith, if◌then◌else◌,
  Bool-cases, ◌==◌, nat_eq, list_eq, drop,
}
use dnsbuffer.HashMap.{get as find_entry}
use dnsbuffer.Cache.{CacheKey, key_eq, key_beq, key_beq_iff, CacheEntry, Entries, erase, push_back}

abbrev pub costs : Entries → ℕ
costs [] = 0
costs ((k, e) ∷ es) = e.cost + costs es

-- Every key stands once.
abbrev pub Distinct : Entries → Type 0
Distinct [] = Unit
Distinct ((k, e) ∷ es) = (find_entry es k ≡ none) × Distinct es

pub costs-append : (es fs : Entries) → costs (es ++ fs) ≡ costs es + costs fs
costs-append [] fs = omega arith
costs-append ((k, e) ∷ es) fs = omega (arith, costs-append es fs)

pub costs-erase :
    (es : Entries) (k : CacheKey) (e : CacheEntry)
    → find_entry es k ≡ some e
    → costs (erase es k) + e.cost ≡ costs es
unfolding erase find_entry
costs-erase [] k e h = ground arith
costs-erase ((j, f) ∷ es) k e h = ground (arith, costs-erase es k e)

pub erase_absent : (es : Entries) (k : CacheKey) → find_entry es k ≡ none → erase es k ≡ es
unfolding erase find_entry
erase_absent [] k h = refl
erase_absent ((j, f) ∷ es) k h = ground (arith, erase_absent es k)

pub find-erase_ne :
    (es : Entries) (k q : CacheKey) → q ≢ k → find_entry (erase es k) q ≡ find_entry es q
unfolding erase find_entry
find-erase_ne [] k q h = refl
find-erase_ne ((j, f) ∷ es) k q h =
    ground (arith, key_beq_iff j k, key_beq_iff j q, find-erase_ne es k q)

pub find-erase_self : (es : Entries) (k : CacheKey) → Distinct es → find_entry (erase es k) k ≡ none
unfolding erase find_entry
find-erase_self [] k d = refl
find-erase_self ((j, f) ∷ es) k d = ground (arith, key_beq_iff j k, find-erase_self es k)

pub find-append :
    (es fs : Entries) (q : CacheKey)
    → find_entry (es ++ fs) q ≡ elim (find_entry es q) [ some e ↦ some e | none ↦ find_entry fs q ]
unfolding find_entry
find-append [] fs q = refl
find-append ((j, f) ∷ es) fs q = ground (arith, find-append es fs q)

erase-absent_key :
    (es : Entries) (k q : CacheKey) → find_entry es q ≡ none → find_entry (erase es k) q ≡ none
unfolding erase find_entry
erase-absent_key [] k q h = refl
erase-absent_key ((j, f) ∷ es) k q h = ground (arith, erase-absent_key es k q)

pub Distinct-erase : (es : Entries) (k : CacheKey) → Distinct es → Distinct (erase es k)
unfolding erase
Distinct-erase [] k d = tt
Distinct-erase ((j, f) ∷ es) k d = elim (Bool-cases (key_beq j k)) [
  | inl e ↦ rw e d.1
  | inr e ↦ rw e (erase-absent_key es k j d.0, Distinct-erase es k d.1)
]

Distinct-append_one :
    (es : Entries) (k : CacheKey) (e : CacheEntry)
    → Distinct es
    → find_entry es k ≡ none
    → Distinct (es ++ (k, e) ∷ [])
unfolding find_entry
Distinct-append_one [] k e d h = (refl, tt)
Distinct-append_one ((j, f) ∷ es) k e d h = (
  ground (arith, find-append es ((k, e) ∷ []) j, key_beq_iff j k, key_beq_iff k j),
  Distinct-append_one es k e d.1 (ground arith),
)

module _ (es : Entries) (k : CacheKey) (e : CacheEntry) where
  pub Distinct-push_back : Distinct es → Distinct (push_back es k e)
  unfolding push_back
  Distinct-push_back d =
      Distinct-append_one (erase es k) k e (Distinct-erase es k d) (find-erase_self es k d)

  pub costs-push_back : costs (push_back es k e) ≡ costs (erase es k) + e.cost
  unfolding push_back
  costs-push_back = omega (arith, costs-append (erase es k) ((k, e) ∷ []))

  -- Behind a move to the back the key is found with the given entry, and the other keys as before.
  pub find-push_back :
      (q : CacheKey)
      → Distinct es
      → find_entry (push_back es k e) q ≡ (if k == q then some e else find_entry es q)
  unfolding push_back find_entry
  find-push_back q d = ground (
    arith,
    find-append (erase es k) ((k, e) ∷ []) q,
    find-erase_self es k d,
    find-erase_ne es k q,
    key_beq_iff k q,
  )

pub Distinct-drop : (n : ℕ) (es : Entries) → Distinct es → Distinct (drop n es)
Distinct-drop zero es d = d
Distinct-drop (suc n) [] d = tt
Distinct-drop (suc n) ((k, e) ∷ es) d = Distinct-drop n es d.1

pub costs-drop-le : (n : ℕ) (es : Entries) → costs (drop n es) ≤ costs es
costs-drop-le zero es = omega arith
costs-drop-le (suc n) [] = omega arith
costs-drop-le (suc n) ((k, e) ∷ es) = omega (arith, costs-drop-le n es)
