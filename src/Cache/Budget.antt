-- ===== src/Cache/Budget.antt =====
-- The invariant of the cache: the byte count is the sum of the costs, stays within the budget, and
-- never wraps; no key stands twice.
use dnsbuffer.Prelude.{
  ℕ, zero, suc, ◌+◌, ◌-◌, ◌≤◌, ◌<◌, ◌≡◌, refl, ap, inl, inr, Bool, false, none, [], ◌∷◌, arith, ltb,
  Bool-cases, Option-cases, nat_eq, list_eq, drop,
}
use dnsbuffer.HashMap.{get as find_entry}
use dnsbuffer.Cache.{
  CacheKey, key_eq, CacheEntry, Entries, CacheMap, Cache, word, add_word, sub_word, erase,
  push_back, reserve_from, reserve_or_evict, remove_old, evict, insert_entry, put_entry,
}
use dnsbuffer.Cache.Entries.{
  costs, Distinct, costs-erase, erase_absent, Distinct-erase, Distinct-push_back, costs-push_back,
  Distinct-drop, costs-drop-le, find-erase_self,
}

pub sub_word_lem : (a b : ℕ) → b ≤ a → a < word → sub_word a b ≡ a - b
unfolding sub_word
sub_word_lem a b h k = omega arith

pub add_word_lem : (a b : ℕ) → a + b < word → add_word a b ≡ a + b
unfolding add_word
add_word_lem a b h = omega arith

-- A map that is counted right and fits the budget.
pub record IsFit (max_bytes : ℕ) (m : CacheMap) : Type 0 where
  pub counted : m.used_bytes ≡ costs m.entries
  pub within : m.used_bytes ≤ max_bytes
  pub distinct : Distinct m.entries

pub record IsValid (c : Cache) : Type 0 where
  pub fit : IsFit c.max_bytes c.map
  pub no_overflow : c.max_bytes + c.max_bytes < word

-- What the eviction loop leaves: the newest entries, and no fewer of them than fit.
pub evict_lem :
    (max_bytes : ℕ) (es : Entries) (used : ℕ)
    → used ≡ costs es
    → used < word
    → (n : ℕ) × ((evict max_bytes es used).entries ≡ drop n es)
      × ((evict max_bytes es used).used_bytes ≡ costs (drop n es))
      × (costs (drop n es) ≤ max_bytes)
      × ((i : ℕ) → i < n → max_bytes < costs (drop i es))
unfolding evict
evict_lem max_bytes [] used h w = (0, refl, h, omega arith, λ i l. elim l [ ])
evict_lem max_bytes ((j, e) ∷ es) used h w = elim (Bool-cases (ltb max_bytes used)) [
  | inr fits ↦ rw fits (0, refl, h, ground arith, λ i l. elim l [ ])
  | inl over ↦
      let (n, left, count, ok, over_before) =
        evict_lem max_bytes es (sub_word used e.cost) (omega (arith, sub_word_lem used e.cost))
          (omega (arith, sub_word_lem used e.cost)) in
      rw over (
        suc n,
        left,
        count,
        ok,
        elim [ zero ↦ λ l. ground arith | suc i ↦ λ l. over_before i (omega arith) ],
      )
]

-- What the loop for memory leaves: it evicts the oldest until a request succeeds, or all.
pub reserve_lem :
    (alloc : ℕ → Bool) (k : ℕ) (es : Entries) (used : ℕ)
    → used ≡ costs es
    → used < word
    → (n : ℕ) × ((reserve_from alloc k es used).0.entries ≡ drop n es)
      × ((reserve_from alloc k es used).0.used_bytes ≡ costs (drop n es))
      × ((reserve_from alloc k es used).1 ≡ false → drop n es ≡ [])
unfolding reserve_from
reserve_lem alloc k [] used h w = (0, refl, h, λ _. refl)
reserve_lem alloc k ((j, e) ∷ es) used h w = elim (Bool-cases (alloc k)) [
  | inl got ↦ rw got (0, refl, h, λ z. cc)
  | inr failed ↦
      let (n, left, count, all) =
        reserve_lem alloc (suc k) es (sub_word used e.cost)
          (omega (arith, sub_word_lem used e.cost)) (omega (arith, sub_word_lem used e.cost)) in
      rw failed (suc n, left, count, all)
]

pub costs-erase-le : (es : Entries) (k : CacheKey) → costs (erase es k) ≤ costs es
costs-erase-le es k = elim (Option-cases (find_entry es k)) [
  | inl e ↦ omega (arith, ap costs (erase_absent es k e))
  | inr (old, e) ↦ omega (arith, costs-erase es k old e)
]

pub find-drop-none :
    (n : ℕ) (es : Entries) (k : CacheKey) → find_entry es k ≡ none → find_entry (drop n es) k ≡ none
unfolding find_entry
find-drop-none zero es k h = h
find-drop-none (suc n) [] k h = refl
find-drop-none (suc n) ((j, e) ∷ es) k h = find-drop-none n es k (ground arith)

pub remove_old_absent :
    (m : CacheMap) (k : CacheKey)
    → Distinct m.entries
    → find_entry (remove_old m k).entries k ≡ none
unfolding remove_old
remove_old_absent m k d = elim (Option-cases (find_entry m.entries k)) [
  | inl e ↦ ground arith
  | inr (old, e) ↦ ground (arith, find-erase_self m.entries k d)
]

module _ {max_bytes : ℕ} (small : max_bytes + max_bytes < word) where
  pub remove_old-IsFit :
      (m : CacheMap) (k : CacheKey) → IsFit max_bytes m → IsFit max_bytes (remove_old m k)
  unfolding remove_old
  remove_old-IsFit m k f = elim (Option-cases (find_entry m.entries k)) [
    | inl e ↦ rw (e, remove_old) f
    | inr (old, e) ↦
        let total = costs-erase m.entries k old e in
        let count : sub_word m.used_bytes old.cost ≡ costs (erase m.entries k) =
          omega (arith, sub_word_lem m.used_bytes old.cost) in
        rw (e, remove_old)
          (record {
            counted = count;
            within = omega (arith, count);
            distinct = Distinct-erase m.entries k f.distinct;
          })
  ]

  pub reserve_or_evict-IsFit :
      (alloc : ℕ → Bool) (m : CacheMap)
      → IsFit max_bytes m
      → IsFit max_bytes (reserve_or_evict alloc m).0
  unfolding reserve_or_evict
  reserve_or_evict-IsFit alloc m f =
      let (n, left, count, _) =
        reserve_lem alloc 0 m.entries m.used_bytes f.counted (omega arith) in
      record {
        counted = rw (left, count);
        within = omega (arith, count, costs-drop-le n m.entries);
        distinct = rw left (Distinct-drop n m.entries f.distinct);
      }

  -- In a map without the key, the new entry goes to the back, and the oldest go, as few as will do.
  pub insert_entry_lem :
      (m : CacheMap) (k : CacheKey) (e : CacheEntry)
      → IsFit max_bytes m
      → find_entry m.entries k ≡ none
      → e.cost ≤ max_bytes
      → (n : ℕ) × ((insert_entry max_bytes m k e).entries ≡ drop n (push_back m.entries k e))
        × ((insert_entry max_bytes m k e).used_bytes ≡ costs (drop n (push_back m.entries k e)))
        × (costs (drop n (push_back m.entries k e)) ≤ max_bytes)
        × ((i : ℕ) → i < n → max_bytes < costs (drop i (push_back m.entries k e)))
  unfolding insert_entry
  insert_entry_lem m k e f absent small_cost =
      let plus = add_word_lem m.used_bytes e.cost (omega arith) in
      let same = ap costs (erase_absent m.entries k absent) in
      evict_lem max_bytes (push_back m.entries k e) (add_word m.used_bytes e.cost)
        (omega (arith, plus, same, costs-push_back m.entries k e)) (omega (arith, plus))

  insert_entry-IsFit :
      (m : CacheMap) (k : CacheKey) (e : CacheEntry)
      → IsFit max_bytes m
      → find_entry m.entries k ≡ none
      → e.cost ≤ max_bytes
      → IsFit max_bytes (insert_entry max_bytes m k e)
  insert_entry-IsFit m k e f absent small_cost =
      let (n, left, count, ok, _) = insert_entry_lem m k e f absent small_cost in
      record {
        counted = rw (left, count);
        within = omega (arith, count);
        distinct = rw left (
            Distinct-drop n (push_back m.entries k e)
              (Distinct-push_back m.entries k e f.distinct));
      }

  -- The old entry is gone when room is made for the new one.
  pub reserved_absent :
      (alloc : ℕ → Bool) (m : CacheMap) (k : CacheKey)
      → IsFit max_bytes m
      → find_entry (reserve_or_evict alloc (remove_old m k)).0.entries k ≡ none
  unfolding reserve_or_evict
  reserved_absent alloc m k f =
      let m' = remove_old m k in
      let f' = remove_old-IsFit m k f in
      let (n, left, _, _) = reserve_lem alloc 0 m'.entries m'.used_bytes f'.counted (omega arith) in
      rw left (find-drop-none n m'.entries k (remove_old_absent m k f.distinct))

  pub put_entry-IsFit :
      (alloc : ℕ → Bool) (m : CacheMap) (k : CacheKey) (e : CacheEntry)
      → IsFit max_bytes m
      → e.cost ≤ max_bytes
      → IsFit max_bytes (put_entry alloc max_bytes m k e)
  unfolding put_entry
  put_entry-IsFit alloc m k e f small_cost =
      let f' = reserve_or_evict-IsFit alloc (remove_old m k) (remove_old-IsFit m k f) in
      let absent = reserved_absent alloc m k f in
      elim (Bool-cases (reserve_or_evict alloc (remove_old m k)).1) [
        | inl got ↦ rw got (
            insert_entry-IsFit (reserve_or_evict alloc (remove_old m k)).0 k e f' absent small_cost)
        | inr failed ↦ rw failed f'
      ]
