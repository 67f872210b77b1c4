-- ===== src/Cache/Safe.antt =====
-- Every response in the cache is NoError, so long as only such responses are stored.
use dnsbuffer.Prelude.{
  ℕ, suc, ◌≡◌, inl, inr, Bool, true, some, [], ◌∷◌, arith, ltb, Bool-cases, Option-cases, nat_eq,
  list_eq, All, All-append,
}
use dnsbuffer.HashMap.{get as find_entry}
use dnsbuffer.Message.{Hickory, Message, is_no_error}
use dnsbuffer.Cache.{
  CacheKey, key_eq, key_beq, CacheEntry, CacheMap, Cache, Entries, erase, push_back, get, put,
  put_entry, new_entry, evict, insert_entry, reserve_from, reserve_or_evict, remove_old, entry_cost,
  sub_word,
}
use dnsbuffer.Cache.Budget.{IsValid}
use dnsbuffer.Cache.Reads.{get-IsValid, put-IsValid}

abbrev pub Succeeded : CacheKey × CacheEntry → Type 0
Succeeded (k, e) = is_no_error e.message.metadata.response_code ≡ true

-- The cache is within its budget, and every response in it is NoError.
pub record IsSafe (c : Cache) : Type 0 where
  pub valid : IsValid c
  pub no_errors : All Succeeded c.map.entries

All-erase : (es : Entries) (k : CacheKey) → All Succeeded es → All Succeeded (erase es k)
unfolding erase
All-erase [] k a = tt
All-erase ((j, e) ∷ es) k a = elim (Bool-cases (key_beq j k)) [
  | inl same ↦ rw same a.1
  | inr other ↦ rw other (a.0, All-erase es k a.1)
]

All-push_back :
    (es : Entries) (k : CacheKey) (e : CacheEntry)
    → All Succeeded es
    → Succeeded (k, e)
    → All Succeeded (push_back es k e)
unfolding push_back
All-push_back es k e a s =
    All-append Succeeded (erase es k) ((k, e) ∷ []) (All-erase es k a) (s, tt)

All-find :
    (es : Entries) (k : CacheKey) (e : CacheEntry)
    → All Succeeded es
    → find_entry es k ≡ some e
    → Succeeded (k, e)
unfolding find_entry
All-find [] k e a h = absurd (ground arith)
All-find ((j, f) ∷ es) k e a h = ground (arith, All-find es k e a.1)

All-evict :
    (max_bytes : ℕ) (es : Entries) (used : ℕ)
    → All Succeeded es
    → All Succeeded (evict max_bytes es used).entries
unfolding evict
All-evict max_bytes [] used a = tt
All-evict max_bytes ((j, e) ∷ es) used a = elim (Bool-cases (ltb max_bytes used)) [
  | inl over ↦ rw over (All-evict max_bytes es (sub_word used e.cost) a.1)
  | inr fits ↦ rw fits a
]

All-reserve :
    (alloc : ℕ → Bool) (k : ℕ) (es : Entries) (used : ℕ)
    → All Succeeded es
    → All Succeeded (reserve_from alloc k es used).0.entries
unfolding reserve_from
All-reserve alloc k [] used a = tt
All-reserve alloc k ((j, e) ∷ es) used a = elim (Bool-cases (alloc k)) [
  | inl got ↦ rw got a
  | inr failed ↦ rw failed (All-reserve alloc (suc k) es (sub_word used e.cost) a.1)
]

All-remove_old :
    (m : CacheMap) (k : CacheKey) → All Succeeded m.entries → All Succeeded (remove_old m k).entries
unfolding remove_old
All-remove_old m k a = elim (Option-cases (find_entry m.entries k)) [
  | inl e ↦ rw (e, remove_old) a
  | inr (old, e) ↦ rw (e, remove_old) (All-erase m.entries k a)
]

All-put_entry :
    (alloc : ℕ → Bool) (max_bytes : ℕ) (m : CacheMap) (k : CacheKey) (e : CacheEntry)
    → All Succeeded m.entries
    → Succeeded (k, e)
    → All Succeeded (put_entry alloc max_bytes m k e).entries
unfolding put_entry reserve_or_evict insert_entry
All-put_entry alloc max_bytes m k e a s =
    let m' = remove_old m k in
    let a' = All-reserve alloc 0 m'.entries m'.used_bytes (All-remove_old m k a) in
    let reserved = reserve_from alloc 0 m'.entries m'.used_bytes in
    elim (Bool-cases reserved.1) [
      | inl got ↦ rw got (All-evict max_bytes _ _ (All-push_back (reserved.0).entries k e a' s))
      | inr failed ↦ rw failed a'
    ]

pub put-IsSafe :
    (h : Hickory) (alloc : ℕ → Bool) (c : Cache) (k : CacheKey) (m : Message) (now : ℕ)
    → IsSafe c
    → is_no_error m.metadata.response_code ≡ true
    → IsSafe (put h alloc c k m now)
put-IsSafe h alloc c k m now s fine = record {
  valid = put-IsValid h alloc c k m now s.valid;
  no_errors = stored;
}
  where
    stored : All Succeeded (put h alloc c k m now).map.entries
    stored =
        unfold put new_entry in
        elim (Bool-cases (ltb c.max_bytes (entry_cost h k m))) [
          | inl big ↦ rw big s.no_errors
          | inr fits ↦ elim (Bool-cases c.poisoned) [
            | inl p ↦ rw (fits, p) s.no_errors
            | inr p ↦
                rw (fits, p)
                  (All-put_entry alloc c.max_bytes c.map k (new_entry h k m now) s.no_errors fine)
          ]
        ]

pub get-IsSafe : (c : Cache) (k : CacheKey) (i now : ℕ) → IsSafe c → IsSafe (get c k i now).0
get-IsSafe c k i now s = record { valid = get-IsValid c k i now s.valid; no_errors = kept }
  where
    kept : All Succeeded (get c k i now).0.map.entries
    kept =
        unfold get in
        elim (Bool-cases c.poisoned) [
          | inl p ↦ ground arith
          | inr p ↦ elim (Option-cases (find_entry c.map.entries k)) [
            | inl miss ↦ ground arith
            | inr (e, hit) ↦ ground (
              arith,
              All-push_back c.map.entries k e s.no_errors
                  (All-find c.map.entries k e s.no_errors hit),
            )
          ]
        ]
