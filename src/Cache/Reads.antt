-- ===== src/Cache/Reads.antt =====
-- The invariant along every sequence of calls, and what can be read after a call.
use dnsbuffer.Prelude.{
  ℕ, ◌^◌, ◌≤◌, ◌<◌, ◌≡◌, refl, inl, inr, Bool, false, List, [], ◌∷◌, arith, ltb, Bool-cases,
  Option-cases, nat_eq, list_eq,
}
use dnsbuffer.HashMap.{get as find_entry}
use dnsbuffer.Message.{Hickory, Message}
use dnsbuffer.Cache.{
  CacheKey, key_eq, key_beq_iff, Cache, get, with_max_bytes, new, new_entry, entry_cost, put,
}
use dnsbuffer.Cache.Entries.{costs-erase, Distinct-push_back, costs-push_back, find-push_back}
use dnsbuffer.Cache.Budget.{IsValid, put_entry-IsFit}

pub get-IsValid : (c : Cache) (k : CacheKey) (i now : ℕ) → IsValid c → IsValid (get c k i now).0
unfolding get
get-IsValid c k i now v = elim (Bool-cases c.poisoned) [
  | inl p ↦ ground arith
  | inr p ↦ elim (Option-cases (find_entry c.map.entries k)) [
    | inl miss ↦ ground arith
    | inr (e, hit) ↦ ground (
      arith,
      costs-erase c.map.entries k e hit,
      costs-push_back c.map.entries k e,
      Distinct-push_back c.map.entries k e v.fit.distinct,
    )
  ]
]

module _ (h : Hickory) where
  pub put-IsValid :
      (alloc : ℕ → Bool) (c : Cache) (k : CacheKey) (m : Message) (now : ℕ)
      → IsValid c
      → IsValid (put h alloc c k m now)
  unfolding put
  put-IsValid alloc c k m now v = elim (Bool-cases (ltb c.max_bytes (entry_cost h k m))) [
    | inl big ↦ rw big v
    | inr fits ↦ elim (Bool-cases c.poisoned) [
      | inl p ↦ ground arith
      | inr p ↦
          let e = new_entry h k m now in
          let f =
            put_entry-IsFit v.no_overflow alloc c.map k e v.fit (cost-new_entry k m now fits) in
          ground arith
    ]
  ]
    where
      cost-new_entry :
          (k : CacheKey) (m : Message) (now : ℕ)
          → ltb c.max_bytes (entry_cost h k m) ≡ false
          → (new_entry h k m now).cost ≤ c.max_bytes
      cost-new_entry k m now fits = unfold new_entry in ground arith

  -- The calls that clients of the cache make, with what the clock and the allocator give.
  pub data Call : Type 0 where
    gets : CacheKey → ℕ → ℕ → Call
    puts : (ℕ → Bool) → CacheKey → Message → ℕ → Call

  pub call : Cache → Call → Cache
  call c (gets k i now) = (get c k i now).0
  call c (puts alloc k m now) = put h alloc c k m now

  pub run : Cache → List Call → Cache
  run c [] = c
  run c (x ∷ xs) = run (call c x) xs

  run-keeps : (c : Cache) (xs : List Call) → IsValid c → IsValid (run c xs)
  unfolding run call
  run-keeps c [] v = v
  run-keeps c (gets k i now ∷ xs) v = run-keeps (get c k i now).0 xs (get-IsValid c k i now v)
  run-keeps c (puts alloc k m now ∷ xs) v =
      run-keeps (put h alloc c k m now) xs (put-IsValid alloc c k m now v)

  new-IsValid : (mb : ℕ) → mb < 2 ^ 42 → IsValid (new mb)
  unfolding new with_max_bytes
  new-IsValid mb small = record {
    fit = record { counted = refl; within = omega arith; distinct = tt };
    no_overflow = omega arith;
  }

  -- After any sequence of calls on a new cache with a budget below 2^42 MB, whatever the clock and
  -- the allocator give: the byte count is the exact sum of the costs of the entries, it is within
  -- the budget, and no key stands twice.
  pub run-new-IsValid : (mb : ℕ) (xs : List Call) → mb < 2 ^ 42 → IsValid (run (new mb) xs)
  run-new-IsValid mb xs small = run-keeps (new mb) xs (new-IsValid mb small)

-- A read changes nothing that a later read can find: each key keeps its entry, also where the entry
-- read moves to the back.
find-get :
    (c : Cache) (k q : CacheKey) (i now : ℕ)
    → IsValid c
    → find_entry (get c k i now).0.map.entries q ≡ find_entry c.map.entries q
unfolding get
find-get c k q i now v = elim (Bool-cases c.poisoned) [
  | inl p ↦ ground arith
  | inr p ↦ elim (Option-cases (find_entry c.map.entries k)) [
    | inl miss ↦ ground arith
    | inr (e, hit) ↦
        ground (arith, find-push_back c.map.entries k e q v.fit.distinct, key_beq_iff k q)
  ]
]
