-- ===== src/Cache/Lru.antt =====
-- Eviction is by least recent use, and a response that was stored is read back.
use dnsbuffer.Prelude.{
  ℕ, zero, suc, ◌+◌, ◌-◌, ◌*◌, ◌≤◌, ◌<◌, ◌≡◌, refl, ap, ◌∙◌, ◌⊎◌, inl, inr, Bool, true, false, some,
  [], ◌∷◌, ◌++◌, arith, leb, Option-cases, nat_eq, list_eq, length, drop, length-append,
}
use mathlib.Core.Path.{subst}
use native.Mathlib.Decide.{dec_le}
use dnsbuffer.HashMap.{get as find_entry}
use dnsbuffer.Message.{Hickory, Message}
use dnsbuffer.Cache.{
  CacheKey, key_eq, key_beq_iff, CacheEntry, Entries, CacheMap, Cache, push_back, set_id, get,
  new_entry, entry_cost, put_entry, put, erase, message_ttl, insert_entry, reserve_or_evict,
  reserve_from, remove_old,
}
use dnsbuffer.Cache.Entries.{costs, Distinct, erase_absent, find-erase_self, find-append}
use dnsbuffer.Cache.Budget.{
  IsValid, insert_entry_lem, remove_old-IsFit, remove_old_absent, find-drop-none,
}

-- The entries after the old entry of `k` is out: those of the other keys.
entries-remove_old : (m : CacheMap) (k : CacheKey) → (remove_old m k).entries ≡ erase m.entries k
unfolding remove_old
entries-remove_old m k = elim (Option-cases (find_entry m.entries k)) [
  | inl e ↦ ground (arith, erase_absent m.entries k e)
  | inr (old, e) ↦ ground arith
]

reserve-first :
    (alloc : ℕ → Bool) (m : CacheMap) → alloc 0 ≡ true → reserve_or_evict alloc m ≡ (m, true)
unfolding reserve_or_evict
reserve-first alloc m got = first m.entries m.used_bytes got
  where
    first :
        (es : Entries) (used : ℕ)
        → alloc 0 ≡ true
        → reserve_from alloc 0 es used ≡ (record { entries = es; used_bytes = used }, true)
    first [] used got = unfold reserve_from in ground arith
    first ((j, e) ∷ es) used got = unfold reserve_from in ground arith

erase-erase : (es : Entries) (k : CacheKey) → Distinct es → erase (erase es k) k ≡ erase es k
erase-erase es k d = erase_absent (erase es k) k (find-erase_self es k d)

push_back-remove_old :
    (m : CacheMap) (k : CacheKey) (e : CacheEntry)
    → Distinct m.entries
    → push_back (remove_old m k).entries k e ≡ push_back m.entries k e
unfolding push_back
push_back-remove_old m k e d =
    rw (entries-remove_old m k) (ap (λ es. es ++ (k, e) ∷ []) (erase-erase m.entries k d))

drop-append_one :
    (n : ℕ) (es : Entries) (x : CacheKey × CacheEntry)
    → n ≤ length es
    → drop n (es ++ x ∷ []) ≡ drop n es ++ x ∷ []
drop-append_one zero es x h = refl
drop-append_one (suc n) [] x h = absurd (omega arith)
drop-append_one (suc n) (y ∷ es) x h = drop-append_one n es x (omega arith)

drop-length : (es : Entries) (x : CacheKey × CacheEntry) → drop (length es) (es ++ x ∷ []) ≡ x ∷ []
drop-length [] x = refl
drop-length (y ∷ es) x = drop-length es x

tail-drop-length :
    (n : ℕ) (es : Entries) (x : CacheKey × CacheEntry)
    → length es < n
    → costs (drop (n - 1) (es ++ x ∷ [])) ≤ x.1.cost
tail-drop-length n es x h = elim (dec_le n (length es + 1)) [
  | yes p ↦ let e : n - 1 ≡ length es = omega arith in rw e (rw (drop-length es x) (omega arith))
  | no p ↦
      rw (drop_all (n - 1) (es ++ x ∷ []) (omega (arith, length-append es (x ∷ [])))) (omega arith)
]
  where
    drop_all : (n : ℕ) (es : Entries) → length es ≤ n → drop n es ≡ []
    drop_all zero [] h = refl
    drop_all (suc n) [] h = refl
    drop_all zero (y ∷ es) h = absurd (omega arith)
    drop_all (suc n) (y ∷ es) h = drop_all n es (omega arith)

module _ (h : Hickory) (alloc : ℕ → Bool) (c : Cache) (k : CacheKey) (m : Message) (now : ℕ) where
  module _ (v : IsValid c) (sound : c.poisoned ≡ false) (got : alloc 0 ≡ true)
      (small : entry_cost h k m ≤ c.max_bytes) where
    map-put :
        (put h alloc c k m now).map
        ≡ insert_entry c.max_bytes (remove_old c.map k) k (new_entry h k m now)
    unfolding put put_entry
    map-put = ground (arith, reserve-first alloc (remove_old c.map k) got)

    -- If memory is to be had, a message that fits the budget is stored at the back. The entries are
    -- then the old ones of the other keys in their order with the new one behind them, less the `n`
    -- at the front, the least recently used; they fit the budget, and with any fewer evicted they
    -- would not.
    pub put_evicts_oldest :
        (n : ℕ) × ((put h alloc c k m now).map.entries
          ≡ drop n (push_back c.map.entries k (new_entry h k m now)))
        × (costs (drop n (push_back c.map.entries k (new_entry h k m now))) ≤ c.max_bytes)
        × ((n ≡ 0)
            ⊎ (c.max_bytes
                < costs (drop (n - 1) (push_back c.map.entries k (new_entry h k m now)))))
    unfolding new_entry
    put_evicts_oldest =
        let m' = remove_old c.map k in
        let e = new_entry h k m now in
        let same = push_back-remove_old c.map k e v.fit.distinct in
        let (n, left, _, fits, over) =
          insert_entry_lem v.no_overflow m' k e (remove_old-IsFit v.no_overflow c.map k v.fit)
            (remove_old_absent c.map k v.fit.distinct) small in
        (
          n,
          ap (λ x. x.entries) map-put ∙ left ∙ ap (drop n) same,
          subst (λ all. costs (drop n all) ≤ c.max_bytes) same fits,
          elim (dec_le n 0) [
            | yes z ↦ inl (omega arith)
            | no z ↦ inr (
                subst (λ all. c.max_bytes < costs (drop (n - 1) all)) same
                  (over (n - 1) (omega arith)))
          ],
        )

    -- The new entry itself is never evicted.
    find-put : find_entry (put h alloc c k m now).map.entries k ≡ some (new_entry h k m now)
    unfolding push_back new_entry find_entry
    find-put =
        let e = new_entry h k m now in
        let others = erase c.map.entries k in
        let (n, left, fits, over) = put_evicts_oldest in
        let kept : n ≤ length others = elim (dec_le n (length others)) [
          | yes p ↦ p
          | no q ↦ absurd (omega (arith, over, tail-drop-length n others (k, e) (omega arith)))
        ] in
        rw (left, drop-append_one n others (k, e) kept)
          (ground (
            arith,
            find-append (drop n others) ((k, e) ∷ []) k,
            key_beq_iff k k,
            find-drop-none n others k (find-erase_self c.map.entries k v.fit.distinct),
          ))

    sound-put : (put h alloc c k m now).poisoned ≡ false
    unfolding put
    sound-put = ground arith

    -- A read right after the store returns the message with the id of the new query, marked as
    -- expired exactly if its lifetime, the least TTL of its answers or 60 seconds, is over.
    pub get-put :
        (query_id later : ℕ)
        → (get (put h alloc c k m now) k query_id later).1
          ≡ some (set_id query_id m, leb (now + message_ttl m * 1_000_000_000) later)
    unfolding get new_entry
    get-put query_id later = ground (arith, find-put, sound-put)
