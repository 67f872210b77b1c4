-- ===== src/Cache.antt =====
-- cache.rs: the LRU cache of responses under a memory budget.
-- Instants are nanoseconds; `alloc k` says whether the k-th request of one call for memory succeeds.
pub mod Entries
pub mod Budget
pub mod Lru
pub mod Reads
pub mod Safe
use dnsbuffer.Prelude.{
  ℕ, zero, suc, ◌+◌, ◌-◌, ◌*◌, ◌/◌, ◌%◌, ◌^◌, ◌≤◌, ◌<◌, min, max, ◌≡◌, refl, sym, ap, ◌∙◌, ◌≢◌, ◌↔◌,
  ◌⊎◌, inl, inr, Bool, true, false, not, ◌&&◌, ◌||◌, Option, none, some, List, [], ◌∷◌, ◌++◌, map,
  reverse, arith, ltb, leb, nat_beq, if◌then◌else◌, tests, Bool-cases, Option-cases, Eq, ◌==◌,
  nat_beq_iff, ==_iff, ==_refl, nat_eq, list_beq, list_beq_iff, list_eq, length, get_elem?, drop,
  length-append, All, any_of, All-append, sum, contains, contains-append,
}
use dnsbuffer.HashMap.{get as find_entry}
use dnsbuffer.Text.{Text, normalize}
use dnsbuffer.Message.{Hickory, Message, Metadata, Query, Record, first}

pub record CacheKey : Type 0 where
  pub name : Text
  pub qtype : ℕ

unfoldable pub key_beq : CacheKey → CacheKey → Bool
key_beq a b = a.name == b.name && a.qtype == b.qtype

pub key_beq_iff : (a b : CacheKey) → (key_beq a b ≡ true) ↔ (a ≡ b)
unfolding key_beq
key_beq_iff a b = ground (arith, ==_iff a.name b.name)

instance abbrev pub key_eq : Eq CacheKey
key_eq = record { beq = key_beq; beq_iff = key_beq_iff }

unfoldable pub from_query : Message → Option CacheKey
from_query query = elim (first query.queries) [
  | none ↦ none
  | some q ↦ some (record { name = normalize q.name; qtype = q.query_type })
]

pub record CacheEntry : Type 0 where
  pub message : Message
  pub expires_at : ℕ
  pub cost : ℕ

-- hashlink's `LinkedHashMap`: its entries in the order of the links, the front first.
abbrev pub Entries : Type 0
Entries = List (CacheKey × CacheEntry)

pub record CacheMap : Type 0 where
  pub entries : Entries
  pub used_bytes : ℕ

-- `poisoned` is the state of the mutex in which `lock` fails.
pub record Cache : Type 0 where
  pub map : CacheMap
  pub poisoned : Bool
  pub max_bytes : ℕ
  pub lookups : ℕ
  pub hits : ℕ

-- The number of values of `usize` and `u64`.
abbrev pub word : ℕ
word = 2 ^ 64

unfoldable pub add_word : ℕ → ℕ → ℕ
add_word a b = (a + b) % word

unfoldable pub sub_word : ℕ → ℕ → ℕ
sub_word a b = (a + word - b) % word

unfoldable pub entry_cost : Hickory → CacheKey → Message → ℕ
entry_cost h key message =
    let wire_len : ℕ = elim (h.to_vec message) [ some bytes ↦ length bytes | none ↦ 512 ] in
    (128 + length key.name + wire_len * 3) % word

unfoldable pub with_max_bytes : ℕ → Cache
with_max_bytes max_bytes = record {
  map = record { entries = []; used_bytes = 0 };
  poisoned = false;
  max_bytes = max_bytes;
  lookups = 0;
  hits = 0;
}

-- `max(1).saturating_mul(1024 * 1024)`.
unfoldable pub new : ℕ → Cache
new max_memory_mb = with_max_bytes (min (max max_memory_mb 1 * 1_048_576) (word - 1))

-- `LinkedHashMap::remove`, the map that stays.
unfoldable pub erase : Entries → CacheKey → Entries
erase [] k = []
erase ((j, e) ∷ es) k = if j == k then es else (j, e) ∷ erase es k

-- `LinkedHashMap::insert` links the entry at the back.
unfoldable pub push_back : Entries → CacheKey → CacheEntry → Entries
push_back es k e = erase es k ++ (k, e) ∷ []

unfoldable pub set_id : ℕ → Message → Message
set_id i m = record m { metadata = record (m.metadata) { id = i } }

-- The new cache, and on a hit the message for this query with the flag that it has expired.
unfoldable pub get : Cache → CacheKey → ℕ → ℕ → Cache × Option (Message × Bool)
get c key query_id now =
    let c' = record c { lookups = add_word c.lookups 1 } in
    if c.poisoned then (c', none) else elim (find_entry c.map.entries key) [
      | none ↦ (c', none)
      | some entry ↦ (
        record c' {
          map = record (c.map) { entries = push_back c.map.entries key entry };
          hits = add_word c.hits 1;
        },
        some (set_id query_id entry.message, leb entry.expires_at now),
      )
    ]

-- The least TTL among the records.
unfoldable pub min_ttl : List Record → Option ℕ
min_ttl [] = none
min_ttl (r ∷ rs) = elim (min_ttl rs) [ none ↦ some r.ttl | some t ↦ some (min r.ttl t) ]

-- In seconds; 60 for a message with no answer.
unfoldable pub message_ttl : Message → ℕ
message_ttl m = elim (min_ttl m.answers) [ some t ↦ t | none ↦ 60 ]

-- `reserve_or_evict`, from the k-th request on.
unfoldable pub reserve_from : (ℕ → Bool) → ℕ → Entries → ℕ → CacheMap × Bool
reserve_from alloc k [] used = (record { entries = []; used_bytes = used }, alloc k)
reserve_from alloc k ((j, e) ∷ es) used =
    let retry = reserve_from alloc (suc k) es (sub_word used e.cost) in
    if alloc k then (record { entries = (j, e) ∷ es; used_bytes = used }, true) else retry

unfoldable pub reserve_or_evict : (ℕ → Bool) → CacheMap → CacheMap × Bool
reserve_or_evict alloc m = reserve_from alloc 0 m.entries m.used_bytes

-- `if let Some(old) = map.entries.remove(&key) { map.used_bytes -= old.cost; }`
unfoldable pub remove_old : CacheMap → CacheKey → CacheMap
remove_old m key = elim (find_entry m.entries key) [
  | some old ↦ record { entries = erase m.entries key; used_bytes = sub_word m.used_bytes old.cost }
  | none ↦ m
]

-- `while map.used_bytes > max_bytes { pop_front … }`
unfoldable pub evict : ℕ → Entries → ℕ → CacheMap
evict max_bytes [] used = record { entries = []; used_bytes = used }
evict max_bytes ((j, e) ∷ es) used =
    let rest = evict max_bytes es (sub_word used e.cost) in
    if ltb max_bytes used then rest else record { entries = (j, e) ∷ es; used_bytes = used }

unfoldable pub insert_entry : ℕ → CacheMap → CacheKey → CacheEntry → CacheMap
insert_entry max_bytes m key entry =
    evict max_bytes (push_back m.entries key entry) (add_word m.used_bytes entry.cost)

-- The part of `put` under the lock.
unfoldable pub put_entry : (ℕ → Bool) → ℕ → CacheMap → CacheKey → CacheEntry → CacheMap
put_entry alloc max_bytes m key entry =
    let (m', reserved) = reserve_or_evict alloc (remove_old m key) in
    if reserved then insert_entry max_bytes m' key entry else m'

unfoldable pub new_entry : Hickory → CacheKey → Message → ℕ → CacheEntry
new_entry h key message now = record {
  message = message;
  expires_at = now + message_ttl message * 1_000_000_000;
  cost = entry_cost h key message;
}

unfoldable pub put : Hickory → (ℕ → Bool) → Cache → CacheKey → Message → ℕ → Cache
put h alloc c key message now =
    if ltb c.max_bytes (entry_cost h key message)
    then c
    else if c.poisoned
    then c
    else record c { map = put_entry alloc c.max_bytes c.map key (new_entry h key message now) }

unfoldable pub len : Cache → ℕ
len c = if c.poisoned then 0 else length c.map.entries

unfoldable pub hit_stats : Cache → ℕ × ℕ
hit_stats c = (c.lookups, c.hits)

unfoldable pub memory_stats : Cache → ℕ × ℕ
memory_stats c = (if c.poisoned then 0 else c.map.used_bytes, c.max_bytes)

unfoldable pub is_empty : Cache → Bool
is_empty c = len c == 0
