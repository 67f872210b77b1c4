-- ===== src/Dashboard/Store/Buckets.antt =====
-- dashboard/store.rs: the rows of a statistics table, as the counts of its buckets.
use dnsbuffer.Prelude.{
  ℕ, ◌+◌, ◌≡◌, refl, inl, inr, true, List, [], ◌∷◌, arith, if◌then◌else◌, Bool-cases, ◌==◌, nat_eq,
  list_eq, All,
}
use dnsbuffer.Prelude.Int.{ℤ, ltb_ℤ, int_eq, int_beq_iff, times}
use dnsbuffer.Dashboard.Recorder.{QueryEvent}
use dnsbuffer.Dashboard.Store.{TrendBucket, one_if, upsert, new_row, bump_row, StatsTable, table_ms}

-- The columns of a bucket, and what an event adds to each.
pub data Column : Type 0 where
  total blocked hits : Column

abbrev pub cell : Column → TrendBucket → ℕ
cell total r = r.total_queries
cell blocked r = r.blocked_queries
cell hits r = r.cache_hits

abbrev pub share : Column → QueryEvent → ℕ
share total e = 1
share blocked e = one_if e.blocked
share hits e = one_if e.cache_hit

-- The cell of a bucket; 0 without a row.
unfoldable pub count_at : Column → List TrendBucket → ℤ → ℕ
count_at c [] b = 0
count_at c (r ∷ rs) b = if r.bucket_ms == b then cell c r else count_at c rs b

-- No bucket has two rows, and the rows ascend.
abbrev pub Above : ℤ → List TrendBucket → Type 0
Above b [] = Unit
Above b (r ∷ rs) = (ltb_ℤ b r.bucket_ms ≡ true) × Above b rs

abbrev pub Ascends : List TrendBucket → Type 0
Ascends [] = Unit
Ascends (r ∷ rs) = Above r.bucket_ms rs × Ascends rs

-- A row stands at a multiple of an interval.
abbrev pub AtMultiple : ℕ → TrendBucket → Type 0
AtMultiple interval_ms r = (q : ℤ) × (r.bucket_ms ≡ times q interval_ms)

-- The rows of a table ascend, and stand at multiples of its interval.
abbrev pub InOrder : StatsTable → List TrendBucket → Type 0
InOrder table rs = Ascends rs × All (AtMultiple (table_ms table)) rs

count_at-Above : (c : Column) (rs : List TrendBucket) (b : ℤ) → Above b rs → count_at c rs b ≡ 0
unfolding count_at
count_at-Above c [] b a = refl
count_at-Above c (r ∷ rs) b a = ground (arith, count_at-Above c rs b a.1)

cell-new_row : (c : Column) (b : ℤ) (e : QueryEvent) → cell c (new_row b e) ≡ share c e
cell-new_row total b e = refl
cell-new_row blocked b e = refl
cell-new_row hits b e = refl

cell-bump_row :
    (c : Column) (r : TrendBucket) (e : QueryEvent) → cell c (bump_row r e) ≡ cell c r + share c e
cell-bump_row total r e = refl
cell-bump_row blocked r e = refl
cell-bump_row hits r e = refl

Above-weaker : (b q : ℤ) (rs : List TrendBucket) → ltb_ℤ b q ≡ true → Above q rs → Above b rs
Above-weaker b q [] h a = tt
Above-weaker b q (r ∷ rs) h a = (ground arith, Above-weaker b q rs h a.1)

pub count_at-upsert :
    (c : Column) (rs : List TrendBucket) (b : ℤ) (e : QueryEvent) (q : ℤ)
    → Ascends rs
    → count_at c (upsert rs b e) q ≡ count_at c rs q + (if b == q then share c e else 0)
unfolding count_at upsert
count_at-upsert c [] b e q a = ground (arith, cell-new_row c b e)
count_at-upsert c (r ∷ rs) b e q a = elim (Bool-cases (r.bucket_ms == b)) [
  | inl same ↦ rw same (ground (arith, cell-bump_row c r e, int_beq_iff r.bucket_ms b))
  | inr other ↦ elim (Bool-cases (ltb_ℤ b r.bucket_ms)) [
    | inl less ↦
        let fresh = count_at-Above c (r ∷ rs) b (less, Above-weaker b r.bucket_ms rs less a.0) in
        rw (other, less) (ground (arith, fresh, cell-new_row c b e, int_beq_iff b q))
    | inr more ↦
        let rest = count_at-upsert c rs b e q a.1 in
        rw (other, more)
          (ground
            (arith, rest, int_beq_iff r.bucket_ms q, int_beq_iff b q, int_beq_iff r.bucket_ms b))
  ]
]

Above-upsert :
    (q : ℤ) (rs : List TrendBucket) (b : ℤ) (e : QueryEvent)
    → ltb_ℤ q b ≡ true
    → Above q rs
    → Above q (upsert rs b e)
unfolding upsert
Above-upsert q [] b e h a = (h, tt)
Above-upsert q (r ∷ rs) b e h a = elim (Bool-cases (r.bucket_ms == b)) [
  | inl same ↦ rw same a
  | inr other ↦ elim (Bool-cases (ltb_ℤ b r.bucket_ms)) [
    | inl less ↦ rw (other, less) (h, a)
    | inr more ↦ rw (other, more) (a.0, Above-upsert q rs b e h a.1)
  ]
]

Ascends-upsert :
    (rs : List TrendBucket) (b : ℤ) (e : QueryEvent) → Ascends rs → Ascends (upsert rs b e)
unfolding upsert
Ascends-upsert [] b e a = (tt, tt)
Ascends-upsert (r ∷ rs) b e a = elim (Bool-cases (r.bucket_ms == b)) [
  | inl same ↦ rw same a
  | inr other ↦ elim (Bool-cases (ltb_ℤ b r.bucket_ms)) [
    | inl less ↦ rw (other, less) ((less, Above-weaker b r.bucket_ms rs less a.0), a)
    | inr more ↦
        rw (other, more)
          (
            Above-upsert r.bucket_ms rs b e (ground (arith, int_beq_iff r.bucket_ms b)) a.0,
            Ascends-upsert rs b e a.1,
          )
  ]
]

All-upsert :
    (interval_ms : ℕ) (rs : List TrendBucket) (b : ℤ) (e : QueryEvent) (q : ℤ)
    → b ≡ times q interval_ms
    → All (AtMultiple interval_ms) rs
    → All (AtMultiple interval_ms) (upsert rs b e)
unfolding upsert
All-upsert interval_ms [] b e q h m = ((q, h), tt)
All-upsert interval_ms (r ∷ rs) b e q h m = elim (Bool-cases (r.bucket_ms == b)) [
  | inl same ↦ rw same m
  | inr other ↦ elim (Bool-cases (ltb_ℤ b r.bucket_ms)) [
    | inl less ↦ rw (other, less) ((q, h), m)
    | inr more ↦ rw (other, more) (m.0, All-upsert interval_ms rs b e q h m.1)
  ]
]

pub InOrder-upsert :
    (table : StatsTable) (rs : List TrendBucket) (b : ℤ) (e : QueryEvent) (q : ℤ)
    → b ≡ times q (table_ms table)
    → InOrder table rs
    → InOrder table (upsert rs b e)
InOrder-upsert table rs b e q h (a, m) =
    (Ascends-upsert rs b e a, All-upsert (table_ms table) rs b e q h m)
