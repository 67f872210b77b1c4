-- ===== src/Dashboard/Store/Consistent.antt =====
-- dashboard/store.rs: the tables agree with each other, whatever is inserted and cleaned up.
use dnsbuffer.Prelude.{
  ℕ, ◌+◌, ◌≤◌, ◌≡◌, refl, true, Option, List, [], ◌∷◌, ◌++◌, arith, if◌then◌else◌, ◌==◌, nat_eq,
  list_eq, any_of, any_of-append,
}
use dnsbuffer.Prelude.Int.{ℤ, int_eq}
use dnsbuffer.Text.{Text}
use dnsbuffer.Dashboard.Recorder.{QueryEvent}
use dnsbuffer.Dashboard.Store.{Tables, StatsTable, stats, one_if, has_id, log_row, LogRow, owns_ip}
use dnsbuffer.Dashboard.Store.Buckets.{Column, total, blocked, hits, share, count_at, InOrder}
use dnsbuffer.Dashboard.Store.Insert.{IsRecorded, bucket, falls_in, counted, ip_of, rows_of}

abbrev row_share : Column → LogRow → ℕ
row_share total r = 1
row_share blocked r = one_if r.blocked
row_share hits r = one_if r.cache_hit

-- The rows of a bucket, as a cell of it counts them.
unfoldable pub rows_in : (ℤ → Option ℤ) → StatsTable → Column → ℤ → List LogRow → ℕ
rows_in midnight table c b [] = 0
rows_in midnight table c b (r ∷ rs) =
    (if falls_in (bucket midnight table r.timestamp_ms) b then row_share c r else 0)
    + rows_in midnight table c b rs

-- Every stored address belongs to a stored row; the statistics tables are in order; and no cell counts less
-- than the stored rows of its bucket.
pub record IsConsistent (midnight : ℤ → Option ℤ) (t : Tables) : Type 0 where
  pub owned : (id : ℕ) (ip : Text) → any_of (owns_ip id ip) t.ips ≡ true → has_id id t.logs ≡ true
  pub ordered : (table : StatsTable) → InOrder table (stats table t)
  pub covered :
      (table : StatsTable) (c : Column) (b : ℤ)
      → rows_in midnight table c b t.logs ≤ count_at c (stats table t) b

row_share-log_row : (c : Column) (n : ℕ) (e : QueryEvent) → row_share c (log_row n e) ≡ share c e
row_share-log_row total n e = refl
row_share-log_row blocked n e = refl
row_share-log_row hits n e = refl

module _ (midnight : ℤ → Option ℤ) (table : StatsTable) (c : Column) (b : ℤ) where
  rows_in-append :
      (rs ss : List LogRow)
      → rows_in midnight table c b (rs ++ ss)
        ≡ rows_in midnight table c b rs + rows_in midnight table c b ss
  unfolding rows_in
  rows_in-append [] ss = ground arith
  rows_in-append (r ∷ rs) ss = ground (arith, rows_in-append rs ss)

  rows_in-rows_of :
      (n : ℕ) (es : List QueryEvent)
      → rows_in midnight table c b (rows_of n es) ≡ counted midnight table c b es
  unfolding rows_in
  rows_in-rows_of n [] = refl
  rows_in-rows_of n (e ∷ es) =
      ground (arith, rows_in-rows_of (n + 1) es, row_share-log_row c (n + 1) e)

has_id-rows_of :
    (n : ℕ) (es : List QueryEvent) (id : ℕ) (ip : Text)
    → ip_of n es id ip ≡ true
    → has_id id (rows_of n es) ≡ true
has_id-rows_of n [] id ip h = absurd (ground arith)
has_id-rows_of n (e ∷ es) id ip h = ground (arith, has_id-rows_of (n + 1) es id ip)

module _ (midnight : ℤ → Option ℤ) where
  pub IsConsistent-recorded :
      (es : List QueryEvent) (t t' : Tables)
      → IsConsistent midnight t
      → IsRecorded midnight es t t'
      → IsConsistent midnight t'
  IsConsistent-recorded es t t' v r = record {
    owned = λ id ip h.
        rw (r.logs, any_of-append (λ r. r.id == id) t.logs (rows_of t.last_id es))
          (ground (arith, r.ips id ip, v.owned id ip, has_id-rows_of t.last_id es id ip));
    ordered = r.ordered;
    covered = λ table c b.
        rw (r.logs, rows_in-append midnight table c b t.logs (rows_of t.last_id es))
          (ground (
            arith,
            r.counts table c b,
            v.covered table c b,
            rows_in-rows_of midnight table c b t.last_id es,
          ));
  }
