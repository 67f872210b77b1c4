-- ===== src/Dashboard/Store/Trend.antt =====
-- dashboard/store.rs: the buckets of the trend, with zeros where nothing is stored.
use dnsbuffer.Prelude.{
  ℕ, zero, suc, ◌+◌, ◌*◌, Bool, ◌&&◌, Option, List, [], ◌∷◌, ltb, leb, if◌then◌else◌, ◌==◌, nat_eq,
  list_eq,
}
use dnsbuffer.Prelude.Int.{ℤ, pos, negsuc, ◌+ℤ◌, ◌-ℤ◌, leb_ℤ, int_eq, checked, div_euclid, times}
use dnsbuffer.Text.{Text, str}
use dnsbuffer.Resolver.{Result, ok, err, ◌>>=◌, context}
use dnsbuffer.Dashboard.Store.{
  Tables, Statement, select_buckets, TrendBucket, StatsTable, hourly, daily, stats, keep, hour_ms,
  day_ms, execute, read_connection,
}

pub record TrendRange : Type 0 where
  pub granularity : Text
  pub table : StatsTable
  pub interval_ms : ℕ
  pub start_ms : ℤ
  pub end_ms : ℤ

pub record TrendResponse : Type 0 where
  pub start_ms : ℤ
  pub end_ms : ℤ
  pub granularity : Text
  pub buckets : List TrendBucket

abbrev pub max_trend_buckets : ℕ
max_trend_buckets = 10000

abbrev out_of_range : Text
out_of_range = str "trend range is out of range"

-- The error of a failed `try_from`.
abbrev not_convertible : Text
not_convertible = str "out of range integral type conversion attempted"

unfoldable pub bucket_start : ℤ → ℕ → Result ℤ
bucket_start timestamp_ms interval_ms =
    context (checked (times (div_euclid timestamp_ms interval_ms) interval_ms))
      (str "timestamp bucket is out of range")

-- The time a number of days back, and its bucket.
unfoldable pub days_back : ℕ → ℤ → Result ℤ
days_back days now_ms = context (checked (pos days)) not_convertible >>= λ days.
    context (checked (times days day_ms)) out_of_range >>= λ back.
    context (checked (now_ms -ℤ back)) out_of_range

unfoldable pub days_ago : ℕ → ℤ → ℕ → Result ℤ
days_ago days now_ms interval_ms = days_back days now_ms >>= λ from. bucket_start from interval_ms

-- The arms of the `match` on the retention: nothing is ever deleted, some days, and more.
unfoldable pub open_range : ℤ → Result TrendRange
open_range now_ms = bucket_start now_ms day_ms >>= λ end_ms.
    context (checked (end_ms -ℤ pos (29 * day_ms))) out_of_range >>= λ start_ms. ok (record {
      granularity = str "day";
      table = daily;
      interval_ms = day_ms;
      start_ms = start_ms;
      end_ms = end_ms;
    })

unfoldable pub hour_range : ℕ → ℤ → Result TrendRange
hour_range days now_ms = days_ago days now_ms hour_ms >>= λ start_ms.
    bucket_start now_ms hour_ms >>= λ end_ms. ok (record {
      granularity = str "hour";
      table = hourly;
      interval_ms = hour_ms;
      start_ms = start_ms;
      end_ms = end_ms;
    })

unfoldable pub day_range : ℕ → ℤ → Result TrendRange
day_range days now_ms = days_ago days now_ms day_ms >>= λ start_ms.
    bucket_start now_ms day_ms >>= λ end_ms. ok (record {
      granularity = str "day";
      table = daily;
      interval_ms = day_ms;
      start_ms = start_ms;
      end_ms = end_ms;
    })

unfoldable pub trend_range : ℕ → ℤ → Result TrendRange
trend_range retention_days now_ms =
    if retention_days == 0
    then open_range now_ms
    else if leb retention_days 15
    then hour_range retention_days now_ms
    else day_range retention_days now_ms

-- `u64::try_from`.
unfoldable pub to_u64 : ℤ → Result ℕ
to_u64 (pos n) = ok n
to_u64 (negsuc n) = err not_convertible

-- The number is far below the bound of a `u64` and of a `usize`.
unfoldable pub bucket_count : TrendRange → Result ℕ
bucket_count range = context (checked (range.end_ms -ℤ range.start_ms)) out_of_range >>= λ span.
    to_u64 (div_euclid span range.interval_ms) >>= λ last.
    if ltb max_trend_buckets (last + 1)
    then err (str "trend range exceeds maximum of 10000 buckets")
    else ok (last + 1)

unfoldable pub empty_bucket : ℤ → TrendBucket
empty_bucket bucket_ms = record {
  bucket_ms = bucket_ms;
  total_queries = 0;
  blocked_queries = 0;
  cache_hits = 0;
}

-- The time of the bucket at an index.
unfoldable pub bucket_time : ℤ → ℕ → ℕ → Result ℤ
bucket_time start_ms interval_ms index =
    context (checked (pos index)) (str "trend bucket is out of range") >>= λ value.
    context (checked (times value interval_ms)) (str "trend bucket is out of range") >>= λ offset.
    context (checked (start_ms +ℤ offset)) (str "trend bucket is out of range")

-- `stored.peek()` and `stored.next()`: the bucket of a time, and what stays stored.
unfoldable pub take_bucket : ℤ → List TrendBucket → TrendBucket × List TrendBucket
take_bucket bucket_ms [] = (empty_bucket bucket_ms, [])
take_bucket bucket_ms (b ∷ bs) =
    if b.bucket_ms == bucket_ms then (b, bs) else (empty_bucket bucket_ms, b ∷ bs)

-- The loop over the indices, with the number of those that are left.
unfoldable pub fill : ℤ → ℕ → ℕ → ℕ → List TrendBucket → Result (List TrendBucket)
fill start_ms interval_ms zero index stored = ok []
fill start_ms interval_ms (suc left) index stored =
    bucket_time start_ms interval_ms index >>= λ bucket_ms.
    let (bucket, rest) = take_bucket bucket_ms stored in
    fill start_ms interval_ms left (index + 1) rest >>= λ buckets. ok (bucket ∷ buckets)

-- `WHERE bucket_ms BETWEEN ?1 AND ?2`.
unfoldable pub is_between : ℤ → ℤ → TrendBucket → Bool
is_between start_ms end_ms r = leb_ℤ start_ms r.bucket_ms && leb_ℤ r.bucket_ms end_ms

module _ (refuses : Statement → Tables → Option Text) (midnight : ℤ → Option ℤ) where
  unfoldable pub trend_with_deadline : ℕ → ℤ → Option ℕ → ℕ → Tables → Result TrendResponse
  trend_with_deadline retention_days now_ms deadline now t =
      context (midnight now_ms) (str "trend timestamp is out of range") >>= λ day.
      trend_range retention_days now_ms >>= λ range. bucket_count range >>= λ count.
      read_connection refuses deadline now t >>= λ t.
      execute refuses (select_buckets range.table range.start_ms range.end_ms) t >>= λ t.
      fill range.start_ms range.interval_ms count 0
        (keep (is_between range.start_ms range.end_ms) (stats range.table t))
      >>= λ buckets. ok (record {
        start_ms = range.start_ms;
        end_ms = range.end_ms;
        granularity = range.granularity;
        buckets = buckets;
      })
