-- ===== src/Dashboard/Store.antt =====
-- dashboard/store.rs: the tables of the query history, and the statements that change them.
pub mod Buckets
pub mod Insert
pub mod Batch
pub mod Consistent
pub mod Cleanup
pub mod Calls
pub mod Trend
pub mod Grid
pub mod Filled
pub mod Queries
pub mod Rows
pub mod Schema
pub mod Opened
pub mod Worker
pub mod Rankings
pub mod Ranked
pub mod Warnings
pub mod Drained
pub mod Addresses
pub mod Pages
pub mod Search
pub mod Range
pub mod Shown
use dnsbuffer.Prelude.{
  ℕ, zero, suc, ◌+◌, ◌-◌, ◌*◌, ◌/◌, ◌%◌, ◌^◌, ◌≤◌, ◌<◌, min, max, ◌≡◌, refl, sym, ap, ◌∙◌, ◌≢◌, ◌↔◌,
  ◌⊎◌, inl, inr, Bool, true, false, not, ◌&&◌, ◌||◌, Option, none, some, List, [], ◌∷◌, ◌++◌, map,
  reverse, arith, ltb, leb, nat_beq, if◌then◌else◌, tests, Bool-cases, Option-cases, Eq, ◌==◌,
  nat_beq_iff, ==_iff, ==_refl, nat_eq, list_beq, list_beq_iff, list_eq, length, get_elem?, drop,
  length-append, All, any_of, All-append, any_of-append, sum, contains, contains-append,
}
use dnsbuffer.Prelude.Int.{ℤ, pos, ◌+ℤ◌, ◌-ℤ◌, leb_ℤ, ltb_ℤ, int_eq, checked, div_euclid, times}
use dnsbuffer.Text.{Text, str}
use dnsbuffer.Resolver.{Result, ok, err, ◌>>=◌, context}
use dnsbuffer.Dashboard.Recorder.{QueryEvent}

abbrev pub hour_ms : ℕ
hour_ms = 3600000

abbrev pub day_ms : ℕ
day_ms = 86400000

-- A row of `query_logs`.
pub record LogRow : Type 0 where
  pub id : ℕ
  pub timestamp_ms : ℤ
  pub domain : Text
  pub query_type : Text
  pub response_code : Text
  pub duration_ms : ℕ
  pub blocked : Bool
  pub cache_hit : Bool
  pub upstream : Option Text

-- A row of `query_response_ips`; both columns are its key.
pub record IpRow : Type 0 where
  pub query_id : ℕ
  pub ip : Text

-- A row of `query_hourly_stats` or of `query_daily_stats`.
pub record TrendBucket : Type 0 where
  pub bucket_ms : ℤ
  pub total_queries : ℕ
  pub blocked_queries : ℕ
  pub cache_hits : ℕ

pub data StatsTable : Type 0 where
  hourly daily : StatsTable

-- The rows of `query_logs` by id, those of the two statistics tables by bucket, since an INTEGER
-- PRIMARY KEY orders its table. `last_id` is the counter of AUTOINCREMENT.
pub record Tables : Type 0 where
  pub last_id : ℕ
  pub logs : List LogRow
  pub ips : List IpRow
  pub hourly_stats : List TrendBucket
  pub daily_stats : List TrendBucket

-- What the store asks of SQLite.
pub data Statement : Type 0 where
  connect begin commit : Statement
  insert_log : QueryEvent → Statement
  insert_ip : ℕ → Text → Statement
  count_query : StatsTable → ℤ → QueryEvent → Statement
  delete_logs : ℤ → Statement
  delete_stats : StatsTable → ℤ → Statement
  select_buckets : StatsTable → ℤ → ℤ → Statement
  count_logs : Option Text → Statement
  list_logs : Option Text → ℕ → ℕ → Statement
  select_ips : List ℕ → Statement
  select_rankings select_response_time : Statement

abbrev pub stats : StatsTable → Tables → List TrendBucket
stats hourly t = t.hourly_stats
stats daily t = t.daily_stats

abbrev set_stats : StatsTable → List TrendBucket → Tables → Tables
set_stats hourly rows t = record t { hourly_stats = rows }
set_stats daily rows t = record t { daily_stats = rows }

-- `DELETE … WHERE` keeps the rows the condition is false of.
unfoldable pub keep {ℓ} : {A : Type ℓ} → (A → Bool) → List A → List A
keep p [] = []
keep p (x ∷ xs) = if p x then x ∷ keep p xs else keep p xs

abbrev pub log_row : ℕ → QueryEvent → LogRow
log_row id e = record {
  id = id;
  timestamp_ms = e.timestamp_ms;
  domain = e.domain;
  query_type = e.query_type;
  response_code = e.response_code;
  duration_ms = e.duration_ms;
  blocked = e.blocked;
  cache_hit = e.cache_hit;
  upstream = e.upstream;
}

abbrev pub one_if : Bool → ℕ
one_if b = if b then 1 else 0

abbrev pub owns_ip : ℕ → Text → IpRow → Bool
owns_ip id ip r = r.query_id == id && r.ip == ip

abbrev pub new_row : ℤ → QueryEvent → TrendBucket
new_row b e = record {
  bucket_ms = b;
  total_queries = 1;
  blocked_queries = one_if e.blocked;
  cache_hits = one_if e.cache_hit;
}

abbrev pub bump_row : TrendBucket → QueryEvent → TrendBucket
bump_row r e = record {
  bucket_ms = r.bucket_ms;
  total_queries = r.total_queries + 1;
  blocked_queries = r.blocked_queries + one_if e.blocked;
  cache_hits = r.cache_hits + one_if e.cache_hit;
}

-- `INSERT … VALUES (?1, 1, ?2, ?3) ON CONFLICT(bucket_ms) DO UPDATE SET …`.
unfoldable pub upsert : List TrendBucket → ℤ → QueryEvent → List TrendBucket
upsert [] b e = new_row b e ∷ []
upsert (r ∷ rs) b e =
    let rest = upsert rs b e in
    if r.bucket_ms == b
    then bump_row r e ∷ rs
    else if ltb_ℤ b r.bucket_ms
    then new_row b e ∷ r ∷ rs
    else r ∷ rest

abbrev pub table_ms : StatsTable → ℕ
table_ms hourly = hour_ms
table_ms daily = day_ms

abbrev pub has_id : ℕ → List LogRow → Bool
has_id id rows = any_of (λ r. r.id == id) rows

-- What a statement does to the tables. `ON DELETE CASCADE` takes the addresses of a deleted row.
unfoldable pub apply : Statement → Tables → Tables
apply connect t = t
apply begin t = t
apply commit t = t
apply (select_buckets table start_ms end_ms) t = t
apply (count_logs pattern) t = t
apply (list_logs pattern limit offset) t = t
apply (select_ips ids) t = t
apply select_rankings t = t
apply select_response_time t = t
apply (insert_log e) t = record t {
  last_id = t.last_id + 1;
  logs = t.logs ++ log_row (t.last_id + 1) e ∷ [];
}
apply (insert_ip id ip) t =
    if any_of (owns_ip id ip) t.ips
    then t
    else record t { ips = t.ips ++ record { query_id = id; ip = ip } ∷ [] }
apply (count_query table b e) t = set_stats table (upsert (stats table t) b e) t
apply (delete_logs cutoff) t =
    let logs = keep (λ (r : LogRow). not (ltb_ℤ (r.timestamp_ms) cutoff)) t.logs in
    record t { logs = logs; ips = keep (λ r. has_id r.query_id logs) t.ips }
apply (delete_stats table cutoff) t =
    set_stats table
      (keep (λ r. not (leb_ℤ (r.bucket_ms +ℤ pos (table_ms table)) cutoff)) (stats table t)) t

-- `bucket_start` without its check: an event has a timestamp that chrono can read, far from the
-- bounds of an `i64`.
unfoldable pub hour_start : ℤ → ℤ
hour_start timestamp_ms = times (div_euclid timestamp_ms hour_ms) hour_ms

-- `retention_ms`, then `cutoff`.
unfoldable pub cutoff_of : ℕ → ℤ → Result ℤ
cutoff_of retention_days now_ms =
    context (checked (pos retention_days)) (str "retention period is out of range") >>= λ days.
    context (checked (times days day_ms)) (str "retention period is out of range") >>= λ retention.
    context (checked (now_ms -ℤ retention)) (str "retention cutoff is out of range")

-- A transaction that is dropped before its commit leaves the tables as they were.
abbrev pub conclude : Tables → Result Tables → Result {0} Unit × Tables
conclude t (ok t') = (ok tt, t')
conclude t (err e) = (err e, t)

-- SQLite: `refuses` is the error of a statement on the tables as they are, if it has one.
module _ (refuses : Statement → Tables → Option Text) where
  unfoldable pub execute : Statement → Tables → Result Tables
  execute s t = elim (refuses s t) [ none ↦ ok (apply s t) | some e ↦ err e ]

  -- The deadline of a read and the clock are points in time, counted from anywhere.
  unfoldable pub read_connection : Option ℕ → ℕ → Tables → Result Tables
  read_connection none now t = execute connect t
  read_connection (some deadline) now t = execute connect t >>= λ t.
      if ltb deadline now then err (str "dashboard database read deadline exceeded") else ok t

  unfoldable pub in_transaction : (Tables → Result Tables) → Tables → Result {0} Unit × Tables
  in_transaction body t =
      conclude t (execute connect t >>= execute begin >>= body >>= execute commit)

  unfoldable pub insert_ips : ℕ → List Text → Tables → Result Tables
  insert_ips id [] t = ok t
  insert_ips id (ip ∷ ips) t = execute (insert_ip id ip) t >>= insert_ips id ips

  -- The two statistics tables, given the start of the day.
  unfoldable pub count_event : QueryEvent → Option ℤ → Tables → Result Tables
  count_event e none t = err (str "query event timestamp is out of range")
  count_event e (some day) t =
      execute (count_query hourly (hour_start e.timestamp_ms) e) t
      >>= execute (count_query daily day e)

  unfoldable pub delete_before : ℤ → Tables → Result Tables
  delete_before cutoff t =
      execute (delete_logs cutoff) t
      >>= execute (delete_stats hourly cutoff)
      >>= execute (delete_stats daily cutoff)

  unfoldable pub cleanup : ℕ → ℤ → Tables → Result {0} Unit × Tables
  cleanup retention_days now_ms t =
      if retention_days == 0 then (ok tt, t) else elim (cutoff_of retention_days now_ms) [
        | err e ↦ (err e, t)
        | ok cutoff ↦ in_transaction (delete_before cutoff) t
      ]

  -- chrono: the start of the day of a timestamp, if the timestamp is in its range.
  module _ (midnight : ℤ → Option ℤ) where
    -- One turn of the loop of `insert_events`.
    unfoldable pub insert_event : QueryEvent → Tables → Result Tables
    insert_event e t = execute (insert_log e) t >>= λ t.
        insert_ips t.last_id e.response_ips t >>= count_event e (midnight e.timestamp_ms)

    unfoldable pub insert_all : List QueryEvent → Tables → Result Tables
    insert_all [] t = ok t
    insert_all (e ∷ es) t = insert_event e t >>= insert_all es

    unfoldable pub insert_events : List QueryEvent → Tables → Result {0} Unit × Tables
    insert_events es t = in_transaction (insert_all es) t
