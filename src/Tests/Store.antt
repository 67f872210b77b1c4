-- ===== src/Tests/Store.antt =====
-- Witnesses of the query history and of its pages.
use dnsbuffer.Prelude.{
  ℕ, ◌+◌, ◌-◌, ◌*◌, ◌≤◌, ◌<◌, max, ◌≡◌, refl, ◌≢◌, ◌⊎◌, Bool, true, false, Option, none, some, List,
  [], ◌∷◌, arith, if◌then◌else◌, nat_eq, list_eq, length, drop, take, All,
}
use dnsbuffer.Prelude.Int.{ℤ, pos, ◌+ℤ◌, ◌≤ℤ◌, int_eq, div_euclid, times, times-div_euclid}
use mathlib.Core.Path.{subst}
use dnsbuffer.Prelude.Int.{◌-ℤ◌, checked, in_i64}
use dnsbuffer.Dashboard.Store.Worker.{Worker, Turn, received, run_store_worker}
use dnsbuffer.Dashboard.Store.Shown
use dnsbuffer.Dashboard.Store.Pages
use dnsbuffer.Dashboard.Store.Drained
use dnsbuffer.Dashboard.Store.Search
use dnsbuffer.Text.{Text, str, trim, trim_start, trim_end, is_space, parse_uint, digits_value}
use dnsbuffer.Dashboard.Store.{log_row, TrendBucket}
use dnsbuffer.Dashboard.Store.Trend
use dnsbuffer.Dashboard.Store.Drained.{concat}
use dnsbuffer.Dashboard.Store.Queries.{
  QueryPage, Reads, at_once, selects, pattern_for, sort_by, newer, queries_with_deadline,
}
use dnsbuffer.Dashboard.Store.Addresses.{ShowsAll}
use dnsbuffer.Dashboard.Http.{
  QueryParams, ValidatedQueryParams, validate, good, bad, bad_request, refuse, database,
  database_timeout, parse_parameter, check_page_size, trimmed, is_long, ReadRequest, acquired,
  finished,
}
use dnsbuffer.Dashboard.Http.Handlers.{
  queries, read_params, validate_query_encoding, check_decoded, decode,
}
use dnsbuffer.Dashboard.Http.Validated
use dnsbuffer.Dashboard.Http.Errors
use dnsbuffer.Resolver.{Result, ok, err, is_ok}
use dnsbuffer.Dashboard.Recorder.{QueryEvent}
use dnsbuffer.Dashboard.Store
use dnsbuffer.Dashboard.Store.{Tables, Statement, StatsTable, day_ms, stats, insert_events, cleanup}
use dnsbuffer.Dashboard.Store.Buckets.{InOrder}
use dnsbuffer.Dashboard.Store.Insert.{StartsDays}
use dnsbuffer.Dashboard.Store.{keep}
use dnsbuffer.Dashboard.Store.Buckets.{Column, count_at}
use dnsbuffer.Dashboard.Store.Insert.{IsRecorded}
use dnsbuffer.Dashboard.Store.Cleanup.{is_recent, has_ended}
use dnsbuffer.Dashboard.Store.Trend.{TrendRange, trend_range}
use dnsbuffer.Dashboard.Store.Grid.{at}
use dnsbuffer.Dashboard.Store.Filled.{zero_filled}
use dnsbuffer.Prelude.Int.{◌-ℤ◌}
use dnsbuffer.Dashboard.Store.Pages.{never}
use dnsbuffer.Dashboard.Store.Calls.{no_tables, Call, insertion, clean_up, call, after}
use dnsbuffer.Dashboard.Store.Batch
use dnsbuffer.Dashboard.Store.Calls
use dnsbuffer.Dashboard.Store.Consistent
use dnsbuffer.Dashboard.Store.Trend.{TrendResponse, trend_with_deadline}

-- The day that a timestamp falls in.
abbrev day_start : ℤ → Option ℤ
day_start timestamp_ms = some (times (div_euclid timestamp_ms day_ms) day_ms)

day_start-StartsDays : StartsDays day_start
day_start-StartsDays timestamp_ms day h =
    let same : times (div_euclid timestamp_ms day_ms) day_ms ≡ day = ground arith in
    let around = times-div_euclid timestamp_ms 86399999 in
    subst
      (λ d.
        (d ≤ℤ timestamp_ms)
        × (timestamp_ms +ℤ pos 1 ≤ℤ d +ℤ pos day_ms)
        × ((q : ℤ) × (d ≡ times q day_ms)))
      same (around.0, around.1, (div_euclid timestamp_ms day_ms, refl))

abbrev event : QueryEvent
event = record {
  timestamp_ms = pos 90_000_000;
  domain = str "a.b";
  query_type = str "A";
  response_code = str "NOERROR";
  duration_ms = 7;
  blocked = false;
  cache_hit = true;
  response_ips = str "ip" ∷ str "ip" ∷ [];
  upstream = none;
}

no_tables-InOrder : (table : StatsTable) → InOrder table (stats table no_tables)
no_tables-InOrder Store.hourly = (tt, tt)
no_tables-InOrder Store.daily = (tt, tt)

abbrev batch : List QueryEvent
batch = event ∷ event ∷ []

-- A batch of two events is stored.
abbrev filled : Tables
filled = after day_start (insertion never batch ∷ []) no_tables

filled-IsConsistent : Consistent.IsConsistent day_start filled
filled-IsConsistent = Calls.after_lem day_start day_start-StartsDays (insertion never batch ∷ [])

insert_events_example :
    ((error : Text) × (insert_events never day_start batch no_tables ≡ (err error, no_tables)))
    ⊎ ((t' : Tables) × (insert_events never day_start batch no_tables ≡ (ok tt, t'))
        × IsRecorded day_start batch no_tables t')
insert_events_example =
    Batch.insert_events_lem never day_start day_start-StartsDays batch no_tables no_tables-InOrder

cleanup_example :
    ((let days : ℕ = 1 in days ≡ 0) × (cleanup never 1 (pos 180_000_000) filled ≡ (ok tt, filled)))
    ⊎ ((e : Text) × (cleanup never 1 (pos 180_000_000) filled ≡ (err e, filled))
        × Calls.FailsOf never 1 (pos 180_000_000) e)
    ⊎ ((let days : ℕ = 1 in days ≢ 0)
        × ((cutoff : ℤ) × (t' : Tables) × (cleanup never 1 (pos 180_000_000) filled ≡ (ok tt, t'))
            × (cutoff ≡ pos 180_000_000 -ℤ pos (1 * day_ms))
            × (t'.logs ≡ keep (is_recent cutoff) filled.logs)
            × ((table : StatsTable) (c : Column) (b : ℤ)
                → count_at c (stats table t') b
                  ≡ (if has_ended table cutoff b then 0 else count_at c (stats table filled) b))))
cleanup_example = Calls.cleanup_lem never 1 (pos 180_000_000) filled

after_example :
    Consistent.IsConsistent day_start
      (after day_start (insertion never batch ∷ clean_up never 1 (pos 180_000_000) ∷ []) no_tables)
after_example =
    Calls.after_lem day_start day_start-StartsDays
      (insertion never batch ∷ clean_up never 1 (pos 180_000_000) ∷ [])

-- The tables of one query, blocked and answered from the cache.
abbrev bucket_row : ℤ → TrendBucket
bucket_row b = record { bucket_ms = b; total_queries = 1; blocked_queries = 0; cache_hits = 1 }

abbrev one_query : Tables
one_query = record {
  last_id = 1;
  logs = log_row 1 event ∷ [];
  ips = record { query_id = 1; ip = str "ip" } ∷ [];
  hourly_stats = bucket_row (pos 90_000_000) ∷ [];
  daily_stats = bucket_row (pos 86_400_000) ∷ [];
}

one_query-InOrder : (table : StatsTable) → InOrder table (stats table one_query)
unfolding times
one_query-InOrder Store.hourly = ((tt, tt), ((pos 25, refl), tt))
one_query-InOrder Store.daily = ((tt, tt), ((pos 1, refl), tt))

abbrev answer_of : {A : Type 0} → A → Result A → A
answer_of d (ok a) = a
answer_of d (err e) = d

answer_of-is_ok : {A : Type 0} (d : A) (r : Result A) → is_ok r ≡ true → r ≡ ok (answer_of d r)
answer_of-is_ok d (ok a) h = refl
answer_of-is_ok d (err e) h = absurd (ground arith)

abbrev no_trend : TrendResponse
no_trend = record { start_ms = pos 0; end_ms = pos 0; granularity = []; buckets = [] }

abbrev answered : TrendResponse
answered =
    answer_of no_trend (trend_with_deadline never day_start 1 (pos 90_000_000) none 0 one_query)

trend_is_ok : is_ok (trend_with_deadline never day_start 1 (pos 90_000_000) none 0 one_query) ≡ true
unfolding trend_with_deadline trend_range Trend.hour_range Trend.days_ago Trend.days_back
    Trend.bucket_start Trend.bucket_count Trend.to_u64 Trend.fill Trend.bucket_time
    Trend.take_bucket Trend.empty_bucket Trend.is_between times div_euclid checked in_i64 ◌-ℤ◌ ◌+ℤ◌
    Store.read_connection Store.execute Store.apply keep
trend_is_ok = refl

trend_example :
    (range : TrendRange) × (last : ℕ) × (trend_range 1 (pos 90_000_000) ≡ ok range)
    × (answered.start_ms ≡ range.start_ms)
    × (answered.end_ms ≡ at range.start_ms range.interval_ms last)
    × (last < 10_000)
    × (answered.buckets
        ≡ zero_filled (stats range.table one_query) range.start_ms range.interval_ms 0 (last + 1))
trend_example =
    Shown.trend_with_deadline_lem never day_start 1 (pos 90_000_000) none 0 one_query answered
      one_query-InOrder (answer_of-is_ok no_trend _ trend_is_ok)

abbrev no_page : QueryPage
no_page = record { page = 0; page_size = 0; total = 0; records = [] }

-- LIKE that finds every text.
abbrev any_like : Text → Text → Bool
any_like pattern text = true

-- The query is stored after the rows are counted.
abbrev reads : Reads
reads = record { counting = no_tables; listing = one_query; addressing = one_query }

abbrev page : QueryPage
page = answer_of no_page (queries_with_deadline never any_like 1 20 (some (str "a")) none 0 reads)

queries_example :
    (page.page ≡ max 1 1)
    × ((1 ≤ 20) × (20 ≤ 200))
    × (page.total
        ≡ length (keep (selects any_like (pattern_for (some (str "a"))) no_tables) no_tables.logs))
    × ShowsAll one_query.ips
        (take 20 (
          drop ((max 1 1 - 1) * 20) (
            sort_by newer
              (keep (selects any_like (pattern_for (some (str "a"))) one_query) one_query.logs))))
        page.records
queries_example =
    Pages.queries_with_deadline_lem never any_like 1 20 (some (str "a")) none 0 reads page
      (refl, tt)
      (answer_of-is_ok no_page _
        (Pages.queries_with_deadline-is_ok any_like 1 20 (some (str "a")) 0 reads))

abbrev last_turn : Turn
last_turn = record {
  sent = [];
  senders_gone = true;
  arm = received;
  in_time = 5;
  refuses = never;
  now = 0;
  now_ms = pos 0;
}

abbrev closing : Worker
closing = record {
  waiting = batch;
  is_closed = true;
  shutdown_received = true;
  next_cleanup = 10;
  tables = no_tables;
}

abbrev turns : List Turn
turns = last_turn ∷ last_turn ∷ last_turn ∷ []

run_store_worker_example :
    ((run_store_worker day_start 1 100 turns closing).2 ≡ true)
    × (concat (run_store_worker day_start 1 100 turns closing).1 ≡ batch)
    × All (λ b. length b ≤ 128) (run_store_worker day_start 1 100 turns closing).1
run_store_worker_example =
    Drained.run_store_worker_lem day_start 1 100 turns closing refl (refl, (refl, (refl, tt)))
      (omega arith)

abbrev asked : QueryParams
asked = record { page = some (str "2"); page_size = none; search = some (str " a ") }

abbrev validated : ValidatedQueryParams
validated = record { page = 2; page_size = 50; search = some (str "a") }

asked-validated : validate asked ≡ good validated
unfolding validate parse_parameter parse_uint digits_value check_page_size trimmed trim trim_start
    trim_end is_space is_long refuse
asked-validated = refl

validate-is_ok_example :
    (1 ≤ validated.page)
    × ((1 ≤ validated.page_size) × (validated.page_size ≤ 200))
    × (is_long validated.search ≡ false)
    × (is_ok (queries_with_deadline never any_like 2 50 (some (str "a")) none 0 (at_once one_query))
        ≡ true)
validate-is_ok_example =
    Validated.validate-is_ok any_like asked validated 0 (at_once one_query) asked-validated

abbrev request : ReadRequest
request = record {
  permit = acquired;
  task = finished;
  deadline_exhausted = false;
  downcast = λ e. none;
}

-- The query string `%`.
bad_query :
    queries
      (λ b. true)
      (λ q. some asked)
      never
      any_like
      (λ z. none)
      request
      9
      0
      (at_once one_query)
      (some (b'%' ∷ []))
    ≡ bad (record { status = bad_request; client_message = str "invalid query parameters" })
unfolding queries read_params validate_query_encoding check_decoded decode refuse
bad_query = refl

queries_error_example :
    ((read_params (λ b. true) (λ q. some asked) (some (b'%' ∷ []))
        ≡ bad (record { status = bad_request; client_message = str "invalid query parameters" }))
      × (bad_request ≡ bad_request))
    ⊎ (record { status = bad_request; client_message = str "invalid query parameters" } ≡ database)
    ⊎ (record { status = bad_request; client_message = str "invalid query parameters" }
        ≡ database_timeout)
queries_error_example =
    Errors.queries_lem (λ b. true) (λ q. some asked) never any_like (λ z. none) request 9 0
      (at_once one_query) (some (b'%' ∷ [])) _ bad_query
