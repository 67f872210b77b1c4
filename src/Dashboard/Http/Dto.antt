-- ===== src/Dashboard/Http/Dto.antt =====
-- dashboard/http.rs: the values that are sent as JSON.
use dnsbuffer.Prelude.{ℕ, Bool, Option, List, [], ◌∷◌, nat_eq, list_eq}
use dnsbuffer.Prelude.Int.{ℤ}
use dnsbuffer.Dashboard.Store.{TrendBucket}
use dnsbuffer.Dashboard.Store.Trend.{TrendResponse}
use dnsbuffer.Dashboard.Store.Queries.{QueryPage, QueryRecord}
use dnsbuffer.Text.{Text, str}
use dnsbuffer.Resolver.{Result, ok, err, ◌>>=◌, context}
use dnsbuffer.Dashboard.Http.{Api, good, bad, database}

-- The collection of fallible conversions.
unfoldable pub collect : {A B : Type 0} → (A → Result B) → List A → Result (List B)
collect f [] = ok []
collect f (a ∷ rest) = f a >>= λ b. collect f rest >>= λ bs. ok (b ∷ bs)

pub record QueryRecordDto : Type 0 where
  pub id : ℕ
  pub timestamp : Text
  pub domain : Text
  pub query_type : Text
  pub response_code : Text
  pub duration_ms : ℕ
  pub blocked : Bool
  pub cache_hit : Bool
  pub response_ips : List Text
  pub upstream : Option Text

pub record QueryPageDto : Type 0 where
  pub page : ℕ
  pub page_size : ℕ
  pub total : ℕ
  pub records : List QueryRecordDto

pub record TrendBucketDto : Type 0 where
  pub timestamp : Text
  pub total_queries : ℕ
  pub blocked_queries : ℕ
  pub cache_hits : ℕ

pub record TrendDto : Type 0 where
  pub start : Text
  pub end : Text
  pub granularity : Text
  pub buckets : List TrendBucketDto

-- `map_err(ApiError::database)`.
unfoldable pub or_database : {A : Type 0} → Result A → Api A
or_database (ok a) = good a
or_database (err e) = bad database

-- chrono: `print` of a timestamp in its range.
module _ (print : ℤ → Option Text) where
  unfoldable pub rfc3339 : ℤ → Result Text
  rfc3339 timestamp_ms = context (print timestamp_ms) (str "dashboard timestamp is out of range")

  unfoldable pub query_record_dto : QueryRecord → Result QueryRecordDto
  query_record_dto r = rfc3339 r.timestamp_ms >>= λ timestamp. ok (record {
    id = r.id;
    timestamp = timestamp;
    domain = r.domain;
    query_type = r.query_type;
    response_code = r.response_code;
    duration_ms = r.duration_ms;
    blocked = r.blocked;
    cache_hit = r.cache_hit;
    response_ips = r.response_ips;
    upstream = r.upstream;
  })

  unfoldable pub query_page_dto : QueryPage → Result QueryPageDto
  query_page_dto p = collect query_record_dto p.records >>= λ records.
      ok (record { page = p.page; page_size = p.page_size; total = p.total; records = records })

  unfoldable pub trend_bucket_dto : TrendBucket → Result TrendBucketDto
  trend_bucket_dto b = rfc3339 b.bucket_ms >>= λ timestamp. ok (record {
    timestamp = timestamp;
    total_queries = b.total_queries;
    blocked_queries = b.blocked_queries;
    cache_hits = b.cache_hits;
  })

  unfoldable pub trend_dto : TrendResponse → Result TrendDto
  trend_dto r = rfc3339 r.start_ms >>= λ start. rfc3339 r.end_ms >>= λ end.
      collect trend_bucket_dto r.buckets >>= λ buckets.
      ok (record { start = start; end = end; granularity = r.granularity; buckets = buckets })
