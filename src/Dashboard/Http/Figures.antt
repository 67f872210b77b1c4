-- ===== src/Dashboard/Http/Figures.antt =====
-- dashboard/http.rs: the handlers of the rankings, the response time, the upstreams and the cache.
use dnsbuffer.Prelude.{ℕ, Option, some, List, nat_eq, list_eq}
use dnsbuffer.Text.{Text}
use dnsbuffer.Cache.{Cache, len, memory_stats}
use dnsbuffer.Upstream.Floats.{Floats}
use dnsbuffer.Dashboard.Sampler.{SamplerState, CacheSample, points}
use dnsbuffer.Dashboard.Store.{Tables, Statement}
use dnsbuffer.Dashboard.Store.Rankings.{
  Ranking, rankings_with_deadline, ResponseTimeSummary, response_time_with_deadline,
}
use dnsbuffer.Dashboard.Metrics.{MetricMember, Cell, UpstreamSnapshot, snapshot}
use dnsbuffer.Dashboard.Http.{Api, ReadRequest, database_call}

pub record CacheCurveDto : Type 0 where
  pub memory_bytes : ℕ
  pub max_memory_bytes : ℕ
  pub current_entries : ℕ
  pub current : Option CacheSample
  pub points : List CacheSample

unfoldable pub cache_curve : Cache → SamplerState → CacheCurveDto
cache_curve c s =
    let (memory_bytes, max_memory_bytes) = memory_stats c in
    record {
      memory_bytes = memory_bytes;
      max_memory_bytes = max_memory_bytes;
      current_entries = len c;
      current = s.latest;
      points = points s;
    }

unfoldable pub upstreams :
    {F : Type 0} → Floats F → ℕ → List (Cell F) → List MetricMember → List (UpstreamSnapshot F)
upstreams fl now cells ms = snapshot fl now cells ms

module _ (refuses : Statement → Tables → Option Text) (r : ReadRequest) where
  unfoldable pub rankings : ℕ → ℕ → Tables → Api (List Ranking)
  rankings deadline now t = database_call r (rankings_with_deadline refuses (some deadline) now t)

  unfoldable pub response_time :
      {F : Type 0} → Floats F → ℕ → ℕ → Tables → Api (ResponseTimeSummary F)
  response_time fl deadline now t =
      database_call r (response_time_with_deadline refuses fl (some deadline) now t)
