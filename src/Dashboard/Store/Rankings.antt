-- ===== src/Dashboard/Store/Rankings.antt =====
-- dashboard/store.rs: the most frequent domains, and the average response time.
use dnsbuffer.Prelude.{
  ℕ, ◌+◌, Bool, ◌&&◌, ◌||◌, Option, none, some, List, [], ◌∷◌, ltb, nat_beq, if◌then◌else◌, ◌==◌,
  nat_eq, list_eq, length, take,
}
use dnsbuffer.Text.{Text}
use dnsbuffer.Resolver.{Result, ok, ◌>>=◌}
use dnsbuffer.Pipeline.Event.{text_leb}
use dnsbuffer.Upstream.Floats.{Floats}
use dnsbuffer.Dashboard.Store.{
  Tables, Statement, select_rankings, select_response_time, LogRow, execute, read_connection,
}
use dnsbuffer.Dashboard.Store.Queries.{sort_by}

pub record Ranking : Type 0 where
  pub domain : Text
  pub total_queries : ℕ
  pub blocked_queries : ℕ
  pub cache_hits : ℕ

pub record ResponseTimeSummary (F : Type 0) : Type 0 where
  pub samples : ℕ
  pub avg_ms : Option F

-- `COUNT(*), SUM(blocked), SUM(cache_hit)` of one more row.
unfoldable pub add_row : LogRow → Ranking → Ranking
add_row row r = record r {
  total_queries = r.total_queries + 1;
  blocked_queries = r.blocked_queries + (if row.blocked then 1 else 0);
  cache_hits = r.cache_hits + (if row.cache_hit then 1 else 0);
}

unfoldable pub first_row : LogRow → Ranking
first_row row =
    add_row row
      (record { domain = row.domain; total_queries = 0; blocked_queries = 0; cache_hits = 0 })

-- `GROUP BY domain`
unfoldable pub group_row : LogRow → List Ranking → List Ranking
group_row row [] = first_row row ∷ []
group_row row (r ∷ rs) =
    let rest = group_row row rs in if r.domain == row.domain then add_row row r ∷ rs else r ∷ rest

unfoldable pub group_by_domain : List LogRow → List Ranking
group_by_domain [] = []
group_by_domain (row ∷ rows) = group_row row (group_by_domain rows)

-- `ORDER BY COUNT(*) DESC, domain ASC`
unfoldable pub ranks_before : Ranking → Ranking → Bool
ranks_before a b =
    ltb b.total_queries a.total_queries
    || (a.total_queries == b.total_queries && text_leb a.domain b.domain)

unfoldable pub sum_durations : List LogRow → ℕ
sum_durations [] = 0
sum_durations (row ∷ rows) = row.duration_ms + sum_durations rows

module _ (refuses : Statement → Tables → Option Text) where
  unfoldable pub rankings_with_deadline : Option ℕ → ℕ → Tables → Result (List Ranking)
  rankings_with_deadline deadline now t = read_connection refuses deadline now t >>= λ t.
      execute refuses select_rankings t >>= λ t.
      ok (take 20 (sort_by ranks_before (group_by_domain t.logs)))

  -- `AVG` of no rows is NULL.
  unfoldable pub response_time_with_deadline :
      {F : Type 0} → Floats F → Option ℕ → ℕ → Tables → Result (ResponseTimeSummary F)
  response_time_with_deadline fl deadline now t = read_connection refuses deadline now t >>= λ t.
      execute refuses select_response_time t >>= λ t.
      let samples = length t.logs in
      ok (record {
        samples = samples;
        avg_ms =
            if nat_beq samples 0
            then none
            else some (fl.div (fl.of_count (sum_durations t.logs)) (fl.of_count samples));
      })
