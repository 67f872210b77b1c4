-- ===== src/Stats.antt =====
-- stats.rs: the statistics of one upstream, a sliding window for the choice and hourly buckets for
-- the dashboard.
pub mod Window
pub mod History
pub mod Retention
use dnsbuffer.Prelude.{
  ℕ, zero, suc, ◌+◌, ◌-◌, ◌*◌, ◌/◌, ◌%◌, ◌^◌, ◌≤◌, ◌<◌, min, max, ◌≡◌, refl, sym, ap, ◌∙◌, ◌≢◌, ◌↔◌,
  ◌⊎◌, inl, inr, Bool, true, false, not, ◌&&◌, ◌||◌, Option, none, some, List, [], ◌∷◌, ◌++◌, map,
  reverse, arith, ltb, leb, nat_beq, if◌then◌else◌, tests, Bool-cases, Option-cases, Eq, ◌==◌,
  nat_beq_iff, ==_iff, ==_refl, nat_eq, list_beq, list_beq_iff, list_eq, length, get_elem?, drop,
  length-append, All, any_of, All-append, sum, contains, contains-append,
}
use dnsbuffer.Cache.{add_word, sub_word}
use dnsbuffer.Upstream.Floats.{Floats}

abbrev pub hour_length : ℕ
hour_length = 3600000

abbrev pub day_length : ℕ
day_length = 86400000

abbrev pub max_i64 : ℕ
max_i64 = 2 ^ 63 - 1

pub data Sample (F : Type 0) : Type 0 where
  success : F → Sample F
  failure : Sample F

pub record HourBucket (F : Type 0) : Type 0 where
  pub hour_ms : ℕ
  pub samples : ℕ
  pub successes : ℕ
  pub latency_sum_ms : F

-- `samples` and `history` with the oldest first; no `retention_ms` keeps the history for ever.
pub record UpstreamStats (F : Type 0) : Type 0 where
  pub window : ℕ
  pub samples : List (Sample F)
  pub retention_ms : Option ℕ
  pub history : List (HourBucket F)

pub record StatsSnapshot (F : Type 0) : Type 0 where
  pub samples : ℕ
  pub successes : ℕ
  pub failure_rate : F
  pub avg_latency_ms : Option F

-- `retention_days` as milliseconds: nothing for 0 days, and nothing where an `i64` overflows.
unfoldable pub retention_of : ℕ → Option ℕ
retention_of days =
    if leb days 0 || ltb max_i64 days || ltb max_i64 (days * day_length)
    then none
    else some (days * day_length)

-- `saturating_add(HOUR_MS)`: where the hour of a bucket ends.
unfoldable pub hour_end : ℕ → ℕ
hour_end hour_ms = min max_i64 (hour_ms + hour_length)

-- `now_ms.div_euclid(HOUR_MS).saturating_mul(HOUR_MS)`.
unfoldable pub hour_of : ℕ → ℕ
hour_of now_ms = min max_i64 (now_ms / hour_length * hour_length)

module _ {F : Type 0} (fl : Floats F) where
  unfoldable pub with_retention : ℕ → ℕ → UpstreamStats F
  with_retention window retention_days = record {
    window = max window 1;
    samples = [];
    retention_ms = retention_of retention_days;
    history = [];
  }

  unfoldable pub push : UpstreamStats F → Sample F → UpstreamStats F
  push st s =
      let kept = if nat_beq (length st.samples) st.window then drop 1 st.samples else st.samples in
      record st { samples = kept ++ s ∷ [] }

  -- What one call adds to the latest bucket.
  unfoldable pub bump : HourBucket F → Option F → HourBucket F
  bump b none = record b { samples = add_word b.samples 1 }
  bump b (some latency) = record b {
    samples = add_word b.samples 1;
    successes = add_word b.successes 1;
    latency_sum_ms = fl.add b.latency_sum_ms latency;
  }

  unfoldable pub new_bucket : ℕ → Option F → HourBucket F
  new_bucket hour none = record {
    hour_ms = hour;
    samples = 1;
    successes = 0;
    latency_sum_ms = fl.of_count 0;
  }
  new_bucket hour (some latency) = record {
    hour_ms = hour;
    samples = 1;
    successes = 1;
    latency_sum_ms = latency;
  }

  -- `match self.history.back_mut()`: into the latest bucket, unless that is of an earlier hour.
  unfoldable pub add_to_history : ℕ → Option F → List (HourBucket F) → List (HourBucket F)
  add_to_history hour latency [] = new_bucket hour latency ∷ []
  add_to_history hour latency (b ∷ []) =
      if leb hour b.hour_ms then bump b latency ∷ [] else b ∷ new_bucket hour latency ∷ []
  add_to_history hour latency (b ∷ c ∷ bs) = b ∷ add_to_history hour latency (c ∷ bs)

  -- `while self.history.front() … { pop_front }`.
  unfoldable pub drop_ended : ℕ → List (HourBucket F) → List (HourBucket F)
  drop_ended cutoff [] = []
  drop_ended cutoff (b ∷ bs) =
      if leb (hour_end b.hour_ms) cutoff then drop_ended cutoff bs else b ∷ bs

  -- A cutoff before the epoch is 0 here: no bucket ends at or before either.
  unfoldable pub retention_cutoff : UpstreamStats F → ℕ → Option ℕ
  retention_cutoff st now = elim st.retention_ms [ none ↦ none | some r ↦ some (now - r) ]

  unfoldable pub record_history : UpstreamStats F → ℕ → Option F → UpstreamStats F
  record_history st now latency =
      let added = add_to_history (hour_of now) latency st.history in
      record st {
        history = elim (retention_cutoff st now) [
          | none ↦ added
          | some cutoff ↦ drop_ended cutoff added
        ];
      }

  -- The latency is that of `latency.as_secs_f64() * 1000.0`.
  unfoldable pub record_success_at : UpstreamStats F → F → ℕ → UpstreamStats F
  record_success_at st latency now = record_history (push st (success latency)) now (some latency)

  unfoldable pub record_soft_fail : UpstreamStats F → UpstreamStats F
  record_soft_fail st = push st failure

  unfoldable pub record_timeout_at : UpstreamStats F → ℕ → UpstreamStats F
  record_timeout_at st now = record_history (push st failure) now none

  unfoldable pub failures : List (Sample F) → ℕ
  failures [] = 0
  failures (success _ ∷ ss) = failures ss
  failures (failure ∷ ss) = suc (failures ss)

  unfoldable pub failure_rate : UpstreamStats F → F
  failure_rate st =
      let n = length st.samples in
      if nat_beq n 0
      then fl.of_count 0
      else fl.div (fl.of_count (failures st.samples)) (fl.of_count n)

  -- The fold of `avg_latency_ms`: the sum of the latencies and their number, a `u32`.
  unfoldable pub latencies : F × ℕ → List (Sample F) → F × ℕ
  latencies acc [] = acc
  latencies (sum, n) (success latency ∷ ss) = latencies (fl.add sum latency, (n + 1) % 2 ^ 32) ss
  latencies (sum, n) (failure ∷ ss) = latencies (sum, n) ss

  unfoldable pub avg_latency_ms : UpstreamStats F → F
  avg_latency_ms st =
      let (sum, n) = latencies (fl.of_count 0, 0) st.samples in
      if nat_beq n 0 then fl.of_count 100 else fl.div sum (fl.of_count n)

  unfoldable pub is_current : Option ℕ → HourBucket F → Bool
  is_current none b = true
  is_current (some cutoff) b = ltb cutoff (hour_end b.hour_ms)

  -- The filter and the fold of `snapshot_at`: samples, successes and the sum of the latencies.
  unfoldable pub totals : Option ℕ → ℕ × ℕ × F → List (HourBucket F) → ℕ × ℕ × F
  totals cutoff acc [] = acc
  totals cutoff (samples, successes, sum) (b ∷ bs) =
      let acc =
        if is_current cutoff b
        then (
          add_word samples b.samples,
          add_word successes b.successes,
          fl.add sum b.latency_sum_ms,
        )
        else (samples, successes, sum) in
      totals cutoff acc bs

  unfoldable pub snapshot_at : UpstreamStats F → ℕ → StatsSnapshot F
  snapshot_at st now =
      let (samples, successes, sum) =
        totals (retention_cutoff st now) (0, 0, fl.of_count 0) st.history in
      record {
        samples = samples;
        successes = successes;
        failure_rate =
            if nat_beq samples 0
            then fl.of_count 0
            else fl.div (fl.of_count (sub_word samples successes)) (fl.of_count samples);
        avg_latency_ms =
            if ltb 0 successes then some (fl.div sum (fl.of_count successes)) else none;
      }

  unfoldable pub weight : UpstreamStats F → F → F
  weight st k =
      let one = fl.of_count 1 in
      let k' = fl.max_of k (fl.of_count 0) in
      fl.div one
        (fl.mul (fl.add (avg_latency_ms st) one) (fl.add one (fl.mul k' (failure_rate st))))
