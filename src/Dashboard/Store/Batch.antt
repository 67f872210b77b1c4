-- ===== src/Dashboard/Store/Batch.antt =====
-- dashboard/store.rs: `insert_events` records the whole batch or nothing.
use dnsbuffer.Prelude.{
  ℕ, ◌+◌, ◌≡◌, refl, sym, ap, ◌∙◌, ◌⊎◌, inl, inr, ◌&&◌, ◌||◌, Option, none, some, List, [], ◌∷◌,
  ◌++◌, arith, ◌==◌, nat_eq, list_eq, any_of, contains,
}
use mathlib.Core.Path.{subst}
use dnsbuffer.Prelude.Int.{ℤ, int_eq, div_euclid}
use mathlib.Core.List.{append-nil, append_assoc}
use dnsbuffer.Text.{Text}
use dnsbuffer.Resolver.{>>=-ok, ok, err}
use dnsbuffer.Dashboard.Recorder.{QueryEvent}
use dnsbuffer.Dashboard.Store.{
  Tables, Statement, insert_log, count_query, count_event, StatsTable, hourly, daily, stats,
  log_row, owns_ip, IpRow, upsert, apply, hour_start, insert_event, insert_all, insert_events,
  hour_ms,
}
use dnsbuffer.Dashboard.Store.Buckets.{Column, count_at, count_at-upsert, InOrder, InOrder-upsert}
use dnsbuffer.Dashboard.Store.Insert.{
  execute-ok, in_transaction-cases, insert_ips-ok, IsRecorded, counted, StartsDays,
}

module _ (refuses : Statement → Tables → Option Text) (midnight : ℤ → Option ℤ) where
  -- The tables behind one event, up to its addresses.
  abbrev with_event : QueryEvent → ℤ → List IpRow → Tables → Tables
  with_event e day ips t = record {
    last_id = t.last_id + 1;
    logs = t.logs ++ log_row (t.last_id + 1) e ∷ [];
    ips = ips;
    hourly_stats = upsert t.hourly_stats (hour_start e.timestamp_ms) e;
    daily_stats = upsert t.daily_stats day e;
  }

  count_event-ok :
      (e : QueryEvent) (d : Option ℤ) (t t' : Tables)
      → count_event refuses e d t ≡ ok t'
      → (day : ℤ) × (d ≡ some day)
        × (t' ≡ record t {
          hourly_stats = upsert t.hourly_stats (hour_start e.timestamp_ms) e;
          daily_stats = upsert t.daily_stats day e;
        })
  unfolding count_event apply
  count_event-ok e none t t' h = absurd (ground arith)
  count_event-ok e (some day) t t' h =
      let (u, first, second) = >>=-ok _ _ t' h in
      let in_hour = execute-ok refuses _ t u first in
      let in_day = execute-ok refuses _ u t' second in
      (day, refl, sym in_day ∙ ap (apply (count_query daily day e)) (sym in_hour))

  insert_event-ok :
      (e : QueryEvent) (t t' : Tables)
      → insert_event refuses midnight e t ≡ ok t'
      → (day : ℤ) × (midnight e.timestamp_ms ≡ some day)
        × (t' ≡ with_event e day t'.ips t)
        × ((id : ℕ) (ip : Text)
            → any_of (owns_ip id ip) t'.ips
              ≡ (any_of (owns_ip id ip) t.ips || t.last_id + 1 == id && contains e.response_ips ip))
  unfolding insert_event apply
  insert_event-ok e t t' h =
      let (a, first, h1) = >>=-ok _ _ t' h in
      let (b, second, third) = >>=-ok _ _ t' h1 in
      let logged = execute-ok refuses (insert_log e) t a first in
      let (same, found) = insert_ips-ok refuses a.last_id e.response_ips a b second in
      let (day, in_range, counts) = count_event-ok e _ b t' third in
      let count : Tables → Tables = λ v. record v {
        hourly_stats = upsert v.hourly_stats (hour_start e.timestamp_ms) e;
        daily_stats = upsert v.daily_stats day e;
      } in
      let store : Tables → Tables = λ v. record v { ips = b.ips } in
      let stored : b ≡ store (apply (insert_log e) t) = same ∙ ap store (sym logged) in
      let shown : t'.ips ≡ b.ips = ap (λ (v : Tables). v.ips) counts in
      let Finds : Tables → Type 0 = λ v.
        (id : ℕ) (ip : Text)
        → any_of (owns_ip id ip) b.ips
          ≡ (any_of (owns_ip id ip) v.ips || v.last_id == id && contains e.response_ips ip) in
      (
        day,
        in_range,
        counts ∙ ap count stored ∙ ap (λ ips. with_event e day ips t) (sym shown),
        λ id ip. ap (any_of (owns_ip id ip)) shown ∙ subst Finds (sym logged) found id ip,
      )

  count_at-with_event :
      (e : QueryEvent) (day : ℤ) (ips : List IpRow) (t : Tables) (table : StatsTable) (c : Column)
      (b : ℤ)
      → midnight e.timestamp_ms ≡ some day
      → ((table : StatsTable) → InOrder table (stats table t))
      → count_at c (stats table (with_event e day ips t)) b
        ≡ count_at c (stats table t) b + counted midnight table c b (e ∷ [])
  count_at-with_event e day ips t hourly c b h a =
      ground (arith, count_at-upsert c t.hourly_stats (hour_start e.timestamp_ms) e b (a hourly).0)
  count_at-with_event e day ips t daily c b h a =
      rw h (ground (arith, count_at-upsert c t.daily_stats day e b (a daily).0))

  IsRecorded-append :
      (e : QueryEvent) (es : List QueryEvent) (t u v : Tables)
      → IsRecorded midnight (e ∷ []) t u
      → IsRecorded midnight es u v
      → IsRecorded midnight (e ∷ es) t v
  IsRecorded-append e es t u v r s =
      let last : u.last_id ≡ t.last_id + 1 = ground (arith, r.last_id) in
      record {
        last_id = ground (arith, r.last_id, s.last_id);
        logs = s.logs ∙ rw (last, r.logs) (append_assoc t.logs _ _);
        ips = λ id ip. s.ips id ip ∙ rw (last, r.ips id ip) (ground arith);
        counts = λ table c b. ground (arith, r.counts table c b, s.counts table c b);
        ordered = s.ordered;
      }

  module _ (days : StartsDays midnight) where
    InOrder-with_event :
        (e : QueryEvent) (day : ℤ) (ips : List IpRow) (t : Tables) (table : StatsTable)
        → midnight e.timestamp_ms ≡ some day
        → ((table : StatsTable) → InOrder table (stats table t))
        → InOrder table (stats table (with_event e day ips t))
    unfolding hour_start
    InOrder-with_event e day ips t hourly h a =
        InOrder-upsert hourly t.hourly_stats (hour_start e.timestamp_ms) e
          (div_euclid e.timestamp_ms hour_ms) refl (a hourly)
    InOrder-with_event e day ips t daily h a =
        let (from, to, (q, multiple)) = days e.timestamp_ms day h in
        InOrder-upsert daily t.daily_stats day e q multiple (a daily)

    IsRecorded-event :
        (e : QueryEvent) (t t' : Tables)
        → ((table : StatsTable) → InOrder table (stats table t))
        → insert_event refuses midnight e t ≡ ok t'
        → IsRecorded midnight (e ∷ []) t t'
    IsRecorded-event e t t' a h =
        let (day, in_range, same, found) = insert_event-ok e t t' h in
        subst (IsRecorded midnight (e ∷ []) t) (sym same) (record {
          last_id = ground arith;
          logs = refl;
          ips = λ id ip. ground (arith, found id ip);
          counts = λ table c b. count_at-with_event e day t'.ips t table c b in_range a;
          ordered = λ table. InOrder-with_event e day t'.ips t table in_range a;
        })

    IsRecorded-insert_all :
        (es : List QueryEvent) (t t' : Tables)
        → ((table : StatsTable) → InOrder table (stats table t))
        → insert_all refuses midnight es t ≡ ok t'
        → IsRecorded midnight es t t'
    unfolding insert_all
    IsRecorded-insert_all [] t t' a h =
        let same : t ≡ t' = ground arith in
        subst (IsRecorded midnight [] t) same (record {
          last_id = ground arith;
          logs = sym (append-nil t.logs);
          ips = λ id ip. ground arith;
          counts = λ table c b. ground arith;
          ordered = a;
        })
    IsRecorded-insert_all (e ∷ es) t t' a h =
        let (u, first, rest) = >>=-ok _ _ t' h in
        let one = IsRecorded-event e t u a first in
        IsRecorded-append e es t u t' one (IsRecorded-insert_all es u t' one.ordered rest)

    -- A batch of events is recorded as a whole or not at all. An error leaves the tables as they were.
    -- Without one, if the statistics tables were in order, they are so again, and each event has a row, in order and under ids that go on
    -- from the last one; an address is stored under an id exactly if it was before or is one of the
    -- event of that id; and in both statistics tables each cell (queries, blocked queries, cache
    -- hits) of each bucket has grown by the events of that bucket.
    pub insert_events_lem :
        (es : List QueryEvent) (t : Tables)
        → ((table : StatsTable) → InOrder table (stats table t))
        → ((error : Text) × (insert_events refuses midnight es t ≡ (err error, t)))
          ⊎ ((t' : Tables) × (insert_events refuses midnight es t ≡ (ok tt, t'))
              × IsRecorded midnight es t t')
    unfolding insert_events
    insert_events_lem es t a =
        elim (in_transaction-cases refuses (insert_all refuses midnight es) t) [
          | inl failed ↦ inl failed
          | inr (t', ran, done) ↦ inr (t', done, IsRecorded-insert_all es t t' a ran)
        ]
