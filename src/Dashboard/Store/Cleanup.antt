-- ===== src/Dashboard/Store/Cleanup.antt =====
-- dashboard/store.rs: what `cleanup` leaves in the tables.
use dnsbuffer.Prelude.{
  ℕ, ◌≤◌, ◌≡◌, sym, ap, ◌∙◌, inl, inr, Bool, true, false, not, Option, List, [], ◌∷◌, arith,
  if◌then◌else◌, Bool-cases, Option-cases, ◌==◌, nat_eq, list_eq, All, any_of,
}
use mathlib.Core.Path.{subst}
use dnsbuffer.Prelude.Int.{
  ℤ, pos, ◌+ℤ◌, ◌≤ℤ◌, leb_ℤ, ltb_ℤ, int_eq, int_beq_iff, times-div_euclid, +ℤ_parts,
}
use dnsbuffer.Text.{Text}
use dnsbuffer.Resolver.{>>=-ok, ok}
use dnsbuffer.Dashboard.Store.{
  Tables, Statement, StatsTable, hourly, daily, stats, table_ms, keep, has_id, LogRow, TrendBucket,
  IpRow, owns_ip, apply, hour_start, delete_before, delete_logs, delete_stats,
}
use dnsbuffer.Dashboard.Store.Buckets.{Column, count_at, Ascends, Above, InOrder}
use dnsbuffer.Dashboard.Store.Insert.{execute-ok, bucket, falls_in, StartsDays}
use dnsbuffer.Dashboard.Store.Consistent.{IsConsistent, rows_in}

-- The rows that a cutoff leaves.
abbrev pub is_recent : ℤ → LogRow → Bool
is_recent cutoff r = not (ltb_ℤ r.timestamp_ms cutoff)

abbrev pub has_ended : StatsTable → ℤ → ℤ → Bool
has_ended table cutoff b = leb_ℤ (b +ℤ pos (table_ms table)) cutoff

abbrev lasts : StatsTable → ℤ → TrendBucket → Bool
lasts table cutoff r = not (has_ended table cutoff r.bucket_ms)

-- The tables behind the three deletions.
abbrev pub cleaned : ℤ → Tables → Tables
cleaned cutoff t = record t {
  logs = keep (is_recent cutoff) t.logs;
  ips = keep (λ (r : IpRow). has_id r.query_id (keep (is_recent cutoff) t.logs)) t.ips;
  hourly_stats = keep (lasts hourly cutoff) t.hourly_stats;
  daily_stats = keep (lasts daily cutoff) t.daily_stats;
}

count_at-keep :
    (table : StatsTable) (cutoff : ℤ) (c : Column) (rs : List TrendBucket) (b : ℤ)
    → count_at c (keep (lasts table cutoff) rs) b
      ≡ (if has_ended table cutoff b then 0 else count_at c rs b)
unfolding count_at keep
count_at-keep table cutoff c [] b = ground arith
count_at-keep table cutoff c (r ∷ rs) b = elim (Bool-cases (has_ended table cutoff r.bucket_ms)) [
  | inl ended ↦
      rw ended (ground (arith, count_at-keep table cutoff c rs b, int_beq_iff r.bucket_ms b, ended))
  | inr not_yet ↦
      rw not_yet
        (ground (arith, count_at-keep table cutoff c rs b, int_beq_iff r.bucket_ms b, not_yet))
]

Above-keep :
    (p : TrendBucket → Bool) (b : ℤ) (rs : List TrendBucket) → Above b rs → Above b (keep p rs)
unfolding keep
Above-keep p b [] a = tt
Above-keep p b (r ∷ rs) a = elim (Bool-cases (p r)) [
  | inl held ↦ rw held (a.0, Above-keep p b rs a.1)
  | inr failed ↦ rw failed (Above-keep p b rs a.1)
]

pub Ascends-keep :
    (p : TrendBucket → Bool) (rs : List TrendBucket) → Ascends rs → Ascends (keep p rs)
unfolding keep
Ascends-keep p [] a = tt
Ascends-keep p (r ∷ rs) a = elim (Bool-cases (p r)) [
  | inl held ↦ rw held (Above-keep p r.bucket_ms rs a.0, Ascends-keep p rs a.1)
  | inr failed ↦ rw failed (Ascends-keep p rs a.1)
]

All-keep :
    (P : TrendBucket → Type 0) (p : TrendBucket → Bool) (rs : List TrendBucket)
    → All P rs
    → All P (keep p rs)
unfolding keep
All-keep P p [] a = tt
All-keep P p (r ∷ rs) a = elim (Bool-cases (p r)) [
  | inl held ↦ rw held (a.0, All-keep P p rs a.1)
  | inr failed ↦ rw failed (All-keep P p rs a.1)
]

-- An address that is kept belongs to a row that is.
owned-keep :
    (logs : List LogRow) (ips : List IpRow) (id : ℕ) (ip : Text)
    → any_of (owns_ip id ip) (keep (λ (r : IpRow). has_id r.query_id logs) ips) ≡ true
    → has_id id logs ≡ true
unfolding keep
owned-keep logs [] id ip h = absurd (ground arith)
owned-keep logs (r ∷ rs) id ip h = elim (Bool-cases (has_id r.query_id logs)) [
  | inl held ↦ elim (Bool-cases (r.query_id == id)) [
    | inl same ↦ ground (arith, held, same)
    | inr other ↦ owned-keep logs rs id ip (ground (arith, held, other))
  ]
  | inr failed ↦ owned-keep logs rs id ip (ground (arith, failed))
]

not_ended :
    (timestamp_ms end cutoff : ℤ)
    → not (ltb_ℤ timestamp_ms cutoff) ≡ true
    → timestamp_ms +ℤ pos 1 ≤ℤ end
    → leb_ℤ end cutoff ≡ false
not_ended timestamp_ms end cutoff h k = ground (arith, +ℤ_parts timestamp_ms (pos 1))

pub count_at-cleaned :
    (cutoff : ℤ) (t : Tables) (table : StatsTable) (c : Column) (b : ℤ)
    → count_at c (stats table (cleaned cutoff t)) b
      ≡ (if has_ended table cutoff b then 0 else count_at c (stats table t) b)
count_at-cleaned cutoff t hourly c b = count_at-keep hourly cutoff c t.hourly_stats b
count_at-cleaned cutoff t daily c b = count_at-keep daily cutoff c t.daily_stats b

InOrder-cleaned :
    (cutoff : ℤ) (t : Tables) (table : StatsTable)
    → ((table : StatsTable) → InOrder table (stats table t))
    → InOrder table (stats table (cleaned cutoff t))
InOrder-cleaned cutoff t hourly a = (
  Ascends-keep (lasts hourly cutoff) t.hourly_stats (a hourly).0,
  All-keep _ _ t.hourly_stats (a hourly).1,
)
InOrder-cleaned cutoff t daily a = (
  Ascends-keep (lasts daily cutoff) t.daily_stats (a daily).0,
  All-keep _ _ t.daily_stats (a daily).1,
)

module _ (refuses : Statement → Tables → Option Text) where
  pub delete_before-ok :
      (cutoff : ℤ) (t t' : Tables) → delete_before refuses cutoff t ≡ ok t' → cleaned cutoff t ≡ t'
  unfolding delete_before apply
  delete_before-ok cutoff t t' h =
      let (v, most, last) = >>=-ok _ _ t' h in
      let (u, first, second) = >>=-ok _ _ v most in
      let a = execute-ok refuses (delete_logs cutoff) t u first in
      let b = execute-ok refuses (delete_stats hourly cutoff) u v second in
      let c = execute-ok refuses (delete_stats daily cutoff) v t' last in
      ap (apply (delete_stats daily cutoff)) (ap (apply (delete_stats hourly cutoff)) a ∙ b) ∙ c

module _ (midnight : ℤ → Option ℤ) (days : StartsDays midnight) where
  in_bucket :
      (table : StatsTable) (timestamp_ms b : ℤ)
      → falls_in (bucket midnight table timestamp_ms) b ≡ true
      → timestamp_ms +ℤ pos 1 ≤ℤ b +ℤ pos (table_ms table)
  unfolding hour_start
  in_bucket hourly timestamp_ms b h =
      let start : hour_start timestamp_ms ≡ b = (int_beq_iff (hour_start timestamp_ms) b).0 h in
      subst (λ (b : ℤ). timestamp_ms +ℤ pos 1 ≤ℤ b +ℤ pos (table_ms hourly)) start
        (times-div_euclid timestamp_ms 3599999).1
  in_bucket daily timestamp_ms b h = elim (Option-cases (midnight timestamp_ms)) [
    | inl failed ↦ absurd (ground (arith, failed, h))
    | inr (day, held) ↦
        let start : day ≡ b =
          (int_beq_iff day b).0 (rw (sym (ap (λ (o : Option ℤ). falls_in o b) held)) h) in
        subst (λ (b : ℤ). timestamp_ms +ℤ pos 1 ≤ℤ b +ℤ pos (table_ms daily)) start
          (days timestamp_ms day held).1
  ]

  rows_in-keep :
      (table : StatsTable) (c : Column) (b cutoff : ℤ) (rs : List LogRow)
      → rows_in midnight table c b (keep (is_recent cutoff) rs)
        ≤ (if has_ended table cutoff b then 0 else rows_in midnight table c b rs)
  unfolding rows_in keep
  rows_in-keep table c b cutoff [] = ground arith
  rows_in-keep table c b cutoff (r ∷ rs) =
      let rest = rows_in-keep table c b cutoff rs in
      elim (Bool-cases (is_recent cutoff r)) [
        | inl held ↦
            rw held (elim (Bool-cases (falls_in (bucket midnight table r.timestamp_ms) b)) [
              | inl inside ↦
                  let late : has_ended table cutoff b ≡ false =
                    not_ended r.timestamp_ms (b +ℤ pos (table_ms table)) cutoff held
                      (in_bucket table r.timestamp_ms b inside) in
                  rw (inside, late) (ground (arith, rest, late))
              | inr outside ↦ rw outside (ground (arith, rest))
            ])
        | inr failed ↦ rw failed (ground (arith, rest))
      ]

  pub IsConsistent-cleaned :
      (cutoff : ℤ) (t : Tables) → IsConsistent midnight t → IsConsistent midnight (cleaned cutoff t)
  IsConsistent-cleaned cutoff t v = record {
    owned = λ id ip h. owned-keep (keep (is_recent cutoff) t.logs) t.ips id ip h;
    ordered = λ table. InOrder-cleaned cutoff t table v.ordered;
    covered = λ table c b. ground (
      arith,
      count_at-cleaned cutoff t table c b,
      rows_in-keep table c b cutoff t.logs,
      v.covered table c b,
    );
  }
