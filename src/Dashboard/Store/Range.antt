-- ===== src/Dashboard/Store/Range.antt =====
-- dashboard/store.rs: the range of a trend and the number of its buckets.
use dnsbuffer.Prelude.{
  ℕ, suc, ◌+◌, ◌*◌, ◌/◌, ◌≤◌, ◌<◌, ◌≡◌, refl, sym, ap, ◌∙◌, ◌≢◌, inl, inr, arith, leb, Bool-cases,
  ◌==◌, nat_eq, list_eq,
}
use dnsbuffer.Prelude.Int.{ℤ, pos, negsuc, ◌-ℤ◌, leb_ℤ, int_eq, checked_lem, div_euclid, times}
use mathlib.Core.Path.{subst}
use native.Mathlib.Nat.{mul-div_cancel}
use dnsbuffer.Text.{Text, str}
use dnsbuffer.Resolver.{ok, err, context-ok, >>=-ok, ok-injective}
use dnsbuffer.Dashboard.Store.{daily, table_ms, day_ms}
use dnsbuffer.Dashboard.Store.Grid.{at, times-at, at-ℤ, -ℤ_negative}
use dnsbuffer.Dashboard.Store.Trend.{
  TrendRange, bucket_start, days_back, days_ago, open_range, day_range, hour_range, trend_range,
  bucket_count, to_u64, max_trend_buckets,
}

-- The bounds of a range stand at multiples of its interval, which is that of its table.
pub record IsRange (r : TrendRange) : Type 0 where
  pub width : ℕ
  pub first : ℤ
  pub last : ℤ
  pub is_width : r.interval_ms ≡ suc width
  pub of_table : table_ms r.table ≡ suc width
  pub starts : r.start_ms ≡ times first (suc width)
  pub ends : r.end_ms ≡ times last (suc width)

bucket_start_lem :
    (timestamp_ms : ℤ) (interval_ms : ℕ) (b : ℤ)
    → bucket_start timestamp_ms interval_ms ≡ ok b
    → (q : ℤ) × (b ≡ times q interval_ms)
unfolding bucket_start
bucket_start_lem timestamp_ms interval_ms b h =
    (div_euclid timestamp_ms interval_ms, sym (checked_lem _ _ (context-ok _ _ b h)))

days_ago_lem :
    (days : ℕ) (now_ms : ℤ) (interval_ms : ℕ) (b : ℤ)
    → days_ago days now_ms interval_ms ≡ ok b
    → (q : ℤ) × (b ≡ times q interval_ms)
unfolding days_ago
days_ago_lem days now_ms interval_ms b h =
    let (from, h1, h2) =
      >>=-ok (days_back days now_ms) (λ from. bucket_start from interval_ms) b h in
    bucket_start_lem from interval_ms b h2

-- 29 days before a multiple of a day.
times-days : (q : ℤ) → times q day_ms -ℤ pos (29 * day_ms) ≡ times (q -ℤ pos 29) day_ms
unfolding times ◌-ℤ◌
times-days (pos a) = ground arith
times-days (negsuc a) = ground arith

IsRange-open_range : (now_ms : ℤ) (r : TrendRange) → open_range now_ms ≡ ok r → IsRange r
unfolding open_range
IsRange-open_range now_ms r h =
    let (end, h1, h2) = >>=-ok _ _ r h in
    let (start, h3, h4) = >>=-ok _ _ r h2 in
    let (q, e) = bucket_start_lem _ _ end h1 in
    let back = sym (checked_lem _ _ (context-ok _ _ start h3)) in
    let made : IsRange (record {
      granularity = str "day";
      table = daily;
      interval_ms = day_ms;
      start_ms = start;
      end_ms = end;
    }) =
      record {
        width = 86399999;
        first = q -ℤ pos 29;
        last = q;
        is_width = refl;
        of_table = refl;
        starts = back ∙ ap (λ b. b -ℤ pos (29 * day_ms)) e ∙ times-days q;
        ends = e;
      } in
    subst IsRange (ok-injective h4) made

IsRange-hour_range :
    (days : ℕ) (now_ms : ℤ) (r : TrendRange) → hour_range days now_ms ≡ ok r → IsRange r
unfolding hour_range
IsRange-hour_range days now_ms r h =
    let (start, h1, h2) = >>=-ok _ _ r h in
    let (end, h3, h4) = >>=-ok _ _ r h2 in
    let (p, d) = days_ago_lem _ _ _ start h1 in
    let (q, e) = bucket_start_lem _ _ end h3 in
    subst IsRange (ok-injective h4) (record {
      width = 3599999;
      first = p;
      last = q;
      is_width = refl;
      of_table = refl;
      starts = d;
      ends = e;
    })

IsRange-day_range :
    (days : ℕ) (now_ms : ℤ) (r : TrendRange) → day_range days now_ms ≡ ok r → IsRange r
unfolding day_range
IsRange-day_range days now_ms r h =
    let (start, h1, h2) = >>=-ok _ _ r h in
    let (end, h3, h4) = >>=-ok _ _ r h2 in
    let (p, d) = days_ago_lem _ _ _ start h1 in
    let (q, e) = bucket_start_lem _ _ end h3 in
    subst IsRange (ok-injective h4) (record {
      width = 86399999;
      first = p;
      last = q;
      is_width = refl;
      of_table = refl;
      starts = d;
      ends = e;
    })

pub trend_range-IsRange :
    (days : ℕ) (now_ms : ℤ) (r : TrendRange) → trend_range days now_ms ≡ ok r → IsRange r
unfolding trend_range
trend_range-IsRange days now_ms r h = elim (Bool-cases (days == 0)) [
  | inl unlimited ↦ IsRange-open_range now_ms r (sym (rw unlimited refl) ∙ h)
  | inr limited ↦ elim (Bool-cases (leb days 15)) [
    | inl few ↦ IsRange-hour_range days now_ms r (sym (rw (limited, few) refl) ∙ h)
    | inr many ↦ IsRange-day_range days now_ms r (sym (rw (limited, many) refl) ∙ h)
  ]
]

-- `n` intervals lie between the bounds, if the subtraction counts `n`.
to_u64-at :
    (p q : ℤ) (w last : ℕ)
    → to_u64 (div_euclid (times q (suc w) -ℤ times p (suc w)) (suc w)) ≡ ok last
    → times q (suc w) ≡ at (times p (suc w)) (suc w) last
unfolding to_u64 div_euclid
to_u64-at p q w last h = elim (Bool-cases (leb_ℤ (times p (suc w)) (times q (suc w)))) [
  | inl up ↦
      let (k, e) = times-at p q w (ground arith) in
      let distance = ap (λ b. b -ℤ times p (suc w)) e ∙ at-ℤ (times p (suc w)) (suc w) k in
      let found : ok (k * suc w / suc w) ≡ ok last =
        sym (ap (λ d. to_u64 (div_euclid d (suc w))) distance) ∙ h in
      let same : k ≡ last = sym (mul-div_cancel k (above w)) ∙ ground arith in
      subst (λ n. times q (suc w) ≡ at (times p (suc w)) (suc w) n) same e
  | inr down ↦
      let (m, e) = -ℤ_negative (times q (suc w)) (times p (suc w)) down in
      absurd (ok-err (sym h ∙ ap (λ d. to_u64 (div_euclid d (suc w))) e))
]
  where
    above : (w : ℕ) → 0 < suc w
    above w = omega arith

    ok-err : {n : ℕ} {e : Text} → ok n ≢ err e
    ok-err = ground arith

-- The buckets of a range: the last one is the one of its end.
pub bucket_count_lem :
    (r : TrendRange) (n : ℕ)
    → IsRange r
    → bucket_count r ≡ ok n
    → (last : ℕ) × (n ≡ last + 1)
      × (n ≤ max_trend_buckets)
      × (r.end_ms ≡ at r.start_ms r.interval_ms last)
unfolding bucket_count
bucket_count_lem r n v h =
    let (span, h1, h2) = >>=-ok _ _ n h in
    let (last, h3, h4) = >>=-ok (to_u64 (div_euclid span r.interval_ms)) _ n h2 in
    let e = checked_lem _ _ (context-ok _ _ span h1) in
    let w = v.width in
    let spans : r.end_ms -ℤ r.start_ms ≡ times v.last (suc w) -ℤ times v.first (suc w) =
      rw (v.starts, v.ends) refl in
    let counted =
      ap (λ d. to_u64 (div_euclid d (suc w))) (sym spans ∙ e)
      ∙ ap (λ i. to_u64 (div_euclid span i)) (sym v.is_width)
      ∙ h3 in
    let place = to_u64-at v.first v.last w last counted in
    (last, ground (arith, h4), ground (arith, h4), rw (v.starts, v.ends, v.is_width) place)
