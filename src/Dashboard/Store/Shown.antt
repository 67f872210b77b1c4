-- ===== src/Dashboard/Store/Shown.antt =====
-- dashboard/store.rs: what the dashboard is shown as the trend.
use dnsbuffer.Prelude.{
  ℕ, zero, suc, ◌+◌, ◌*◌, ◌≤◌, ◌<◌, ◌≡◌, refl, sym, ap, ◌∙◌, inl, inr, true, Option, List, [], ◌∷◌,
  arith, Bool-cases, nat_eq, list_eq, All,
}
use dnsbuffer.Prelude.Int.{ℤ, pos, ◌≤ℤ◌, leb_ℤ, int_eq, int_beq_iff, times, +ℤ_parts}
use mathlib.Core.Path.{subst}
use native.Mathlib.Nat.{mul-le-mul_right}
use dnsbuffer.Dashboard.Store.Insert.{execute-ok, read_connection-ok}
use dnsbuffer.Dashboard.Store.Buckets.{Ascends, InOrder, AtMultiple}
use dnsbuffer.Dashboard.Store.Cleanup.{Ascends-keep}
use dnsbuffer.Dashboard.Store.Range.{IsRange, trend_range-IsRange, bucket_count_lem}
use dnsbuffer.Text.{Text}
use dnsbuffer.Resolver.{ok-injective, ok, context, >>=-ok}
use dnsbuffer.Dashboard.Store.{
  Tables, Statement, TrendBucket, StatsTable, stats, keep, execute, read_connection, select_buckets,
  apply,
}
use dnsbuffer.Dashboard.Store.Grid.{at, times-at}
use dnsbuffer.Dashboard.Store.Trend.{
  TrendRange, TrendResponse, trend_range, bucket_count, max_trend_buckets, is_between, fill,
  trend_with_deadline,
}
use dnsbuffer.Dashboard.Store.Filled.{bucket_at, zero_filled, OnGrid, fill_lem}

-- A row that is shown stands at an index of the range.
OnGrid-keep :
    (r : TrendRange) (v : IsRange r) (rs : List TrendBucket)
    → All (AtMultiple r.interval_ms) rs
    → OnGrid r.start_ms (suc v.width) 0 (keep (is_between r.start_ms r.end_ms) rs)
unfolding keep is_between
OnGrid-keep r v [] m = tt
OnGrid-keep r v (b ∷ bs) ((q, e), m) = elim (Bool-cases (is_between r.start_ms r.end_ms b)) [
  | inl inside ↦
      let place = e ∙ ap (times q) v.is_width in
      let after : times v.first (suc v.width) ≤ℤ times q (suc v.width) =
        subst (λ s. s ≤ℤ times q (suc v.width)) v.starts
          (subst (λ x. r.start_ms ≤ℤ x) place (ground arith)) in
      let (k, f) = times-at v.first q v.width after in
      rw inside (
        (k, omega arith, place ∙ f ∙ ap (λ s. at s (suc v.width) k) (sym v.starts)),
        OnGrid-keep r v bs m,
      )
  | inr outside ↦ rw outside (OnGrid-keep r v bs m)
]

-- The selection has the row of every bucket of the range.
bucket_at-keep :
    (start_ms end_ms b : ℤ) (rs : List TrendBucket)
    → leb_ℤ start_ms b ≡ true
    → leb_ℤ b end_ms ≡ true
    → bucket_at (keep (is_between start_ms end_ms) rs) b ≡ bucket_at rs b
unfolding bucket_at keep is_between
bucket_at-keep start_ms end_ms b [] h k = refl
bucket_at-keep start_ms end_ms b (r ∷ rs) h k =
    let rest = bucket_at-keep start_ms end_ms b rs h k in
    elim (Bool-cases (is_between start_ms end_ms r)) [
      | inl inside ↦ rw inside (ground (arith, rest))
      | inr outside ↦ rw outside (ground (arith, rest, int_beq_iff r.bucket_ms b, h, k, outside))
    ]

at-le : (start_ms : ℤ) (w j k : ℕ) → j ≤ k → leb_ℤ (at start_ms w j) (at start_ms w k) ≡ true
at-le start_ms w j k h =
    let scaled = mul-le-mul_right w h in
    ground (arith, scaled, +ℤ_parts start_ms (pos (j * w)), +ℤ_parts start_ms (pos (k * w)))

zero_filled-keep :
    (start_ms : ℤ) (w last index left : ℕ) (rs : List TrendBucket)
    → index + left ≤ last + 1
    → zero_filled (keep (is_between start_ms (at start_ms w last)) rs) start_ms w index left
      ≡ zero_filled rs start_ms w index left
unfolding zero_filled
zero_filled-keep start_ms w last index zero rs h = refl
zero_filled-keep start_ms w last index (suc left) rs h =
    let rest = zero_filled-keep start_ms w last (index + 1) left rs (omega arith) in
    let from : leb_ℤ start_ms (at start_ms w index) ≡ true =
      ground (arith, +ℤ_parts start_ms (pos (index * w))) in
    let to = at-le start_ms w index last (omega arith) in
    let here = bucket_at-keep start_ms (at start_ms w last) (at start_ms w index) rs from to in
    rw (here, rest) refl

fill-range :
    (range : TrendRange) (n : ℕ) (rows buckets : List TrendBucket)
    → IsRange range
    → bucket_count range ≡ ok n
    → Ascends rows
    → All (AtMultiple range.interval_ms) rows
    → fill range.start_ms range.interval_ms n 0 (keep (is_between range.start_ms range.end_ms) rows)
      ≡ ok buckets
    → (last : ℕ) × (range.end_ms ≡ at range.start_ms range.interval_ms last)
      × (last < max_trend_buckets)
      × (buckets ≡ zero_filled rows range.start_ms range.interval_ms 0 (last + 1))
fill-range range n rows buckets v h a m f =
    let (last, e, bound, place) = bucket_count_lem range n v h in
    let chosen = keep (is_between range.start_ms range.end_ms) rows in
    let Fills : ℕ → Type 0 = λ i. fill range.start_ms i n 0 chosen ≡ ok buckets in
    let filled =
      fill_lem range.start_ms v.width n 0 chosen buckets (Ascends-keep _ rows a)
        (OnGrid-keep range v rows m) (subst Fills v.is_width f) in
    let whole = ap (λ i. zero_filled chosen range.start_ms i 0 n) (sym v.is_width) in
    let choice =
      ap
        (λ b.
          zero_filled (keep (is_between range.start_ms b) rows) range.start_ms range.interval_ms 0
            n)
        place in
    let all = zero_filled-keep range.start_ms range.interval_ms last 0 n rows (omega (arith, e)) in
    (
      last,
      place,
      omega (arith, e, bound),
      filled ∙ whole ∙ choice ∙ all ∙ ap (zero_filled rows range.start_ms range.interval_ms 0) e,
    )

module _ (refuses : Statement → Tables → Option Text) (midnight : ℤ → Option ℤ) where
  -- A trend that is answered has each bucket of its range once, in order and at most 10000 of them:
  -- it begins at the first and its last index is that of the end. Each is the stored row of its
  -- bucket, or zeros where there is none, provided that the statistics tables are in order.
  pub trend_with_deadline_lem :
      (retention_days : ℕ) (now_ms : ℤ) (deadline : Option ℕ) (now : ℕ) (t : Tables)
      (answer : TrendResponse)
      → ((table : StatsTable) → InOrder table (stats table t))
      → trend_with_deadline refuses midnight retention_days now_ms deadline now t ≡ ok answer
      → (range : TrendRange) × (last : ℕ) × (trend_range retention_days now_ms ≡ ok range)
        × (answer.start_ms ≡ range.start_ms)
        × (answer.end_ms ≡ at range.start_ms range.interval_ms last)
        × (last < max_trend_buckets)
        × (answer.buckets
            ≡ zero_filled (stats range.table t) range.start_ms range.interval_ms 0 (last + 1))
  unfolding trend_with_deadline apply
  trend_with_deadline_lem retention_days now_ms deadline now t answer a h =
      let (day, h1, h2) = >>=-ok (context (midnight now_ms) _) _ answer h in
      let (range, h3, h4) = >>=-ok (trend_range retention_days now_ms) _ answer h2 in
      let (n, h5, h6) = >>=-ok (bucket_count range) _ answer h4 in
      let (u, h7, h8) = >>=-ok (read_connection refuses deadline now t) _ answer h6 in
      let (u', h9, h10) =
        >>=-ok (execute refuses (select_buckets range.table range.start_ms range.end_ms) u) _ answer
          h8 in
      let (buckets, h11, h12) = >>=-ok (fill range.start_ms range.interval_ms n 0 _) _ answer h10 in
      let v = trend_range-IsRange retention_days now_ms range h3 in
      let same : t ≡ u' =
        read_connection-ok refuses deadline now t u h7 ∙ execute-ok refuses _ u u' h9 in
      let Fills : Tables → Type 0 = λ w.
        fill range.start_ms range.interval_ms n 0
          (keep (is_between range.start_ms range.end_ms) (stats range.table w))
        ≡ ok buckets in
      let multiples =
        subst (λ i. All (AtMultiple i) (stats range.table t)) (v.of_table ∙ sym v.is_width)
          (a range.table).1 in
      let (last, place, bound, filled) =
        fill-range range n (stats range.table t) buckets v h5 (a range.table).0 multiples
          (subst Fills (sym same) h11) in
      (
        range,
        last,
        h3,
        sym (ap start_of (ok-injective h12)),
        sym (ap end_of (ok-injective h12)) ∙ place,
        bound,
        sym (ap buckets_of (ok-injective h12)) ∙ filled,
      )
    where
      start_of : TrendResponse → ℤ
      start_of r = r.start_ms

      end_of : TrendResponse → ℤ
      end_of r = r.end_ms

      buckets_of : TrendResponse → List TrendBucket
      buckets_of r = r.buckets
