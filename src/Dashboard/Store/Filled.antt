-- ===== src/Dashboard/Store/Filled.antt =====
-- dashboard/store.rs: the trend shows every bucket of its range once, from the table or as zeros.
use dnsbuffer.Prelude.{
  ℕ, zero, suc, ◌+◌, ◌≤◌, ◌<◌, ◌≡◌, refl, sym, ap, ◌∙◌, inl, inr, List, [], ◌∷◌, arith,
  if◌then◌else◌, Bool-cases, ◌==◌, nat_beq_iff, nat_eq, list_eq, All,
}
use mathlib.Core.Path.{subst}
use dnsbuffer.Prelude.Int.{ℤ, ◌+ℤ◌, int_eq, int_beq_iff, checked_lem, times}
use dnsbuffer.Resolver.{ok, context-ok, >>=-ok}
use dnsbuffer.Dashboard.Store.{TrendBucket}
use dnsbuffer.Dashboard.Store.Buckets.{Ascends, Above}
use dnsbuffer.Dashboard.Store.Grid.{at, at-lt, at-injective}
use dnsbuffer.Dashboard.Store.Trend.{empty_bucket, bucket_time, take_bucket, fill}

-- The row of a bucket, or zeros.
unfoldable pub bucket_at : List TrendBucket → ℤ → TrendBucket
bucket_at [] b = empty_bucket b
bucket_at (r ∷ rs) b = if r.bucket_ms == b then r else bucket_at rs b

-- The buckets of `left` indices from `index` on.
unfoldable pub zero_filled : List TrendBucket → ℤ → ℕ → ℕ → ℕ → List TrendBucket
zero_filled rs start_ms interval_ms index zero = []
zero_filled rs start_ms interval_ms index (suc left) =
    bucket_at rs (at start_ms interval_ms index)
    ∷ zero_filled rs start_ms interval_ms (index + 1) left

-- Each row stands at an index from `index` on.
abbrev pub OnGrid : ℤ → ℕ → ℕ → List TrendBucket → Type 0
OnGrid start_ms interval_ms index rs =
    All (λ (r : TrendBucket). (k : ℕ) × (index ≤ k) × (r.bucket_ms ≡ at start_ms interval_ms k)) rs

bucket_time_lem :
    (start_ms : ℤ) (interval_ms index : ℕ) (b : ℤ)
    → bucket_time start_ms interval_ms index ≡ ok b
    → at start_ms interval_ms index ≡ b
unfolding bucket_time times
bucket_time_lem start_ms interval_ms index b h =
    let (value, h1, h2) = >>=-ok _ _ b h in
    let (offset, h3, h4) = >>=-ok _ _ b h2 in
    let v = checked_lem _ _ (context-ok _ _ value h1) in
    let o = checked_lem _ _ (context-ok _ _ offset h3) in
    let s = checked_lem _ _ (context-ok _ _ b h4) in
    ap (λ o. start_ms +ℤ o) (ap (λ v. times v interval_ms) v ∙ o) ∙ s

-- Behind the first row the others have higher indices.
OnGrid-rest :
    (start_ms : ℤ) (w k : ℕ) (b : ℤ) (rs : List TrendBucket)
    → b ≡ at start_ms (suc w) k
    → Above b rs
    → OnGrid start_ms (suc w) 0 rs
    → OnGrid start_ms (suc w) (k + 1) rs
OnGrid-rest start_ms w k b [] h a g = tt
OnGrid-rest start_ms w k b (r ∷ rs) h a ((j, le, e), g) =
    let later = at-lt start_ms w k j (ground (arith, a.0, h, e)) in
    ((j, omega (arith, later), e), OnGrid-rest start_ms w k b rs h a.1 g)

OnGrid-weaker :
    (start_ms : ℤ) (interval_ms i j : ℕ) (rs : List TrendBucket)
    → j ≤ i
    → OnGrid start_ms interval_ms i rs
    → OnGrid start_ms interval_ms j rs
OnGrid-weaker start_ms interval_ms i j [] h g = tt
OnGrid-weaker start_ms interval_ms i j (r ∷ rs) h ((k, le, e), g) =
    ((k, omega arith, e), OnGrid-weaker start_ms interval_ms i j rs h g)

-- Nothing is stored before the indices of the rows.
bucket_at-before :
    (start_ms : ℤ) (w index : ℕ) (rs : List TrendBucket)
    → OnGrid start_ms (suc w) (index + 1) rs
    → bucket_at rs (at start_ms (suc w) index) ≡ empty_bucket (at start_ms (suc w) index)
unfolding bucket_at
bucket_at-before start_ms w index [] g = refl
bucket_at-before start_ms w index (r ∷ rs) ((k, le, e), g) =
    elim (Bool-cases (r.bucket_ms == at start_ms (suc w) index)) [
      | inl same ↦ absurd (
          let met = (int_beq_iff r.bucket_ms (at start_ms (suc w) index)).0 same in
          omega (arith, le, at-injective start_ms w k index (sym e ∙ met)))
      | inr other ↦ rw other (bucket_at-before start_ms w index rs g)
    ]

-- A row before the index is not seen.
zero_filled-before :
    (r : TrendBucket) (rs : List TrendBucket) (start_ms : ℤ) (w k index left : ℕ)
    → r.bucket_ms ≡ at start_ms (suc w) k
    → k < index
    → zero_filled (r ∷ rs) start_ms (suc w) index left ≡ zero_filled rs start_ms (suc w) index left
unfolding zero_filled bucket_at
zero_filled-before r rs start_ms w k index zero e h = refl
zero_filled-before r rs start_ms w k index (suc left) e h =
    let rest = zero_filled-before r rs start_ms w k (index + 1) left e (omega (arith, h)) in
    elim (Bool-cases (r.bucket_ms == at start_ms (suc w) index)) [
      | inl same ↦ absurd (
          let met = (int_beq_iff r.bucket_ms (at start_ms (suc w) index)).0 same in
          omega (arith, h, at-injective start_ms w k index (sym e ∙ met)))
      | inr other ↦ rw other (ap (λ bs. bucket_at rs (at start_ms (suc w) index) ∷ bs) rest)
    ]

-- One turn of the loop.
fill_step :
    (start_ms : ℤ) (interval_ms left index : ℕ) (stored buckets : List TrendBucket)
    → fill start_ms interval_ms (suc left) index stored ≡ ok buckets
    → (bs : List TrendBucket) × (fill start_ms interval_ms left
          (index + 1)
          (take_bucket (at start_ms interval_ms index) stored).1
        ≡ ok bs)
      × (buckets ≡ (take_bucket (at start_ms interval_ms index) stored).0 ∷ bs)
unfolding fill
fill_step start_ms interval_ms left index stored buckets h =
    let (b, h1, h2) = >>=-ok _ _ buckets h in
    let time = sym (bucket_time_lem start_ms interval_ms index b h1) in
    let (bs, h3, h4) = >>=-ok _ _ buckets h2 in
    let e : (take_bucket b stored).0 ∷ bs ≡ buckets = ground arith in
    (
      bs,
      subst (λ b. fill start_ms interval_ms left (index + 1) (take_bucket b stored).1 ≡ ok bs) time
          h3,
      subst (λ b. buckets ≡ (take_bucket b stored).0 ∷ bs) time (sym e),
    )

pub fill_lem :
    (start_ms : ℤ) (w left index : ℕ) (stored buckets : List TrendBucket)
    → Ascends stored
    → OnGrid start_ms (suc w) index stored
    → fill start_ms (suc w) left index stored ≡ ok buckets
    → buckets ≡ zero_filled stored start_ms (suc w) index left
unfolding fill zero_filled bucket_at take_bucket
fill_lem start_ms w zero index stored buckets a g h = ground arith
fill_lem start_ms w (suc left) index [] buckets a g h =
    let (bs, rest, e) = fill_step start_ms (suc w) left index [] buckets h in
    e
    ∙ ap (λ bs. empty_bucket (at start_ms (suc w) index) ∷ bs)
        (fill_lem start_ms w left (index + 1) [] bs tt tt rest)
fill_lem start_ms w (suc left) index (r ∷ rs) buckets a g h =
    let (bs, rest, e) = fill_step start_ms (suc w) left index (r ∷ rs) buckets h in
    let (k, le, on) = g.0 in
    let later =
      OnGrid-rest start_ms w k r.bucket_ms rs on a.0
        (OnGrid-weaker start_ms (suc w) index 0 rs (omega arith) g.1) in
    elim (Bool-cases (r.bucket_ms == at start_ms (suc w) index)) [
      | inl same ↦
          let met = (int_beq_iff r.bucket_ms (at start_ms (suc w) index)).0 same in
          let here : k ≡ index = at-injective start_ms w k index (sym on ∙ met) in
          let take : take_bucket (at start_ms (suc w) index) (r ∷ rs) ≡ (r, rs) = rw same refl in
          let others =
            OnGrid-weaker start_ms (suc w) (k + 1) (index + 1) rs (omega (arith, here)) later in
          let rest_filled =
            fill_lem start_ms w left (index + 1) rs bs a.1 others
              (subst (λ p. fill start_ms (suc w) left (index + 1) p.1 ≡ ok bs) take rest) in
          let unseen =
            zero_filled-before r rs start_ms w k (index + 1) left on (omega (arith, here)) in
          subst (λ p. buckets ≡ p.0 ∷ bs) take e
          ∙ rw same (ap (λ bs. r ∷ bs) (rest_filled ∙ sym unseen))
      | inr other ↦
          let take : take_bucket (at start_ms (suc w) index) (r ∷ rs)
              ≡ (empty_bucket (at start_ms (suc w) index), r ∷ rs) =
            rw other refl in
          let above : index + 1 ≤ k = elim (Bool-cases (k == index)) [
            | inl met ↦ absurd (
                let place : at start_ms (suc w) k ≡ at start_ms (suc w) index =
                  ap (λ i. at start_ms (suc w) i) ((nat_beq_iff k index).0 met) in
                ground (
                  arith,
                  (int_beq_iff r.bucket_ms (at start_ms (suc w) index)).1 (on ∙ place),
                  other,
                ))
            | inr apart ↦ ground (arith, le, apart)
          ] in
          let others =
            OnGrid-weaker start_ms (suc w) (k + 1) (index + 1) rs (omega (arith, above)) later in
          let missing = bucket_at-before start_ms w index rs others in
          let rest_filled =
            fill_lem start_ms w left (index + 1) (r ∷ rs) bs a ((k, above, on), others)
              (subst (λ p. fill start_ms (suc w) left (index + 1) p.1 ≡ ok bs) take rest) in
          subst (λ p. buckets ≡ p.0 ∷ bs) take e
          ∙ rw (other, missing)
              (ap (λ bs. empty_bucket (at start_ms (suc w) index) ∷ bs) rest_filled)
    ]
