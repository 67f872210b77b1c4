-- ===== src/Dashboard/Sampler.antt =====
-- dashboard/sampler.rs: the points of hit rate against cache size.
use dnsbuffer.Prelude.{
  ℕ, ◌<◌, min, ◌≡◌, refl, ◌≢◌, inl, inr, Bool, true, false, ◌&&◌, Option, none, some, List, [], ◌∷◌,
  map, arith, ltb, if◌then◌else◌, Bool-cases, Option-cases, ◌==◌, nat_eq, list_eq,
}
use mathlib.Core.Path.{subst}
use dnsbuffer.Cache.{Cache, len, hit_stats}

-- A hit rate: 0, or the quotient of two counts, kept as its operands.
pub data Rate : Type 0 where
  zero_rate : Rate
  ratio : ℕ → ℕ → Rate

pub record CacheSample : Type 0 where
  pub size : ℕ
  pub hit_rate : Rate
  pub lookups : ℕ

-- `by_size` is a `BTreeMap`: its samples in ascending order of the key.
pub record SamplerState : Type 0 where
  pub latest : Option CacheSample
  pub by_size : List (ℕ × CacheSample)

-- `BTreeMap::insert`.
unfoldable pub insert_sorted : List (ℕ × CacheSample) → ℕ → CacheSample → List (ℕ × CacheSample)
insert_sorted [] k v = (k, v) ∷ []
insert_sorted ((j, w) ∷ m) k v =
    let rest = insert_sorted m k v in
    if ltb k j then (k, v) ∷ (j, w) ∷ m else if j == k then (k, v) ∷ m else (j, w) ∷ rest

unfoldable pub hit_rate : ℕ → ℕ → Rate
hit_rate lookups hits = if lookups == 0 then zero_rate else ratio (min hits lookups) lookups

-- Neither the number of entries nor the lookups have changed since the last sample.
unfoldable pub unchanged : SamplerState → ℕ → ℕ → Bool
unchanged s size lookups = elim s.latest [
  | none ↦ false
  | some last ↦ last.size == size && last.lookups == lookups
]

-- The sample of the cache as it is.
unfoldable pub sample_of : Cache → CacheSample
sample_of c = record {
  size = len c;
  hit_rate = hit_rate (hit_stats c).0 (hit_stats c).1;
  lookups = (hit_stats c).0;
}

unfoldable pub observe : Cache → SamplerState → SamplerState
observe c s = if unchanged s (len c) (hit_stats c).0 then s else record {
  latest = some (sample_of c);
  by_size = insert_sorted s.by_size (len c) (sample_of c);
}

-- `CacheHitSampler::new`.
unfoldable pub new_sampler : Cache → SamplerState
new_sampler c = observe c (record { latest = none; by_size = [] })

unfoldable pub points : SamplerState → List CacheSample
points s = map (λ p. p.1) s.by_size

-- The keys of the points ascend from above `k`, and each is its sample's size.
abbrev pub Above : ℕ → List (ℕ × CacheSample) → Type 0
Above k [] = Unit
Above k ((j, v) ∷ m) = (k < j) × (v.size ≡ j) × Above j m

abbrev pub Ascends : List (ℕ × CacheSample) → Type 0
Ascends [] = Unit
Ascends ((j, v) ∷ m) = (v.size ≡ j) × Above j m

-- The point of a size.
pub point_at : List (ℕ × CacheSample) → ℕ → Option CacheSample
point_at [] k = none
point_at ((j, v) ∷ m) k = if j == k then some v else point_at m k

Above-insert_sorted :
    (i : ℕ) (m : List (ℕ × CacheSample)) (k : ℕ) (v : CacheSample)
    → v.size ≡ k
    → i < k
    → Above i m
    → Above i (insert_sorted m k v)
unfolding insert_sorted
Above-insert_sorted i [] k v e h a = (h, e, tt)
Above-insert_sorted i ((j, w) ∷ m) k v e h a = elim (Bool-cases (ltb k j)) [
  | inl less ↦ rw less (h, e, (ground arith, a.1, a.2))
  | inr more ↦ elim (Bool-cases (j == k)) [
    | inl same ↦ rw (more, same) (h, e, subst (λ i. Above i m) (ground arith) a.2)
    | inr other ↦ rw (more, other) (a.0, a.1, Above-insert_sorted j m k v e (ground arith) a.2)
  ]
]

Ascends-insert_sorted :
    (m : List (ℕ × CacheSample)) (k : ℕ) (v : CacheSample)
    → v.size ≡ k
    → Ascends m
    → Ascends (insert_sorted m k v)
unfolding insert_sorted
Ascends-insert_sorted [] k v e a = (e, tt)
Ascends-insert_sorted ((j, w) ∷ m) k v e a = elim (Bool-cases (ltb k j)) [
  | inl less ↦ rw less (e, (ground arith, a.0, a.1))
  | inr more ↦ elim (Bool-cases (j == k)) [
    | inl same ↦ rw (more, same) (e, subst (λ i. Above i m) (ground arith) a.1)
    | inr other ↦ rw (more, other) (a.0, Above-insert_sorted j m k v e (ground arith) a.1)
  ]
]

point_at-insert_sorted :
    (m : List (ℕ × CacheSample)) (k : ℕ) (v : CacheSample) (q : ℕ)
    → Ascends m
    → point_at (insert_sorted m k v) q ≡ (if k == q then some v else point_at m q)
unfolding insert_sorted point_at
point_at-insert_sorted [] k v q a = refl
point_at-insert_sorted ((j, w) ∷ m) k v q a = ground (arith, point_at-insert_sorted m k v q)

-- The latest sample is the point of its size.
abbrev pub LatestKept : Option CacheSample → List (ℕ × CacheSample) → Type 0
LatestKept none m = Unit
LatestKept (some x) m = point_at m x.size ≡ some x

-- The points ascend by size, one to a size, and the latest sample is the point of its size.
pub record IsCurve (s : SamplerState) : Type 0 where
  pub ascends : Ascends s.by_size
  pub latest_kept : LatestKept s.latest s.by_size

unchanged_lem :
    (s : SamplerState) (size lookups : ℕ)
    → unchanged s size lookups ≡ true
    → (x : CacheSample) × (s.latest ≡ some x) × (x.size ≡ size) × (x.lookups ≡ lookups)
unfolding unchanged
unchanged_lem s size lookups h = elim (Option-cases s.latest) [
  | inl e ↦ absurd (ground arith)
  | inr (x, e) ↦ (x, e, ground arith, ground arith)
]

-- An observation keeps the points ascending by size, one to a size, with the latest sample the
-- point of its size. Behind it the latest sample has the size and the lookups of the cache, and the
-- point of any other size `q` is as before.
pub observe-IsCurve :
    (c : Cache) (s : SamplerState) (q : ℕ)
    → IsCurve s
    → q ≢ len c
    → IsCurve (observe c s)
      × ((x : CacheSample) × ((observe c s).latest ≡ some x)
          × (x.size ≡ len c)
          × (x.lookups ≡ c.lookups))
      × (point_at (observe c s).by_size q ≡ point_at s.by_size q)
unfolding observe hit_stats sample_of
observe-IsCurve c s q v ne = elim (Bool-cases (unchanged s (len c) c.lookups)) [
  | inl same ↦ rw same (v, unchanged_lem s (len c) c.lookups same, refl)
  | inr new ↦
      let x = sample_of c in
      let point = λ (q : ℕ). point_at-insert_sorted s.by_size (len c) x q v.ascends in
      rw new (
        record {
          ascends = Ascends-insert_sorted s.by_size (len c) x refl v.ascends;
          latest_kept = ground (arith, point (len c));
        },
        (x, refl, refl, refl),
        ground (arith, point q),
      )
]
