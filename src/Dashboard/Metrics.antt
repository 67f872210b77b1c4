-- ===== src/Dashboard/Metrics.antt =====
-- dashboard/upstreams.rs: the members of the groups as the dashboard knows them, by the addresses of
-- the statistics that they share with the groups.
pub mod Ids
use dnsbuffer.Prelude.{
  ℕ, zero, suc, ◌+◌, ◌-◌, ◌*◌, ◌/◌, ◌%◌, ◌^◌, ◌≤◌, ◌<◌, min, max, ◌≡◌, refl, sym, ap, ◌∙◌, ◌≢◌, ◌↔◌,
  ◌⊎◌, inl, inr, Bool, true, false, not, ◌&&◌, ◌||◌, Option, none, some, List, [], ◌∷◌, ◌++◌, map,
  reverse, arith, ltb, leb, nat_beq, if◌then◌else◌, tests, Bool-cases, Option-cases, List-cases, Eq,
  ◌==◌, nat_beq_iff, ==_iff, ==_refl, nat_eq, list_beq, list_beq_iff, list_eq, length, get_elem?,
  drop, take, length-append, All, any_of, All-append, any_of-append, sum, contains, contains-append,
}
use dnsbuffer.Text.{Text, str}
use dnsbuffer.Stats.{UpstreamStats, StatsSnapshot, snapshot_at}
use dnsbuffer.Upstream.Floats.{Floats}

-- `usize` in decimal digits; `fuel` is at least the number of digits.
unfoldable pub decimal_from : ℕ → ℕ → Text
decimal_from zero n = (b'0' + n % 10) ∷ []
decimal_from (suc fuel) n =
    let rest = decimal_from fuel (n / 10) in
    if ltb n 10 then (b'0' + n) ∷ [] else rest ++ (b'0' + n % 10) ∷ []

unfoldable pub decimal : ℕ → Text
decimal n = decimal_from n n

-- `stats` is the address of the statistics, which the group's member shares.
pub record MetricMember : Type 0 where
  pub id : Text
  pub name : Text
  pub group : Text
  pub stats : ℕ

-- What is behind an address: the statistics, and whether their lock is poisoned.
pub record Cell (F : Type 0) : Type 0 where
  pub stats : UpstreamStats F
  pub poisoned : Bool

pub record UpstreamSnapshot (F : Type 0) : Type 0 where
  pub id : Text
  pub name : Text
  pub group : Text
  pub samples : ℕ
  pub successes : ℕ
  pub failure_rate : F
  pub avg_latency_ms : Option F

-- `self.0.iter().filter(|member| member.group == group).count()`
unfoldable pub count_group : Text → List MetricMember → ℕ
count_group group [] = 0
count_group group (m ∷ ms) =
    let rest = count_group group ms in if m.group == group then rest + 1 else rest

-- `format!("{group}-{group_index}")`
unfoldable pub id_of : Text → ℕ → Text
id_of group index = group ++ b'-' ∷ decimal index

unfoldable pub register : List MetricMember → Text → Text → ℕ → List MetricMember
register ms name group stats =
    ms
    ++ record { id = id_of group (count_group group ms); name = name; group = group; stats = stats }
      ∷ []

-- The calls of `register` from several groups: a name, a group and an address each.
unfoldable pub register_all : List MetricMember → List (Text × Text × ℕ) → List MetricMember
register_all ms [] = ms
register_all ms ((name, group, stats) ∷ rs) = register_all (register ms name group stats) rs

module _ {F : Type 0} (fl : Floats F) (now : ℕ) where
  unfoldable pub snapshot_of : MetricMember → UpstreamStats F → UpstreamSnapshot F
  snapshot_of m st =
      let s = snapshot_at fl st now in
      record {
        id = m.id;
        name = m.name;
        group = m.group;
        samples = s.samples;
        successes = s.successes;
        failure_rate = s.failure_rate;
        avg_latency_ms = s.avg_latency_ms;
      }

  -- `filter_map`: a member whose lock is poisoned is left out.
  unfoldable pub snapshot : List (Cell F) → List MetricMember → List (UpstreamSnapshot F)
  snapshot cells [] = []
  snapshot cells (m ∷ ms) =
      let rest = snapshot cells ms in
      elim (get_elem? cells m.stats) [
        | none ↦ rest
        | some c ↦ if c.poisoned then rest else snapshot_of m c.stats ∷ rest
      ]
