-- ===== src/Upstream/Hedged.antt =====
-- upstream/hedged.rs: the loop that keeps attempts at a query in flight until one succeeds or the
-- budget is over. Times are milliseconds of the runtime's clock.
pub mod Running
pub mod Budget
pub mod Ends
use dnsbuffer.Prelude.{
  ℕ, zero, suc, ◌+◌, ◌-◌, ◌*◌, ◌/◌, ◌%◌, ◌^◌, ◌≤◌, ◌<◌, min, max, ◌≡◌, refl, sym, ap, ◌∙◌, ◌≢◌, ◌↔◌,
  ◌⊎◌, inl, inr, Bool, true, false, not, ◌&&◌, ◌||◌, Option, none, some, List, [], ◌∷◌, ◌++◌, map,
  reverse, arith, ltb, leb, nat_beq, if◌then◌else◌, tests, Bool-cases, Option-cases, Eq, ◌==◌,
  nat_beq_iff, ==_iff, ==_refl, nat_eq, list_beq, list_beq_iff, list_eq, length, get_elem?, drop,
  length-append, All, any_of, All-append, sum, contains, contains-append,
}
use dnsbuffer.Text.{Text}
use dnsbuffer.Resolver.{Result, ok, err}

abbrev pub max_in_flight_cap : ℕ
max_in_flight_cap = 8

abbrev pub retry_floor : ℕ
retry_floor = 50

-- The variables of the loop, with the flag that the attempts share.
pub record Engine : Type 0 where
  pub interval : ℕ
  pub deadline : ℕ
  pub next_hedge : ℕ
  pub last_spawn : ℕ
  pub retry_at : ℕ
  pub in_flight : ℕ
  pub last_error : Option Text
  pub succeeded : Bool

-- What `join_next` yields: the result of an attempt, or the failure of its task.
pub data Joined (R : Type 0) : Type 0 where
  finished : Result R → Joined R
  panicked : Text → Joined R

-- The error at the deadline: the last one, in the context of the budget, or that none replied.
pub data BudgetError : Type 0 where
  no_success : Text → BudgetError
  no_reply : ℕ → BudgetError

-- One poll of the `select!`: nothing is ready, a branch ran, or the call returned.
pub data Polled (R : Type 0) : Type 0 where
  pending : Polled R
  continues : Engine → Polled R
  answers : Engine → R → Polled R
  gives_up : Engine → BudgetError → Polled R

-- What a poll meets: the time, the joined attempt if one is ready, and the time that the branch
-- reads while it runs.
pub record Poll (R : Type 0) : Type 0 where
  pub now : ℕ
  pub joined : Option (Joined R)
  pub read_at : ℕ

unfoldable pub max_in_flight : Engine → ℕ
max_in_flight s = if nat_beq s.interval 0 then 1 else max_in_flight_cap

-- The state in front of the loop, with the first attempt in flight.
unfoldable pub start : ℕ → ℕ → ℕ → Engine
start interval max_wait now = record {
  interval = interval;
  deadline = now + max_wait;
  next_hedge = now + interval;
  last_spawn = now;
  retry_at = now;
  in_flight = 1;
  last_error = none;
  succeeded = false;
}

-- An attempt failed.
unfoldable pub attempt_failed : Engine → Text → ℕ → Engine
attempt_failed s e read_at = record s {
  in_flight = s.in_flight - 1;
  last_error = some e;
  retry_at =
      if nat_beq (s.in_flight - 1) 0 then max read_at (s.last_spawn + retry_floor) else s.retry_at;
}

unfoldable pub budget_error : Engine → BudgetError
budget_error s = elim s.last_error [ some e ↦ no_success e | none ↦ no_reply s.in_flight ]

unfoldable pub hedge : Engine → ℕ → Engine
hedge s read_at =
    let s' = record s { next_hedge = s.next_hedge + s.interval } in
    if ltb s.in_flight (max_in_flight s)
    then record s' { in_flight = s.in_flight + 1; last_spawn = read_at }
    else s'

unfoldable pub relaunch : Engine → ℕ → Engine
relaunch s read_at = record s { in_flight = s.in_flight + 1; last_spawn = read_at }

module _ {R : Type 0} where
  unfoldable pub on_joined : Engine → Joined R → ℕ → Polled R
  on_joined s (finished (ok response)) read_at =
      answers (record s { in_flight = s.in_flight - 1; succeeded = true }) response
  on_joined s (finished (err e)) read_at = continues (attempt_failed s e read_at)
  on_joined s (panicked e) read_at = continues (attempt_failed s e read_at)

  -- The three timers, in the order of the `select!`.
  unfoldable pub on_timers : Engine → ℕ → ℕ → Polled R
  on_timers s now read_at =
      if leb s.deadline now
      then gives_up s (budget_error s)
      else if not (nat_beq s.interval 0) && leb s.next_hedge now
      then continues (hedge s read_at)
      else if nat_beq s.in_flight 0 && leb s.retry_at now
      then continues (relaunch s read_at)
      else pending

  unfoldable pub poll : Engine → Poll R → Polled R
  poll s p = elim p.joined [
    | none ↦ on_timers s p.now p.read_at
    | some j ↦ if ltb 0 s.in_flight then on_joined s j p.read_at else on_timers s p.now p.read_at
  ]

  -- The loop over the polls that the runtime makes.
  unfoldable pub resolve_loop : Engine → List (Poll R) → Polled R
  resolve_loop s [] = continues s
  resolve_loop s (p ∷ ps) = elim (poll s p) [
    | pending ↦ resolve_loop s ps
    | continues s' ↦ resolve_loop s' ps
    | answers s' r ↦ answers s' r
    | gives_up s' e ↦ gives_up s' e
  ]
