-- ===== src/Upstream/Hedged/Budget.antt =====
-- What holds along every sequence of polls, and how a query ends.
use dnsbuffer.Prelude.{
  ℕ, ◌+◌, ◌-◌, ◌≤◌, ◌≡◌, refl, ◌≢◌, ◌⊎◌, inl, inr, true, false, not, ◌&&◌, none, some, arith, ltb,
  leb, nat_beq, Bool-cases, Option-cases, nat_eq, list_eq,
}
use dnsbuffer.Resolver.{ok, err}
use dnsbuffer.Upstream.Hedged.{
  Engine, Joined, finished, panicked, BudgetError, Polled, pending, continues, answers, gives_up,
  Poll, budget_error, on_joined, on_timers, poll, retry_floor,
}
use dnsbuffer.Upstream.Hedged.Running.{
  IsRunning, attempt_failed-IsRunning, hedge-IsRunning, relaunch-IsRunning,
}

-- How a call may end.
pub data IsEnd {R : Type 0} (interval deadline : ℕ) : Polled R → Type 0 where
  waits : IsEnd interval deadline pending
  goes_on : {s : Engine} → IsRunning interval deadline s → IsEnd interval deadline (continues s)
  wins : {s : Engine} {r : R} → s.succeeded ≡ true → IsEnd interval deadline (answers s r)
  loses :
      {s : Engine} {e : BudgetError}
      → s.succeeded ≡ false
      → e ≡ budget_error s
      → IsEnd interval deadline (gives_up s e)

module _ {R : Type 0} where
  on_joined-IsEnd :
      (i d : ℕ) (s : Engine) (j : Joined R) (read_at : ℕ)
      → IsRunning i d s
      → IsEnd i d (on_joined s j read_at)
  unfolding on_joined
  on_joined-IsEnd i d s (finished (ok r)) read_at v = wins refl
  on_joined-IsEnd i d s (finished (err e)) read_at v =
      goes_on (attempt_failed-IsRunning i d s e read_at v)
  on_joined-IsEnd i d s (panicked e) read_at v =
      goes_on (attempt_failed-IsRunning i d s e read_at v)

  on_timers-IsEnd :
      (i d : ℕ) (s : Engine) (now read_at : ℕ)
      → IsRunning i d s
      → IsEnd {R = R} i d (on_timers s now read_at)
  unfolding on_timers
  on_timers-IsEnd i d s now read_at v = elim (Bool-cases (leb s.deadline now)) [
    | inl t ↦ rw t (loses v.unflagged refl)
    | inr f ↦ rw f (elim (Bool-cases (not (nat_beq s.interval 0) && leb s.next_hedge now)) [
      | inl t ↦ rw t (goes_on (hedge-IsRunning i d s read_at v))
      | inr f' ↦ rw f' (elim (Bool-cases (nat_beq s.in_flight 0 && leb s.retry_at now)) [
        | inl t ↦ rw t (goes_on (relaunch-IsRunning i d s read_at (ground (arith, t)) v))
        | inr f'' ↦ rw f'' waits
      ])
    ])
  ]

  pub no_join : (s : Engine) (p : Poll R) → p.joined ≡ none → poll s p ≡ on_timers s p.now p.read_at
  unfolding poll
  no_join s p e = ground (arith, e)

  pub one_join :
      (s : Engine) (p : Poll R) (j : Joined R)
      → p.joined ≡ some j
      → ltb 0 s.in_flight ≡ true
      → poll s p ≡ on_joined s j p.read_at
  unfolding poll
  one_join s p j e t = ground (arith, e, t)

  pub late_join :
      (s : Engine) (p : Poll R) (j : Joined R)
      → p.joined ≡ some j
      → ltb 0 s.in_flight ≡ false
      → poll s p ≡ on_timers s p.now p.read_at
  unfolding poll
  late_join s p j e f = ground (arith, e, f)

  pub poll-IsEnd : (i d : ℕ) (s : Engine) (p : Poll R) → IsRunning i d s → IsEnd i d (poll s p)
  poll-IsEnd i d s p v = elim (Option-cases p.joined) [
    | inl e ↦ rw (no_join s p e) (on_timers-IsEnd i d s p.now p.read_at v)
    | inr (j, e) ↦ elim (Bool-cases (ltb 0 s.in_flight)) [
      | inl t ↦ rw (one_join s p j e t) (on_joined-IsEnd i d s j p.read_at v)
      | inr f ↦ rw (late_join s p j e f) (on_timers-IsEnd i d s p.now p.read_at v)
    ]
  ]

  pub Polled-cases :
      (o : Polled R)
      → (o ≡ pending)
        ⊎ ((s : Engine) × (o ≡ continues s))
        ⊎ ((s : Engine) × (r : R) × (o ≡ answers s r))
        ⊎ ((s : Engine) × (e : BudgetError) × (o ≡ gives_up s e))
  Polled-cases pending = inl refl
  Polled-cases (continues s) = inr (inl (s, refl))
  Polled-cases (answers s r) = inr (inr (inl (s, r, refl)))
  Polled-cases (gives_up s e) = inr (inr (inr (s, e, refl)))

  pub running : {i d : ℕ} (s : Engine) → IsEnd {R = R} i d (continues s) → IsRunning i d s
  running s (goes_on v) = v

  -- How many attempts more are in flight behind a poll from `s`, if the loop goes on.
  abbrev pub launched : Engine → Polled R → ℕ
  launched s pending = 0
  launched s (continues s') = s'.in_flight - s.in_flight
  launched s (answers s' r) = 0
  launched s (gives_up s' e) = 0

  -- The next poll launches nothing; or it launches one attempt, at a hedging time with hedging on, or
  -- with none in flight once the floor is over since the last launch.
  abbrev pub IsPaced : Poll R → Polled R → Type 0
  IsPaced p (continues s) =
      (launched s (poll s p) ≡ 0)
      ⊎ ((launched s (poll s p) ≡ 1)
          × (((s.interval ≢ 0) × (s.next_hedge ≤ p.now))
              ⊎ ((s.in_flight ≡ 0) × (s.last_spawn + retry_floor ≤ p.now))))
  IsPaced p pending = Unit {0}
  IsPaced p (answers s r) = Unit {0}
  IsPaced p (gives_up s e) = Unit {0}

  -- What the timers launch.
  abbrev Paces : Engine → ℕ → Polled R → Type 0
  Paces s now o =
      (launched s o ≡ 0)
      ⊎ ((launched s o ≡ 1)
          × (((s.interval ≢ 0) × (s.next_hedge ≤ now))
              ⊎ ((s.in_flight ≡ 0) × (s.last_spawn + retry_floor ≤ now))))
