-- ===== src/Upstream/Hedged/Running.antt =====
-- What the loop keeps while it runs.
use dnsbuffer.Prelude.{
  ℕ, ◌+◌, ◌≤◌, ◌<◌, ◌≡◌, refl, ◌≢◌, ◌⊎◌, inl, inr, false, none, arith, ltb, Bool-cases, nat_eq,
  list_eq,
}
use dnsbuffer.Text.{Text}
use dnsbuffer.Upstream.Hedged.{
  Engine, max_in_flight, start, attempt_failed, hedge, relaunch, retry_floor,
}

-- At most one attempt is in flight if hedging is off, and at most eight otherwise. With none in
-- flight, an attempt has failed and the relaunch is not before the floor after the last launch. No
-- success is flagged.
pub record IsRunning (interval deadline : ℕ) (s : Engine) : Type 0 where
  pub same_interval : s.interval ≡ interval
  pub same_deadline : s.deadline ≡ deadline
  pub within_cap : s.in_flight ≤ max_in_flight s
  pub throttled : (0 < s.in_flight) ⊎ (s.last_spawn + retry_floor ≤ s.retry_at)
  pub failed_once : (0 < s.in_flight) ⊎ (s.last_error ≢ none)
  pub unflagged : s.succeeded ≡ false

pub start-IsRunning :
    (interval max_wait now : ℕ) → IsRunning interval (now + max_wait) (start interval max_wait now)
unfolding start max_in_flight
start-IsRunning interval max_wait now = record {
  same_interval = refl;
  same_deadline = refl;
  within_cap = ground arith;
  throttled = inl (omega arith);
  failed_once = inl (omega arith);
  unflagged = refl;
}

pub attempt_failed-IsRunning :
    (i d : ℕ) (s : Engine) (e : Text) (read_at : ℕ)
    → IsRunning i d s
    → IsRunning i d (attempt_failed s e read_at)
unfolding attempt_failed max_in_flight
attempt_failed-IsRunning i d s e read_at v = record {
  same_interval = v.same_interval;
  same_deadline = v.same_deadline;
  within_cap = ground (arith, v.within_cap);
  throttled = ground (arith, v.throttled);
  failed_once = inr (λ h. ground (arith, h));
  unflagged = v.unflagged;
}

pub hedge-IsRunning :
    (i d : ℕ) (s : Engine) (read_at : ℕ) → IsRunning i d s → IsRunning i d (hedge s read_at)
unfolding hedge max_in_flight
hedge-IsRunning i d s read_at v = elim (Bool-cases (ltb s.in_flight (max_in_flight s))) [
  | inl t ↦ rw t (record {
    same_interval = v.same_interval;
    same_deadline = v.same_deadline;
    within_cap = ground (arith, t);
    throttled = inl (omega arith);
    failed_once = inl (omega arith);
    unflagged = v.unflagged;
  })
  | inr f ↦ rw f (record {
    same_interval = v.same_interval;
    same_deadline = v.same_deadline;
    within_cap = v.within_cap;
    throttled = v.throttled;
    failed_once = v.failed_once;
    unflagged = v.unflagged;
  })
]

pub relaunch-IsRunning :
    (i d : ℕ) (s : Engine) (read_at : ℕ)
    → s.in_flight ≡ 0
    → IsRunning i d s
    → IsRunning i d (relaunch s read_at)
unfolding relaunch max_in_flight
relaunch-IsRunning i d s read_at z v = record {
  same_interval = v.same_interval;
  same_deadline = v.same_deadline;
  within_cap = ground (arith, z);
  throttled = inl (omega arith);
  failed_once = inl (omega arith);
  unflagged = v.unflagged;
}
