-- ===== src/Dashboard/Store/Warnings.antt =====
-- dashboard/store.rs: the limit on how often failed writes are logged, shared by threads through one
-- atomic number.
use dnsbuffer.Prelude.{
  ℕ, ◌+◌, ◌-◌, ◌^◌, ◌≤◌, min, ◌≡◌, refl, inl, inr, Bool, true, false, not, ◌&&◌, Option, none, some,
  List, [], ◌∷◌, arith, ltb, if◌then◌else◌, Bool-cases, ◌==◌, ==_refl, nat_eq, list_eq,
}
use mathlib.Core.Path.{subst}

pub record WarningRateLimit : Type 0 where
  pub interval_ms : ℕ
  pub next_log_ms : ℕ

abbrev pub max_u64 : ℕ
max_u64 = 2 ^ 64 - 1

unfoldable pub new : ℕ → WarningRateLimit
new interval_ms = record { interval_ms = interval_ms; next_log_ms = 0 }

-- What `compare_exchange_weak` meets: what other threads have stored by then, if anything, and
-- whether it fails although nothing was stored.
pub record Exchange : Type 0 where
  pub stored : Option ℕ
  pub spurious : Bool

-- `now_ms.saturating_add(self.interval_ms)`
unfoldable pub next_of : WarningRateLimit → ℕ → ℕ
next_of w now_ms = min max_u64 (now_ms + w.interval_ms)

unfoldable pub current_of : ℕ → Option ℕ → ℕ
current_of shared none = shared
current_of shared (some value) = value

-- The loop of `should_log` on the value that was read, one exchange for each turn, with the shared
-- value. It is still running when the exchanges are over.
unfoldable pub log_loop : WarningRateLimit → ℕ → ℕ → ℕ → List Exchange → ℕ × Option Bool
log_loop w now_ms next shared [] = (shared, if ltb now_ms next then some false else none)
log_loop w now_ms next shared (x ∷ xs) =
    let current = current_of shared x.stored in
    let again = log_loop w now_ms current current xs in
    if ltb now_ms next
    then (shared, some false)
    else if current == next && not x.spurious
    then (next_of w now_ms, some true)
    else again

unfoldable pub should_log : WarningRateLimit → ℕ → List Exchange → WarningRateLimit × Option Bool
should_log w now_ms xs =
    let (shared, logged) = log_loop w now_ms w.next_log_ms w.next_log_ms xs in
    (record w { next_log_ms = shared }, logged)

unfoldable pub if_logged : ℕ → Option Bool → List ℕ → List ℕ
if_logged now_ms (some true) rest = now_ms ∷ rest
if_logged now_ms (some false) rest = rest
if_logged now_ms none rest = rest

-- The calls of one thread or of several, one behind the other: their times, and which of them log.
unfoldable pub logged_times : WarningRateLimit → List (ℕ × List Exchange) → List ℕ
logged_times w [] = []
logged_times w ((now_ms, xs) ∷ calls) =
    let (w', logged) = should_log w now_ms xs in
    let rest = logged_times w' calls in if_logged now_ms logged rest

-- No other thread stores while a call runs: an exchange fails only spuriously.
abbrev IsAlone : List Exchange → Type 0
IsAlone [] = Unit {0}
IsAlone (x ∷ xs) = (x.stored ≡ none) × IsAlone xs

-- A call that logs is not early, and pushes the next time back; any other call changes nothing.
Logs : WarningRateLimit → ℕ → ℕ → ℕ × Option Bool → Type 0
Logs w now_ms v (shared, some true) = (shared ≡ next_of w now_ms) × (v ≤ now_ms)
Logs w now_ms v (shared, some false) = shared ≡ v
Logs w now_ms v (shared, none) = shared ≡ v

log_loop-Logs :
    (w : WarningRateLimit) (now_ms v : ℕ) (xs : List Exchange)
    → IsAlone xs
    → Logs w now_ms v (log_loop w now_ms v v xs)
unfolding log_loop Logs current_of
log_loop-Logs w now_ms v [] h = elim (Bool-cases (ltb now_ms v)) [
  | inl early ↦ rw (early, log_loop) refl
  | inr due ↦ rw (due, log_loop) refl
]
log_loop-Logs w now_ms v (x ∷ xs) (quiet, h) =
    let same : (v == v) ≡ true = ==_refl v in
    elim (Bool-cases (ltb now_ms v)) [
      | inl early ↦ rw (early, log_loop) refl
      | inr due ↦ elim (Bool-cases x.spurious) [
        | inl again ↦ rw (due, quiet, again, log_loop) (rw same (log_loop-Logs w now_ms v xs h))
        | inr fine ↦ rw (due, quiet, fine, log_loop) (rw same (refl, ground arith))
      ]
    ]

-- Each time is at least the interval after the one before it.
abbrev IsSpaced : ℕ → ℕ → List ℕ → Type 0
IsSpaced interval_ms earliest [] = Unit {0}
IsSpaced interval_ms earliest (t ∷ ts) =
    (earliest ≤ t) × IsSpaced interval_ms (min max_u64 (t + interval_ms)) ts

abbrev AreAlone : List (ℕ × List Exchange) → Type 0
AreAlone [] = Unit {0}
AreAlone ((now_ms, xs) ∷ calls) = IsAlone xs × AreAlone calls

if_logged-IsSpaced :
    (w : WarningRateLimit) (now_ms v : ℕ) (result : ℕ × Option Bool) (rest : List ℕ)
    → Logs w now_ms v result
    → IsSpaced w.interval_ms result.0 rest
    → IsSpaced w.interval_ms v (if_logged now_ms result.1 rest)
unfolding Logs if_logged next_of
if_logged-IsSpaced w now_ms v (shared, some true) rest (e, due) h =
    (due, subst (λ n. IsSpaced w.interval_ms n rest) e h)
if_logged-IsSpaced w now_ms v (shared, some false) rest e h =
    subst (λ n. IsSpaced w.interval_ms n rest) e h
if_logged-IsSpaced w now_ms v (shared, none) rest e h =
    subst (λ n. IsSpaced w.interval_ms n rest) e h

-- The calls of any threads, in the order of their exchanges, where no other thread stores between
-- the reading and the exchange of a call: between two calls that log there is the interval, whatever
-- the clock says to the others, and none logs before the time that is stored.
pub logged_times-IsSpaced :
    (w : WarningRateLimit) (calls : List (ℕ × List Exchange))
    → AreAlone calls
    → IsSpaced w.interval_ms w.next_log_ms (logged_times w calls)
unfolding logged_times should_log
logged_times-IsSpaced w [] h = tt
logged_times-IsSpaced w ((now_ms, xs) ∷ calls) (quiet, h) =
    let result = log_loop w now_ms w.next_log_ms w.next_log_ms xs in
    let w' : WarningRateLimit = record w { next_log_ms = result.0 } in
    if_logged-IsSpaced w now_ms w.next_log_ms result (logged_times w' calls)
      (log_loop-Logs w now_ms w.next_log_ms xs quiet) (logged_times-IsSpaced w' calls h)
