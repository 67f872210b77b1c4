-- ===== src/Dashboard/Services.antt =====
-- `Runtime::run_until` of dashboard/mod.rs: the HTTP and DNS services, and how they stop.
pub mod Stopped
use dnsbuffer.Prelude.{
  ℕ, zero, suc, ◌+◌, ◌-◌, ◌*◌, ◌/◌, ◌%◌, ◌^◌, ◌≤◌, ◌<◌, min, max, ◌≡◌, refl, sym, ap, ◌∙◌, ◌≢◌, ◌↔◌,
  ◌⊎◌, inl, inr, Bool, true, false, not, ◌&&◌, ◌||◌, Option, none, some, List, [], ◌∷◌, ◌++◌, map,
  reverse, arith, ltb, leb, nat_beq, if◌then◌else◌, tests, Bool-cases, Option-cases, List-cases, Eq,
  ◌==◌, nat_beq_iff, ==_iff, ==_refl, nat_eq, list_beq, list_beq_iff, list_eq, length, get_elem?,
  drop, take, length-append, All, any_of, All-append, any_of-append, sum, contains, contains-append,
}
use dnsbuffer.Text.{Text, str}
use dnsbuffer.Resolver.{Result, ok, err, ◌>>=◌}

-- What a poll of the `select!` finds finished: the services, and the request to shut down.
pub record Ready : Type 0 where
  pub http : Option (Result {0} Unit)
  pub dns : Option (Result {0} Unit)
  pub external_shutdown : Option (Result {0} Unit)

pub data First : Type 0 where
  http dns shutdown : Result {0} Unit → First

-- What comes of the services between the signal and the timeout, and of the task that shuts down the
-- worker.
pub record Remaining : Type 0 where
  pub http : Option (Result {0} Unit)
  pub dns : Option (Result {0} Unit)
  pub worker_task : Result {0} Unit

-- How the run ends; an error keeps its cause.
pub data Ended : Type 0 where
  returned_ok : Ended
  stopped_unexpectedly : Text → Ended
  stopped : Text → Text → Ended
  shutdown_failed : Text → Ended

-- What is done on the way.
pub data Act : Type 0 where
  sends_shutdown : Act
  warns_failed : Text → Act
  warns_timeout : Act
  shuts_worker : Act
  warns_worker : Text → Act

-- The arms in their order.
unfoldable pub first_of :
    Option (Result {0} Unit) → Option (Result {0} Unit) → Option (Result {0} Unit) → Option First
first_of (some r) d s = some (First.http r)
first_of none (some r) s = some (First.dns r)
first_of none none (some r) = some (shutdown r)
first_of none none none = none

unfoldable pub select : List Ready → Option First
select [] = none
select (p ∷ ps) = elim (first_of p.http p.dns p.external_shutdown) [
  | some f ↦ some f
  | none ↦ select ps
]

-- `tokio::join!`, and the results in order.
unfoldable pub join : Option (Result {0} Unit) → Option (Result {0} Unit) → Option (Result {0} Unit)
join none d = none
join (some h) none = none
join (some h) (some d) = some (h >>= (λ _. d))

unfoldable pub wait_remaining : First → Remaining → Option (Result {0} Unit)
wait_remaining (First.http r) a = a.dns
wait_remaining (First.dns r) a = a.http
wait_remaining (shutdown r) a = join a.http a.dns

unfoldable pub after_wait : Option (Result {0} Unit) → List Act
after_wait (some (ok _)) = []
after_wait (some (err e)) = warns_failed e ∷ []
after_wait none = warns_timeout ∷ []

unfoldable pub shutdown_worker : Result {0} Unit → List Act
shutdown_worker (ok _) = shuts_worker ∷ []
shutdown_worker (err e) = shuts_worker ∷ warns_worker e ∷ []

unfoldable pub service_result : Result {0} Unit → Text → Ended
service_result (ok _) service = stopped_unexpectedly service
service_result (err e) service = stopped service e

unfoldable pub service_end : First → Ended
service_end (First.http r) = service_result r (str "dashboard HTTP server")
service_end (First.dns r) = service_result r (str "DNS UDP server")
service_end (shutdown (ok _)) = returned_ok
service_end (shutdown (err e)) = shutdown_failed e

-- The run over the polls: what is done, and how it ends, if anything finishes.
unfoldable pub run_until : List Ready → Remaining → Option (List Act × Ended)
run_until ps a = elim (select ps) [
  | none ↦ none
  | some f ↦ some (
    sends_shutdown ∷ (after_wait (wait_remaining f a) ++ shutdown_worker a.worker_task),
    service_end f,
  )
]
