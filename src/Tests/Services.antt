-- ===== src/Tests/Services.antt =====
-- Witness of the services: the HTTP server returns just when a shutdown is requested.
use dnsbuffer.Prelude.{
  ◌≤◌, ◌≡◌, refl, ◌↔◌, inl, none, some, List, [], ◌∷◌, ◌++◌, arith, nat_eq, list_eq, length, All,
}
use dnsbuffer.Text.{str}
use dnsbuffer.Resolver.{ok}
use dnsbuffer.Dashboard.Services.{
  Ready, Remaining, Ended, returned_ok, stopped_unexpectedly, Act, sends_shutdown, warns_timeout,
  shuts_worker, run_until, shutdown_worker, select, first_of, wait_remaining, after_wait,
  service_end, service_result,
}
use dnsbuffer.Dashboard.Services.Stopped

abbrev nothing : Ready
nothing = record { http = none; dns = none; external_shutdown = none }

abbrev both : Ready
both = record { http = some (ok tt); dns = none; external_shutdown = some (ok tt) }

-- The DNS server does not stop in time.
abbrev remaining : Remaining
remaining = record { http = none; dns = none; worker_task = ok tt }

service_wins :
    run_until (nothing ∷ both ∷ []) remaining
    ≡ some (
      sends_shutdown ∷ warns_timeout ∷ shuts_worker ∷ [],
      stopped_unexpectedly (str "dashboard HTTP server"),
    )
unfolding run_until shutdown_worker select first_of wait_remaining after_wait service_end
    service_result
service_wins = refl

run_until_example :
    (run_until (nothing ∷ []) remaining ≡ none)
    × ((warnings : List Act) × (end : Ended) × (run_until (nothing ∷ both ∷ []) remaining
          ≡ some (sends_shutdown ∷ (warnings ++ shutdown_worker (ok tt)), end))
        × All Stopped.IsWarning warnings
        × (length warnings ≤ 1)
        × ((end ≡ returned_ok) ↔ Stopped.IsRequest both))
run_until_example =
    Stopped.run_until_lem (nothing ∷ []) [] both remaining
      (record { no_http = refl; no_dns = refl; no_shutdown = refl }, tt) (inl (λ e. ground arith))
