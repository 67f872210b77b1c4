-- ===== src/Dashboard/Services/Stopped.antt =====
-- How the services stop.
use dnsbuffer.Prelude.{
  ◌≤◌, ◌≡◌, refl, ◌≢◌, ◌↔◌, ◌⊎◌, Option, none, some, List, [], ◌∷◌, ◌++◌, arith, nat_eq, list_eq,
  length, All,
}
use dnsbuffer.Resolver.{Result, ok, err}
use dnsbuffer.Dashboard.Services.{
  Ready, First, Remaining, Ended, returned_ok, Act, sends_shutdown, warns_failed, warns_timeout,
  shuts_worker, warns_worker, first_of, select, wait_remaining, after_wait, shutdown_worker,
  service_result, service_end, run_until,
}

-- Nothing has finished.
pub record IsQuiet (p : Ready) : Type 0 where
  pub no_http : p.http ≡ none
  pub no_dns : p.dns ≡ none
  pub no_shutdown : p.external_shutdown ≡ none

-- Only the request to shut down has come, without an error.
pub record IsRequest (p : Ready) : Type 0 where
  pub no_http : p.http ≡ none
  pub no_dns : p.dns ≡ none
  pub requested : p.external_shutdown ≡ some (ok tt)

-- A warning about a service that has not stopped well.
abbrev pub IsWarning : Act → Type 0
IsWarning sends_shutdown = ⊥
IsWarning (warns_failed e) = Unit
IsWarning warns_timeout = Unit
IsWarning shuts_worker = ⊥
IsWarning (warns_worker e) = ⊥

select-quiet : (quiet rest : List Ready) → All IsQuiet quiet → select (quiet ++ rest) ≡ select rest
unfolding select first_of
select-quiet [] rest h = refl
select-quiet (p ∷ quiet) rest (q, h) =
    rw (q.no_http, q.no_dns, q.no_shutdown, select, first_of) (select-quiet quiet rest h)

select_idle : (quiet : List Ready) → All IsQuiet quiet → select quiet ≡ none
unfolding select first_of
select_idle [] h = refl
select_idle (p ∷ quiet) (q, h) =
    rw (q.no_http, q.no_dns, q.no_shutdown, select, first_of) (select_idle quiet h)

IsRequest-iff :
    (p : Ready)
    → ((p.http ≡ none) × (p.dns ≡ none) × (p.external_shutdown ≡ some (ok tt))) ↔ IsRequest p
IsRequest-iff p = (
  λ e. record { no_http = e.0; no_dns = e.1; requested = e.2 },
  λ r. (r.no_http, r.no_dns, r.requested),
)

-- Something has finished first, and the run ends well exactly if that is the request.
first_of_lem :
    (h d s : Option (Result {0} Unit))
    → ((h ≢ none) ⊎ ((d ≢ none) ⊎ (s ≢ none)))
    → (f : First) × (first_of h d s ≡ some f)
      × ((service_end f ≡ returned_ok) ↔ ((h ≡ none) × (d ≡ none) × (s ≡ some (ok tt))))
unfolding first_of service_end service_result
first_of_lem (some (ok tt)) d s any =
    (First.http (ok tt), refl, ((λ e. absurd (ground arith)), (λ e. absurd (ground arith))))
first_of_lem (some (err x)) d s any =
    (First.http (err x), refl, ((λ e. absurd (ground arith)), (λ e. absurd (ground arith))))
first_of_lem none (some (ok tt)) s any =
    (First.dns (ok tt), refl, ((λ e. absurd (ground arith)), (λ e. absurd (ground arith))))
first_of_lem none (some (err x)) s any =
    (First.dns (err x), refl, ((λ e. absurd (ground arith)), (λ e. absurd (ground arith))))
first_of_lem none none (some (ok tt)) any =
    (First.shutdown (ok tt), refl, ((λ e. (refl, refl, refl)), (λ e. refl)))
first_of_lem none none (some (err x)) any =
    (First.shutdown (err x), refl, ((λ e. absurd (ground arith)), (λ e. absurd (ground arith))))
first_of_lem none none none any = absurd (ground arith)

after_wait_lem :
    (o : Option (Result {0} Unit)) → All IsWarning (after_wait o) × (length (after_wait o) ≤ 1)
unfolding after_wait
after_wait_lem (some (ok u)) = (tt, omega arith)
after_wait_lem (some (err e)) = ((tt, tt), omega arith)
after_wait_lem none = ((tt, tt), omega arith)

-- A run goes on while neither service has finished and no shutdown is requested. At the first poll
-- that finds one of them finished it sends the signal to shut down, then logs at most one warning
-- about what remained, and then shuts down the worker of the store. It ends without an error exactly
-- if that poll found the request, without an error, and neither service finished: a service that
-- stops by itself is an error, even when it returns without one.
pub run_until_lem :
    (quiet rest : List Ready) (p : Ready) (a : Remaining)
    → All IsQuiet quiet
    → (p.http ≢ none) ⊎ ((p.dns ≢ none) ⊎ (p.external_shutdown ≢ none))
    → (run_until quiet a ≡ none)
      × ((warnings : List Act) × (end : Ended) × (run_until (quiet ++ p ∷ rest) a
            ≡ some (sends_shutdown ∷ (warnings ++ shutdown_worker a.worker_task), end))
          × All IsWarning warnings
          × (length warnings ≤ 1)
          × ((end ≡ returned_ok) ↔ IsRequest p))
unfolding run_until select
run_until_lem quiet rest p a still any =
    let (f, e, well) = first_of_lem p.http p.dns p.external_shutdown any in
    let picked : select (p ∷ rest) ≡ some f = rw (e, select) refl in
    let request = IsRequest-iff p in
    (
      rw (select_idle quiet still, run_until) refl,
      (
        after_wait (wait_remaining f a),
        service_end f,
        rw (select-quiet quiet (p ∷ rest) still, picked, run_until) refl,
        (after_wait_lem (wait_remaining f a)).0,
        (after_wait_lem (wait_remaining f a)).1,
        ((λ h. request.0 (well.0 h)), (λ r. well.1 (request.1 r))),
      ),
    )
