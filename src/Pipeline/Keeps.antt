-- ===== src/Pipeline/Keeps.antt =====
-- What holds of the cache behind the pipeline along every query and every refresh.
use dnsbuffer.Prelude.{
  inl, inr, Option, none, some, if◌then◌else◌, Bool-cases, Option-cases, nat_eq, list_eq,
}
use dnsbuffer.Message.{Hickory, Message, is_no_error}
use dnsbuffer.Resolver.{Result, ok, err}
use dnsbuffer.Text.{Text}
use dnsbuffer.Cache.{CacheKey, Cache, get, put, from_query}
use dnsbuffer.Cache.Safe.{IsSafe, get-IsSafe, put-IsSafe}
use dnsbuffer.Pipeline.Paths.{handle_ways}
use dnsbuffer.Pipeline.Event.{Printers}
use dnsbuffer.Pipeline.{
  Pipeline, World, Refresh, put_if_no_error, cached_stage, upstream_stage, lookup_stage,
  local_stage, unobserved, observed, recorded, resolve_upstream, handle, run_refresh, refresh_query,
}

module _ (h : Hickory) where
  run_refresh-IsSafe :
      (w : World) (p : Pipeline) (r : Refresh) (c : Cache)
      → IsSafe c
      → IsSafe (run_refresh h w p r c)
  unfolding run_refresh
  run_refresh-IsSafe w p r c s = step (w.upstream (refresh_query h p r.query))
    where
      step :
          (answer : Option (Result (Message × Option Text)))
          → IsSafe (elim answer [
            | none ↦ c
            | some result ↦ elim result [
              | ok (resp, _) ↦
                  if is_no_error resp.metadata.response_code
                  then put h w.alloc c r.key resp w.store_at
                  else c
              | err _ ↦ c
            ]
          ])
      step none = s
      step (some (err e)) = s
      step (some (ok (resp, name))) = elim (Bool-cases (is_no_error resp.metadata.response_code)) [
        | inl fine ↦ rw fine (put-IsSafe h w.alloc c r.key resp w.store_at s fine)
        | inr bad ↦ rw bad s
      ]

  put_if_no_error-IsSafe :
      (w : World) (k : Option CacheKey) (m : Message) (c : Cache)
      → IsSafe c
      → IsSafe (put_if_no_error h w k m c)
  unfolding put_if_no_error
  put_if_no_error-IsSafe w none m c s = s
  put_if_no_error-IsSafe w (some k) m c s =
      elim (Bool-cases (is_no_error m.metadata.response_code)) [
        | inl fine ↦ rw fine (put-IsSafe h w.alloc c k m w.store_at s fine)
        | inr bad ↦ rw bad s
      ]

  module _ (w : World) (p : Pipeline) (q : Message)
      (kept : (c : Cache) → IsSafe c → IsSafe (w.meanwhile c)) where
    upstream_stage-IsSafe :
        (k : Option CacheKey) (c : Cache) → IsSafe c → IsSafe (upstream_stage h w p q k c).cache
    unfolding upstream_stage
    upstream_stage-IsSafe k c s = elim (Option-cases (resolve_upstream h w p q)) [
      | inl e ↦ rw (e, upstream_stage) (kept c s)
      | inr ((resp, name), e) ↦
          rw (e, upstream_stage) (put_if_no_error-IsSafe w k resp (w.meanwhile c) (kept c s))
    ]

    lookup_stage-IsSafe :
        (k : Option CacheKey) → IsSafe p.cache → IsSafe (lookup_stage h w p q k).cache
    unfolding lookup_stage cached_stage
    lookup_stage-IsSafe none s = upstream_stage-IsSafe none p.cache s
    lookup_stage-IsSafe (some k) s =
        let s' = get-IsSafe p.cache k q.metadata.id w.lookup_at s in
        elim (Option-cases (get p.cache k q.metadata.id w.lookup_at).1) [
          | inl e ↦
              rw (e, lookup_stage)
                (upstream_stage-IsSafe (some k) (get p.cache k q.metadata.id w.lookup_at).0 s')
          | inr ((m, expired), e) ↦ rw (e, lookup_stage) s'
        ]

    -- Handling a query keeps the cache within its budget and free of responses that are not
    -- NoError, whatever the upstream answers, provided what other tasks do meanwhile keeps it so.
    pub handle-IsSafe :
        (print : Printers) → IsSafe p.cache → IsSafe (handle h print w p q).after.cache
    unfolding recorded unobserved observed local_stage
    handle-IsSafe print s =
        handle_ways h print w p q (λ out. IsSafe out.after.cache) s (λ _ _ _ _. s) (λ _ _. s)
          (λ _ _. lookup_stage-IsSafe (from_query q) s)
