-- ===== src/Pipeline.antt =====
-- pipeline.rs: hosts, filter, cache and upstream in the order in which a query goes through them.
pub mod Event
pub mod Paths
pub mod Privacy
pub mod Keeps
pub mod Answers
pub mod Again
use dnsbuffer.Prelude.{
  ℕ, zero, suc, ◌+◌, ◌-◌, ◌*◌, ◌/◌, ◌%◌, ◌^◌, ◌≤◌, ◌<◌, min, max, ◌≡◌, refl, sym, ap, ◌∙◌, ◌≢◌, ◌↔◌,
  ◌⊎◌, inl, inr, Bool, true, false, not, ◌&&◌, ◌||◌, Option, none, some, List, [], ◌∷◌, ◌++◌, map,
  reverse, arith, ltb, leb, nat_beq, if◌then◌else◌, tests, Bool-cases, Option-cases, Eq, ◌==◌,
  nat_beq_iff, ==_iff, ==_refl, nat_eq, list_beq, list_beq_iff, list_eq, length, get_elem?, drop,
  length-append, All, any_of, All-append, sum, contains, contains-append,
}
use dnsbuffer.Text.{Text}
use dnsbuffer.Message.{Hickory, Message, Metadata, Edns, Query, first, ResponseCode, is_no_error}
use dnsbuffer.Resolver.{Result, ok, err, servfail}
use dnsbuffer.Hosts.{HostsMap}
use dnsbuffer.Hosts
use dnsbuffer.Filter.{Filter, is_blocked, block_response}
use dnsbuffer.Cache.{Cache, CacheKey, from_query}
use dnsbuffer.Cache
use dnsbuffer.Ecs.{EcsSubnet, inject}
use dnsbuffer.Dashboard.Recorder.{Recorder, QueryEvent}
use dnsbuffer.Dashboard.Sampler.{SamplerState, observe}
use dnsbuffer.Pipeline.Event.{Printers, Outcome, Times, is_blocked_response, record_query}

-- `Pipeline`, with the state behind its shared parts.
pub record Pipeline : Type 0 where
  pub hosts : HostsMap
  pub filter : Filter
  pub cache : Cache
  pub sampler : SamplerState
  pub ecs : Option EcsSubnet
  pub recorder : Recorder

-- What a call meets outside: the upstream chain within `query_timeout` (`none` when that is over),
-- the clock at the lookup and at the store, the allocator, and what other tasks do to the cache
-- while the call waits for the upstream.
pub record World : Type 0 where
  pub upstream : Message → Option (Result (Message × Option Text))
  pub lookup_at : ℕ
  pub store_at : ℕ
  pub alloc : ℕ → Bool
  pub meanwhile : Cache → Cache
  pub times : Times

-- A refresh that `spawn_refresh` starts.
pub record Refresh : Type 0 where
  pub key : CacheKey
  pub query : Message

-- What a stage yields: the response and its outcome, the new cache, and a refresh to start.
pub record Stage : Type 0 where
  pub response : Message
  pub outcome : Outcome
  pub cache : Cache
  pub refresh : Option Refresh

-- The response, the pipeline behind the call, and a refresh to start.
pub record Handled : Type 0 where
  pub response : Message
  pub after : Pipeline
  pub refresh : Option Refresh

module _ (h : Hickory) where
  unfoldable pub strip_subnet : Message → Message
  strip_subnet q = elim q.edns [ none ↦ q | some e ↦ record q { edns = some (h.remove_subnet e) } ]

  unfoldable pub inject_if : Option EcsSubnet → Message → Message
  inject_if none q = q
  inject_if (some s) q = inject h q s

  unfoldable pub prepared_query : Pipeline → Message → Message
  prepared_query p query = inject_if p.ecs (strip_subnet query)

  -- The query that the task of `spawn_refresh` sends.
  unfoldable pub refresh_query : Pipeline → Message → Message
  refresh_query p query = inject_if p.ecs query

  unfoldable pub resolve_upstream : World → Pipeline → Message → Option (Message × Option Text)
  resolve_upstream w p query = elim (w.upstream (prepared_query p query)) [
    | none ↦ none
    | some result ↦ elim result [ ok answer ↦ some answer | err _ ↦ none ]
  ]

  -- A hit in the cache, expired or not.
  unfoldable pub cached_stage : Message → CacheKey → Cache → Message → Bool → Stage
  cached_stage query key cache cached expired = record {
    response = cached;
    outcome = record { blocked = is_blocked_response cached; cache_hit = true; upstream = none };
    cache = cache;
    refresh = if expired then some (record { key = key; query = query }) else none;
  }

  -- `if resp.metadata.response_code == NoError { cache.put(key, resp) }`
  unfoldable pub put_if_no_error : World → Option CacheKey → Message → Cache → Cache
  put_if_no_error w none resp cache = cache
  put_if_no_error w (some key) resp cache =
      if is_no_error resp.metadata.response_code
      then Cache.put h w.alloc cache key resp w.store_at
      else cache

  -- A miss: the answer of the upstream chain, or SERVFAIL.
  unfoldable pub upstream_stage : World → Pipeline → Message → Option CacheKey → Cache → Stage
  upstream_stage w p query key cache = elim (resolve_upstream w p query) [
    | some (resp, name) ↦ record {
      response = resp;
      outcome = record { blocked = is_blocked_response resp; cache_hit = false; upstream = name };
      cache = put_if_no_error w key resp (w.meanwhile cache);
      refresh = none;
    }
    | none ↦ record {
      response = servfail h query;
      outcome = record {
        blocked = is_blocked_response (servfail h query);
        cache_hit = false;
        upstream = none;
      };
      cache = w.meanwhile cache;
      refresh = none;
    }
  ]

  -- `key.as_ref().and_then(|key| self.cache.get(key, id))`, and what follows on a hit and a miss.
  unfoldable pub lookup_stage : World → Pipeline → Message → Option CacheKey → Stage
  lookup_stage w p query none = upstream_stage w p query none p.cache
  lookup_stage w p query (some key) =
      let (cache, found) = Cache.get p.cache key query.metadata.id w.lookup_at in
      elim found [
        | some (cached, expired) ↦ cached_stage query key cache cached expired
        | none ↦ upstream_stage w p query (some key) cache
      ]

  unfoldable pub local_stage : Pipeline → Message → Bool → Stage
  local_stage p resp blocked = record {
    response = resp;
    outcome = record { blocked = blocked; cache_hit = false; upstream = none };
    cache = p.cache;
    refresh = none;
  }

  -- A stage with the cache sampler left alone, and with an observation.
  unfoldable pub unobserved : Pipeline → Stage → Pipeline
  unobserved p s = record p { cache = s.cache }

  unfoldable pub observed : Pipeline → Stage → Pipeline
  observed p s = record p { cache = s.cache; sampler = observe s.cache p.sampler }

  unfoldable pub recorded : Printers → World → Message → Query → Pipeline → Stage → Handled
  recorded print w query q p s = record {
    response = s.response;
    after = record p { recorder = record_query print w.times q s.response s.outcome p.recorder };
    refresh = s.refresh;
  }

  unfoldable pub handle : Printers → World → Pipeline → Message → Handled
  handle print w p query = elim (first query.queries) [
    | none ↦ record { response = servfail h query; after = p; refresh = none }
    | some q ↦ elim (Hosts.lookup h p.hosts query) [
      | some resp ↦ let s = local_stage p resp false in recorded print w query q (unobserved p s) s
      | none ↦
          let blocked = local_stage p (block_response h query) true in
          let looked_up = lookup_stage w p query (from_query query) in
          if is_blocked p.filter q.name
          then recorded print w query q (unobserved p blocked) blocked
          else recorded print w query q (observed p looked_up) looked_up
    ]
  ]

  -- The task of `spawn_refresh`, for the answer of `upstream.resolve` within the timeout, on the
  -- cache as it is when the answer comes.
  unfoldable pub run_refresh : World → Pipeline → Refresh → Cache → Cache
  run_refresh w p r cache = elim (w.upstream (refresh_query p r.query)) [
    | none ↦ cache
    | some result ↦ elim result [
      | ok (resp, _) ↦
          if is_no_error resp.metadata.response_code
          then Cache.put h w.alloc cache r.key resp w.store_at
          else cache
      | err _ ↦ cache
    ]
  ]
