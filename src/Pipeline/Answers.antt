-- ===== src/Pipeline/Answers.antt =====
-- What a client is answered, on each way through the pipeline.
use dnsbuffer.Prelude.{
  ℕ, ◌≡◌, ◌⊎◌, inl, inr, Bool, true, Option, none, some, arith, Option-cases, nat_eq, list_eq,
}
use dnsbuffer.Text.{Text}
use dnsbuffer.Message.{Hickory, IsDocumented, Message, Query, first}
use dnsbuffer.Resolver.{ok, servfail_answers}
use dnsbuffer.Hosts
use dnsbuffer.Hosts.{find}
use dnsbuffer.Hosts.Answer.{id-lookup}
use dnsbuffer.Filter.{is_blocked}
use dnsbuffer.Filter.Blocked.{id-block_response}
use dnsbuffer.Cache.{Cache, CacheKey, key_eq, CacheEntry, from_query, set_id}
use dnsbuffer.Cache
use dnsbuffer.Pipeline.Event.{Printers}
use dnsbuffer.Pipeline.Paths.{handle_ways}
use dnsbuffer.Pipeline.Privacy.{prepared_query-subnets}
use dnsbuffer.Pipeline.{
  Pipeline, World, prepared_query, resolve_upstream, cached_stage, upstream_stage, lookup_stage,
  local_stage, unobserved, recorded, handle,
}

-- Every response of the upstream chain has the id of the query that it was given.
pub record KeepsIds (w : World) : Type 0 where
  pub same_id :
      (q r : Message) (name : Option Text)
      → w.upstream q ≡ some (ok (r, name))
      → r.metadata.id ≡ q.metadata.id

module _ (h : Hickory) (doc : IsDocumented h) (w : World) (p : Pipeline) (q : Message) where
  module _ (ids : KeepsIds w) where
    resolve_upstream-id :
        (r : Message) (name : Option Text)
        → resolve_upstream h w p q ≡ some (r, name)
        → r.metadata.id ≡ q.metadata.id
    unfolding resolve_upstream
    resolve_upstream-id r name e =
        ground (arith, ids.same_id (prepared_query h p q) r name, prepared_query-subnets h doc p q)

    upstream_stage-id :
        (k : Option CacheKey) (c : Cache)
        → (upstream_stage h w p q k c).response.metadata.id ≡ q.metadata.id
    unfolding upstream_stage
    upstream_stage-id k c = elim (Option-cases (resolve_upstream h w p q)) [
      | inl e ↦ rw (e, upstream_stage) (servfail_answers h doc q).0
      | inr ((r, name), e) ↦ rw (e, upstream_stage) (resolve_upstream-id r name e)
    ]

    get-id :
        (c : Cache) (k : CacheKey) (i now : ℕ) (m : Message) (expired : Bool)
        → (Cache.get c k i now).1 ≡ some (m, expired)
        → m.metadata.id ≡ i
    unfolding Cache.get set_id
    get-id c k i now m expired e = ground arith

    lookup_stage-id :
        (k : Option CacheKey) → (lookup_stage h w p q k).response.metadata.id ≡ q.metadata.id
    unfolding lookup_stage cached_stage
    lookup_stage-id none = upstream_stage-id none p.cache
    lookup_stage-id (some k) =
        elim (Option-cases (Cache.get p.cache k q.metadata.id w.lookup_at).1) [
          | inl e ↦
              rw (e, lookup_stage)
                (upstream_stage-id (some k) (Cache.get p.cache k q.metadata.id w.lookup_at).0)
          | inr ((m, expired), e) ↦
              rw (e, lookup_stage) (get-id p.cache k q.metadata.id w.lookup_at m expired e)
        ]

    -- The response to every query has the query's id, from the hosts, the filter, the cache, the
    -- upstream chain or as SERVFAIL, if the upstream chain answers with the id that it is asked with.
    pub handle-id : (print : Printers) → (handle h print w p q).response.metadata.id ≡ q.metadata.id
    unfolding recorded local_stage
    handle-id print =
        handle_ways h print w p q (λ out. out.response.metadata.id ≡ q.metadata.id)
          (servfail_answers h doc q).0 (λ _ resp _ found. id-lookup h doc q p.hosts resp found)
          (λ _ _. id-block_response h doc q) (λ _ _. lookup_stage-id (from_query q))

-- A query that the hosts or the filter answer is answered in the same way by two pipelines with these
-- hosts and this filter, whatever their caches, statistics, subnets and recorders are, and whatever
-- the upstream, the clock and the allocator do. A pipeline that answers so leaves its cache and its
-- statistics as they are and starts no refresh.
pub handle_local :
    (h : Hickory) (print : Printers) (w w' : World) (p p' : Pipeline) (q : Message) (q0 : Query)
    → first q.queries ≡ some q0
    → p'.hosts ≡ p.hosts
    → p'.filter ≡ p.filter
    → ((resp : Message) × (Hosts.lookup h p.hosts q ≡ some resp))
      ⊎ (is_blocked p.filter q0.name ≡ true)
    → ((handle h print w p q).response ≡ (handle h print w' p' q).response)
      × ((handle h print w p q).after.cache ≡ p.cache)
      × ((handle h print w p q).after.sampler ≡ p.sampler)
      × ((handle h print w p q).refresh ≡ none)
unfolding handle recorded unobserved local_stage
handle_local h print w w' p p' q q0 e hosts filter local = ground (arith, e, hosts, filter)
