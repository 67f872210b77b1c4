-- ===== src/Pipeline/Privacy.antt =====
-- Which client subnets go to the upstream.
use dnsbuffer.Prelude.{
  ◌≡◌, inl, inr, Option, none, some, List, [], ◌∷◌, arith, Option-cases, nat_eq, list_eq,
}
use dnsbuffer.Message.{Hickory, IsDocumented, Message, EdnsOption, subnet, subnets, others}
use dnsbuffer.Cache.{Cache, CacheKey, from_query}
use dnsbuffer.Cache
use dnsbuffer.Ecs.{EcsSubnet, inject, edns_or_new}
use dnsbuffer.Pipeline.Event.{Printers}
use dnsbuffer.Pipeline.{
  Pipeline, World, Refresh, strip_subnet, inject_if, prepared_query, refresh_query, handle,
  lookup_stage, cached_stage, upstream_stage, local_stage, recorded,
}

-- The client subnets that a message carries, and its other options.
pub sent_subnets : Message → List EdnsOption
sent_subnets m = elim m.edns [ none ↦ [] | some e ↦ subnets e.options ]

pub sent_others : Message → List EdnsOption
sent_others m = elim m.edns [ none ↦ [] | some e ↦ others e.options ]

-- What the configuration says to send.
pub configured : Option EcsSubnet → List EdnsOption
configured none = []
configured (some s) = subnet s.addr s.prefix 0 ∷ []

module _ (h : Hickory) (doc : IsDocumented h) where
  strip_subnet_lem : (q : Message) → sent_subnets (strip_subnet h q) ≡ []
  unfolding strip_subnet sent_subnets
  strip_subnet_lem q = elim (Option-cases q.edns) [
    | inl e ↦ ground arith
    | inr (e, p) ↦ ground (arith, doc.removes_subnet e)
  ]

  inject_lem :
      (q : Message) (s : EcsSubnet)
      → sent_subnets q ≡ []
      → sent_subnets (inject h q s) ≡ subnet s.addr s.prefix 0 ∷ []
  unfolding inject sent_subnets edns_or_new
  inject_lem q s clean = elim (Option-cases q.edns) [
    | inl e ↦ ground (
      arith,
      doc.inserts_subnet s.addr s.prefix 0 (h.set_max_payload 1232 h.new_edns),
      doc.sets_max_payload 1232 h.new_edns,
      doc.new_edns-subnets,
    )
    | inr (e, p) ↦ ground (
      arith,
      doc.inserts_subnet s.addr s.prefix 0 (h.set_max_payload 1232 e),
      doc.sets_max_payload 1232 e,
    )
  ]

  -- The query that goes upstream on a miss carries exactly the configured client subnet, or none if
  -- none is configured, whatever subnets the client sent; its id and its questions are the client's.
  pub prepared_query-subnets :
      (p : Pipeline) (q : Message)
      → (sent_subnets (prepared_query h p q) ≡ configured p.ecs)
        × ((prepared_query h p q).metadata ≡ q.metadata)
        × ((prepared_query h p q).queries ≡ q.queries)
  unfolding prepared_query inject_if configured
  prepared_query-subnets p q = elim (Option-cases p.ecs) [
    | inl e ↦ ground (arith, strip_subnet_lem q, stripped q)
    | inr (s, e) ↦ ground (
      arith,
      strip_subnet_lem q,
      stripped q,
      inject_lem (strip_subnet h q) s,
      injected (strip_subnet h q) s,
    )
  ]
    where
      stripped :
          (q : Message)
          → ((strip_subnet h q).metadata ≡ q.metadata) × ((strip_subnet h q).queries ≡ q.queries)
      stripped q = unfold strip_subnet in ground arith

      injected :
          (q : Message) (s : EcsSubnet)
          → ((inject h q s).metadata ≡ q.metadata) × ((inject h q s).queries ≡ q.queries)
      injected q s = unfold inject in ground arith

module _ (h : Hickory) (w : World) (p : Pipeline) (q : Message) where
  refresh-upstream_stage :
      (k : Option CacheKey) (c : Cache) → (upstream_stage h w p q k c).refresh ≡ none
  unfolding upstream_stage
  refresh-upstream_stage k c = ground arith

  refresh-lookup_stage :
      (k : Option CacheKey) (r : Refresh)
      → (lookup_stage h w p q k).refresh ≡ some r
      → (r.query ≡ q) × (k ≡ some r.key)
  unfolding lookup_stage cached_stage
  refresh-lookup_stage none r e = absurd (ground (arith, refresh-upstream_stage none p.cache))
  refresh-lookup_stage (some k) r e =
      ground
        (arith, refresh-upstream_stage (some k) (Cache.get p.cache k q.metadata.id w.lookup_at).0)

  -- A refresh holds the client's query as it came.
  refresh-query :
      (print : Printers) (r : Refresh) → (handle h print w p q).refresh ≡ some r → r.query ≡ q
  unfolding handle local_stage recorded
  refresh-query print r e = ground (arith, refresh-lookup_stage (from_query q) r)

-- With no subnet configured, the query that the background refresh of an expired entry sends
-- upstream is the client's query unchanged, so it carries every client subnet that the client sent.
pub refresh_query-subnets :
    (h : Hickory) (print : Printers) (w : World) (p : Pipeline) (q : Message) (r : Refresh)
    → p.ecs ≡ none
    → (handle h print w p q).refresh ≡ some r
    → (refresh_query h p r.query ≡ q) × (sent_subnets (refresh_query h p r.query) ≡ sent_subnets q)
unfolding refresh_query inject_if
refresh_query-subnets h print w p q r off e = ground (arith, refresh-query h w p q print r e)
