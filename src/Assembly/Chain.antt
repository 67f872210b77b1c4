-- ===== src/Assembly/Chain.antt =====
-- lib.rs: the chain that `build_pipeline` makes of the groups, and `Bootstrap::from_config`.
use dnsbuffer.Prelude.{
  ℕ, Bool, Option, none, some, List, [], ◌∷◌, map, nat_beq, if◌then◌else◌, nat_eq, list_eq, length,
}
use dnsbuffer.Text.{Text, str}
use dnsbuffer.Message.{Hickory, Message}
use dnsbuffer.Resolver.{Result, ok, err, ◌>>=◌}
use dnsbuffer.Bootstrap.{Bootstrap, Source}
use dnsbuffer.Config.{UpstreamConfig, plain, doh, dot, split_domain_port}
use dnsbuffer.Upstream.Floats.{Floats}
use dnsbuffer.Upstream.Doh
use dnsbuffer.Assembly.{
  Leaf, plain_leaf, dot_leaf, doh_leaf, Libraries, UpstreamGroup, Registry, new_group, new_plain,
  new_dot, build_members,
}

-- The sections of the configuration that the chain is built from.
pub record ChainConfig (F : Type 0) : Type 0 where
  pub bootstrap_servers : List UpstreamConfig
  pub upstream : List UpstreamConfig
  pub fallback : List UpstreamConfig
  pub prefer_ipv6 : Bool
  pub hedged_retry_ms : ℕ
  pub upstream_timeout_ms : ℕ
  pub window : ℕ
  pub k : F
  pub retention_days : ℕ

-- `HedgedResolver::new` around a group.
pub record Hedged (L F : Type 0) : Type 0 where
  pub group : UpstreamGroup L F
  pub interval : ℕ
  pub max_wait : ℕ

-- The primary engine, and that of the fallback if there is one.
pub record Chain (L F : Type 0) : Type 0 where
  pub primary : Hedged L F
  pub fallback : Option (Hedged L F)

abbrev pub primary_kind : Text
primary_kind = str "primary"

abbrev pub fallback_kind : Text
fallback_kind = str "fallback"

module _ {H T C S E : Type 0} (lib : Libraries T E) where
  -- A bootstrap server has no ECH, and its own address only.
  unfoldable pub bootstrap_leaf : Bool → UpstreamConfig → Result (Leaf H T C S E)
  bootstrap_leaf prefer_ipv6 (plain ip port) = ok (plain_leaf (new_plain ip port))
  bootstrap_leaf prefer_ipv6 (dot ip domain) = split_domain_port domain >>= λ (host, port).
      lib.setup.client_config [] none >>= λ tls.
      new_dot lib ip port host tls >>= λ r. ok (dot_leaf r)
  bootstrap_leaf prefer_ipv6 (doh url ech http3 none) =
      Doh.new lib.setup url [] none http3 prefer_ipv6 >>= λ r. ok (doh_leaf r)
  bootstrap_leaf prefer_ipv6 (doh url ech http3 (some ip)) =
      Doh.new lib.setup url (ip ∷ []) none http3 prefer_ipv6 >>= λ r. ok (doh_leaf r)

  unfoldable pub bootstrap_leaves : Bool → List UpstreamConfig → Result (List (Leaf H T C S E))
  bootstrap_leaves prefer_ipv6 [] = ok []
  bootstrap_leaves prefer_ipv6 (u ∷ us) = bootstrap_leaf prefer_ipv6 u >>= λ leaf.
      bootstrap_leaves prefer_ipv6 us >>= λ leaves. ok (leaf ∷ leaves)

  -- `ask` is what the resolver of an upstream answers.
  unfoldable pub from_config :
      (Leaf H T C S E → Message → Result Message) → List UpstreamConfig → Bool → Result Bootstrap
  from_config ask servers prefer_ipv6 = bootstrap_leaves prefer_ipv6 servers >>= λ leaves.
      ok (record { resolvers = map ask leaves; prefer_ipv6 = prefer_ipv6 })

  module _ {F : Type 0} (fl : Floats F) (h : Hickory) (src : Source) where
    unfoldable pub build_group :
        List UpstreamConfig
        → ChainConfig F
        → Bootstrap
        → Registry F
        → Text
        → Result (UpstreamGroup (Leaf H T C S E) F × Registry F)
    build_group entries config b g group_kind =
        build_members lib h src b config.prefer_ipv6 entries >>= λ members.
        if nat_beq (length members) 0
        then err (str "no upstreams configured")
        else ok (new_group fl config.window config.retention_days group_kind config.k members g)

    unfoldable pub engine :
        ChainConfig F → UpstreamGroup (Leaf H T C S E) F → Hedged (Leaf H T C S E) F
    engine config group = record {
      group = group;
      interval = config.hedged_retry_ms;
      max_wait = config.upstream_timeout_ms;
    }

    unfoldable pub build_fallback :
        ChainConfig F
        → Bootstrap
        → Registry F
        → Result (Option (Hedged (Leaf H T C S E) F) × Registry F)
    build_fallback config b g =
        if nat_beq (length config.fallback) 0
        then ok (none, g)
        else (build_group config.fallback config b g fallback_kind >>= λ (group, g').
            ok (some (engine config group), g'))

    unfoldable pub build_chain :
        (Leaf H T C S E → Message → Result Message)
        → ChainConfig F
        → Result (Chain (Leaf H T C S E) F × Registry F)
    build_chain ask config = from_config ask config.bootstrap_servers config.prefer_ipv6 >>= λ b.
        build_group config.upstream config b (record { cells = []; metrics = [] }) primary_kind
        >>= λ (group, g). build_fallback config b g >>= λ (fallback, g').
            ok (record { primary = engine config group; fallback = fallback }, g')
