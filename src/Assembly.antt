-- ===== src/Assembly.antt =====
-- lib.rs, and the constructors of upstream/group.rs, upstream/plain.rs and upstream/dot.rs: the
-- chain of upstreams that is built from the configuration.
pub mod Shared
pub mod Chain
pub mod Built
pub mod Network
pub mod Ids
pub mod EndToEnd
use dnsbuffer.Prelude.{
  ℕ, zero, suc, ◌+◌, ◌-◌, ◌*◌, ◌/◌, ◌%◌, ◌^◌, ◌≤◌, ◌<◌, min, max, ◌≡◌, refl, sym, ap, ◌∙◌, ◌≢◌, ◌↔◌,
  ◌⊎◌, inl, inr, Bool, true, false, not, ◌&&◌, ◌||◌, Option, none, some, List, [], ◌∷◌, ◌++◌, map,
  reverse, arith, ltb, leb, nat_beq, if◌then◌else◌, tests, Bool-cases, Option-cases, List-cases, Eq,
  ◌==◌, nat_beq_iff, ==_iff, ==_refl, nat_eq, list_beq, list_beq_iff, list_eq, length, get_elem?,
  drop, take, length-append, All, any_of, All-append, any_of-append, sum, contains, contains-append,
}
use dnsbuffer.Text.{Text, str, is_empty}
use dnsbuffer.Message.{Hickory, IpAddr, v4, v6}
use dnsbuffer.Resolver.{Result, ok, err, ◌>>=◌}
use dnsbuffer.Bootstrap.{Bootstrap, Source, resolve_ips, fetch_ech}
use dnsbuffer.Bootstrap
use dnsbuffer.Config.{UpstreamConfig, plain, doh, dot, split_domain_port}
use dnsbuffer.Stats.{with_retention}
use dnsbuffer.Upstream.Floats.{Floats}
use dnsbuffer.Upstream.Doh.{Uri, DohResolver, Setup}
use dnsbuffer.Upstream.Doh
use dnsbuffer.Dashboard.Metrics.{MetricMember, Cell, register, decimal}

pub record PlainResolver : Type 0 where
  pub ip : IpAddr
  pub port : ℕ
  pub timeout_secs : ℕ

pub record DotResolver (T : Type 0) : Type 0 where
  pub ip : IpAddr
  pub port : ℕ
  pub server_name : Text
  pub tls : T
  pub timeout_secs : ℕ

-- The resolvers of single upstreams, with the types of `DohResolver`.
pub data Leaf (H T C S E : Type 0) : Type 0 where
  plain_leaf : PlainResolver → Leaf H T C S E
  dot_leaf : DotResolver T → Leaf H T C S E
  doh_leaf : DohResolver H T C S E → Leaf H T C S E

-- The libraries that are called: those of DoH, the check of a server name, base64, and the printing
-- of addresses.
pub record Libraries (T E : Type 0) : Type 0 where
  pub setup : Setup T E
  pub server_name : Text → Result Text
  pub decode_base64 : Text → Result (List ℕ)
  pub show_ip : IpAddr → Text

-- A member of a group; `stats` is the address of its statistics.
pub record GroupMember (L : Type 0) : Type 0 where
  pub name : Text
  pub resolver : L
  pub stats : ℕ

pub record UpstreamGroup (L F : Type 0) : Type 0 where
  pub members : List (GroupMember L)
  pub k : F

-- The statistics that have been made, and the metrics that share them.
pub record Registry (F : Type 0) : Type 0 where
  pub cells : List (Cell F)
  pub metrics : List MetricMember

-- The `map` of `UpstreamGroup::new`.
module _ {L F : Type 0} (fl : Floats F) (window retention_days : ℕ) (group_kind : Text) where
  unfoldable pub new_members : List (Text × L) → Registry F → List (GroupMember L) × Registry F
  new_members [] g = ([], g)
  new_members ((name, resolver) ∷ rest) g =
      let cell : Cell F = record {
        stats = with_retention fl window retention_days;
        poisoned = false;
      } in
      let address = length g.cells in
      let (members, g') = new_members rest (record {
        cells = g.cells ++ cell ∷ [];
        metrics = register g.metrics name group_kind address;
      }) in
      (record { name = name; resolver = resolver; stats = address } ∷ members, g')

  unfoldable pub new_group : F → List (Text × L) → Registry F → UpstreamGroup L F × Registry F
  new_group k members g =
      let (made, g') = new_members members g in (record { members = made; k = k }, g')

abbrev pub unwrap_or_default : Option Text → Text
unwrap_or_default (some text) = text
unwrap_or_default none = []

unfoldable pub new_plain : IpAddr → ℕ → PlainResolver
new_plain ip port = record { ip = ip; port = port; timeout_secs = 5 }

unfoldable pub new_dot :
    {T E : Type 0} → Libraries T E → IpAddr → ℕ → Text → T → Result (DotResolver T)
new_dot lib ip port domain tls = lib.server_name domain >>= λ server_name.
    ok (record { ip = ip; port = port; server_name = server_name; tls = tls; timeout_secs = 5 })

module _ {T E : Type 0} (lib : Libraries T E) where
  -- An IPv6 address stands in brackets.
  unfoldable pub show_host : IpAddr → Text
  show_host (v4 a) = lib.show_ip (v4 a)
  show_host (v6 a) = str "[" ++ lib.show_ip (v6 a) ++ str "]"

  unfoldable pub doh_name : Text → Option IpAddr → Text
  doh_name url none = str "doh:" ++ url
  doh_name url (some ip) = str "doh:" ++ url ++ str "@" ++ show_host ip

  module _ (h : Hickory) (src : Source) (b : Bootstrap) where
    unfoldable pub member_ips : Text → Option IpAddr → Result (List IpAddr)
    member_ips host (some ip) = ok (ip ∷ [])
    member_ips host none =
        if Bootstrap.is_empty b
        then err (str "doh upstream has no ip and no bootstrap configured")
        else resolve_ips h src b host

    -- Without an ECH configuration of its own a member takes the one that is published, if any.
    unfoldable pub member_ech : Text → Text → Result (Option (List ℕ))
    member_ech host ech =
        if is_empty ech
        then (if Bootstrap.is_empty b
            then ok none
            else elim (fetch_ech h src b host) [ ok e ↦ ok e | err _ ↦ ok none ])
        else (lib.decode_base64 ech >>= λ bytes. ok (some bytes))

    module _ {H C S : Type 0} (prefer_ipv6 : Bool) where
      unfoldable pub build_member : UpstreamConfig → Result (Text × Leaf H T C S E)
      build_member (plain ip port) =
          ok (
            str "plain:" ++ show_host ip ++ str ":" ++ decimal port,
            plain_leaf (new_plain ip port),
          )
      build_member (dot ip domain) = split_domain_port domain >>= λ (host, port).
          lib.setup.client_config [] none >>= λ tls. new_dot lib ip port host tls >>= λ r.
          ok (str "dot:" ++ host ++ str ":" ++ decimal port ++ str "@" ++ show_host ip, dot_leaf r)
      build_member (doh url ech http3 ip) = lib.setup.parse url >>= λ uri.
          let host = unwrap_or_default uri.host in
          member_ips host ip >>= λ ips. member_ech host ech >>= λ ech_bytes.
          Doh.new lib.setup url ips ech_bytes http3 prefer_ipv6 >>= λ r.
          ok (doh_name url ip, doh_leaf r)

      unfoldable pub build_members : List UpstreamConfig → Result (List (Text × Leaf H T C S E))
      build_members [] = ok []
      build_members (u ∷ us) =
          build_member u >>= λ member. build_members us >>= λ members. ok (member ∷ members)
