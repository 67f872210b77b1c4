-- ===== src/Tests/Assembly.antt =====
-- Witness of the chain of upstreams: one plain server in each group.
use dnsbuffer.Prelude.{ℕ, ◌≡◌, refl, false, some, [], ◌∷◌, nat_eq, list_eq}
use dnsbuffer.Text.{str}
use dnsbuffer.Message.{Message, v4, v6}
use dnsbuffer.Resolver.{Result, ok, err}
use dnsbuffer.Config.{plain}
use dnsbuffer.Bootstrap.{Source}
use dnsbuffer.Dashboard.Metrics.{decimal, decimal_from}
use dnsbuffer.Assembly.{
  Libraries, Leaf, plain_leaf, Registry, UpstreamGroup, build_member, build_members, new_plain,
  show_host, new_group,
}
use dnsbuffer.Assembly.Chain.{
  ChainConfig, Chain, primary_kind, fallback_kind, build_chain, build_fallback, build_group, engine,
  from_config, bootstrap_leaves,
}
use dnsbuffer.Assembly.Built
use dnsbuffer.Tests.Fixtures.{plain as codec}
use dnsbuffer.Tests.Upstream.{whole}

abbrev config : ChainConfig ℕ
config = record {
  bootstrap_servers = [];
  upstream = plain (v4 1) 53 ∷ plain (v6 1) 53 ∷ [];
  fallback = plain (v4 2) 53 ∷ [];
  prefer_ipv6 = false;
  hedged_retry_ms = 1000;
  upstream_timeout_ms = 5000;
  window = 8;
  k = 2;
  retention_days = 0;
}

abbrev libraries : Libraries ℕ ℕ
libraries = record {
  setup = record {
    parse = λ url. err (str "no url");
    client_config = λ alpn ech. ok 0;
    quic_config = λ tls. ok tt;
    bind = λ ip. ok 0;
  };
  server_name = λ name. ok name;
  decode_base64 = λ text. err (str "no base64");
  show_ip = λ ip. str "ip";
}

abbrev source : Source
source = record { parse_name = λ s. ok s; random_id = λ t. t }

abbrev pub AnyLeaf : Type 0
AnyLeaf = Leaf ℕ ℕ ℕ ℕ ℕ

abbrev primary_group : UpstreamGroup AnyLeaf ℕ × Registry ℕ
primary_group =
    new_group whole 8 0 primary_kind 2
      ((str "plain:ip:53", plain_leaf (new_plain (v4 1) 53))
        ∷ (str "plain:[ip]:53", plain_leaf (new_plain (v6 1) 53))
        ∷ [])
      (record { cells = []; metrics = [] })

abbrev fallback_group : UpstreamGroup AnyLeaf ℕ × Registry ℕ
fallback_group =
    new_group whole 8 0 fallback_kind 2 ((str "plain:ip:53", plain_leaf (new_plain (v4 2) 53)) ∷ [])
      primary_group.1

abbrev pub chain : Chain AnyLeaf ℕ
chain = record {
  primary = record { group = primary_group.0; interval = 1000; max_wait = 5000 };
  fallback = some (record { group = fallback_group.0; interval = 1000; max_wait = 5000 });
}

abbrev no_answer : AnyLeaf → Message → Result Message
no_answer leaf q = err (str "no network")

chain_built :
    build_chain libraries whole codec source no_answer config ≡ ok (chain, fallback_group.1)
unfolding build_chain build_fallback build_group engine from_config bootstrap_leaves build_member
    build_members show_host decimal decimal_from
chain_built = refl

build_chain_example : Built.IsBuilt whole config chain fallback_group.1
build_chain_example =
    Built.build_chain-IsBuilt libraries whole codec source no_answer config chain fallback_group.1
      chain_built
