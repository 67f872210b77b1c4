-- ===== src/Tests/Network.antt =====
-- Witness of a query that goes through the chain to the network: the primary upstream does not
-- answer in time, and the fallback does.
use dnsbuffer.Prelude.{ℕ, ◌≡◌, refl, false, none, some, [], ◌∷◌, nat_eq, list_eq, contains}
use dnsbuffer.Text.{str}
use dnsbuffer.Message.{v4}
use dnsbuffer.Resolver.{ok, err}
use dnsbuffer.Upstream.Transport.{plain_resolve, accept}
use dnsbuffer.Upstream.Group
use dnsbuffer.Upstream.Group.{
  resolve_member, attempt_loop, choose, weights_from, try_member, with_stats, set_member,
  fallback_resolve,
}
use dnsbuffer.Upstream.Hedged.{resolve_loop, poll, on_timers, on_joined, start, budget_error}
use dnsbuffer.Assembly.{plain_leaf, new_plain}
use dnsbuffer.Assembly.Network.{
  Attempted, GroupRun, completed, ChainRun, attributed, returned, leaf_resolve, ended, attempt_at,
  group_resolve, joined_of, join, polls, engine_resolve, chain_resolve,
}
use dnsbuffer.Assembly.EndToEnd
use dnsbuffer.Pipeline.{handle}
use dnsbuffer.Tests.Fixtures.{plain, plain-IsDocumented, ask}
use dnsbuffer.Tests.Upstream.{whole}
use dnsbuffer.Tests.Assembly.{chain}
use dnsbuffer.Tests.Flow.{pipe, echoing, print}
use dnsbuffer.Tests.Doh.{h2_rounds, rounds}
use dnsbuffer.Upstream.Selector.{pick_weighted, total_weight, usable_only, usable}
use dnsbuffer.Stats.{weight, avg_latency_ms, latencies, with_retention, failure_rate}

-- An attempt at a plain upstream whose server answers.
abbrev attempted : Attempted ℕ ℕ ℕ ℕ ℕ ℕ
attempted = record {
  resolver = plain_leaf (new_plain (v4 2) 53);
  socket = λ bytes. ok (0 ∷ 0 ∷ []);
  connection = err (str "refused");
  h2_rounds = h2_rounds;
  h3_rounds = rounds;
  latency = 12;
  now = 5_012;
  is_dropped = false;
  succeeded = some false;
}

abbrev group_run : GroupRun ℕ ℕ ℕ ℕ ℕ ℕ
group_run = record {
  k = 2;
  members = Group.new_members whole 8 0 (str "plain:ip:53" ∷ []);
  roll = λ n. 0;
  attempts = λ n i. attempted;
}

abbrev chain_run : ChainRun ℕ ℕ ℕ ℕ ℕ ℕ
chain_run = record {
  primary = record {
    started_at = 0;
    ticks = record { now = 5_000; read_at = 5_000; task = none } ∷ [];
  };
  fallback = record {
    started_at = 5_000;
    ticks = record { now = 5_012; read_at = 5_012; task = some (completed group_run) } ∷ [];
  };
}

fallback_answers :
    chain_resolve plain whole (ask (str "c.d.")) chain chain_run
    ≡ some (ok (ask (str "a.b."), some (str "plain:ip:53")))
unfolding chain_resolve engine_resolve returned polls join joined_of group_resolve attributed
    attempt_at ended leaf_resolve plain_resolve accept resolve_member attempt_loop choose
    weights_from try_member with_stats set_member fallback_resolve resolve_loop poll on_timers
    on_joined start budget_error Group.new_members pick_weighted total_weight usable_only usable
    contains weight avg_latency_ms latencies with_retention failure_rate
fallback_answers = refl

handle_network-id_example :
    (handle plain print
      (record echoing { upstream = λ query. chain_resolve plain whole query chain chain_run })
      pipe
      (ask (str "c.d."))).response.metadata.id
    ≡ 4660
handle_network-id_example =
    EndToEnd.handle_network-id plain plain-IsDocumented print whole echoing pipe (ask (str "c.d."))
      chain (λ query. chain_run)
