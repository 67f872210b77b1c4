-- ===== src/Tests/Cases.antt =====
-- Witnesses of the components.
use dnsbuffer.Prelude.{
  ℕ, ◌+◌, ◌-◌, ◌*◌, ◌≤◌, ◌<◌, ◌≡◌, refl, ◌⊎◌, true, false, not, ◌&&◌, ◌||◌, none, some, List, [],
  ◌∷◌, arith, leb, nat_eq, list_beq, list_eq, drop, any_of, contains,
}
use dnsbuffer.HashMap.{get as find_entry}
use dnsbuffer.HashMap
use dnsbuffer.Prelude.Int.{pos}
use dnsbuffer.Text.{str, normalize, strip_prefix}
use dnsbuffer.Text.Walk.{parents, first_some, walk}
use dnsbuffer.Message.{Query, v4, v6}
use dnsbuffer.Resolver.{ok}
use dnsbuffer.Hosts.{HostEntry, from_entries, add_entries, add_entry, find}
use dnsbuffer.Hosts.Find
use dnsbuffer.Filter.{Filter, World, RuleSource, is_blocked, load_sources}
use dnsbuffer.Filter.Blocked
use dnsbuffer.Filter.Rules
use dnsbuffer.Filter.Refresh
use dnsbuffer.Cache.{
  Cache, CacheKey, key_eq, new, put, get, push_back, new_entry, entry_cost, set_id, message_ttl,
  len,
}
use dnsbuffer.Cache.Entries.{costs}
use dnsbuffer.Cache.Budget.{IsValid}
use dnsbuffer.Cache.Reads
use dnsbuffer.Cache.Lru
use dnsbuffer.Dashboard.Recorder.{Recorder, QueryEvent}
use dnsbuffer.Dashboard.Sampler
use dnsbuffer.Tests.Fixtures.{plain, answer}

abbrev entries : List HostEntry
entries =
    record { name = str "Router.local"; addrs = v4 3232235777 ∷ v6 1 ∷ [] }
    ∷ record { name = str "*.dev.local"; addrs = v4 3232235778 ∷ [] }
    ∷ []

find-from_entries_example :
    find (from_entries entries) (str "a.b.dev.local")
    ≡ Find.or_else
        (Find.last_exact entries (str "a.b.dev.local"))
        (first_some (Find.last_wildcard entries) (parents (str "a.b.dev.local")))
find-from_entries_example = Find.find-from_entries entries (str "a.b.dev.local")

abbrev router : Query
router = record { name = str "ROUTER.local."; query_type = 1; query_class = 1 }

router_found :
    find (from_entries entries) (normalize (str "ROUTER.local.")) ≡ some (v4 3232235777 ∷ v6 1 ∷ [])
unfolding find from_entries add_entries add_entry HashMap.get HashMap.insert normalize strip_prefix
    walk list_beq
router_found = refl

abbrev blocker : Filter
blocker = record {
  rules = record {
    blocked = str "ads.example.com" ∷ [];
    exceptions = str "good.ads.example.com" ∷ [];
  };
  allowlist = [];
}

is_blocked-eq-domains_example : is_blocked blocker (str "X.Ads.Example.com.") ≡ (
    not (
      any_of
        (λ d. contains blocker.allowlist d || contains blocker.rules.exceptions d)
        (Blocked.domains (str "X.Ads.Example.com.")))
    && any_of (contains blocker.rules.blocked) (Blocked.domains (str "X.Ads.Example.com.")))
is_blocked-eq-domains_example = Blocked.is_blocked-eq-domains blocker (str "X.Ads.Example.com.")

abbrev ads : Query
ads = record { name = str "ads.example.com."; query_type = 1; query_class = 1 }

-- One rule file can be read, and the network gives nothing.
abbrev files : World
files = record {
  read_to_string = λ path. ok (str "||ads.example.com^");
  fetch_url = λ url. none;
  parses_ip = λ t. false;
}

abbrev sources : List RuleSource
sources =
    record { path = none; url = some (str "https://r.io/l"); update_interval = some (str "1d") }
    ∷ record { path = some (str "rules.txt"); url = none; update_interval = none }
    ∷ []

load_sources-IsClean_example : Rules.IsClean (load_sources files sources)
load_sources-IsClean_example = Rules.load_sources-IsClean files sources

abbrev key : CacheKey
key = record { name = str "a.b"; qtype = 1 }

abbrev calls : List (Reads.Call plain)
calls = Reads.Call.puts (λ i. true) key (answer (str "a.b.")) 5 ∷ Reads.Call.gets key 7 6 ∷ []

run-new-IsValid_example : IsValid (Reads.run plain (new 16) calls)
run-new-IsValid_example = Reads.run-new-IsValid plain 16 calls (omega arith)

abbrev small : Cache
small = record {
  map = record { entries = []; used_bytes = 0 };
  poisoned = false;
  max_bytes = 1_000;
  lookups = 0;
  hits = 0;
}

small-IsValid : IsValid small
small-IsValid = record {
  fit = record { counted = refl; within = omega arith; distinct = tt };
  no_overflow = omega arith;
}

cost-small : entry_cost plain key (answer (str "a.b.")) ≤ small.max_bytes
unfolding entry_cost
cost-small = omega arith

put_evicts_oldest_example :
    let all = push_back [] key (new_entry plain key (answer (str "a.b.")) 5) in
    (n : ℕ) × ((put plain (λ i. true) small key (answer (str "a.b.")) 5).map.entries ≡ drop n all)
    × (costs (drop n all) ≤ 1_000)
    × ((n ≡ 0) ⊎ (1_000 < costs (drop (n - 1) all)))
put_evicts_oldest_example =
    Lru.put_evicts_oldest plain (λ i. true) small key (answer (str "a.b.")) 5 small-IsValid refl
      refl cost-small

get-put_example :
    (get (put plain (λ i. true) small key (answer (str "a.b.")) 5) key 7 6).1
    ≡ some (
      set_id 7 (answer (str "a.b.")),
      leb (5 + message_ttl (answer (str "a.b.")) * 1_000_000_000) 6,
    )
get-put_example =
    Lru.get-put plain (λ i. true) small key (answer (str "a.b.")) 5 small-IsValid refl refl
      cost-small 7 6

abbrev event : QueryEvent
event = record {
  timestamp_ms = pos 0;
  domain = str "a.b";
  query_type = str "A";
  response_code = str "NOERROR";
  duration_ms = 1;
  blocked = false;
  cache_hit = true;
  response_ips = [];
  upstream = none;
}

abbrev full_queue : Recorder
full_queue = record {
  capacity = 1;
  queue = event ∷ [];
  closed = false;
  full_logged = false;
  closed_logged = false;
}

abbrev curve : Sampler.SamplerState
curve = record { latest = none; by_size = [] }

observe-IsCurve_example :
    Sampler.IsCurve (Sampler.observe small curve)
    × ((x : Sampler.CacheSample) × ((Sampler.observe small curve).latest ≡ some x)
        × (x.size ≡ len small)
        × (x.lookups ≡ 0))
    × (Sampler.point_at (Sampler.observe small curve).by_size 3 ≡ Sampler.point_at [] 3)
unfolding len
observe-IsCurve_example =
    Sampler.observe-IsCurve small curve 3 (record { ascends = tt; latest_kept = tt }) (omega arith)
