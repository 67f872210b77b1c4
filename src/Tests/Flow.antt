-- ===== src/Tests/Flow.antt =====
-- Witnesses of the pipeline: a query that misses, hits and is refreshed.
use dnsbuffer.Prelude.{
  ℕ, ◌≡◌, refl, ◌⊎◌, inr, true, false, none, some, List, [], ◌∷◌, arith, nat_eq, list_beq, list_eq,
  All, contains,
}
use dnsbuffer.Server.{
  Event, received, finishes, shut_down, run_udp_socket_until, receive_loop, drain, finish, spawn,
  send_to, remove_at, handle_packet,
}
use dnsbuffer.Server.Replies
use dnsbuffer.Pipeline.Answers.{KeepsIds}
use dnsbuffer.HashMap.{get as find_entry}
use dnsbuffer.HashMap
use dnsbuffer.Prelude.Int.{pos}
use dnsbuffer.Text.{Text, str, normalize, trim_end, after_dot}
use dnsbuffer.Text.Walk.{walk, walk_any}
use dnsbuffer.Message.{Query}
use dnsbuffer.Resolver.{ok}
use dnsbuffer.Hosts
use dnsbuffer.Hosts.{HostsMap}
use dnsbuffer.Filter.{is_blocked, exempt, listed}
use dnsbuffer.Cache.{Cache, CacheKey, key_eq, key_beq, CacheEntry, Entries, from_query, set_id}
use dnsbuffer.Cache.Safe.{IsSafe}
use dnsbuffer.Pipeline.Event.{Printers}
use dnsbuffer.Pipeline.{Pipeline, World, Refresh, handle, prepared_query, refresh_query}
use dnsbuffer.Pipeline.Privacy
use dnsbuffer.Pipeline.Keeps
use dnsbuffer.Pipeline.Answers
use dnsbuffer.Pipeline.Again
use dnsbuffer.Pipeline.Again.{IsLookedUp}
use dnsbuffer.Cache.{get}
use dnsbuffer.Tests.Fixtures.{plain, plain-IsDocumented, ask, answer}

abbrev pub key : CacheKey
key = record { name = str "a.b"; qtype = 1 }

abbrev stored : CacheEntry
stored = record { message = answer (str "a.b."); expires_at = 300; cost = 137 }

abbrev entries : Entries
entries = (key, stored) ∷ []

abbrev pub filled : Cache
filled = record {
  map = record { entries = entries; used_bytes = 137 };
  poisoned = false;
  max_bytes = 1_000;
  lookups = 0;
  hits = 0;
}

-- No hosts, one blocked domain, one cached response, no subnet configured.
abbrev pub pipe : Pipeline
pipe = record {
  hosts = record { exact = []; wildcard = [] };
  filter = record {
    rules = record { blocked = str "ads.b" ∷ []; exceptions = [] };
    allowlist = [];
  };
  cache = filled;
  sampler = record { latest = none; by_size = [] };
  ecs = none;
  recorder = record {
    capacity = 4;
    queue = [];
    closed = false;
    full_logged = false;
    closed_logged = false;
  };
}

-- The upstream echoes the query as its answer, long after the cached response has expired.
abbrev pub echoing : World
echoing = record {
  upstream = λ q. some (ok (q, none));
  lookup_at = 1_000;
  store_at = 1_001;
  alloc = λ i. true;
  meanwhile = λ c. c;
  times = record { started_at_ms = pos 0; elapsed_ms = 1 };
}

abbrev pub print : Printers
print = record { show_ip = λ ip. str "ip"; show_type = λ t. str "A"; show_number = λ n. str "n" }

handle-id_example : (handle plain print echoing pipe (ask (str "a.b."))).response.metadata.id ≡ 4660
handle-id_example =
    Answers.handle-id plain plain-IsDocumented echoing pipe (ask (str "a.b."))
      (record { same_id = λ q r name e. ground arith }) print

ads_blocked : is_blocked pipe.filter (str "x.ads.b.") ≡ true
unfolding is_blocked exempt listed normalize trim_end after_dot walk_any contains list_beq
ads_blocked = refl

abbrev pub question : Text → Query
question name = record { name = name; query_type = 1; query_class = 1 }

-- The same hosts and the same filter with an empty cache.
abbrev pub empty : Pipeline
empty = record pipe { cache = record filled { map = record { entries = []; used_bytes = 0 } } }

handle_local_example :
    ((handle plain print echoing pipe (ask (str "x.ads.b."))).response
      ≡ (handle plain print
          (record echoing { lookup_at = 2 })
          empty
          (ask (str "x.ads.b."))).response)
    × ((handle plain print echoing pipe (ask (str "x.ads.b."))).after.cache ≡ filled)
    × ((handle plain print echoing pipe (ask (str "x.ads.b."))).after.sampler ≡ pipe.sampler)
    × ((handle plain print echoing pipe (ask (str "x.ads.b."))).refresh ≡ none)
handle_local_example =
    Answers.handle_local plain print echoing (record echoing { lookup_at = 2 }) pipe empty
      (ask (str "x.ads.b.")) (question (str "x.ads.b.")) refl refl refl (inr ads_blocked)

pub not_in_hosts : Hosts.lookup plain pipe.hosts (ask (str "a.b.")) ≡ none
unfolding Hosts.lookup Hosts.find walk HashMap.get normalize trim_end after_dot
not_in_hosts = refl

pub allowed : is_blocked pipe.filter (str "a.b.") ≡ false
unfolding is_blocked exempt listed normalize trim_end after_dot walk_any contains list_beq
allowed = refl

pub key_of : from_query (ask (str "a.b.")) ≡ some key
unfolding from_query normalize
key_of = refl

looked_up : IsLookedUp plain pipe (ask (str "a.b.")) key
looked_up = record {
  question = question (str "a.b.");
  asked = refl;
  missing = not_in_hosts;
  allowed = allowed;
  key_of = key_of;
}

cached : (get filled key 4660 1_000).1 ≡ some (set_id 4660 (answer (str "a.b.")), true)
unfolding get find_entry key_beq list_beq
cached = refl

filled-IsSafe : IsSafe filled
unfolding find_entry
filled-IsSafe = record {
  valid = record {
    fit = record { counted = refl; within = omega arith; distinct = (refl, tt) };
    no_overflow = omega arith;
  };
  no_errors = (refl, tt);
}

handle-IsSafe_example : IsSafe (handle plain print echoing pipe (ask (str "a.b."))).after.cache
handle-IsSafe_example =
    Keeps.handle-IsSafe plain echoing pipe (ask (str "a.b.")) (λ c s. s) print filled-IsSafe

prepared_query-subnets_example :
    (Privacy.sent_subnets (prepared_query plain pipe (ask (str "a.b."))) ≡ Privacy.configured none)
    × ((prepared_query plain pipe (ask (str "a.b."))).metadata ≡ (ask (str "a.b.")).metadata)
    × ((prepared_query plain pipe (ask (str "a.b."))).queries ≡ (ask (str "a.b.")).queries)
prepared_query-subnets_example =
    Privacy.prepared_query-subnets plain plain-IsDocumented pipe (ask (str "a.b."))

abbrev started : Refresh
started = record { key = key; query = ask (str "a.b.") }

refresh_query-subnets_example :
    (refresh_query plain pipe (ask (str "a.b.")) ≡ ask (str "a.b."))
    × (Privacy.sent_subnets (refresh_query plain pipe (ask (str "a.b.")))
        ≡ Privacy.sent_subnets (ask (str "a.b.")))
refresh_query-subnets_example =
    Privacy.refresh_query-subnets plain print echoing pipe (ask (str "a.b.")) started refl
      (Again.handle_cached plain print echoing pipe (ask (str "a.b.")) key looked_up _ true
        cached).1

-- Two datagrams come in, and the handler of the second one finishes first.
abbrev traffic : List (Event ℕ)
traffic =
    received (1 ∷ []) 70
    ∷ received (2 ∷ []) 71
    ∷ finishes 1 echoing true
    ∷ shut_down
    ∷ finishes 0 echoing true
    ∷ []

echoes : KeepsIds echoing
echoes = record { same_id = λ q r name e. ground arith }

run_udp_socket_until_example :
    All
      (Replies.IsReply plain (Replies.WasReceived traffic))
      (run_udp_socket_until plain print traffic pipe).0.sent
    × (((run_udp_socket_until plain print traffic pipe).1 ≡ none)
        ⊎ ((run_udp_socket_until plain print traffic pipe).0.handlers ≡ []))
run_udp_socket_until_example =
    Replies.run_udp_socket_until_lem plain plain-IsDocumented print traffic pipe
      (echoes, (echoes, tt))

-- Both are answered, each to its peer.
sent_example :
    (run_udp_socket_until plain print traffic pipe).0.sent
    ≡ (71, 0 ∷ 0 ∷ []) ∷ (70, 0 ∷ 0 ∷ []) ∷ []
unfolding run_udp_socket_until receive_loop drain finish spawn send_to remove_at handle_packet
sent_example = refl
