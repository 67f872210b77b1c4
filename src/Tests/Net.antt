-- ===== src/Tests/Net.antt =====
-- Runs of the bootstrap resolver, the fetching, the transports and the checks of the configuration.
use dnsbuffer.Prelude.{
  ◌<◌, ◌≡◌, refl, ◌⊎◌, true, false, ◌||◌, none, some, List, [], ◌∷◌, ◌++◌, arith, if◌then◌else◌,
  ◌==◌, nat_eq, list_beq, list_eq, length, contains,
}
use dnsbuffer.Text.{Text, str, strip_prefix}
use dnsbuffer.Message.{Hickory, IpAddr, v4, ip_eq, type_a, type_aaaa}
use dnsbuffer.Resolver.{ok, err}
use dnsbuffer.Bootstrap.{Bootstrap, Source, resolve_ips}
use dnsbuffer.Bootstrap.Addresses.{IsPreferred, answered_ips, resolve_ips_lem}
use dnsbuffer.Fetch.{
  Net, fetch_url, fetch_rounds, fetch_once, request_to, port_of, target_ips, connect_first,
  request_path, has_prefix, on_response, read_body, https_of, redirect_target,
}
use dnsbuffer.Fetch.Bounds.{IsBody, fetch_url-IsBody}
use dnsbuffer.Upstream.Transport.{frame, read_frame}
use dnsbuffer.Upstream.Transport.Framing.{read_frame-frame}
use dnsbuffer.Config.{Config, plain, doh}
use dnsbuffer.Tests.Fixtures.{plain as codec, answer}

abbrev names : Source
names = record { parse_name = λ s. ok s; random_id = λ t. t }

abbrev servers : Bootstrap
servers = record {
  resolvers = (λ q. err (str "refused")) ∷ (λ q. ok (answer (str "a.b."))) ∷ [];
  prefer_ipv6 = false;
}

resolve_ips_lem_example :
    ((e : Text) × (resolve_ips codec names servers (str "a.b") ≡ err e)
      × (contains (answered_ips codec names servers (str "a.b") type_a) (v4 1) ≡ false)
      × (contains (answered_ips codec names servers (str "a.b") type_aaaa) (v4 1) ≡ false))
    ⊎ ((ips : List IpAddr) × (resolve_ips codec names servers (str "a.b") ≡ ok ips)
        × (0 < length ips)
        × IsPreferred false ips
        × (contains ips (v4 1) ≡ (
            contains (answered_ips codec names servers (str "a.b") type_a) (v4 1)
            || contains (answered_ips codec names servers (str "a.b") type_aaaa) (v4 1))))
resolve_ips_lem_example = resolve_ips_lem codec names servers (str "a.b") (v4 1)

-- A server that redirects from port 80 to port 443, where it serves three bytes.
abbrev web : Net
web = record {
  parse_uri = λ s. ok (record {
    scheme = if length s == 8 then some (str "http") else some (str "https");
    host = some (str "a.b");
    port = none;
    path = str "/r";
    path_and_query = some (str "/r");
  });
  parse_ip = λ s. some (v4 1);
  show_port = λ n. str "443";
  bootstrap_empty = true;
  resolve_ips = λ s. err (str "unused");
  connect = λ ip port. none;
  send_request = λ r.
      if r.https
      then ok (record {
        status = 200;
        location = none;
        frames = ok (some (1 ∷ 2 ∷ [])) ∷ ok none ∷ ok (some (3 ∷ [])) ∷ [];
      })
      else ok (record { status = 301; location = some (str "https://a.b/r"); frames = [] });
}

fetch_url-IsBody_example : IsBody web (1 ∷ 2 ∷ 3 ∷ [])
unfolding fetch_url fetch_rounds fetch_once request_to port_of target_ips connect_first request_path
    on_response read_body https_of redirect_target list_beq has_prefix strip_prefix
fetch_url-IsBody_example = fetch_url-IsBody web (str "http://a") (1 ∷ 2 ∷ 3 ∷ []) refl

read_frame-frame_example : read_frame (frame (7 ∷ 8 ∷ []) ++ 9 ∷ []) ≡ ok (7 ∷ 8 ∷ [])
read_frame-frame_example = read_frame-frame (7 ∷ 8 ∷ []) (9 ∷ []) (ground arith)

abbrev decoding : Hickory
decoding = record codec { from_vec = λ bytes. some (answer (str "a.b.")) }

abbrev settings : Config
settings = record {
  upstream = plain (v4 1) 53 ∷ [];
  database_path = str "q.db";
  retention_days = 30;
  bootstrap_servers = doh (str "https://d/") [] false none ∷ [];
}
