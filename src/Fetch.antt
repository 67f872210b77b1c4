-- ===== src/Fetch.antt =====
-- fetch.rs: the download of a rule file, over redirects and within a limit on the size.
pub mod Bounds
use dnsbuffer.Prelude.{
  ℕ, zero, suc, ◌+◌, ◌-◌, ◌*◌, ◌/◌, ◌%◌, ◌^◌, ◌≤◌, ◌<◌, min, max, ◌≡◌, refl, sym, ap, ◌∙◌, ◌≢◌, ◌↔◌,
  ◌⊎◌, inl, inr, Bool, true, false, not, ◌&&◌, ◌||◌, Option, none, some, List, [], ◌∷◌, ◌++◌, map,
  reverse, arith, ltb, leb, nat_beq, if◌then◌else◌, tests, Bool-cases, Option-cases, Eq, ◌==◌,
  nat_beq_iff, ==_iff, ==_refl, nat_eq, list_beq, list_beq_iff, list_eq, length, get_elem?, drop,
  length-append, All, any_of, All-append, sum, contains, contains-append,
}
use dnsbuffer.Text.{Text, str, strip_prefix}
use dnsbuffer.Message.{IpAddr}
use dnsbuffer.Resolver.{Result, ok, err, ◌>>=◌}

abbrev pub max_body : ℕ
max_body = 20 * 1024 * 1024

abbrev pub max_redirects : ℕ
max_redirects = 3

-- `http::Uri`, with what the code asks it for.
pub record Uri : Type 0 where
  pub scheme : Option Text
  pub host : Option Text
  pub port : Option ℕ
  pub path : Text
  pub path_and_query : Option Text

-- The status of a response, its `location` header if that is a text, and the frames of its body: an
-- error, data, or a frame without data.
pub record Response : Type 0 where
  pub status : ℕ
  pub location : Option Text
  pub frames : List (Result (Option (List ℕ)))

-- The request that goes out, and over what.
pub record Request : Type 0 where
  pub https : Bool
  pub ip : IpAddr
  pub host : Text
  pub port : ℕ
  pub path : Text

-- The parsers, the printer of a port, the bootstrap resolver, the connections, each with the error
-- if it fails, and the servers.
pub record Net : Type 0 where
  pub parse_uri : Text → Result Uri
  pub parse_ip : Text → Option IpAddr
  pub show_port : ℕ → Text
  pub bootstrap_empty : Bool
  pub resolve_ips : Text → Result (List IpAddr)
  pub connect : IpAddr → ℕ → Option Text
  pub send_request : Request → Result Response

-- What one request comes to: the address to go on at, or the body.
pub data Fetched : Type 0 where
  redirect : Text → Fetched
  body : List ℕ → Fetched

unfoldable pub https_of : Uri → Option Bool
https_of uri = elim uri.scheme [
  | none ↦ none
  | some s ↦ if s == str "https" then some true else if s == str "http" then some false else none
]

-- The first address that can be connected to, or the last error.
unfoldable pub connect_first : Net → Option Text → List IpAddr → ℕ → Result IpAddr
connect_first net last [] port = err (elim last [ some e ↦ e | none ↦ str "no ips" ])
connect_first net last (ip ∷ ips) port = elim (net.connect ip port) [
  | none ↦ ok ip
  | some e ↦ connect_first net (some e) ips port
]

-- `while let Some(frame) = stream.frame()`.
unfoldable pub read_body : List ℕ → List (Result (Option (List ℕ))) → Result (List ℕ)
read_body got [] = ok got
read_body got (err e ∷ fs) = err e
read_body got (ok none ∷ fs) = read_body got fs
read_body got (ok (some chunk) ∷ fs) =
    let rest = read_body (got ++ chunk) fs in
    if ltb max_body (length got + length chunk) then err (str "exceeds the byte limit") else rest

unfoldable pub has_prefix : Text → Text → Bool
has_prefix p s = elim (strip_prefix p s) [ none ↦ false | some _ ↦ true ]

-- The address that a redirect leads to; a relative one keeps scheme, host and port.
unfoldable pub redirect_target : Net → Bool → Text → ℕ → Text → Text
redirect_target net https host port loc =
    if has_prefix (str "http://") loc || has_prefix (str "https://") loc
    then loc
    else (if https then str "https" else str "http")
      ++ str "://"
      ++ host
      ++ str ":"
      ++ net.show_port port
      ++ loc

unfoldable pub request_path : Uri → Text
request_path uri = elim uri.path [
  | [] ↦ str "/"
  | _ ∷ _ ↦ elim uri.path_and_query [ some pq ↦ pq | none ↦ str "/" ]
]

-- What the response says: on, an error, or the body.
unfoldable pub on_response : Net → Bool → Text → ℕ → Response → Result Fetched
on_response net https host port resp =
    if leb 300 resp.status && ltb resp.status 400
    then elim resp.location [
      | none ↦ err (str "redirect without location")
      | some loc ↦ ok (redirect (redirect_target net https host port loc))
    ]
    else if leb 200 resp.status && ltb resp.status 300
    then elim (read_body [] resp.frames) [ ok bytes ↦ ok (body bytes) | err e ↦ err e ]
    else err (str "returned an error status")

unfoldable pub target_ips : Net → Text → Result (List IpAddr)
target_ips net host = elim (net.parse_ip host) [
  | some ip ↦ ok (ip ∷ [])
  | none ↦ if net.bootstrap_empty then err (str "no bootstrap configured") else net.resolve_ips host
]

unfoldable pub port_of : Uri → Bool → ℕ
port_of uri https = elim uri.port [ some p ↦ p | none ↦ if https then 443 else 80 ]

-- The request to the host of an address that is parsed.
unfoldable pub request_to : Net → Uri → Bool → Text → Result Fetched
request_to net uri https host =
    let port = port_of uri https in
    target_ips net host
    >>= (λ ips. connect_first net none ips port)
    >>= (λ ip.
        net.send_request
          (record { https = https; ip = ip; host = host; port = port; path = request_path uri }))
    >>= on_response net https host port

-- One round of the loop.
unfoldable pub fetch_once : Net → Text → Result Fetched
fetch_once net current = elim (net.parse_uri current) [
  | err e ↦ err e
  | ok uri ↦ elim (https_of uri) [
    | none ↦ err (str "unsupported scheme")
    | some https ↦ elim uri.host [
      | none ↦ err (str "url missing host")
      | some host ↦ request_to net uri https host
    ]
  ]
]

-- The loop with `n` rounds to go.
unfoldable pub fetch_rounds : Net → ℕ → Text → Result (List ℕ)
fetch_rounds net zero current = err (str "too many redirects")
fetch_rounds net (suc n) current = elim (fetch_once net current) [
  | err e ↦ err e
  | ok (body bytes) ↦ ok bytes
  | ok (redirect next) ↦ fetch_rounds net n next
]

unfoldable pub fetch_url : Net → Text → Result (List ℕ)
fetch_url net url = fetch_rounds net (suc max_redirects) url
