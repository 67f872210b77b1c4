-- ===== src/Upstream/Doh.antt =====
-- upstream/doh.rs: DNS over HTTPS, over HTTP/2 with one shared sender, or over HTTP/3.
pub mod New
pub mod Exchange
pub mod Answers
use dnsbuffer.Prelude.{
  ℕ, zero, suc, ◌+◌, ◌-◌, ◌*◌, ◌/◌, ◌%◌, ◌^◌, ◌≤◌, ◌<◌, min, max, ◌≡◌, refl, sym, ap, ◌∙◌, ◌≢◌, ◌↔◌,
  ◌⊎◌, inl, inr, Bool, true, false, not, ◌&&◌, ◌||◌, Option, none, some, List, [], ◌∷◌, ◌++◌, map,
  reverse, arith, ltb, leb, nat_beq, if◌then◌else◌, tests, Bool-cases, Option-cases, List-cases, Eq,
  ◌==◌, nat_beq_iff, ==_iff, ==_refl, nat_eq, list_beq, list_beq_iff, list_eq, length, get_elem?,
  drop, take, length-append, All, any_of, All-append, any_of-append, sum, contains, contains-append,
}
use dnsbuffer.Text.{Text, str, is_empty}
use dnsbuffer.Message.{Hickory, Message, IpAddr}
use dnsbuffer.Resolver.{Result, ok, err, ◌>>=◌, context}
use dnsbuffer.Bootstrap.{sort_by_family}
use dnsbuffer.Upstream.Doh3.{Outcome, finished, pending, panicked, ◌then?◌, H3Conn, Shared}
use dnsbuffer.Upstream.Doh3
use dnsbuffer.Upstream.Doh3.Sections.{Round, request}

-- A URL that `http::Uri` has parsed.
pub record Uri : Type 0 where
  pub scheme : Option Text
  pub host : Option Text
  pub port : Option ℕ
  pub path : Text

-- `H` is the sender of HTTP/2; `T` a TLS configuration; `C`, `S` and `E` are those of `H3Conn`.
pub record DohResolver (H T C S E : Type 0) : Type 0 where
  pub host : Text
  pub port : ℕ
  pub path : Text
  pub ips : List IpAddr
  pub tls_h2 : T
  pub http3 : Bool
  pub timeout_secs : ℕ
  pub h2 : Option H
  pub h3 : Option (H3Conn C S E)

-- The libraries under `with_extra_roots`: the parser of URLs, the TLS configuration for a protocol,
-- the QUIC configuration made of it, and endpoints.
pub record Setup (T E : Type 0) : Type 0 where
  pub parse : Text → Result Uri
  pub client_config : Text → Option (List ℕ) → Result T
  pub quic_config : T → Result {0} Unit
  pub bind : IpAddr → Result E

unfoldable pub path_of : Text → Text
path_of p = if is_empty p || p == str "/" then str "/dns-query" else p

abbrev pub port_of : Option ℕ → ℕ
port_of (some port) = port
port_of none = 443

unfoldable pub is_https : Option Text → Bool
is_https (some scheme) = scheme == str "https"
is_https none = false

module _ {T C S E : Type 0} where
  -- `if http3 { … Some(H3Conn::new(…)?) } else { None }`
  unfoldable pub h3_of :
      Setup T E → Text → ℕ → List IpAddr → Option (List ℕ) → Bool → Result (Option (H3Conn C S E))
  h3_of u host port ips ech false = ok none
  h3_of u host port ips ech true = u.client_config (str "h3") ech >>= λ tls_h3.
      Doh3.new (u.quic_config tls_h3) u.bind host port ips >>= λ h3. ok (some h3)

module _ {H T C S E : Type 0} where
  -- What follows the checks of the URL.
  unfoldable pub build :
      Setup T E → Uri → Text → List IpAddr → Option (List ℕ) → Bool → Result (DohResolver H T C S E)
  build u uri host ips ech http3 =
      let port = port_of uri.port in
      u.client_config (str "h2") ech >>= λ tls_h2. h3_of u host port ips ech http3 >>= λ h3.
      ok (record {
        host = host;
        port = port;
        path = path_of uri.path;
        ips = ips;
        tls_h2 = tls_h2;
        http3 = http3;
        timeout_secs = 5;
        h2 = none;
        h3 = h3;
      })

  unfoldable pub new :
      Setup T E
      → Text
      → List IpAddr
      → Option (List ℕ)
      → Bool
      → Bool
      → Result (DohResolver H T C S E)
  new u url ips ech http3 prefer_ipv6 = u.parse url >>= λ uri.
      if not (is_https uri.scheme)
      then err (str "DoH url must be https")
      else (context uri.host (str "DoH url missing host") >>= λ host.
          if nat_beq (length ips) 0
          then err (str "DoH resolver constructed without ips")
          else build u uri host (sort_by_family ips prefer_ipv6) ech http3)
