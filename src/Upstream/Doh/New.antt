-- ===== src/Upstream/Doh/New.antt =====
-- Which DoH upstreams are built.
use dnsbuffer.Prelude.{
  ℕ, ◌≡◌, refl, ap, ◌≢◌, inl, inr, Bool, true, false, Option, none, some, List, [], ◌∷◌, arith,
  nat_beq, Bool-cases, Option-cases, nat_eq, list_eq, length,
}
use dnsbuffer.Text.{Text, str}
use dnsbuffer.Message.{IpAddr}
use dnsbuffer.Resolver.{Result, ok, >>=-ok, ok-injective, Result-cases}
use dnsbuffer.Bootstrap.{sort_by_family}
use dnsbuffer.Upstream.Doh3.{H3Conn, new_shared, bind_endpoint}
use dnsbuffer.Upstream.Doh3
use dnsbuffer.Upstream.Doh.{Uri, DohResolver, Setup, path_of, port_of, h3_of, build, is_https, new}

module _ {C S E : Type 0} where
  -- The parts of the HTTP/3 connection that is built.
  new-ok :
      (config : Result {0} Unit) (bind : IpAddr → Result E) (host : Text) (port : ℕ)
      → (ips : List IpAddr) (conn : H3Conn C S E) → Doh3.new config bind host port ips ≡ ok conn
      → (conn.host ≡ host) × (conn.port ≡ port) × (conn.ips ≡ ips) × (conn.shared ≡ new_shared)
  unfolding Doh3.new
  new-ok config bind host port [] conn e = absurd (ground arith)
  new-ok config bind host port (ip ∷ ips) conn e =
      let (done, configured, f) = >>=-ok config _ conn e in
      let (endpoint, bound, g) = >>=-ok (bind_endpoint bind (ip ∷ ips)) _ conn f in
      let same = ok-injective g in rw (← same) (refl, refl, refl, refl)

  -- The HTTP/3 connection is there exactly if it is asked for.
  abbrev pub HasH3 : Bool → Text → ℕ → List IpAddr → Option (H3Conn C S E) → Type 0
  HasH3 false host port ips none = Unit {0}
  HasH3 false host port ips (some conn) = ⊥
  HasH3 true host port ips none = ⊥
  HasH3 true host port ips (some conn) =
      (conn.host ≡ host) × (conn.port ≡ port) × (conn.ips ≡ ips) × (conn.shared ≡ new_shared)

  h3_of-ok :
      {T : Type 0} (u : Setup T E) (host : Text) (port : ℕ) (ips : List IpAddr)
      → (ech : Option (List ℕ)) (http3 : Bool) (h3 : Option (H3Conn C S E))
      → h3_of u host port ips ech http3 ≡ ok h3
      → HasH3 http3 host port ips h3
  unfolding h3_of
  h3_of-ok u host port ips ech false none e = tt
  h3_of-ok u host port ips ech false (some conn) e = absurd (ground arith)
  h3_of-ok u host port ips ech true h3 e =
      let (tls, configured, f) = >>=-ok (u.client_config (str "h3") ech) _ h3 e in
      let (conn, made, g) = >>=-ok (Doh3.new (u.quic_config tls) u.bind host port ips) _ h3 f in
      rw (← ok-injective g) (new-ok (u.quic_config tls) u.bind host port ips conn made)

  module _ {H T : Type 0} where
    -- The resolver is made of the parsed URL.
    pub record IsBuilt (uri : Uri) (ips : List IpAddr) (http3 prefer_ipv6 : Bool)
        (r : DohResolver H T C S E) : Type 0 where
      pub secure : is_https uri.scheme ≡ true
      pub of_host : uri.host ≡ some r.host
      pub of_port : r.port ≡ port_of uri.port
      pub of_path : r.path ≡ path_of uri.path
      pub ordered : r.ips ≡ sort_by_family ips prefer_ipv6
      pub some_ips : ips ≢ []
      pub protocol : r.http3 ≡ http3
      pub unconnected : r.h2 ≡ none
      pub has_h3 : HasH3 r.http3 r.host r.port r.ips r.h3

    build-IsBuilt :
        (u : Setup T E) (uri : Uri) (host : Text) (ips : List IpAddr) (ech : Option (List ℕ))
        → (http3 prefer_ipv6 : Bool) (r : DohResolver H T C S E) → is_https uri.scheme ≡ true
        → uri.host ≡ some host
        → ips ≢ []
        → build u uri host (sort_by_family ips prefer_ipv6) ech http3 ≡ ok r
        → IsBuilt uri ips http3 prefer_ipv6 r
    unfolding build
    build-IsBuilt u uri host ips ech http3 prefer_ipv6 r secure of_host some_ips e =
        let (tls, configured, f) = >>=-ok (u.client_config (str "h2") ech) _ r e in
        let (h3, made, g) =
          >>=-ok (h3_of u host (port_of uri.port) (sort_by_family ips prefer_ipv6) ech http3) _ r
            f in
        rw (← ok-injective g) (record {
          secure = secure;
          of_host = of_host;
          of_port = refl;
          of_path = refl;
          ordered = refl;
          some_ips = some_ips;
          protocol = refl;
          unconnected = refl;
          has_h3 =
              h3_of-ok u host (port_of uri.port) (sort_by_family ips prefer_ipv6) ech http3 h3 made;
        })

    -- A DoH upstream is built from an https URL with a host, and at least one address, only. Its port
    -- is that of the URL, or 443, its path that of the URL, or /dns-query, and its addresses are
    -- those given, the preferred family first. It has an HTTP/3 connection exactly if HTTP/3 is
    -- asked for, with the same host, port and addresses, and nothing is connected yet.
    pub new-IsBuilt :
        (u : Setup T E) (url : Text) (ips : List IpAddr) (ech : Option (List ℕ))
        → (http3 prefer_ipv6 : Bool) (r : DohResolver H T C S E)
        → new u url ips ech http3 prefer_ipv6 ≡ ok r
        → (uri : Uri) × (u.parse url ≡ ok uri) × IsBuilt uri ips http3 prefer_ipv6 r
    unfolding new build
    new-IsBuilt u url ips ech http3 prefer_ipv6 r e = elim (Result-cases (u.parse url)) [
      | inr (x, f) ↦ absurd (ground (arith, rw (f, new) at e))
      | inl (uri, f) ↦ elim (Bool-cases (is_https uri.scheme)) [
        | inr other ↦ absurd (ground (arith, rw (f, other, new) at e))
        | inl secure ↦ elim (Option-cases uri.host) [
          | inl gone ↦ absurd (ground (arith, rw (f, secure, gone, new) at e))
          | inr (host, here) ↦ elim (Bool-cases (nat_beq (length ips) 0)) [
            | inl empty ↦ absurd (ground (arith, rw (f, secure, here, empty, new) at e))
            | inr some_ips ↦ (
              uri,
              f,
              build-IsBuilt u uri host ips ech http3 prefer_ipv6 r secure here
                  (λ gone. cc (some_ips, ap (λ (l : List IpAddr). nat_beq (length l) 0) gone))
                  (rw (f, secure, here, some_ips, new) at e),
            )
          ]
        ]
      ]
    ]
