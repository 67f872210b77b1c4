-- ===== src/Upstream/Doh3.antt =====
-- upstream/doh3.rs: the HTTP/3 connection that requests share, with its generations, and the
-- request that reconnects once. The tasks that share it work under its lock, one section of the code
-- at a time.
pub mod Sections
pub mod Fresh
pub mod Own
pub mod Requests
use dnsbuffer.Prelude.{
  ℕ, zero, suc, ◌+◌, ◌-◌, ◌*◌, ◌/◌, ◌%◌, ◌^◌, ◌≤◌, ◌<◌, min, max, ◌≡◌, refl, sym, ap, ◌∙◌, ◌≢◌, ◌↔◌,
  ◌⊎◌, inl, inr, Bool, true, false, not, ◌&&◌, ◌||◌, Option, none, some, List, [], ◌∷◌, ◌++◌, map,
  reverse, arith, ltb, leb, nat_beq, if◌then◌else◌, tests, Bool-cases, Option-cases, List-cases, Eq,
  ◌==◌, nat_beq_iff, ==_iff, ==_refl, nat_eq, list_beq, list_beq_iff, list_eq, length, get_elem?,
  drop, take, length-append, All, any_of, All-append, any_of-append, sum, contains, contains-append,
}
use dnsbuffer.Text.{Text, str}
use dnsbuffer.Message.{IpAddr, is_ipv6}
use dnsbuffer.Resolver.{Result, ok, err, ◌>>=◌}

-- What comes of an `await`: a result, nothing before the caller's timeout is over, or a panic.
pub data Outcome {ℓ} (A : Type ℓ) : Type ℓ where
  finished : Result A → Outcome A
  pending panicked : Outcome A

-- `f().await?`
infixl 5 ◌then?◌
abbrev pub ◌then?◌ {ℓ κ} : {A : Type ℓ} {B : Type κ} → Outcome A → (A → Outcome B) → Outcome B
finished (ok a) then? f = f a
finished (err e) then? f = finished (err e)
pending then? f = pending
panicked then? f = panicked

-- `C` is quinn's connection, `S` the sender of requests on it.
pub record H3State (C S : Type 0) : Type 0 where
  pub generation : ℕ
  pub conn : C
  pub sender : S

-- The fields of `H3Conn` that change: the one under the lock, and the counter.
pub record Shared (C S : Type 0) : Type 0 where
  pub state : Option (H3State C S)
  pub next_generation : ℕ

pub record H3Conn (C S E : Type 0) : Type 0 where
  pub host : Text
  pub port : ℕ
  pub ips : List IpAddr
  pub endpoint : E
  pub shared : Shared C S

abbrev pub v4_bind : IpAddr
v4_bind = IpAddr.v4 0

abbrev pub v6_bind : IpAddr
v6_bind = IpAddr.v6 0

-- What a task meets under the lock: which connections are closed, and what comes of a handshake and
-- of the setup of HTTP/3 on a connection.
pub record Turn (C S : Type 0) : Type 0 where
  pub is_closed : C → Bool
  pub handshake : IpAddr → Outcome C
  pub setup : C → Outcome S

-- A response: lost on the way, or with its status, the chunks that arrive, and an error after them.
pub data Reply : Type 0 where
  lost : Text → Reply
  reply : ℕ → List (List ℕ) → Option Text → Reply

unfoldable pub recv_data : List ℕ → List (List ℕ) → List ℕ
recv_data body [] = body
recv_data body (chunk ∷ chunks) = recv_data (body ++ chunk) chunks

unfoldable pub read_reply : Reply → Result (List ℕ)
read_reply (lost e) = err e
read_reply (reply status chunks broken) =
    if status == 200
    then elim broken [ some e ↦ err e | none ↦ ok (recv_data [] chunks) ]
    else err (str "DoH h3 upstream returned its status")

-- `bind` opens an endpoint.
unfoldable pub bind_endpoint : {E : Type 0} → (IpAddr → Result E) → List IpAddr → Result E
bind_endpoint bind ips =
    if any_of is_ipv6 ips
    then elim (bind v6_bind) [ ok e ↦ ok e | err _ ↦ bind v4_bind ]
    else bind v4_bind

module _ {C S : Type 0} where
  abbrev pub new_shared : Shared C S
  new_shared = record { state = none; next_generation = 0 }

  -- `config` is what comes of the QUIC configuration.
  unfoldable pub new :
      {E : Type 0}
      → Result {0} Unit
      → (IpAddr → Result E)
      → Text
      → ℕ
      → List IpAddr
      → Result (H3Conn C S E)
  new config bind host port [] = err (str "H3Conn requires at least one ip")
  new config bind host port (ip ∷ ips) = config >>= λ done.
      bind_endpoint bind (ip ∷ ips) >>= λ endpoint. ok (record {
        host = host;
        port = port;
        ips = ip ∷ ips;
        endpoint = endpoint;
        shared = new_shared;
      })

  unfoldable pub allocate_generation : Shared C S → ℕ × Shared C S
  allocate_generation s =
      (s.next_generation, record s { next_generation = (s.next_generation + 1) % 2 ^ 64 })

  unfoldable pub invalidate_generation : ℕ → Shared C S → Shared C S
  invalidate_generation generation s = elim s.state [
    | none ↦ s
    | some current ↦ if current.generation == generation then record s { state = none } else s
  ]

  unfoldable pub try_connect : Turn C S → IpAddr → Outcome (C × S)
  try_connect t ip =
      t.handshake ip then? λ conn. t.setup conn then? λ sender. finished (ok (conn, sender))

  -- The loop over the addresses, with the last error.
  unfoldable pub connect : Turn C S → Option Text → List IpAddr → Outcome (C × S)
  connect t last [] = finished (err (elim last [ some e ↦ e | none ↦ str "no ips" ]))
  connect t last (ip ∷ ips) = elim (try_connect t ip) [
    | finished (ok pair) ↦ finished (ok pair)
    | finished (err e) ↦ connect t (some e) ips
    | pending ↦ pending
    | panicked ↦ panicked
  ]

  unfoldable pub discard_closed : Turn C S → Shared C S → Shared C S
  discard_closed t s = elim s.state [
    | none ↦ s
    | some current ↦ if t.is_closed current.conn then record s { state = none } else s
  ]

  -- A new connection, with the next generation.
  unfoldable pub install : C × S → Shared C S → Shared C S × H3State C S
  install pair s =
      let (generation, s') = allocate_generation s in
      let fresh : H3State C S = record {
        generation = generation;
        conn = pair.0;
        sender = pair.1;
      } in
      (record s' { state = some fresh }, fresh)

  -- The connection that is there, or a new one, which `connected` is then what comes of.
  unfoldable pub lease :
      Option (H3State C S) → Outcome (C × S) → Shared C S → Shared C S × Outcome (H3State C S)
  lease (some current) connected s = (s, finished (ok current))
  lease none (finished (ok pair)) s = let (s', fresh) = install pair s in (s', finished (ok fresh))
  lease none (finished (err e)) s = (s, finished (err e))
  lease none pending s = (s, pending)
  lease none panicked s = (s, panicked)

  -- The section of `request` under the lock: the connection to use.
  unfoldable pub acquire : List IpAddr → Turn C S → Shared C S → Shared C S × Outcome (H3State C S)
  acquire ips t s = let s' = discard_closed t s in lease s'.state (connect t none ips) s'
