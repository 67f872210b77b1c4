-- ===== src/Upstream/Doh/Exchange.antt =====
-- upstream/doh.rs: a query over HTTP/2, between what other tasks do to the shared sender, and over
-- HTTP/3.
use dnsbuffer.Prelude.{
  ℕ, zero, suc, Bool, Option, none, some, List, [], ◌∷◌, if◌then◌else◌, ◌==◌, nat_eq, list_eq,
}
use dnsbuffer.Text.{Text, str}
use dnsbuffer.Message.{Hickory, Message, IpAddr}
use dnsbuffer.Resolver.{ok, err}
use dnsbuffer.Upstream.Doh3.{Outcome, finished, pending, panicked, ◌then?◌, H3Conn}
use dnsbuffer.Upstream.Doh3.Sections.{Round, request}
use dnsbuffer.Upstream.Doh.{DohResolver}

-- A connection over TCP, and what comes of TLS and of HTTP/2 on it.
pub data Dial (H : Type 0) : Type 0 where
  refused : Text → Dial H
  connected : Outcome H → Dial H
  waits : Dial H

-- The response to a request, if it can be sent: its status, and what comes of reading its body.
pub data H2Reply : Type 0 where
  not_sent : Text → H2Reply
  answered : ℕ → Outcome (List ℕ) → H2Reply
  no_reply : H2Reply

-- What an attempt meets: what others have made of the shared sender when it gets the lock, the
-- connections, the responses, what others make of the shared sender while the request is out, and
-- whether the attempt gets the lock again in time.
pub record H2Round (H : Type 0) : Type 0 where
  pub meanwhile : Option H → Option H
  pub dial : IpAddr → Dial H
  pub send : H → H2Reply
  pub during : Option H → Option H
  pub relocks : Bool

-- `timeout(…).await.with_context(…)?`; a panic goes on to the task.
unfoldable pub timed : Outcome Message → Outcome Message
timed (finished r) = finished r
timed pending = finished (err (str "DoH upstream timed out"))
timed panicked = panicked

module _ (h : Hickory) where
  -- The decoding of a response, and the test of its id.
  unfoldable pub decode : Message → List ℕ → Outcome Message
  decode query bytes = elim (h.from_vec bytes) [
    | none ↦ finished (err (str "decoding response"))
    | some msg ↦
        if msg.metadata.id == query.metadata.id
        then finished (ok msg)
        else finished (err (str "DoH response id mismatch"))
  ]

  unfoldable pub on_answer : Message → ℕ → Outcome (List ℕ) → Outcome Message
  on_answer query status body =
      if status == 200
      then (body then? decode query)
      else finished (err (str "DoH upstream returned its status"))

  unfoldable pub resolve_h3 :
      {C S E : Type 0}
      → Option (H3Conn C S E)
      → (ℕ → Round C S)
      → Message
      → Option (H3Conn C S E) × Outcome Message
  resolve_h3 none rounds query = (none, finished (err (str "h3 not enabled")))
  resolve_h3 (some conn) rounds query = elim (h.to_vec query) [
    | none ↦ (some conn, finished (err (str "encoding query")))
    | some bytes ↦
        let (shared, o) = request conn.ips rounds conn.shared in
        (some (record conn { shared = shared }), o then? decode query)
  ]

module _ {H : Type 0} where
  unfoldable pub connect_h2 : (IpAddr → Dial H) → List IpAddr → Outcome H
  connect_h2 dial [] = finished (err (str "cannot connect to any DoH ip"))
  connect_h2 dial (ip ∷ ips) = elim (dial ip) [
    | connected o ↦ o
    | refused e ↦ connect_h2 dial ips
    | waits ↦ pending
  ]

  -- The block under the lock: the shared sender, which is connected first if there is none.
  unfoldable pub sender_of : Outcome H → Option H → Option H × Outcome H
  sender_of c (some sender) = (some sender, finished (ok sender))
  sender_of (finished (ok sender)) none = (some sender, finished (ok sender))
  sender_of (finished (err e)) none = (none, finished (err e))
  sender_of pending none = (none, pending)
  sender_of panicked none = (none, panicked)

  module _ (h : Hickory) where
    unfoldable pub after_h2 :
        ℕ → Text → (Option H → Option H × Outcome Message) → Option H × Outcome Message
    after_h2 zero e next = (none, finished (err (str "h2 send_request failed after reconnect")))
    after_h2 (suc left) e next = next none

    -- What comes of a request: after one that was not sent, the shared sender is dropped.
    unfoldable pub on_h2 :
        H2Round H
        → ℕ
        → Message
        → Option H
        → H2Reply
        → (Option H → Option H × Outcome Message)
        → Option H × Outcome Message
    on_h2 r left query slot (answered status body) next = (slot, on_answer h query status body)
    on_h2 r left query slot no_reply next = (slot, pending)
    on_h2 r left query slot (not_sent e) next =
        if r.relocks then after_h2 left e next else (slot, pending)

    unfoldable pub attempt_h2 :
        List IpAddr
        → H2Round H
        → ℕ
        → Message
        → Option H
        → (Option H → Option H × Outcome Message)
        → Option H × Outcome Message
    attempt_h2 ips r left query slot next =
        let (slot', got) = sender_of (connect_h2 r.dial ips) (r.meanwhile slot) in
        elim got [
          | finished (ok sender) ↦ on_h2 r left query (r.during slot') (r.send sender) next
          | finished (err e) ↦ (slot', finished (err e))
          | pending ↦ (slot', pending)
          | panicked ↦ (slot', panicked)
        ]

    -- The loop, with `n` attempts to go.
    unfoldable pub h2_from :
        List IpAddr → (ℕ → H2Round H) → ℕ → Message → Option H → Option H × Outcome Message
    h2_from ips rounds zero query slot = (slot, finished (err (str "h2 retry loop exhausted")))
    h2_from ips rounds (suc n) query slot =
        attempt_h2 ips (rounds n) n query slot (h2_from ips rounds n query)

    unfoldable pub resolve_h2 :
        List IpAddr → (ℕ → H2Round H) → Message → Option H → Option H × Outcome Message
    resolve_h2 ips rounds query slot = elim (h.to_vec query) [
      | none ↦ (slot, finished (err (str "encoding query")))
      | some bytes ↦ h2_from ips rounds 2 query slot
    ]

    unfoldable pub resolve :
        {T C S E : Type 0}
        → (ℕ → H2Round H)
        → (ℕ → Round C S)
        → Message
        → DohResolver H T C S E
        → DohResolver H T C S E × Outcome Message
    resolve h2_rounds h3_rounds query r =
        if r.http3
        then (let (h3, o) = resolve_h3 h r.h3 h3_rounds query in (record r { h3 = h3 }, timed o))
        else (let (h2, o) = resolve_h2 r.ips h2_rounds query r.h2 in
            (record r { h2 = h2 }, timed o))
