-- ===== src/Server/Replies.antt =====
-- What the server sends.
use dnsbuffer.Prelude.{
  ℕ, zero, suc, ◌≡◌, refl, ◌⊎◌, inl, inr, Bool, true, false, Option, none, some, List, [], ◌∷◌,
  arith, Option-cases, nat_eq, list_eq, get_elem?, take, All, All-append,
}
use mathlib.Core.Path.{subst}
use dnsbuffer.Message.{Hickory, Message, IsDocumented}
use dnsbuffer.Pipeline.{Pipeline, World, handle}
use dnsbuffer.Pipeline.Event.{Printers}
use dnsbuffer.Pipeline.Answers.{KeepsIds, handle-id}
use dnsbuffer.Server.{
  Event, received, receive_failed, shut_down, finishes, panics, Server, remove_at, handle_packet,
  send_to, finish, forget, spawn, receive_loop, drain, run_udp_socket_until,
}

All-remove_at :
    {A : Type 0} (P : A → Type 0) (i : ℕ) (xs : List A) → All P xs → All P (remove_at i xs)
unfolding remove_at
All-remove_at P i [] h = tt
All-remove_at P zero (x ∷ xs) h = h.1
All-remove_at P (suc i) (x ∷ xs) h = (h.0, All-remove_at P i xs h.1)

All-get_elem? :
    {A : Type 0} (P : A → Type 0) (i : ℕ) (xs : List A) (x : A)
    → All P xs
    → get_elem? xs i ≡ some x
    → P x
All-get_elem? P i [] x h e = absurd (ground arith)
All-get_elem? P zero (y ∷ xs) x h e = subst P (ground arith) h.0
All-get_elem? P (suc i) (y ∷ xs) x h e = All-get_elem? P i xs x h.1 e

module _ (h : Hickory) (doc : IsDocumented h) (print : Printers) where
  -- A handler's bytes are those of a response with the id of its query.
  handle_packet-lem :
      (w : World) (p : Pipeline) (packet : List ℕ) (bytes : List ℕ)
      → KeepsIds w
      → (handle_packet h print w p packet).0 ≡ some bytes
      → (query response : Message) × (h.from_vec packet ≡ some query)
        × (h.to_vec response ≡ some bytes)
        × (response.metadata.id ≡ query.metadata.id)
  unfolding handle_packet
  handle_packet-lem w p packet bytes ids e = elim (Option-cases (h.from_vec packet)) [
    | inl f ↦ absurd (ground (arith, rw (f, handle_packet) at e))
    | inr (query, f) ↦ (
      query,
      (handle h print w p query).response,
      f,
      rw (f, handle_packet) at e,
      handle-id h doc w p query ids print,
    )
  ]

module _ {A : Type 0} where
  -- A datagram that came from a peer, cut to the buffer.
  abbrev pub WasReceived : List (Event A) → List ℕ × A → Type 0
  WasReceived [] d = ⊥
  WasReceived (received packet peer ∷ es) d = (d ≡ (take 65535 packet, peer)) ⊎ WasReceived es d
  WasReceived (receive_failed e ∷ es) d = WasReceived es d
  WasReceived (shut_down ∷ es) d = WasReceived es d
  WasReceived (finishes i w delivered ∷ es) d = WasReceived es d
  WasReceived (panics i ∷ es) d = WasReceived es d

  -- In every handler the upstream chain answers with the id that it is asked with.
  abbrev pub KeepIds : List (Event A) → Type 0
  KeepIds [] = Unit {0}
  KeepIds (finishes i w delivered ∷ es) = KeepsIds w × KeepIds es
  KeepIds (received packet peer ∷ es) = KeepIds es
  KeepIds (receive_failed e ∷ es) = KeepIds es
  KeepIds (shut_down ∷ es) = KeepIds es
  KeepIds (panics i ∷ es) = KeepIds es

module _ {A : Type 0} (h : Hickory) where
  -- What is sent to a peer is the encoding of a response, whose id is that of a query; the query is
  -- what a datagram from that peer decodes to.
  abbrev pub IsReply : (List ℕ × A → Type 0) → A × List ℕ → Type 0
  IsReply P (peer, bytes) =
      (packet : List ℕ) × (query response : Message) × P (packet, peer)
      × (h.from_vec packet ≡ some query)
      × (h.to_vec response ≡ some bytes)
      × (response.metadata.id ≡ query.metadata.id)

  -- All handlers run for datagrams of `P`, and all that was sent answers such.
  pub record IsServing (P : List ℕ × A → Type 0) (s : Server A) : Type 0 where
    pub running : All P s.handlers
    pub replies : All (IsReply P) s.sent

module _ {A : Type 0} (h : Hickory) (doc : IsDocumented h) (print : Printers) where
  module _ (P : List ℕ × A → Type 0) where
    send_to-replies :
        (packet : List ℕ) (peer : A) (delivered : Bool) (o : Option (List ℕ))
        (sent : List (A × List ℕ))
        → ((bytes : List ℕ) → o ≡ some bytes → IsReply h P (peer, bytes))
        → All (IsReply h P) sent
        → All (IsReply h P) (send_to peer delivered o sent)
    unfolding send_to
    send_to-replies packet peer delivered none sent new old = old
    send_to-replies packet peer true (some bytes) sent new old =
        All-append (IsReply h P) sent ((peer, bytes) ∷ []) old (new bytes refl, tt)
    send_to-replies packet peer false (some bytes) sent new old = old

    finish-IsServing :
        (i : ℕ) (w : World) (delivered : Bool) (s : Server A)
        → KeepsIds w
        → IsServing h P s
        → IsServing h P (finish h print i w delivered s)
    unfolding finish
    finish-IsServing i w delivered s ids v = elim (Option-cases (get_elem? s.handlers i)) [
      | inl gone ↦ rw (gone, finish) v
      | inr ((packet, peer), here) ↦
          let own = All-get_elem? P i s.handlers (packet, peer) v.running here in
          rw (here, finish)
            (record {
              running = All-remove_at P i s.handlers v.running;
              replies =
                  send_to-replies packet peer delivered
                    (handle_packet h print w s.pipeline packet).0 s.sent
                    (λ bytes e.
                      let (query, response, f, g, same) =
                        handle_packet-lem h doc print w s.pipeline packet bytes ids e in
                      (packet, query, response, own, f, g, same))
                    v.replies;
            })
    ]

    forget-IsServing : (i : ℕ) (s : Server A) → IsServing h P s → IsServing h P (forget i s)
    unfolding forget
    forget-IsServing i s v = record {
      running = All-remove_at P i s.handlers v.running;
      replies = v.replies;
    }

    spawn-IsServing :
        (packet : List ℕ) (peer : A) (s : Server A)
        → P (take 65535 packet, peer)
        → IsServing h P s
        → IsServing h P (spawn packet peer s)
    unfolding spawn
    spawn-IsServing packet peer s came v = record {
      running = All-append P s.handlers ((take 65535 packet, peer) ∷ []) v.running (came, tt);
      replies = v.replies;
    }

    receive_loop-IsServing :
        (es : List (Event A)) (s : Server A)
        → KeepIds es
        → ((d : List ℕ × A) → WasReceived es d → P d)
        → IsServing h P s
        → IsServing h P (receive_loop h print es s).server
          × KeepIds (receive_loop h print es s).rest
    unfolding receive_loop
    receive_loop-IsServing [] s ids all v = (v, tt)
    receive_loop-IsServing (received packet peer ∷ es) s ids all v =
        receive_loop-IsServing es (spawn packet peer s) ids (λ d r. all d (inr r))
          (spawn-IsServing packet peer s (all (take 65535 packet, peer) (inl refl)) v)
    receive_loop-IsServing (finishes i w delivered ∷ es) s ids all v =
        receive_loop-IsServing es (finish h print i w delivered s) ids.1 all
          (finish-IsServing i w delivered s ids.0 v)
    receive_loop-IsServing (panics i ∷ es) s ids all v =
        receive_loop-IsServing es (forget i s) ids all (forget-IsServing i s v)
    receive_loop-IsServing (receive_failed e ∷ es) s ids all v = (v, ids)
    receive_loop-IsServing (shut_down ∷ es) s ids all v = (v, ids)

    drain-IsServing :
        (es : List (Event A)) (s : Server A)
        → KeepIds es
        → IsServing h P s
        → All (IsReply h P) (drain h print es s).sent × ((drain h print es s).handlers ≡ [])
    unfolding drain
    drain-IsServing [] s ids v = (v.replies, refl)
    drain-IsServing (finishes i w delivered ∷ es) s ids v =
        drain-IsServing es (finish h print i w delivered s) ids.1
          (finish-IsServing i w delivered s ids.0 v)
    drain-IsServing (panics i ∷ es) s ids v =
        drain-IsServing es (forget i s) ids (forget-IsServing i s v)
    drain-IsServing (received packet peer ∷ es) s ids v = drain-IsServing es s ids v
    drain-IsServing (receive_failed e ∷ es) s ids v = drain-IsServing es s ids v
    drain-IsServing (shut_down ∷ es) s ids v = drain-IsServing es s ids v

  -- The server runs through any events, its handlers finish in any order or panic, and responses are
  -- lost or not. All that it sends to a peer are responses with the id of a query that came from this
  -- peer, if in each handler the upstream chain answers with the id that it is asked with. Once it
  -- has a result, no handler runs any more.
  pub run_udp_socket_until_lem :
      (es : List (Event A)) (p : Pipeline)
      → KeepIds es
      → All (IsReply h (WasReceived es)) (run_udp_socket_until h print es p).0.sent
        × (((run_udp_socket_until h print es p).1 ≡ none)
            ⊎ ((run_udp_socket_until h print es p).0.handlers ≡ []))
  unfolding run_udp_socket_until
  run_udp_socket_until_lem es p ids =
      let s : Server A = record { pipeline = p; handlers = []; sent = [] } in
      let (v, later) =
        receive_loop-IsServing (WasReceived es) es s ids (λ d r. r)
          (record { running = tt; replies = tt }) in
      elim (Option-cases (receive_loop h print es s).receive_result) [
        | inl open_end ↦ rw (open_end, run_udp_socket_until) (v.replies, inl refl)
        | inr (result, ended) ↦
            let (replies, over) =
              drain-IsServing (WasReceived es) (receive_loop h print es s).rest
                (receive_loop h print es s).server later v in
            rw (ended, run_udp_socket_until) (replies, inr over)
      ]
