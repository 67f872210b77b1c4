-- ===== src/Server.antt =====
-- server.rs: the UDP server, whose handlers run at the same time: each takes one step of the shared
-- pipeline, in the order in which they finish.
pub mod Replies
use dnsbuffer.Prelude.{
  ℕ, zero, suc, ◌+◌, ◌-◌, ◌*◌, ◌/◌, ◌%◌, ◌^◌, ◌≤◌, ◌<◌, min, max, ◌≡◌, refl, sym, ap, ◌∙◌, ◌≢◌, ◌↔◌,
  ◌⊎◌, inl, inr, Bool, true, false, not, ◌&&◌, ◌||◌, Option, none, some, List, [], ◌∷◌, ◌++◌, map,
  reverse, arith, ltb, leb, nat_beq, if◌then◌else◌, tests, Bool-cases, Option-cases, List-cases, Eq,
  ◌==◌, nat_beq_iff, ==_iff, ==_refl, nat_eq, list_beq, list_beq_iff, list_eq, length, get_elem?,
  drop, take, length-append, All, any_of, All-append, any_of-append, sum, contains, contains-append,
}
use dnsbuffer.Text.{Text, str}
use dnsbuffer.Message.{Hickory, Message}
use dnsbuffer.Resolver.{Result, ok, err}
use dnsbuffer.Pipeline.{Pipeline, World, handle}
use dnsbuffer.Pipeline.Event.{Printers}

-- What the server meets while it receives; `A` is the type of peers' addresses. A handler finishes
-- with what it met, and its response is sent or not, or it panics.
pub data Event (A : Type 0) : Type 0 where
  received : List ℕ → A → Event A
  receive_failed : Text → Event A
  shut_down : Event A
  finishes : ℕ → World → Bool → Event A
  panics : ℕ → Event A

-- The pipeline, the datagrams whose handlers run, and what has been sent.
pub record Server (A : Type 0) : Type 0 where
  pub pipeline : Pipeline
  pub handlers : List (List ℕ × A)
  pub sent : List (A × List ℕ)

-- The end of the loop, if it is reached, and the events that are left.
pub record Loop (A : Type 0) : Type 0 where
  pub server : Server A
  pub receive_result : Option (Result {0} Unit)
  pub rest : List (Event A)

unfoldable pub remove_at {ℓ} : {A : Type ℓ} → ℕ → List A → List A
remove_at i [] = []
remove_at zero (x ∷ xs) = xs
remove_at (suc i) (x ∷ xs) = x ∷ remove_at i xs

module _ (h : Hickory) (print : Printers) where
  -- `handle_packet` up to the sending: the encoded response, if there is one.
  unfoldable pub handle_packet : World → Pipeline → List ℕ → Option (List ℕ) × Pipeline
  handle_packet w p packet = elim (h.from_vec packet) [
    | none ↦ (none, p)
    | some query ↦
        let handled = handle h print w p query in (h.to_vec handled.response, handled.after)
  ]

module _ {A : Type 0} where
  unfoldable pub send_to : A → Bool → Option (List ℕ) → List (A × List ℕ) → List (A × List ℕ)
  send_to peer delivered none sent = sent
  send_to peer delivered (some bytes) sent = if delivered then sent ++ (peer, bytes) ∷ [] else sent

  unfoldable pub forget : ℕ → Server A → Server A
  forget i s = record s { handlers = remove_at i s.handlers }

  -- The buffer holds 65535 bytes.
  unfoldable pub spawn : List ℕ → A → Server A → Server A
  spawn packet peer s = record s { handlers = s.handlers ++ (take 65535 packet, peer) ∷ [] }

module _ {A : Type 0} (h : Hickory) (print : Printers) where
  -- A handler has finished.
  unfoldable pub finish : ℕ → World → Bool → Server A → Server A
  finish i w delivered s = elim (get_elem? s.handlers i) [
    | none ↦ s
    | some (packet, peer) ↦
        let (bytes, p) = handle_packet h print w s.pipeline packet in
        record {
          pipeline = p;
          handlers = remove_at i s.handlers;
          sent = send_to peer delivered bytes s.sent;
        }
  ]

  unfoldable pub receive_loop : List (Event A) → Server A → Loop A
  receive_loop [] s = record { server = s; receive_result = none; rest = [] }
  receive_loop (received packet peer ∷ es) s = receive_loop es (spawn packet peer s)
  receive_loop (finishes i w delivered ∷ es) s = receive_loop es (finish i w delivered s)
  receive_loop (panics i ∷ es) s = receive_loop es (forget i s)
  receive_loop (receive_failed e ∷ es) s = record {
    server = s;
    receive_result = some (err (str "recv_from"));
    rest = es;
  }
  receive_loop (shut_down ∷ es) s = record { server = s; receive_result = some (ok tt); rest = es }

  -- The handlers that finish within the two seconds; the others are aborted, and are taken to have
  -- left the pipeline as it was.
  unfoldable pub drain : List (Event A) → Server A → Server A
  drain [] s = record s { handlers = [] }
  drain (finishes i w delivered ∷ es) s = drain es (finish i w delivered s)
  drain (panics i ∷ es) s = drain es (forget i s)
  drain (received packet peer ∷ es) s = drain es s
  drain (receive_failed e ∷ es) s = drain es s
  drain (shut_down ∷ es) s = drain es s

  -- The server and its result, which is nothing while it runs.
  unfoldable pub run_udp_socket_until :
      List (Event A) → Pipeline → Server A × Option (Result {0} Unit)
  run_udp_socket_until es p =
      let end = receive_loop es (record { pipeline = p; handlers = []; sent = [] }) in
      elim end.receive_result [
        | none ↦ (end.server, none)
        | some result ↦ (drain end.rest end.server, some result)
      ]
