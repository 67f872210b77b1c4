-- ===== src/Assembly/Network.antt =====
-- The resolvers of lib.rs at work: a query goes from the chain to its engines, to attempts at the
-- members of a group, and to the network.
use dnsbuffer.Prelude.{ℕ, Bool, Option, none, some, List, [], ◌∷◌, if◌then◌else◌, nat_eq, list_eq}
use dnsbuffer.Text.{Text, str}
use dnsbuffer.Message.{Hickory, Message}
use dnsbuffer.Resolver.{Result, ok, err}
use dnsbuffer.Upstream.Floats.{Floats}
use dnsbuffer.Upstream.Transport.{plain_resolve, dot_exchange}
use dnsbuffer.Upstream.Doh3.{Outcome, finished, pending, panicked}
use dnsbuffer.Upstream.Doh3.Sections.{Round}
use dnsbuffer.Upstream.Doh.Exchange.{H2Round, resolve}
use dnsbuffer.Upstream.Group.{
  Member, Attempt, answered, failed, dropped, resolve_member, fallback_resolve,
}
use dnsbuffer.Upstream.Hedged.{
  Joined, Poll, Polled, continues, answers, gives_up, start, resolve_loop,
}
use dnsbuffer.Assembly.{Leaf, plain_leaf, dot_leaf, doh_leaf}
use dnsbuffer.Assembly.Chain.{Chain, Hedged}

-- An attempt at a member: its resolver as it is by then, what it meets on the network, how long it
-- takes, and whether it is dropped before it ends, with the flag of its query.
pub record Attempted (H T C S E F : Type 0) : Type 0 where
  pub resolver : Leaf H T C S E
  pub socket : List ℕ → Result (List ℕ)
  pub connection : Result (List ℕ → Result (List ℕ))
  pub h2_rounds : ℕ → H2Round H
  pub h3_rounds : ℕ → Round C S
  pub latency : F
  pub now : ℕ
  pub is_dropped : Bool
  pub succeeded : Option Bool

-- A call of a group: its members by then, the random numbers, and the attempts by round and member.
pub record GroupRun (H T C S E F : Type 0) : Type 0 where
  pub k : F
  pub members : List (Member F)
  pub roll : ℕ → F
  pub attempts : ℕ → ℕ → Attempted H T C S E F

-- The task of an attempt of an engine: a call of the group, or its failure.
pub data EngineTask (H T C S E F : Type 0) : Type 0 where
  completed : GroupRun H T C S E F → EngineTask H T C S E F
  crashed : Text → EngineTask H T C S E F

-- A poll of an engine's loop, with the task that is joined.
pub record Tick (H T C S E F : Type 0) : Type 0 where
  pub now : ℕ
  pub read_at : ℕ
  pub task : Option (EngineTask H T C S E F)

-- A call of an engine: when it starts, and its polls.
pub record EngineRun (H T C S E F : Type 0) : Type 0 where
  pub started_at : ℕ
  pub ticks : List (Tick H T C S E F)

pub record ChainRun (H T C S E F : Type 0) : Type 0 where
  pub primary : EngineRun H T C S E F
  pub fallback : EngineRun H T C S E F

-- `UpstreamGroup::resolve_attributed`
unfoldable pub attributed :
    Option (Result (Message × Text)) → Option (Result (Message × Option Text))
attributed none = none
attributed (some (err e)) = some (err e)
attributed (some (ok (response, name))) = some (ok (response, some name))

-- What the loop of an engine returns, if it returns.
unfoldable pub returned : {R : Type 0} → Polled R → Option (Result R)
returned (answers s r) = some (ok r)
returned (gives_up s e) = some (err (str "upstream budget exhausted"))
returned (continues s) = none
returned Polled.pending = none

unfoldable pub joined_of :
    Option (Result (Message × Option Text)) → Option (Joined (Message × Option Text))
joined_of none = none
joined_of (some r) = some (Joined.finished r)

module _ {H T C S E F : Type 0} (h : Hickory) (fl : Floats F) (query : Message) where
  unfoldable pub leaf_resolve : Attempted H T C S E F → Leaf H T C S E → Outcome Message
  leaf_resolve a (plain_leaf r) = finished (plain_resolve h a.socket query)
  leaf_resolve a (dot_leaf r) = finished (dot_exchange h a.connection query)
  leaf_resolve a (doh_leaf r) = (resolve h a.h2_rounds a.h3_rounds query r).1

  -- A panic unwinds through the guard of the attempt, as if it were dropped.
  unfoldable pub ended : Attempted H T C S E F → Outcome Message → Attempt F
  ended a (finished (ok response)) = answered response a.latency a.now
  ended a (finished (err e)) = failed e
  ended a pending = dropped a.succeeded a.now
  ended a panicked = dropped a.succeeded a.now

  unfoldable pub attempt_at : Attempted H T C S E F → Attempt F
  attempt_at a =
      if a.is_dropped then dropped a.succeeded a.now else ended a (leaf_resolve a a.resolver)

  unfoldable pub group_resolve : GroupRun H T C S E F → Option (Result (Message × Option Text))
  group_resolve g =
      attributed
        (resolve_member fl g.k g.roll (λ n i. attempt_at (g.attempts n i)) g.members).result

  unfoldable pub join : Option (EngineTask H T C S E F) → Option (Joined (Message × Option Text))
  join none = none
  join (some (crashed e)) = some (Joined.panicked e)
  join (some (completed g)) = joined_of (group_resolve g)

  unfoldable pub polls : List (Tick H T C S E F) → List (Poll (Message × Option Text))
  polls [] = []
  polls (t ∷ ts) = record { now = t.now; joined = join t.task; read_at = t.read_at } ∷ polls ts

  unfoldable pub engine_resolve :
      Hedged (Leaf H T C S E) F → EngineRun H T C S E F → Option (Result (Message × Option Text))
  engine_resolve e r =
      returned (resolve_loop (start e.interval e.max_wait r.started_at) (polls r.ticks))

  unfoldable pub chain_resolve :
      Chain (Leaf H T C S E) F → ChainRun H T C S E F → Option (Result (Message × Option Text))
  chain_resolve c r = elim c.fallback [
    | none ↦ engine_resolve c.primary r.primary
    | some fallback ↦
        fallback_resolve (engine_resolve c.primary r.primary) (engine_resolve fallback r.fallback)
  ]
