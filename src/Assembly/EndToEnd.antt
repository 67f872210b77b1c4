-- ===== src/Assembly/EndToEnd.antt =====
-- From the network to the client: whose id a response has.
use dnsbuffer.Prelude.{
  ℕ, ◌≡◌, refl, inl, inr, Option, none, some, List, [], ◌∷◌, arith, Bool-cases, Option-cases,
  nat_eq, list_eq,
}
use dnsbuffer.Text.{Text}
use dnsbuffer.Message.{Hickory, IsDocumented, Message}
use dnsbuffer.Resolver.{Result, ok, err}
use dnsbuffer.Upstream.Floats.{Floats}
use dnsbuffer.Upstream.Transport.Framing.{id-plain_resolve, id-dot_exchange}
use dnsbuffer.Upstream.Doh3.{Outcome, finished, pending, panicked}
use dnsbuffer.Upstream.Doh.Answers.{resolve-ok}
use dnsbuffer.Upstream.Group.{answered}
use dnsbuffer.Upstream.Hedged.{Engine, Poll, start, poll, resolve_loop}
use dnsbuffer.Assembly.{Leaf, plain_leaf, dot_leaf, doh_leaf}
use dnsbuffer.Assembly.Chain.{Chain, Hedged}
use dnsbuffer.Assembly.Network.{
  Attempted, GroupRun, EngineTask, completed, crashed, Tick, EngineRun, ChainRun, returned,
  leaf_resolve, ended, attempt_at, group_resolve, join, polls, engine_resolve, chain_resolve,
}
use dnsbuffer.Pipeline.{Pipeline, World, handle}
use dnsbuffer.Pipeline.Event.{Printers}
use dnsbuffer.Pipeline.Answers.{handle-id}
use dnsbuffer.Assembly.Ids.{
  Joins, Same, fallback_resolve-id, joined_of-id, poll-id, resolve_member-id, step-id,
}

module _ {H T C S E F : Type 0} (h : Hickory) (fl : Floats F) (query : Message) where
  leaf-id :
      (a : Attempted H T C S E F) (leaf : Leaf H T C S E) (resp : Message)
      → leaf_resolve h fl query a leaf ≡ finished (ok resp)
      → resp.metadata.id ≡ query.metadata.id
  unfolding leaf_resolve
  leaf-id a (plain_leaf r) resp e = id-plain_resolve h a.socket query resp (ground arith)
  leaf-id a (dot_leaf r) resp e = id-dot_exchange h a.connection query resp (ground arith)
  leaf-id a (doh_leaf r) resp e = (resolve-ok h query resp a.h3_rounds a.h2_rounds r e).0

  ended-answered :
      (a : Attempted H T C S E F) (o : Outcome Message) (resp : Message) (latency : F) (now : ℕ)
      → ended h fl query a o ≡ answered resp latency now
      → o ≡ finished (ok resp)
  unfolding ended
  ended-answered a (finished (ok r)) resp latency now e = ground arith
  ended-answered a (finished (err x)) resp latency now e = absurd (ground arith)
  ended-answered a pending resp latency now e = absurd (ground arith)
  ended-answered a panicked resp latency now e = absurd (ground arith)

  attempt-id :
      (a : Attempted H T C S E F) (resp : Message) (latency : F) (now : ℕ)
      → attempt_at h fl query a ≡ answered resp latency now
      → resp.metadata.id ≡ query.metadata.id
  unfolding attempt_at
  attempt-id a resp latency now e = elim (Bool-cases a.is_dropped) [
    | inl t ↦ absurd (ground (arith, t, e))
    | inr f ↦ leaf-id a a.resolver resp (
        ended-answered a (leaf_resolve h fl query a a.resolver) resp latency now
          (ground (arith, f, e)))
  ]

  group-id : (g : GroupRun H T C S E F) → Same query (group_resolve h fl query g)
  unfolding group_resolve
  group-id g =
      resolve_member-id fl query g.k g.roll (λ n i. attempt_at h fl query (g.attempts n i))
        (λ n i. attempt-id (g.attempts n i)) g.members

  join-id : (t : Option (EngineTask H T C S E F)) → Joins query (join h fl query t)
  unfolding join
  join-id none = tt
  join-id (some (crashed e)) = tt
  join-id (some (completed g)) = joined_of-id query (group_resolve h fl query g) (group-id g)

  loop_of_engine-id :
      (ts : List (Tick H T C S E F)) (s : Engine)
      → Same query (returned (resolve_loop s (polls h fl query ts)))
  unfolding resolve_loop returned polls
  loop_of_engine-id [] s = tt
  loop_of_engine-id (t ∷ ts) s =
      let p : Poll (Message × Option Text) = record {
        now = t.now;
        joined = join h fl query t.task;
        read_at = t.read_at;
      } in
      step-id query s p (polls h fl query ts) (loop_of_engine-id ts) (poll s p) refl
        (poll-id query s p (join-id t.task))

  engine_resolve-id :
      (e : Hedged (Leaf H T C S E) F) (r : EngineRun H T C S E F)
      → Same query (engine_resolve h fl query e r)
  unfolding engine_resolve
  engine_resolve-id e r = loop_of_engine-id r.ticks (start e.interval e.max_wait r.started_at)

  chain_resolve-id :
      (c : Chain (Leaf H T C S E) F) (r : ChainRun H T C S E F)
      → Same query (chain_resolve h fl query c r)
  unfolding chain_resolve
  chain_resolve-id c r = elim (Option-cases c.fallback) [
    | inl f ↦ rw (f, chain_resolve) (engine_resolve-id c.primary r.primary)
    | inr (fallback, f) ↦
        rw (f, chain_resolve)
          (fallback_resolve-id query (engine_resolve h fl query c.primary r.primary)
            (engine_resolve h fl query fallback r.fallback) (engine_resolve-id c.primary r.primary)
            (engine_resolve-id fallback r.fallback))
  ]

Same-id :
    (query r : Message) (name : Option Text) (x : Option (Result (Message × Option Text)))
    → Same query x
    → x ≡ some (ok (r, name))
    → r.metadata.id ≡ query.metadata.id
Same-id query r name x same e = rw e at same

-- A pipeline whose upstream is a chain of engines over groups of plain, TLS and HTTPS upstreams
-- answers every query with a response that has the query's id, however the attempts go, end or are
-- dropped, whatever bytes the network delivers, and whether the hosts, the filter, the cache, the
-- chain or SERVFAIL answers. It is assumed that hickory behaves as documented.
pub handle_network-id :
    {H T C S E F : Type 0} (h : Hickory) (doc : IsDocumented h) (print : Printers) (fl : Floats F)
    (w : World) (p : Pipeline) (q : Message) (c : Chain (Leaf H T C S E) F)
    (runs : Message → ChainRun H T C S E F)
    → (handle h print
        (record w { upstream = λ query. chain_resolve h fl query c (runs query) })
        p
        q).response.metadata.id
      ≡ q.metadata.id
handle_network-id h doc print fl w p q c runs =
    let same_id : (q r : Message) (name : Option Text)
        → chain_resolve h fl q c (runs q) ≡ some (ok (r, name))
        → r.metadata.id ≡ q.metadata.id =
      λ q r name e.
        Same-id q r name (chain_resolve h fl q c (runs q)) (chain_resolve-id h fl q c (runs q)) e in
    handle-id h doc (record w { upstream = λ query. chain_resolve h fl query c (runs query) }) p q
      (record { same_id = same_id }) print
