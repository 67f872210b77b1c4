-- ===== src/Pipeline/Paths.antt =====
-- The four ways of a query through the pipeline, as a rule for what holds of every call of `handle`.
use dnsbuffer.Prelude.{
  ◌≡◌, inl, inr, true, false, none, some, arith, Bool-cases, Option-cases, nat_eq, list_eq,
}
use dnsbuffer.Message.{Hickory, Message, Query, first}
use dnsbuffer.Resolver.{servfail}
use dnsbuffer.Hosts
use dnsbuffer.Filter.{is_blocked, block_response}
use dnsbuffer.Cache.{from_query}
use dnsbuffer.Pipeline.Event.{Printers}
use dnsbuffer.Pipeline.{
  Pipeline, World, Handled, local_stage, lookup_stage, unobserved, observed, recorded, handle,
}

module _ (h : Hickory) (print : Printers) (w : World) (p : Pipeline) (q : Message) where
  pub handle_malformed :
      first q.queries ≡ none
      → handle h print w p q ≡ record { response = servfail h q; after = p; refresh = none }
  unfolding handle
  handle_malformed e = ground arith

  module _ (q0 : Query) (e : first q.queries ≡ some q0) where
    pub handle_hosts :
        (resp : Message)
        → Hosts.lookup h p.hosts q ≡ some resp
        → let s = local_stage h p resp false in
          handle h print w p q ≡ recorded h print w q q0 (unobserved h p s) s
    unfolding handle
    handle_hosts resp found = ground arith

    pub handle_blocked :
        Hosts.lookup h p.hosts q ≡ none
        → is_blocked p.filter q0.name ≡ true
        → let s = local_stage h p (block_response h q) true in
          handle h print w p q ≡ recorded h print w q q0 (unobserved h p s) s
    unfolding handle
    handle_blocked missing blocked = ground arith

    pub handle-lookup :
        Hosts.lookup h p.hosts q ≡ none
        → is_blocked p.filter q0.name ≡ false
        → let s = lookup_stage h w p q (from_query q) in
          handle h print w p q ≡ recorded h print w q q0 (observed h p s) s
    unfolding handle
    handle-lookup missing allowed = ground arith

  -- To prove a property of every call, prove it on each of the four ways.
  pub handle_ways :
      (P : Handled → Type 0)
      → P (record { response = servfail h q; after = p; refresh = none })
      → ((q0 : Query) (resp : Message)
          → first q.queries ≡ some q0
          → Hosts.lookup h p.hosts q ≡ some resp
          → let s = local_stage h p resp false in P (recorded h print w q q0 (unobserved h p s) s))
      → ((q0 : Query)
          → first q.queries ≡ some q0
          → let s = local_stage h p (block_response h q) true in
            P (recorded h print w q q0 (unobserved h p s) s))
      → ((q0 : Query)
          → first q.queries ≡ some q0
          → let s = lookup_stage h w p q (from_query q) in
            P (recorded h print w q q0 (observed h p s) s))
      → P (handle h print w p q)
  handle_ways P malformed hosts blocked lookup = elim (Option-cases (first q.queries)) [
    | inl e ↦ rw (handle_malformed e) malformed
    | inr (q0, e) ↦ elim (Option-cases (Hosts.lookup h p.hosts q)) [
      | inr (resp, found) ↦ rw (handle_hosts q0 e resp found) (hosts q0 resp e found)
      | inl missing ↦ elim (Bool-cases (is_blocked p.filter q0.name)) [
        | inl b ↦ rw (handle_blocked q0 e missing b) (blocked q0 e)
        | inr b ↦ rw (handle-lookup q0 e missing b) (lookup q0 e)
      ]
    ]
  ]
