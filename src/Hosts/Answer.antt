-- ===== src/Hosts/Answer.antt =====
-- What a response from the hosts says, on every kind of question.
use dnsbuffer.Prelude.{
  ℕ, ◌≡◌, inl, inr, Bool, true, false, some, List, [], ◌∷◌, ◌++◌, map, arith, if◌then◌else◌,
  Bool-cases, Option-cases, ◌==◌, nat_eq, list_eq,
}
use mathlib.Core.List.{append-nil, append_assoc}
use dnsbuffer.Text.{Text, normalize}
use dnsbuffer.Message.{
  first, Hickory, IsDocumented, Message, Query, Record, IpAddr, v4, v6, type_a, type_aaaa,
}
use dnsbuffer.Local.{
  IsLocal, local_response-IsLocal, add_query-IsLocal, add_answer-IsLocal, address_record,
}
use dnsbuffer.Hosts.{HostsMap, hosts_ttl, find, add_addresses, host_response, lookup}

-- The addresses of one family.
pub of_family : Bool → List IpAddr → List IpAddr
of_family six [] = []
of_family false (v4 a ∷ ips) = v4 a ∷ of_family false ips
of_family false (v6 a ∷ ips) = of_family false ips
of_family true (v4 a ∷ ips) = of_family true ips
of_family true (v6 a ∷ ips) = v6 a ∷ of_family true ips

-- The addresses that answer a question of type `t`.
pub answering : ℕ → List IpAddr → List IpAddr
answering t ips =
    if t == type_a then of_family false ips else if t == type_aaaa then of_family true ips else []

module _ (h : Hickory) (doc : IsDocumented h) (query : Message) where
  add_addresses-IsLocal :
      (six : Bool) (owner : Text) (ips : List IpAddr) {qs : List Query} {rs : List Record}
      {m : Message}
      → IsLocal h query qs rs m
      → IsLocal h query qs
          (rs ++ map (address_record owner hosts_ttl) (of_family six ips))
          (add_addresses h six owner m ips)
  unfolding add_addresses of_family
  add_addresses-IsLocal six owner [] l = simp append-nil l
  add_addresses-IsLocal false owner (v4 a ∷ ips) {rs = rs} l =
      let r = address_record owner hosts_ttl (v4 a) in
      rw (← append_assoc rs (r ∷ []) (map (address_record owner hosts_ttl) (of_family false ips)))
        (add_addresses-IsLocal false owner ips (add_answer-IsLocal h doc r l))
  add_addresses-IsLocal false owner (v6 a ∷ ips) l = add_addresses-IsLocal false owner ips l
  add_addresses-IsLocal true owner (v4 a ∷ ips) l = add_addresses-IsLocal true owner ips l
  add_addresses-IsLocal true owner (v6 a ∷ ips) {rs = rs} l =
      let r = address_record owner hosts_ttl (v6 a) in
      rw (← append_assoc rs (r ∷ []) (map (address_record owner hosts_ttl) (of_family true ips)))
        (add_addresses-IsLocal true owner ips (add_answer-IsLocal h doc r l))

  host_response-IsLocal :
      (q : Query) (addrs : List IpAddr)
      → IsLocal h query
          (q ∷ [])
          (map (address_record q.name hosts_ttl) (answering q.query_type addrs))
          (host_response h query q addrs)
  unfolding host_response answering
  host_response-IsLocal q addrs =
      let l = add_query-IsLocal h doc q (local_response-IsLocal h doc query) in
      elim (Bool-cases (q.query_type == type_a)) [
        | inl e ↦ rw e (add_addresses-IsLocal false q.name addrs l)
        | inr e ↦ elim (Bool-cases (q.query_type == type_aaaa)) [
          | inl e' ↦ rw (e, e') (add_addresses-IsLocal true q.name addrs l)
          | inr e' ↦ rw (e, e') l
        ]
      ]

  -- A query whose first question's normalised name is found in the hosts is answered: the response
  -- echoes the id, the operation and the question, is NoError, and its answers are the addresses
  -- found that are of the family asked for, in order; none for another record type.
  pub lookup-IsLocal :
      (m : HostsMap) (q : Query) (qs : List Query) (addrs : List IpAddr)
      → query.queries ≡ q ∷ qs
      → find m (normalize q.name) ≡ some addrs
      → (resp : Message) × (lookup h m query ≡ some resp)
        × IsLocal h query
            (q ∷ [])
            (map (address_record q.name hosts_ttl) (answering q.query_type addrs))
            resp
  unfolding lookup
  lookup-IsLocal m q qs addrs e f =
      (host_response h query q addrs, ground arith, host_response-IsLocal q addrs)

  pub id-lookup :
      (m : HostsMap) (resp : Message)
      → lookup h m query ≡ some resp
      → resp.metadata.id ≡ query.metadata.id
  unfolding lookup
  id-lookup m resp e = elim (Option-cases (first query.queries)) [
    | inl none_first ↦ absurd (ground arith)
    | inr (q, some_first) ↦ elim (Option-cases (find m (normalize q.name))) [
      | inl missing ↦ absurd (ground arith)
      | inr (addrs, found) ↦ ground (arith, (host_response-IsLocal q addrs).same_id)
    ]
  ]
