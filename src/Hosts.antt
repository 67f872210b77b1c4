-- ===== src/Hosts.antt =====
-- hosts.rs: the custom hosts, exact names and `*.` wildcards.
pub mod Find
pub mod Answer
use dnsbuffer.Prelude.{
  ℕ, zero, suc, ◌+◌, ◌-◌, ◌*◌, ◌/◌, ◌%◌, ◌^◌, ◌≤◌, ◌<◌, min, max, ◌≡◌, refl, sym, ap, ◌∙◌, ◌≢◌, ◌↔◌,
  ◌⊎◌, inl, inr, Bool, true, false, not, ◌&&◌, ◌||◌, Option, none, some, List, [], ◌∷◌, ◌++◌, map,
  reverse, arith, ltb, leb, nat_beq, if◌then◌else◌, tests, Bool-cases, Option-cases, Eq, ◌==◌,
  ==_iff, ==_refl, nat_eq, list_beq, list_beq_iff, list_eq, length, get_elem?, drop, length-append,
  All, any_of, All-append, sum, contains, contains-append,
}
use dnsbuffer.HashMap.{HashMap, get, insert}
use dnsbuffer.Text.{Text, str, normalize, strip_prefix}
use dnsbuffer.Text.Walk.{walk}
use dnsbuffer.Local.{local_response, address_record}
use dnsbuffer.Message.{
  Hickory, Message, Metadata, Query, Record, IpAddr, v4, v6, address, type_a, type_aaaa, response,
  no_error, is_ipv6, first,
}

abbrev pub hosts_ttl : ℕ
hosts_ttl = 300

-- `config::HostEntry`.
pub record HostEntry : Type 0 where
  pub name : Text
  pub addrs : List IpAddr

pub record HostsMap : Type 0 where
  pub exact : HashMap Text (List IpAddr)
  pub wildcard : HashMap Text (List IpAddr)

-- One round of the loop of `from_entries`.
unfoldable pub add_entry : HostsMap → HostEntry → HostsMap
add_entry m e =
    let name = normalize e.name in
    elim (strip_prefix (str "*.") name) [
      | some base ↦ record m { wildcard = insert m.wildcard base e.addrs }
      | none ↦ record m { exact = insert m.exact name e.addrs }
    ]

unfoldable pub add_entries : HostsMap → List HostEntry → HostsMap
add_entries m [] = m
add_entries m (e ∷ es) = add_entries (add_entry m e) es

unfoldable pub from_entries : List HostEntry → HostsMap
from_entries es = add_entries (record { exact = []; wildcard = [] }) es

unfoldable pub is_empty : HostsMap → Bool
is_empty m = nat_beq (length m.exact) 0 && nat_beq (length m.wildcard) 0

-- The fuel of the wildcard loop is one round for each character, and one.
unfoldable pub find : HostsMap → Text → Option (List IpAddr)
find m name = elim (get m.exact name) [
  | some v ↦ some v
  | none ↦ walk (suc (length name)) (get m.wildcard) name
]

module _ (h : Hickory) where
  -- The loop over the addresses, for one address family.
  unfoldable pub add_addresses : Bool → Text → Message → List IpAddr → Message
  add_addresses six owner resp [] = resp
  add_addresses false owner resp (v4 ip ∷ ips) =
      add_addresses false owner (h.add_answer resp (address_record owner hosts_ttl (v4 ip))) ips
  add_addresses false owner resp (v6 ip ∷ ips) = add_addresses false owner resp ips
  add_addresses true owner resp (v4 ip ∷ ips) = add_addresses true owner resp ips
  add_addresses true owner resp (v6 ip ∷ ips) =
      add_addresses true owner (h.add_answer resp (address_record owner hosts_ttl (v6 ip))) ips

  -- The response of `lookup`, for the question and the addresses found.
  unfoldable pub host_response : Message → Query → List IpAddr → Message
  host_response query q addrs =
      let resp = h.add_query (local_response h query) q in
      if q.query_type == type_a
      then add_addresses false q.name resp addrs
      else if q.query_type == type_aaaa
      then add_addresses true q.name resp addrs
      else resp

  unfoldable pub lookup : HostsMap → Message → Option Message
  lookup m query = elim (first query.queries) [
    | none ↦ none
    | some q ↦ elim (find m (normalize q.name)) [
      | none ↦ none
      | some addrs ↦ some (host_response query q addrs)
    ]
  ]
