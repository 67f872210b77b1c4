-- ===== src/Bootstrap.antt =====
-- bootstrap.rs: the resolvers that look up the addresses of upstream servers, and the order of the
-- addresses, from upstream/mod.rs.
pub mod Addresses
use dnsbuffer.Prelude.{
  ℕ, zero, suc, ◌+◌, ◌-◌, ◌*◌, ◌/◌, ◌%◌, ◌^◌, ◌≤◌, ◌<◌, min, max, ◌≡◌, refl, sym, ap, ◌∙◌, ◌≢◌, ◌↔◌,
  ◌⊎◌, inl, inr, Bool, true, false, not, ◌&&◌, ◌||◌, Option, none, some, List, [], ◌∷◌, ◌++◌, map,
  reverse, arith, ltb, leb, nat_beq, if◌then◌else◌, tests, Bool-cases, Option-cases, Eq, ◌==◌,
  nat_beq_iff, ==_iff, ==_refl, nat_eq, list_beq, list_beq_iff, list_eq, length, get_elem?, drop,
  length-append, All, any_of, All-append, sum, contains, contains-append,
}
use dnsbuffer.Text.{Text, str, dot, trim_end}
use dnsbuffer.Message.{
  Hickory, Message, Record, IpAddr, v4, v6, is_ipv6, ip_eq, address, https, other_data, SvcParam,
  ech_config_list, other_param, type_a, type_aaaa, type_https, query,
}
use dnsbuffer.Resolver.{Result, ok, err}

-- The resolvers, each as its answers, and the preferred family.
pub record Bootstrap : Type 0 where
  pub resolvers : List (Message → Result Message)
  pub prefer_ipv6 : Bool

-- What comes from outside: the parser of domain names, and a random id for each type of query.
pub record Source : Type 0 where
  pub parse_name : Text → Result Text
  pub random_id : ℕ → ℕ

unfoldable pub is_empty : Bootstrap → Bool
is_empty b = elim b.resolvers [ [] ↦ true | _ ∷ _ ↦ false ]

-- The order of a `BTreeSet`: IPv4 before IPv6, each by number.
unfoldable pub ip_less : IpAddr → IpAddr → Bool
ip_less (v4 a) (v4 b) = ltb a b
ip_less (v4 a) (v6 b) = true
ip_less (v6 a) (v4 b) = false
ip_less (v6 a) (v6 b) = ltb a b

-- `BTreeSet::insert`, on the ascending list of the members.
unfoldable pub insert_ip : List IpAddr → IpAddr → List IpAddr
insert_ip [] a = a ∷ []
insert_ip (b ∷ bs) a =
    if a == b then b ∷ bs else if ip_less a b then a ∷ b ∷ bs else b ∷ insert_ip bs a

-- The loop over the answers.
unfoldable pub collect_ips : List IpAddr → List Record → List IpAddr
collect_ips ips [] = ips
collect_ips ips (r ∷ rs) = elim r.rdata [
  | address a ↦ collect_ips (insert_ip ips a) rs
  | https _ ↦ collect_ips ips rs
  | other_data _ ↦ collect_ips ips rs
]

-- The addresses whose family is, or is not, IPv6.
unfoldable pub family : Bool → List IpAddr → List IpAddr
family six [] = []
family six (a ∷ as') =
    let rest = family six as' in
    if is_ipv6 a then (if six then a ∷ rest else rest) else if six then rest else a ∷ rest

-- `sort_by_family`, a stable sort by a Boolean key: the preferred family first.
unfoldable pub sort_by_family : List IpAddr → Bool → List IpAddr
sort_by_family ips prefer_ipv6 = family prefer_ipv6 ips ++ family (not prefer_ipv6) ips

-- The loop of `query` over the resolvers, with the last error.
unfoldable pub query_from : Option Text → List (Message → Result Message) → Message → Result Message
query_from last [] q =
    err (elim last [ some e ↦ e | none ↦ str "no bootstrap resolvers configured" ])
query_from last (r ∷ rs) q = elim (r q) [ ok resp ↦ ok resp | err e ↦ query_from (some e) rs q ]

-- The ECH configuration among the parameters of an HTTPS record, and among the answers.
unfoldable pub ech_of_params : List SvcParam → Option (List ℕ)
ech_of_params [] = none
ech_of_params (ech_config_list bytes ∷ ps) = some bytes
ech_of_params (other_param _ ∷ ps) = ech_of_params ps

unfoldable pub ech_of_answers : List Record → Option (List ℕ)
ech_of_answers [] = none
ech_of_answers (r ∷ rs) = elim r.rdata [
  | https params ↦ elim (ech_of_params params) [
    | some bytes ↦ some bytes
    | none ↦ ech_of_answers rs
  ]
  | address _ ↦ ech_of_answers rs
  | other_data _ ↦ ech_of_answers rs
]

module _ (h : Hickory) (src : Source) where
  -- `Query::new` has the class IN, which is 1; the operation code of a query is 0.
  unfoldable pub make_query : Text → ℕ → Result Message
  make_query domain rtype = elim (src.parse_name (trim_end (λ c. c == dot) domain ++ dot ∷ [])) [
    | err e ↦ err e
    | ok name ↦
        let m = h.new_message (src.random_id rtype) query 0 in
        let m' = record m { metadata = record (m.metadata) { recursion_desired = true } } in
        ok (h.add_query m' (record { name = name; query_type = rtype; query_class = 1 }))
  ]

  unfoldable pub query_domain : Bootstrap → Text → ℕ → Result Message
  query_domain b domain rtype = elim (make_query domain rtype) [
    | err e ↦ err e
    | ok q ↦ query_from none b.resolvers q
  ]

  -- What one type of record adds to the set.
  unfoldable pub gather : Bootstrap → Text → List IpAddr → ℕ → List IpAddr
  gather b domain ips rtype = elim (query_domain b domain rtype) [
    | ok resp ↦ collect_ips ips resp.answers
    | err e ↦ ips
  ]

  unfoldable pub resolve_ips : Bootstrap → Text → Result (List IpAddr)
  resolve_ips b domain = elim (gather b domain (gather b domain [] type_a) type_aaaa) [
    | [] ↦ err (str "bootstrap could not resolve any ip")
    | a ∷ ips ↦ ok (sort_by_family (a ∷ ips) b.prefer_ipv6)
  ]

  unfoldable pub fetch_ech : Bootstrap → Text → Result (Option (List ℕ))
  fetch_ech b domain = elim (query_domain b domain type_https) [
    | err e ↦ err e
    | ok resp ↦ ok (ech_of_answers resp.answers)
  ]
