-- ===== src/Bootstrap/Addresses.antt =====
-- Which addresses a domain is dialled at, and in which order.
use dnsbuffer.Prelude.{
  ℕ, ◌+◌, ◌<◌, ◌≡◌, refl, ap, ◌∙◌, ◌⊎◌, inl, inr, Bool, true, false, not, ◌||◌, List, [], ◌∷◌, ◌++◌,
  arith, List-cases, ◌==◌, nat_eq, list_eq, length, length-append, All, contains, contains-append,
}
use dnsbuffer.Text.{Text, str}
use dnsbuffer.Message.{
  Hickory, Record, SvcParam, IpAddr, is_ipv6, ip_eq, ip_beq_iff, address, https, other_data, type_a,
  type_aaaa, RData,
}
use dnsbuffer.Resolver.{ok, err, Result-cases}
use dnsbuffer.Bootstrap.{
  Bootstrap, Source, insert_ip, collect_ips, family, sort_by_family, query_domain, gather,
  resolve_ips,
}
use dnsbuffer.Pipeline.Event.{addresses_of}

contains-insert_ip :
    (ips : List IpAddr) (a b : IpAddr) → contains (insert_ip ips a) b ≡ (b == a || contains ips b)
unfolding contains insert_ip
contains-insert_ip [] a b = refl
contains-insert_ip (x ∷ ips) a b = ground (arith, ip_beq_iff a x, contains-insert_ip ips a b)

RData-cases :
    (d : RData)
    → ((a : IpAddr) × (d ≡ address a))
      ⊎ ((ps : List SvcParam) × (d ≡ https ps))
      ⊎ ((n : ℕ) × (d ≡ other_data n))
RData-cases (address a) = inl (a, refl)
RData-cases (https ps) = inr (inl (ps, refl))
RData-cases (other_data n) = inr (inr (n, refl))

lengths-family :
    (ips : List IpAddr) → length (family true ips) + length (family false ips) ≡ length ips
unfolding family
lengths-family [] = omega arith
lengths-family (a ∷ ips) = ground (arith, lengths-family ips)

length-sort_by_family :
    (ips : List IpAddr) (six : Bool) → length (sort_by_family ips six) ≡ length ips
unfolding sort_by_family
length-sort_by_family ips true =
    length-append (family true ips) (family false ips) ∙ lengths-family ips
length-sort_by_family ips false =
    length-append (family false ips) (family true ips) ∙ omega (arith, lengths-family ips)

contains-collect_ips :
    (ips : List IpAddr) (rs : List Record) (b : IpAddr)
    → contains (collect_ips ips rs) b ≡ (contains (addresses_of rs) b || contains ips b)
unfolding contains collect_ips addresses_of
contains-collect_ips ips [] b = refl
contains-collect_ips ips (r ∷ rs) b = elim (RData-cases r.rdata) [
  | inl (a, e) ↦
      rw e
        (contains-collect_ips (insert_ip ips a) rs b ∙ ground (arith, contains-insert_ip ips a b))
  | inr (inl (ps, e)) ↦ rw e (contains-collect_ips ips rs b)
  | inr (inr (n, e)) ↦ rw e (contains-collect_ips ips rs b)
]

-- No address of the other family stands before one of the family preferred.
pub data IsPreferred (six : Bool) : List IpAddr → Type 0 where
  done : IsPreferred six []
  preferred :
      {a : IpAddr} {rest : List IpAddr}
      → is_ipv6 a ≡ six
      → IsPreferred six rest
      → IsPreferred six (a ∷ rest)
  others : {rest : List IpAddr} → All (λ a. is_ipv6 a ≡ not six) rest → IsPreferred six rest

All-family : (six : Bool) (ips : List IpAddr) → All (λ a. is_ipv6 a ≡ six) (family six ips)
unfolding family
All-family six [] = tt
All-family true (a ∷ ips) = ground (arith, All-family true ips)
All-family false (a ∷ ips) = ground (arith, All-family false ips)

IsPreferred-append :
    (six : Bool) (xs ys : List IpAddr)
    → All (λ a. is_ipv6 a ≡ six) xs
    → All (λ a. is_ipv6 a ≡ not six) ys
    → IsPreferred six (xs ++ ys)
IsPreferred-append six [] ys x y = others y
IsPreferred-append six (a ∷ xs) ys (same, x) y = preferred same (IsPreferred-append six xs ys x y)

contains-family :
    (ips : List IpAddr) (b : IpAddr)
    → (contains (family true ips) b || contains (family false ips) b) ≡ contains ips b
unfolding family contains
contains-family [] b = refl
contains-family (a ∷ ips) b = ground (arith, contains-family ips b)

contains-sort_by_family :
    (ips : List IpAddr) (six : Bool) (b : IpAddr)
    → contains (sort_by_family ips six) b ≡ contains ips b
unfolding sort_by_family
contains-sort_by_family ips true b =
    contains-append (family true ips) (family false ips) b ∙ contains-family ips b
contains-sort_by_family ips false b =
    contains-append (family false ips) (family true ips) b ∙ ground (arith, contains-family ips b)

module _ (h : Hickory) (src : Source) where
  -- The addresses that the answer to one type of query holds; none if no resolver answers.
  pub answered_ips : Bootstrap → Text → ℕ → List IpAddr
  answered_ips b domain rtype = elim (query_domain h src b domain rtype) [
    | ok resp ↦ addresses_of resp.answers
    | err _ ↦ []
  ]

  contains-gather :
      (b : Bootstrap) (domain : Text) (ips : List IpAddr) (rtype : ℕ) (a : IpAddr)
      → contains (gather h src b domain ips rtype) a
        ≡ (contains (answered_ips b domain rtype) a || contains ips a)
  unfolding gather answered_ips contains
  contains-gather b domain ips rtype a = elim (Result-cases (query_domain h src b domain rtype)) [
    | inl (resp, e) ↦ rw (e, gather, answered_ips) (contains-collect_ips ips resp.answers a)
    | inr (text, e) ↦ rw (e, gather, answered_ips) refl
  ]

  -- The addresses of a domain are those that the answers for A and for AAAA hold, and the lookup is
  -- an error exactly if there are none. The result has each of them, and puts every address of the
  -- preferred family before every address of the other.
  pub resolve_ips_lem :
      (b : Bootstrap) (domain : Text) (a : IpAddr)
      → ((e : Text) × (resolve_ips h src b domain ≡ err e)
          × (contains (answered_ips b domain type_a) a ≡ false)
          × (contains (answered_ips b domain type_aaaa) a ≡ false))
        ⊎ ((ips : List IpAddr) × (resolve_ips h src b domain ≡ ok ips)
            × (0 < length ips)
            × IsPreferred b.prefer_ipv6 ips
            × (contains ips a ≡ (
                contains (answered_ips b domain type_a) a
                || contains (answered_ips b domain type_aaaa) a)))
  unfolding resolve_ips contains sort_by_family
  resolve_ips_lem b domain a =
      let found = gather h src b domain (gather h src b domain [] type_a) type_aaaa in
      let fact = contains-gather b domain (gather h src b domain [] type_a) type_aaaa a in
      let fact' = contains-gather b domain [] type_a a in
      elim (List-cases found) [
        | inl e ↦ inl (
          str "bootstrap could not resolve any ip",
          rw (e, resolve_ips) refl,
          ground (arith, e, fact, fact'),
          ground (arith, e, fact, fact'),
        )
        | inr (x, xs, e) ↦ inr (
          sort_by_family (x ∷ xs) b.prefer_ipv6,
          rw (e, resolve_ips) refl,
          omega (arith, length-sort_by_family (x ∷ xs) b.prefer_ipv6),
          IsPreferred-append b.prefer_ipv6 (family b.prefer_ipv6 (x ∷ xs))
              (family (not b.prefer_ipv6) (x ∷ xs)) (All-family b.prefer_ipv6 (x ∷ xs))
              (All-family (not b.prefer_ipv6) (x ∷ xs)),
          contains-sort_by_family (x ∷ xs) b.prefer_ipv6 a
              ∙ ground (arith, ap (λ l. contains l a) e, fact, fact'),
        )
      ]
