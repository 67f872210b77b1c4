-- ===== src/Filter/Blocked.antt =====
-- The verdict of `is_blocked`, and the response to a blocked query.
use dnsbuffer.Prelude.{
  ℕ, suc, ◌≡◌, ap, inl, inr, false, not, ◌&&◌, ◌||◌, List, [], ◌∷◌, map, arith, if◌then◌else◌,
  Bool-cases, Option-cases, ◌==◌, nat_eq, list_eq, length, any_of, contains,
}
use dnsbuffer.HashMap.{contains-extend}
use dnsbuffer.Text.{Text, normalize, to_lowercase}
use dnsbuffer.Text.Normal.{normalize_idem, normalize-to_lowercase}
use dnsbuffer.Text.Walk.{parents, walk_any-eq-any_of}
use dnsbuffer.Local.{
  IsLocal, local_response, local_response-IsLocal, add_query-IsLocal, add_answer-IsLocal,
  address_record,
}
use dnsbuffer.Message.{
  first, Hickory, IsDocumented, Message, Query, IpAddr, v4, v6, type_a, type_aaaa,
}
use dnsbuffer.Filter.{
  Filter, RuleSet, merge, exempt, listed, is_blocked, block_question, block_response, block_ttl,
}

-- A name together with the domains above it.
abbrev pub domains : Text → List Text
domains name = normalize name ∷ parents (normalize name)

-- A name is blocked exactly when no domain among the name and its parents is in the allowlist or an
-- exception, and some domain among them is blocked. So an exemption wins over any block rule.
pub is_blocked-eq-domains :
    (f : Filter) (name : Text)
    → is_blocked f name ≡ (
        not (any_of (λ d. contains f.allowlist d || contains f.rules.exceptions d) (domains name))
        && any_of (contains f.rules.blocked) (domains name))
unfolding is_blocked exempt listed
is_blocked-eq-domains f name =
    let n = normalize name in
    ground (
      arith,
      walk_any-eq-any_of (suc (length n))
          (λ d. contains f.allowlist d || contains f.rules.exceptions d) n (omega arith),
      walk_any-eq-any_of (suc (length n)) (contains f.rules.blocked) n (omega arith),
    )

-- The verdict does not depend on the case in which a client writes the name, nor on dots at its end.
is_blocked-spelling :
    (f : Filter) (name : Text)
    → (is_blocked f (to_lowercase name) ≡ is_blocked f name)
      × (is_blocked f (normalize name) ≡ is_blocked f name)
unfolding is_blocked
is_blocked-spelling f name =
    let verdict = λ (n : Text). if exempt f n then false else listed f n in
    (ap verdict (normalize-to_lowercase name), ap verdict (normalize_idem name))

-- Merged rules hold what either set holds, blocked domains and exceptions each.
pub contains-merge :
    (r other : RuleSet) (d : Text)
    → (contains (merge r other).blocked d ≡ (contains r.blocked d || contains other.blocked d))
      × (contains (merge r other).exceptions d
          ≡ (contains r.exceptions d || contains other.exceptions d))
unfolding merge
contains-merge r other d =
    (contains-extend r.blocked other.blocked d, contains-extend r.exceptions other.exceptions d)

-- The unspecified addresses that answer a blocked question of type `t`.
pub blocked_addresses : ℕ → List IpAddr
blocked_addresses t = if t == type_a then v4 0 ∷ [] else if t == type_aaaa then v6 0 ∷ [] else []

module _ (h : Hickory) (doc : IsDocumented h) (query : Message) where
  block_question-IsLocal :
      (q : Query)
      → IsLocal h query
          (q ∷ [])
          (map (address_record q.name block_ttl) (blocked_addresses q.query_type))
          (block_question h (local_response h query) q)
  unfolding block_question blocked_addresses
  block_question-IsLocal q =
      let l = add_query-IsLocal h doc q (local_response-IsLocal h doc query) in
      elim (Bool-cases (q.query_type == type_a)) [
        | inl t ↦ rw t (add_answer-IsLocal h doc (address_record q.name block_ttl (v4 0)) l)
        | inr t ↦ elim (Bool-cases (q.query_type == type_aaaa)) [
          | inl t' ↦
              rw (t, t') (add_answer-IsLocal h doc (address_record q.name block_ttl (v6 0)) l)
          | inr t' ↦ rw (t, t') l
        ]
      ]

  question :
      (q : Query) (qs : List Query)
      → query.queries ≡ q ∷ qs
      → block_question h (local_response h query) q ≡ block_response h query
  unfolding block_response
  question q qs e = ground arith

  -- The response to a blocked query echoes its id and question, is NoError, and holds 0.0.0.0 for a
  -- question of type A, :: for AAAA, and no answer for any other type.
  block_response-IsLocal :
      (q : Query) (qs : List Query)
      → query.queries ≡ q ∷ qs
      → IsLocal h query
          (q ∷ [])
          (map (address_record q.name block_ttl) (blocked_addresses q.query_type))
          (block_response h query)
  block_response-IsLocal q qs e = rw (question q qs e) at (block_question-IsLocal q)

  pub id-block_response : (block_response h query).metadata.id ≡ query.metadata.id
  unfolding block_response
  id-block_response = elim (Option-cases (first query.queries)) [
    | inl e ↦ ground (arith, (local_response-IsLocal h doc query).same_id)
    | inr (q, e) ↦ ground (arith, (block_question-IsLocal q).same_id)
  ]
