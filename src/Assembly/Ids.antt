-- ===== src/Assembly/Ids.antt =====
-- Upstream groups, engines and the fallback pass on responses that have the id of their query.
use dnsbuffer.Prelude.{
  ℕ, zero, suc, min, ◌≡◌, refl, inl, inr, not, ◌&&◌, Option, none, some, List, [], ◌∷◌, ltb, leb,
  nat_beq, Bool-cases, Option-cases, nat_eq, list_eq, length, get_elem?,
}
use dnsbuffer.Text.{Text}
use dnsbuffer.Message.{Message}
use dnsbuffer.Resolver.{Result, ok, err}
use dnsbuffer.Upstream.Floats.{Floats}
use dnsbuffer.Upstream.Group.{
  Member, Attempt, answered, failed, dropped, choose, attempt_loop, exhausted, resolve_member,
  try_member, fallback_resolve, max_attempts,
}
use dnsbuffer.Upstream.Hedged.{
  Engine, Joined, Poll, Polled, continues, answers, gives_up, on_joined, on_timers, poll,
  resolve_loop,
}
use dnsbuffer.Upstream.Hedged.Budget.{no_join, one_join, late_join}
use dnsbuffer.Assembly.Network.{attributed, returned, joined_of}

-- A response has the id of the query.
abbrev pub Same : Message → Option (Result (Message × Option Text)) → Type 0
Same query none = Unit
Same query (some (err e)) = Unit
Same query (some (ok (resp, name))) = resp.metadata.id ≡ query.metadata.id

module _ {F : Type 0} (fl : Floats F) (query : Message) (k : F) (roll : ℕ → F)
    (run : ℕ → ℕ → Attempt F)
    (honest : (n i : ℕ) (resp : Message) (latency : F) (now : ℕ)
      → run n i ≡ answered resp latency now
      → resp.metadata.id ≡ query.metadata.id) where
  exhausted-id :
      (ms : List (Member F)) (tried : List ℕ) (last : Option Text)
      → Same query (attributed (exhausted fl ms tried last).result)
  unfolding exhausted attributed
  exhausted-id ms tried last = tt

  -- After an attempt at a member, if the rounds to go keep the id.
  tried-id :
      (n idx : ℕ) (tried : List ℕ) (last : Option Text) (ms : List (Member F)) (m : Member F)
      → choose fl k ms tried (roll n) ≡ some idx
      → get_elem? ms idx ≡ some m
      → ((tried' : List ℕ) (last' : Option Text) (ms' : List (Member F))
          → Same query (attributed (attempt_loop fl k roll run n tried' last' ms').result))
      → (a : Attempt F) → run n idx ≡ a
      → Same query (attributed (attempt_loop fl k roll run (suc n) tried last ms).result)
  unfolding attempt_loop try_member attributed
  tried-id n idx tried last ms m c g later (answered resp latency now) e =
      rw (c, g, e, attempt_loop, try_member) (honest n idx resp latency now e)
  tried-id n idx tried last ms m c g later (failed x) e =
      rw (c, g, e, attempt_loop, try_member) (later _ _ _)
  tried-id n idx tried last ms m c g later (dropped x now) e =
      rw (c, g, e, attempt_loop, try_member) tt

  loop-id :
      (n : ℕ) (tried : List ℕ) (last : Option Text) (ms : List (Member F))
      → Same query (attributed (attempt_loop fl k roll run n tried last ms).result)
  unfolding attempt_loop
  loop-id zero tried last ms = exhausted-id ms tried last
  loop-id (suc n) tried last ms = elim (Option-cases (choose fl k ms tried (roll n))) [
    | inl c ↦ rw (c, attempt_loop) (exhausted-id ms tried last)
    | inr (idx, c) ↦ elim (Option-cases (get_elem? ms idx)) [
      | inl g ↦ rw (c, g, attempt_loop) (exhausted-id ms tried last)
      | inr (m, g) ↦ tried-id n idx tried last ms m c g (loop-id n) (run n idx) refl
    ]
  ]

  pub resolve_member-id :
      (ms : List (Member F)) → Same query (attributed (resolve_member fl k roll run ms).result)
  unfolding resolve_member attributed
  resolve_member-id [] = tt
  resolve_member-id (m ∷ ms) = loop-id (min (length (m ∷ ms)) max_attempts) [] none (m ∷ ms)

-- A task that is joined has a response with the id.
abbrev pub Joins : Message → Option (Joined (Message × Option Text)) → Type 0
Joins query none = Unit
Joins query (some (Joined.finished r)) = Same query (some r)
Joins query (some (Joined.panicked e)) = Unit

pub joined_of-id :
    (query : Message) (r : Option (Result (Message × Option Text)))
    → Same query r
    → Joins query (joined_of r)
unfolding joined_of
joined_of-id query none same = tt
joined_of-id query (some r) same = same

-- What is returned at the end of a poll that joins a response with the id.
on_joined-id :
    (query : Message) (s : Engine) (j : Joined (Message × Option Text)) (read_at : ℕ)
    → Joins query (some j)
    → Same query (returned (on_joined s j read_at))
unfolding on_joined returned
on_joined-id query s (Joined.finished (ok r)) read_at same = same
on_joined-id query s (Joined.finished (err e)) read_at same = tt
on_joined-id query s (Joined.panicked e) read_at same = tt

on_timers-id :
    (query : Message) (s : Engine) (now read_at : ℕ)
    → Same query (returned (on_timers s now read_at))
unfolding on_timers returned
on_timers-id query s now read_at = elim (Bool-cases (leb s.deadline now)) [
  | inl t ↦ rw (t, on_timers, returned) tt
  | inr f ↦ elim (Bool-cases (not (nat_beq s.interval 0) && leb s.next_hedge now)) [
    | inl t ↦ rw (f, t, on_timers) tt
    | inr f' ↦ elim (Bool-cases (nat_beq s.in_flight 0 && leb s.retry_at now)) [
      | inl t ↦ rw (f, f', t, on_timers) tt
      | inr f'' ↦ rw (f, f', f'', on_timers) tt
    ]
  ]
]

pub poll-id :
    (query : Message) (s : Engine) (p : Poll (Message × Option Text))
    → Joins query p.joined
    → Same query (returned (poll s p))
poll-id query s p same = elim (Option-cases p.joined) [
  | inl e ↦ rw (no_join s p e) (on_timers-id query s p.now p.read_at)
  | inr (j, e) ↦ elim (Bool-cases (ltb 0 s.in_flight)) [
    | inl t ↦ rw (one_join s p j e t) (on_joined-id query s j p.read_at (rw e at same))
    | inr f ↦ rw (late_join s p j e f) (on_timers-id query s p.now p.read_at)
  ]
]

pub step-id :
    (query : Message) (s : Engine) (p : Poll (Message × Option Text))
    (ps : List (Poll (Message × Option Text)))
    → ((s' : Engine) → Same query (returned (resolve_loop s' ps)))
    → (x : Polled (Message × Option Text)) → poll s p ≡ x
    → Same query (returned x)
    → Same query (returned (resolve_loop s (p ∷ ps)))
unfolding resolve_loop returned
step-id query s p ps later Polled.pending e same = rw (e, resolve_loop) (later s)
step-id query s p ps later (continues s') e same = rw (e, resolve_loop) (later s')
step-id query s p ps later (answers s' r) e same = rw (e, resolve_loop) same
step-id query s p ps later (gives_up s' x) e same = rw (e, resolve_loop) tt

pub fallback_resolve-id :
    (query : Message) (first second : Option (Result (Message × Option Text)))
    → Same query first
    → Same query second
    → Same query (fallback_resolve first second)
unfolding fallback_resolve
fallback_resolve-id query none second a b = tt
fallback_resolve-id query (some (ok r)) second a b = a
fallback_resolve-id query (some (err e)) second a b = b
