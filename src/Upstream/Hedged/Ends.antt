-- ===== src/Upstream/Hedged/Ends.antt =====
-- That every query ends.
use dnsbuffer.Prelude.{
  ℕ, ◌+◌, ◌-◌, ◌≤◌, ◌<◌, ◌≡◌, refl, ap, ◌∙◌, ◌⊎◌, inl, inr, Bool, true, false, List, [], ◌∷◌, ◌++◌,
  arith, ltb, Bool-cases, Option-cases, nat_eq, list_eq, length, All,
}
use dnsbuffer.Resolver.{ok, err}
use dnsbuffer.Upstream.Hedged.{
  Engine, Joined, finished, panicked, Polled, pending, continues, answers, gives_up, Poll,
  max_in_flight, start, attempt_failed, budget_error, on_joined, on_timers, poll, resolve_loop,
}
use dnsbuffer.Upstream.Hedged.Running.{IsRunning, start-IsRunning}
use dnsbuffer.Upstream.Hedged.Budget.{
  Polled-cases, running, no_join, one_join, late_join, poll-IsEnd,
}

module _ {R : Type 0} where
  pub has_ended : Polled R → Bool
  has_ended pending = false
  has_ended (continues s) = false
  has_ended (answers s r) = true
  has_ended (gives_up s e) = true

  timers_end :
      (s : Engine) (now read_at : ℕ)
      → s.deadline ≤ now
      → on_timers {R = R} s now read_at ≡ gives_up s (budget_error s)
  unfolding on_timers
  timers_end s now read_at over = ground (arith, over)

  -- Past the deadline a poll ends the call, unless it takes up an attempt that failed.
  joined_end :
      (s : Engine) (j : Joined R) (read_at : ℕ)
      → (has_ended (on_joined s j read_at) ≡ true)
        ⊎ ((s' : Engine) × (on_joined s j read_at ≡ continues s')
            × (s'.deadline ≡ s.deadline)
            × (s'.in_flight ≡ s.in_flight - 1))
  unfolding on_joined attempt_failed has_ended
  joined_end s (finished (ok r)) read_at = inl refl
  joined_end s (finished (err e)) read_at = inr (attempt_failed s e read_at, refl, refl, refl)
  joined_end s (panicked e) read_at = inr (attempt_failed s e read_at, refl, refl, refl)

  past :
      (s : Engine) (q : Poll R)
      → s.deadline ≤ q.now
      → (has_ended (poll s q) ≡ true)
        ⊎ ((s' : Engine) × (poll s q ≡ continues s')
            × (s'.deadline ≡ s.deadline)
            × (s'.in_flight ≡ s.in_flight - 1)
            × (0 < s.in_flight))
  unfolding has_ended
  past s q over =
      let timers = timers_end s q.now q.read_at over in
      elim (Option-cases q.joined) [
        | inl e ↦ inl (ap has_ended (no_join s q e ∙ timers))
        | inr (j, e) ↦ elim (Bool-cases (ltb 0 s.in_flight)) [
          | inr f ↦ inl (ap has_ended (late_join s q j e f ∙ timers))
          | inl t ↦ elim (joined_end s j q.read_at) [
            | inl h ↦ inl (ap has_ended (one_join s q j e t) ∙ h)
            | inr (s', h, same, fewer) ↦
                inr (s', one_join s q j e t ∙ h, same, fewer, ground (arith, t))
          ]
        ]
      ]

  ended_stays :
      (s : Engine) (q : Poll R) (qs : List (Poll R))
      → has_ended (poll s q) ≡ true
      → resolve_loop s (q ∷ qs) ≡ poll s q
  unfolding has_ended resolve_loop
  ended_stays s q qs t = elim (Polled-cases (poll s q)) [
    | inl e ↦ ground (arith, ap has_ended e, t)
    | inr (inl (s', e)) ↦ ground (arith, ap has_ended e, t)
    | inr (inr (inl (s', r, e))) ↦ rw (e, resolve_loop) refl
    | inr (inr (inr (s', b, e))) ↦ rw (e, resolve_loop) refl
  ]

  late_end :
      (d : ℕ) (s : Engine) (qs : List (Poll R))
      → s.deadline ≡ d
      → All (λ q. d ≤ q.now) qs
      → s.in_flight < length qs
      → has_ended (resolve_loop s qs) ≡ true
  unfolding has_ended resolve_loop
  late_end d s [] same late many = ground arith
  late_end d s (q ∷ qs) same (now, late) many = elim (past s q (omega arith)) [
    | inl t ↦ rw (ended_stays s q qs t) t
    | inr (s', e, d', fewer, some_flying) ↦
        rw (e, resolve_loop) (late_end d s' qs (d' ∙ same) late (omega arith))
  ]

  ends_from :
      (i d : ℕ) (s : Engine) (ps qs : List (Poll R))
      → IsRunning i d s
      → All (λ q. d ≤ q.now) qs
      → 8 < length qs
      → has_ended (resolve_loop s (ps ++ qs)) ≡ true
  unfolding has_ended max_in_flight resolve_loop
  ends_from i d s [] qs v late many =
      late_end d s qs v.same_deadline late (ground (arith, v.within_cap))
  ends_from i d s (p ∷ ps) qs v late many =
      let end = poll-IsEnd i d s p v in
      elim (Polled-cases (poll s p)) [
        | inl e ↦ rw (e, resolve_loop) (ends_from i d s ps qs v late many)
        | inr (inl (s', e)) ↦
            rw (e, resolve_loop) (ends_from i d s' ps qs (running s' (rw e at end)) late many)
        | inr (inr (inl (s', r, e))) ↦ rw (e, resolve_loop) refl
        | inr (inr (inr (s', b, e))) ↦ rw (e, resolve_loop) refl
      ]

  -- A query ends, whatever happened before, once the loop has been polled nine times past the
  -- deadline.
  pub resolve_loop-has_ended :
      (interval max_wait now : ℕ) (ps qs : List (Poll R))
      → All (λ q. now + max_wait ≤ q.now) qs
      → 8 < length qs
      → has_ended (resolve_loop (start interval max_wait now) (ps ++ qs)) ≡ true
  resolve_loop-has_ended interval max_wait now ps qs late many =
      ends_from interval (now + max_wait) (start interval max_wait now) ps qs
        (start-IsRunning interval max_wait now) late many
