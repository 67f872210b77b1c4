-- ===== src/Upstream/Doh3/Fresh.antt =====
-- The generation of the shared connection is below the counter, which goes up by one at a time.
use dnsbuffer.Prelude.{
  ℕ, ◌+◌, ◌^◌, ◌≤◌, ◌<◌, ◌≡◌, refl, inl, inr, Option, none, some, List, [], ◌∷◌, arith, Bool-cases,
  ◌==◌, nat_eq, list_eq, length,
}
use dnsbuffer.Message.{IpAddr}
use dnsbuffer.Resolver.{ok, err}
use dnsbuffer.Upstream.Doh3.{
  Outcome, finished, pending, panicked, H3State, Shared, Turn, acquire, invalidate_generation,
  allocate_generation, discard_closed, install, connect, lease,
}
use dnsbuffer.Upstream.Doh3.Sections.{Section, entered, failed, run_section, run_sections}

-- The numbers of generations that have not been given out in `n` calls are left.
abbrev pub HasRoom : ℕ → ℕ → Type 0
HasRoom next n = next + n < 2 ^ 64

module _ {C S : Type 0} (ips : List IpAddr) where
  -- The counter is past the generation of the connection that is there.
  abbrev pub IsFresh : Shared C S → Type 0
  IsFresh s = elim s.state [
    | none ↦ Unit {0}
    | some current ↦ current.generation < s.next_generation
  ]

  pub discard_closed-IsFresh :
      (t : Turn C S) (o : Option (H3State C S)) (n : ℕ)
      → IsFresh (record { state = o; next_generation = n })
      → IsFresh (discard_closed t (record { state = o; next_generation = n }))
  unfolding discard_closed
  discard_closed-IsFresh t none n h = tt
  discard_closed-IsFresh t (some current) n h = elim (Bool-cases (t.is_closed current.conn)) [
    | inl closed ↦ rw closed tt
    | inr alive ↦ rw alive h
  ]

  pub lease-IsFresh :
      (o : Option (H3State C S)) (c : Outcome (C × S)) (n : ℕ)
      → HasRoom n 1
      → IsFresh (record { state = o; next_generation = n })
      → IsFresh (lease o c (record { state = o; next_generation = n })).0
  unfolding lease install allocate_generation
  lease-IsFresh (some current) c n room h = h
  lease-IsFresh none (finished (ok pair)) n room h = ground arith
  lease-IsFresh none (finished (err e)) n room h = tt
  lease-IsFresh none pending n room h = tt
  lease-IsFresh none panicked n room h = tt

  pub next-discard_closed :
      (t : Turn C S) (o : Option (H3State C S)) (n : ℕ)
      → (discard_closed t (record { state = o; next_generation = n })).next_generation ≡ n
  unfolding discard_closed
  next-discard_closed t none n = refl
  next-discard_closed t (some current) n = elim (Bool-cases (t.is_closed current.conn)) [
    | inl closed ↦ rw closed refl
    | inr alive ↦ rw alive refl
  ]

  pub acquire-IsFresh :
      (t : Turn C S) (s : Shared C S)
      → HasRoom s.next_generation 1
      → IsFresh s
      → IsFresh (acquire ips t s).0
  unfolding acquire
  acquire-IsFresh t s room h =
      let s' = discard_closed t s in
      lease-IsFresh s'.state (connect t none ips) s'.next_generation
        (omega (arith, next-discard_closed t s.state s.next_generation))
        (discard_closed-IsFresh t s.state s.next_generation h)

  -- The counter goes up by one at most.
  pub next-lease :
      (o : Option (H3State C S)) (c : Outcome (C × S)) (n : ℕ)
      → HasRoom n 1
      → (lease o c (record { state = o; next_generation = n })).0.next_generation ≤ n + 1
  unfolding lease install allocate_generation
  next-lease (some current) c n room = omega arith
  next-lease none (finished (ok pair)) n room = ground arith
  next-lease none (finished (err e)) n room = omega arith
  next-lease none pending n room = omega arith
  next-lease none panicked n room = omega arith

  pub next-acquire :
      (t : Turn C S) (s : Shared C S)
      → HasRoom s.next_generation 1
      → (acquire ips t s).0.next_generation ≤ s.next_generation + 1
  unfolding acquire
  next-acquire t s room =
      let s' = discard_closed t s in
      let same = next-discard_closed t s.state s.next_generation in
      omega (
        arith,
        next-lease s'.state (connect t none ips) s'.next_generation (omega (arith, same)),
        same,
      )

  pub invalidate_generation-IsFresh :
      (g : ℕ) (o : Option (H3State C S)) (n : ℕ)
      → IsFresh (record { state = o; next_generation = n })
      → IsFresh (invalidate_generation g (record { state = o; next_generation = n }))
  unfolding invalidate_generation
  invalidate_generation-IsFresh g none n h = h
  invalidate_generation-IsFresh g (some current) n h = elim (Bool-cases (current.generation == g)) [
    | inl e ↦ rw e tt
    | inr e ↦ rw e h
  ]

  pub next-invalidate_generation :
      (g : ℕ) (o : Option (H3State C S)) (n : ℕ)
      → (invalidate_generation g (record { state = o; next_generation = n })).next_generation ≡ n
  unfolding invalidate_generation
  next-invalidate_generation g none n = refl
  next-invalidate_generation g (some current) n = elim (Bool-cases (current.generation == g)) [
    | inl e ↦ rw e refl
    | inr e ↦ rw e refl
  ]

  pub run_section-IsFresh :
      (x : Section C S) (s : Shared C S)
      → HasRoom s.next_generation 1
      → IsFresh s
      → IsFresh (run_section ips x s)
  unfolding run_section
  run_section-IsFresh (entered t) s room h = acquire-IsFresh t s room h
  run_section-IsFresh (failed g) s room h =
      invalidate_generation-IsFresh g s.state s.next_generation h

  pub next-run_section :
      (x : Section C S) (s : Shared C S)
      → HasRoom s.next_generation 1
      → (run_section ips x s).next_generation ≤ s.next_generation + 1
  unfolding run_section
  next-run_section (entered t) s room = next-acquire t s room
  next-run_section (failed g) s room =
      omega (arith, next-invalidate_generation g s.state s.next_generation)

  -- Along any sections, as long as the numbers last.
  pub run_sections-IsFresh :
      (xs : List (Section C S)) (s : Shared C S) (n : ℕ)
      → HasRoom s.next_generation (length xs + n)
      → IsFresh s
      → IsFresh (run_sections ips xs s) × HasRoom (run_sections ips xs s).next_generation n
  unfolding run_sections
  run_sections-IsFresh [] s n room h = (h, omega arith)
  run_sections-IsFresh (x ∷ xs) s n room h =
      let next = next-run_section x s (omega arith) in
      run_sections-IsFresh xs (run_section ips x s) n (omega (arith, next))
        (run_section-IsFresh x s (omega arith) h)
