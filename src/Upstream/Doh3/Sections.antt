-- ===== src/Upstream/Doh3/Sections.antt =====
-- upstream/doh3.rs: the requests of one task, between the sections of the others.
use dnsbuffer.Prelude.{
  ℕ, zero, suc, Bool, Option, none, some, List, [], ◌∷◌, if◌then◌else◌, nat_eq, list_eq,
}
use dnsbuffer.Message.{IpAddr}
use dnsbuffer.Resolver.{ok, err}
use dnsbuffer.Text.{Text}
use dnsbuffer.Upstream.Doh3.{
  Outcome, finished, pending, panicked, H3State, Shared, Turn, Reply, read_reply, acquire,
  invalidate_generation,
}

-- What another task does in one go under the lock.
pub data Section (C S : Type 0) : Type 0 where
  entered : Turn C S → Section C S
  failed : ℕ → Section C S

-- What an attempt meets: the sections of other tasks before it has the lock, its own turn, the
-- response if one comes in time, the sections of other tasks until it has the lock again, and
-- whether it has it in time.
pub record Round (C S : Type 0) : Type 0 where
  pub before : List (Section C S)
  pub turn : Turn C S
  pub send : S → Option Reply
  pub during : List (Section C S)
  pub relocks : Bool

module _ {C S : Type 0} (ips : List IpAddr) where
  unfoldable pub run_section : Section C S → Shared C S → Shared C S
  run_section (entered t) s = (acquire ips t s).0
  run_section (failed generation) s = invalidate_generation generation s

  unfoldable pub run_sections : List (Section C S) → Shared C S → Shared C S
  run_sections [] s = s
  run_sections (x ∷ xs) s = run_sections xs (run_section x s)

  -- The error of the last attempt is that of the request.
  unfoldable pub after_failure :
      ℕ
      → Text
      → Shared C S
      → (Shared C S → Shared C S × Outcome (List ℕ))
      → Shared C S × Outcome (List ℕ)
  after_failure zero e s next = (s, finished (err e))
  after_failure (suc left) e s next = next s

  -- What an attempt comes to once its response is there: the next attempt is `next`.
  unfoldable pub on_reply :
      Round C S
      → ℕ
      → H3State C S
      → Shared C S
      → Option Reply
      → (Shared C S → Shared C S × Outcome (List ℕ))
      → Shared C S × Outcome (List ℕ)
  on_reply r left used s none next = (s, pending)
  on_reply r left used s (some response) next = elim (read_reply response) [
    | ok body ↦ (s, finished (ok body))
    | err e ↦
        if r.relocks
        then after_failure left e (invalidate_generation used.generation s) next
        else (s, pending)
  ]

  -- An attempt, with `left` more to go.
  unfoldable pub attempt :
      Round C S
      → ℕ
      → Shared C S
      → (Shared C S → Shared C S × Outcome (List ℕ))
      → Shared C S × Outcome (List ℕ)
  attempt r left s next =
      let (s', leased) = acquire ips r.turn (run_sections r.before s) in
      elim leased [
        | finished (ok used) ↦
            on_reply r left used (run_sections r.during s') (r.send used.sender) next
        | finished (err e) ↦ (s', finished (err e))
        | pending ↦ (s', pending)
        | panicked ↦ (s', panicked)
      ]

  -- The loop, with `n` attempts to go; behind it is `unreachable!`.
  unfoldable pub request_from : (ℕ → Round C S) → ℕ → Shared C S → Shared C S × Outcome (List ℕ)
  request_from rounds zero s = (s, panicked)
  request_from rounds (suc n) s = attempt (rounds n) n s (request_from rounds n)

  unfoldable pub request : (ℕ → Round C S) → Shared C S → Shared C S × Outcome (List ℕ)
  request rounds s = request_from rounds 2 s
