-- ===== src/Upstream/Doh3/Requests.antt =====
-- How a request over HTTP/3 ends.
use dnsbuffer.Prelude.{ℕ, zero, suc, ◌≡◌, ◌⊎◌, false, none, some, List, [], nat_eq, list_eq}
use dnsbuffer.Text.{Text}
use dnsbuffer.Message.{IpAddr}
use dnsbuffer.Resolver.{ok, err}
use dnsbuffer.Upstream.Doh3.{
  Outcome, finished, pending, panicked, Reply, reply, recv_data, read_reply, connect,
}
use dnsbuffer.Upstream.Doh3.Sections.{Round}

module _ {C S : Type 0} (ips : List IpAddr) where
  -- In one of the attempts to go, a sender was asked, and `body` is all of a response with status
  -- 200, its chunks in their order.
  abbrev pub Fetched : (ℕ → Round C S) → ℕ → List ℕ → Type 0
  Fetched rounds zero body = ⊥
  Fetched rounds (suc n) body =
      ((sender : S) × (chunks : List (List ℕ)) × ((rounds n).send sender
          ≡ some (reply 200 chunks none))
        × (body ≡ recv_data [] chunks))
      ⊎ Fetched rounds n body

  -- In one of the attempts to go, `o` came of connecting.
  abbrev pub Connected : (ℕ → Round C S) → ℕ → Outcome (C × S) → Type 0
  Connected rounds zero o = ⊥
  Connected rounds (suc n) o = (connect (rounds n).turn none ips ≡ o) ⊎ Connected rounds n o

  -- In one of the attempts to go the time was over: while it was connecting, before a response was
  -- there, or before it had the lock again after a response that failed.
  abbrev pub TimedOut : (ℕ → Round C S) → ℕ → Type 0
  TimedOut rounds zero = ⊥
  TimedOut rounds (suc n) =
      (connect (rounds n).turn none ips ≡ pending)
      ⊎ ((sender : S) × ((rounds n).send sender ≡ none))
      ⊎ ((sender : S) × (response : Reply) × (e : Text) × ((rounds n).send sender ≡ some response)
          × (read_reply response ≡ err e)
          × ((rounds n).relocks ≡ false))
      ⊎ TimedOut rounds n

  -- How a call ends that has `n` attempts to go.
  abbrev pub EndsWith : (ℕ → Round C S) → ℕ → Outcome (List ℕ) → Type 0
  EndsWith rounds n (finished (ok body)) = Fetched rounds n body
  EndsWith rounds n (finished (err e)) =
      Connected rounds n (finished (err e))
      ⊎ ((sender : S) × (response : Reply) × ((rounds 0).send sender ≡ some response)
          × (read_reply response ≡ err e))
  EndsWith rounds n pending = TimedOut rounds n
  EndsWith rounds n panicked = Connected rounds n panicked
