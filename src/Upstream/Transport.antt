-- ===== src/Upstream/Transport.antt =====
-- upstream/plain.rs and upstream/dot.rs: queries over UDP and over TLS, with the sockets as
-- functions from what is sent to what is received.
pub mod Framing
use dnsbuffer.Prelude.{
  ℕ, zero, suc, ◌+◌, ◌-◌, ◌*◌, ◌/◌, ◌%◌, ◌^◌, ◌≤◌, ◌<◌, min, max, ◌≡◌, refl, sym, ap, ◌∙◌, ◌≢◌, ◌↔◌,
  ◌⊎◌, inl, inr, Bool, true, false, not, ◌&&◌, ◌||◌, Option, none, some, List, [], ◌∷◌, ◌++◌, map,
  reverse, arith, ltb, leb, nat_beq, if◌then◌else◌, tests, Bool-cases, Option-cases, Eq, ◌==◌,
  nat_beq_iff, ==_iff, ==_refl, nat_eq, list_beq, list_beq_iff, list_eq, length, get_elem?, drop,
  length-append, All, any_of, All-append, sum, contains, contains-append,
}
use dnsbuffer.Text.{Text, str}
use dnsbuffer.Message.{Hickory, Message}
use dnsbuffer.Resolver.{Result, ok, err, ◌>>=◌}

unfoldable pub take : ℕ → List ℕ → List ℕ
take zero xs = []
take (suc n) [] = []
take (suc n) (x ∷ xs) = x ∷ take n xs

-- `read_exact` of `n` bytes, with what is left; an error if the stream ends before.
unfoldable pub read_exact : ℕ → List ℕ → Result (List ℕ × List ℕ)
read_exact n xs =
    if ltb (length xs) n then err (str "unexpected end of file") else ok (take n xs, drop n xs)

-- The length as two bytes, the high one first, and the message.
unfoldable pub frame : List ℕ → List ℕ
frame bytes = length bytes / 256 % 256 ∷ length bytes % 256 ∷ bytes

-- `u16::from_be_bytes`, of the bytes of the prefix.
unfoldable pub from_be_bytes : List ℕ → ℕ
from_be_bytes [] = 0
from_be_bytes (hi ∷ []) = 0
from_be_bytes (hi ∷ lo ∷ _) = hi * 256 + lo

unfoldable pub read_frame : List ℕ → Result (List ℕ)
read_frame stream =
    read_exact 2 stream
    >>= (λ prefix. read_exact (from_be_bytes prefix.0) prefix.1)
    >>= (λ message. ok message.0)

module _ (h : Hickory) where
  -- Decoding, and the test of the id.
  unfoldable pub accept : Message → List ℕ → Result Message
  accept query bytes = elim (h.from_vec bytes) [
    | none ↦ err (str "decoding response")
    | some resp ↦
        if resp.metadata.id == query.metadata.id then ok resp else err (str "response id mismatch")
  ]

  -- `PlainResolver::resolve`; the buffer holds 65535 bytes of a datagram.
  unfoldable pub plain_resolve : (List ℕ → Result (List ℕ)) → Message → Result Message
  plain_resolve socket query = elim (h.to_vec query) [
    | none ↦ err (str "encoding query")
    | some bytes ↦ socket bytes >>= (λ datagram. accept query (take 65535 datagram))
  ]

  -- What is written: the query in its frame, if it fits.
  unfoldable pub framed_query : Message → Result (List ℕ)
  framed_query query = elim (h.to_vec query) [
    | none ↦ err (str "encoding query")
    | some bytes ↦
        if ltb 65535 (length bytes)
        then err (str "query too large for DoT framing")
        else ok (frame bytes)
  ]

  -- `DotResolver::exchange`, on a connection that gives back a stream for what is written.
  unfoldable pub dot_exchange : Result (List ℕ → Result (List ℕ)) → Message → Result Message
  dot_exchange connection query =
      connection >>= (λ tls. framed_query query >>= tls) >>= read_frame >>= accept query
