-- ===== src/Upstream/Transport/Framing.antt =====
-- The frames of a stream, and the ids of responses.
use dnsbuffer.Prelude.{
  ℕ, suc, ◌+◌, ◌*◌, ◌/◌, ◌%◌, ◌≤◌, ◌≡◌, refl, ap, ◌∙◌, inl, inr, false, List, [], ◌∷◌, ◌++◌, arith,
  ltb, Option-cases, nat_eq, list_eq, length, drop, length-append,
}
use dnsbuffer.Message.{Hickory, Message}
use dnsbuffer.Resolver.{Result, ok, ◌>>=◌, Result-cases}
use dnsbuffer.Upstream.Transport.{
  take, read_exact, frame, from_be_bytes, read_frame, accept, plain_resolve, framed_query,
  dot_exchange,
}

take-append : (xs ys : List ℕ) → take (length xs) (xs ++ ys) ≡ xs
unfolding take
take-append [] ys = refl
take-append (x ∷ xs) ys = ap (λ l. x ∷ l) (take-append xs ys)

read_exact-append :
    (xs ys : List ℕ) (n : ℕ) → n ≡ length xs → read_exact n (xs ++ ys) ≡ ok (xs, drop n (xs ++ ys))
unfolding read_exact
read_exact-append xs ys n e =
    let room : ltb (length (xs ++ ys)) n ≡ false = ground (arith, e, length-append xs ys) in
    rw room
      (ap (λ t. ok (t, drop n (xs ++ ys))) (ap (λ k. take k (xs ++ ys)) e ∙ take-append xs ys))

prefix_lem : (hi lo : ℕ) (xs : List ℕ) → read_exact 2 (hi ∷ lo ∷ xs) ≡ ok (hi ∷ lo ∷ [], xs)
unfolding read_exact take
prefix_lem hi lo xs =
    let room : ltb (suc (suc (length xs))) 2 ≡ false = ground arith in rw room refl

-- A message of at most 65535 bytes is read back from its frame, whatever follows it in the stream.
pub read_frame-frame :
    (bytes rest : List ℕ) → length bytes ≤ 65535 → read_frame (frame bytes ++ rest) ≡ ok bytes
unfolding read_frame frame from_be_bytes
read_frame-frame bytes rest small =
    let hi = length bytes / 256 % 256 in
    let lo = length bytes % 256 in
    let value : hi * 256 + lo ≡ length bytes = omega arith in
    rw
      (
        prefix_lem hi lo (bytes ++ rest),
        read_exact-append bytes rest (hi * 256 + lo) value,
        read_frame,
      )
      refl

accept-id :
    (h : Hickory) (query resp : Message) (bytes : List ℕ)
    → accept h query bytes ≡ ok resp
    → resp.metadata.id ≡ query.metadata.id
unfolding accept
accept-id h query resp bytes e = elim (Option-cases (h.from_vec bytes)) [
  | inl f ↦ ground (arith, rw (f, accept) at e)
  | inr (r, f) ↦ ground (arith, rw (f, accept) at e)
]

-- A response over UDP has the id of its query.
pub id-plain_resolve :
    (h : Hickory) (socket : List ℕ → Result (List ℕ)) (query resp : Message)
    → plain_resolve h socket query ≡ ok resp
    → resp.metadata.id ≡ query.metadata.id
unfolding plain_resolve
id-plain_resolve h socket query resp e = elim (Option-cases (h.to_vec query)) [
  | inl f ↦ ground (arith, rw (f, plain_resolve) at e)
  | inr (bytes, f) ↦ elim (Result-cases (socket bytes)) [
    | inr (x, g) ↦ ground (arith, rw (f, g, plain_resolve) at e)
    | inl (datagram, g) ↦
        accept-id h query resp (take 65535 datagram) (rw (f, g, plain_resolve) at e)
  ]
]

-- A response over TLS has the id of its query.
pub id-dot_exchange :
    (h : Hickory) (connection : Result (List ℕ → Result (List ℕ))) (query resp : Message)
    → dot_exchange h connection query ≡ ok resp
    → resp.metadata.id ≡ query.metadata.id
unfolding dot_exchange
id-dot_exchange h connection query resp e = elim (Result-cases connection) [
  | inr (x, f) ↦ ground (arith, rw (f, dot_exchange) at e)
  | inl (tls, f) ↦ elim (Result-cases (framed_query h query >>= tls)) [
    | inr (x, g) ↦ ground (arith, rw (f, g, dot_exchange) at e)
    | inl (stream, g) ↦ elim (Result-cases (read_frame stream)) [
      | inr (x, k) ↦ ground (arith, rw (f, g, k, dot_exchange) at e)
      | inl (bytes, k) ↦ accept-id h query resp bytes (rw (f, g, k, dot_exchange) at e)
    ]
  ]
]
