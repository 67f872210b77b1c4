-- ===== src/Upstream/Doh/Answers.antt =====
-- Where the responses of a DoH upstream come from.
use dnsbuffer.Prelude.{
  ℕ, zero, suc, ◌≡◌, refl, ap, ◌∙◌, ◌≢◌, ◌⊎◌, inl, inr, true, false, Option, none, some, List,
  arith, Bool-cases, Option-cases, ◌==◌, nat_eq, list_eq,
}
use dnsbuffer.Text.{Text}
use dnsbuffer.Message.{Hickory, Message, IpAddr}
use dnsbuffer.Resolver.{ok, err}
use dnsbuffer.Upstream.Doh3.{Outcome, finished, pending, panicked, ◌then?◌, H3Conn}
use dnsbuffer.Upstream.Doh3.Sections.{Round, request}
use dnsbuffer.Upstream.Doh.{DohResolver}
use dnsbuffer.Upstream.Doh.Exchange.{
  H2Reply, not_sent, answered, no_reply, H2Round, connect_h2, sender_of, decode, on_answer,
  after_h2, on_h2, attempt_h2, h2_from, resolve_h2, resolve_h3, timed, resolve,
}

finished-injective : {A : Type 0} {a b : A} → finished (ok a) ≡ finished (ok b) → a ≡ b
finished-injective h = ground arith

Outcome-cases :
    {A : Type 0} (o : Outcome A)
    → ((a : A) × (o ≡ finished (ok a)))
      ⊎ ((e : Text) × (o ≡ finished (err e)))
      ⊎ (o ≡ pending)
      ⊎ (o ≡ panicked)
Outcome-cases (finished (ok a)) = inl (a, refl)
Outcome-cases (finished (err e)) = inr (inl (e, refl))
Outcome-cases pending = inr (inr (inl refl))
Outcome-cases panicked = inr (inr (inr refl))

then?-ok :
    {A B : Type 0} (o : Outcome A) (f : A → Outcome B) (b : B)
    → (o then? f) ≡ finished (ok b)
    → (a : A) × (o ≡ finished (ok a)) × (f a ≡ finished (ok b))
then?-ok (finished (ok a)) f b h = (a, refl, h)
then?-ok (finished (err e)) f b h = absurd (ground arith)
then?-ok pending f b h = absurd (ground arith)
then?-ok panicked f b h = absurd (ground arith)

timed-ok :
    (o : Outcome Message) (msg : Message) → timed o ≡ finished (ok msg) → o ≡ finished (ok msg)
unfolding timed
timed-ok (finished r) msg h = h
timed-ok pending msg h = absurd (ground arith)
timed-ok panicked msg h = absurd (ground arith)

module _ (h : Hickory) (query msg : Message) where
  -- The bytes are those of the response, which has the id of the query.
  abbrev pub Decodes : List ℕ → Type 0
  Decodes bytes = (h.from_vec bytes ≡ some msg) × (msg.metadata.id ≡ query.metadata.id)

  decode-ok : (bytes : List ℕ) → decode h query bytes ≡ finished (ok msg) → Decodes bytes
  unfolding decode
  decode-ok bytes e = elim (Option-cases (h.from_vec bytes)) [
    | inl f ↦ absurd (ground (arith, rw (f, decode) at e))
    | inr (m, f) ↦ elim (Bool-cases (m.metadata.id == query.metadata.id)) [
      | inr other ↦ absurd (ground (arith, rw (f, decode) at e))
      | inl same ↦
          let this : m ≡ msg = ground (arith, rw (f, decode) at e) in
          (f ∙ ap some this, rw (← this) (ground arith))
    ]
  ]

  module _ {H : Type 0} (ips : List IpAddr) (rounds : ℕ → H2Round H) where
    -- In one of the attempts to go, a sender was asked, and the body of its answer, of status 200,
    -- is the response.
    abbrev pub Answered : ℕ → Type 0
    Answered zero = ⊥
    Answered (suc n) =
        ((sender : H) × (bytes : List ℕ) × ((rounds n).send sender
            ≡ answered 200 (finished (ok bytes)))
          × Decodes bytes)
        ⊎ Answered n

    on_answer-ok :
        (status : ℕ) (body : Outcome (List ℕ))
        → on_answer h query status body ≡ finished (ok msg)
        → (status ≡ 200) × ((bytes : List ℕ) × (body ≡ finished (ok bytes)) × Decodes bytes)
    unfolding on_answer
    on_answer-ok status body e = elim (Bool-cases (status == 200)) [
      | inr bad ↦ absurd (ground (arith, rw (bad, on_answer) at e))
      | inl fine ↦
          let (bytes, whole, d) = then?-ok body (decode h query) msg (rw (fine, on_answer) at e) in
          (ground arith, (bytes, whole, decode-ok bytes d))
    ]

    after_h2-ok :
        (n : ℕ) (e : Text)
        → (after_h2 h n e (h2_from h ips rounds n query)).1 ≡ finished (ok msg)
        → (n ≢ 0) × ((h2_from h ips rounds n query none).1 ≡ finished (ok msg))
    unfolding after_h2
    after_h2-ok zero e f = absurd (ground arith)
    after_h2-ok (suc n) e f = (omega arith, f)

    on_h2-ok :
        (n : ℕ) (sender : H) (slot : Option H) (reply : H2Reply)
        → (rounds n).send sender ≡ reply
        → ((slot' : Option H)
            → (h2_from h ips rounds n query slot').1 ≡ finished (ok msg)
            → Answered n)
        → (on_h2 h (rounds n) n query slot reply (h2_from h ips rounds n query)).1
          ≡ finished (ok msg)
        → Answered (suc n)
    unfolding on_h2
    on_h2-ok n sender slot (answered status body) sent later e =
        let (fine, (bytes, whole, d)) = on_answer-ok status body e in
        inl (sender, bytes, sent ∙ rw (fine, whole) refl, d)
    on_h2-ok n sender slot no_reply sent later e = absurd (ground arith)
    on_h2-ok n sender slot (not_sent x) sent later e = elim (Bool-cases (rounds n).relocks) [
      | inr late ↦ absurd (ground (arith, rw (late, on_h2) at e))
      | inl locked ↦
          let (some_left, f) = after_h2-ok n x (rw (locked, on_h2) at e) in inr (later none f)
    ]

    attempt_h2-ok :
        (n : ℕ) (slot : Option H)
        → ((slot' : Option H)
            → (h2_from h ips rounds n query slot').1 ≡ finished (ok msg)
            → Answered n)
        → (attempt_h2 h ips (rounds n) n query slot (h2_from h ips rounds n query)).1
          ≡ finished (ok msg)
        → Answered (suc n)
    unfolding attempt_h2
    attempt_h2-ok n slot later e =
        let got = sender_of (connect_h2 (rounds n).dial ips) ((rounds n).meanwhile slot) in
        elim (Outcome-cases got.1) [
          | inl (sender, f) ↦
              on_h2-ok n sender ((rounds n).during got.0) ((rounds n).send sender) refl later
                (rw (f, attempt_h2) at e)
          | inr (inl (x, f)) ↦ absurd (ground (arith, rw (f, attempt_h2) at e))
          | inr (inr (inl f)) ↦ absurd (ground (arith, rw (f, attempt_h2) at e))
          | inr (inr (inr f)) ↦ absurd (ground (arith, rw (f, attempt_h2) at e))
        ]

    h2_from-ok :
        (n : ℕ) (slot : Option H)
        → (h2_from h ips rounds n query slot).1 ≡ finished (ok msg)
        → Answered n
    unfolding h2_from
    h2_from-ok zero slot e = absurd (ground arith)
    h2_from-ok (suc n) slot e = attempt_h2-ok n slot (h2_from-ok n) e

    Answered-id : (n : ℕ) → Answered n → msg.metadata.id ≡ query.metadata.id
    Answered-id zero d = absurd d
    Answered-id (suc n) (inl (sender, bytes, sent, d)) = d.1
    Answered-id (suc n) (inr d) = Answered-id n d

    resolve_h2-ok :
        (slot : Option H) → (resolve_h2 h ips rounds query slot).1 ≡ finished (ok msg) → Answered 2
    unfolding resolve_h2
    resolve_h2-ok slot e = elim (Option-cases (h.to_vec query)) [
      | inl f ↦ absurd (ground (arith, rw (f, resolve_h2) at e))
      | inr (bytes, f) ↦ h2_from-ok 2 slot (rw (f, resolve_h2) at e)
    ]

  module _ {C S E : Type 0} (h3_rounds : ℕ → Round C S) where
    -- The body that the HTTP/3 connection of the resolver fetches is the response.
    abbrev pub Requested : Option (H3Conn C S E) → Type 0
    Requested none = ⊥
    Requested (some conn) =
        (bytes : List ℕ) × ((request conn.ips h3_rounds conn.shared).1 ≡ finished (ok bytes))
        × Decodes bytes

    Requested-id :
        (conn : Option (H3Conn C S E)) → Requested conn → msg.metadata.id ≡ query.metadata.id
    Requested-id none d = absurd d
    Requested-id (some conn) (bytes, whole, d) = d.1

    resolve_h3-ok :
        (conn : Option (H3Conn C S E))
        → (resolve_h3 h conn h3_rounds query).1 ≡ finished (ok msg)
        → Requested conn
    unfolding resolve_h3
    resolve_h3-ok none e = absurd (ground arith)
    resolve_h3-ok (some conn) e = elim (Option-cases (h.to_vec query)) [
      | inl f ↦ absurd (ground (arith, rw (f, resolve_h3) at e))
      | inr (sent, f) ↦
          let (bytes, whole, d) =
            then?-ok (request conn.ips h3_rounds conn.shared).1 (decode h query) msg
              (rw (f, resolve_h3) at e) in
          (bytes, whole, decode-ok bytes d)
    ]

    -- A DoH upstream resolves a query. If it is set to HTTP/3, a response is the body that its HTTP/3
    -- connection fetched, and the sender of HTTP/2 is as it was: there is no downgrade. Otherwise a
    -- response is the body of an answer with status 200 to one of at most two attempts over HTTP/2,
    -- and the HTTP/3 connection is as it was. Either way the response has the id of the query.
    pub resolve-ok :
        {H T : Type 0} (h2_rounds : ℕ → H2Round H) (r : DohResolver H T C S E)
        → (resolve h h2_rounds h3_rounds query r).1 ≡ finished (ok msg)
        → (msg.metadata.id ≡ query.metadata.id)
          × (((r.http3 ≡ true)
                × Requested r.h3
                × ((resolve h h2_rounds h3_rounds query r).0.h2 ≡ r.h2))
              ⊎ ((r.http3 ≡ false)
                  × Answered r.ips h2_rounds 2
                  × ((resolve h h2_rounds h3_rounds query r).0.h3 ≡ r.h3)))
    unfolding resolve
    resolve-ok h2_rounds r e = elim (Bool-cases r.http3) [
      | inl three ↦
          let d = resolve_h3-ok r.h3 (timed-ok _ msg (rw (three, resolve) at e)) in
          (Requested-id r.h3 d, inl (three, d, rw (three, resolve) refl))
      | inr two ↦
          let d = resolve_h2-ok r.ips h2_rounds r.h2 (timed-ok _ msg (rw (two, resolve) at e)) in
          (Answered-id r.ips h2_rounds 2 d, inr (two, d, rw (two, resolve) refl))
    ]
