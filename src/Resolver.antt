-- ===== src/Resolver.antt =====
-- resolver.rs: the resolvers' results, and the SERVFAIL response.
use dnsbuffer.Prelude.{
  ◌≡◌, refl, ◌∙◌, ◌⊎◌, inl, inr, Bool, true, false, Option, none, some, List, [], ◌∷◌, ◌++◌, arith,
  nat_eq, list_eq,
}
use dnsbuffer.Text.{Text}
use mathlib.Core.List.{append-nil, append_assoc}
use dnsbuffer.Message.{Hickory, IsDocumented, Message, Query, response, serv_fail}

-- `anyhow::Result`; an error is its text.
pub data Result {ℓ} (A : Type ℓ) : Type ℓ where
  ok : A → Result A
  err : Text → Result A

infixl 5 ◌>>=◌
abbrev pub ◌>>=◌ {ℓ κ} : {A : Type ℓ} {B : Type κ} → Result A → (A → Result B) → Result B
ok a >>= f = f a
err e >>= f = err e

abbrev pub is_ok {ℓ} : {A : Type ℓ} → Result A → Bool
is_ok (ok _) = true
is_ok (err _) = false

pub Result-cases {ℓ} :
    {A : Type ℓ} (r : Result A) → ((a : A) × (r ≡ ok a)) ⊎ ((e : Text) × (r ≡ err e))
Result-cases (ok a) = inl (a, refl)
Result-cases (err e) = inr (e, refl)

pub >>=-ok {ℓ κ} :
    {A : Type ℓ} {B : Type κ} (r : Result A) (f : A → Result B) (b : B)
    → (r >>= f) ≡ ok b
    → (a : A) × (r ≡ ok a) × (f a ≡ ok b)
>>=-ok (ok a) f b h = (a, refl, h)
>>=-ok (err e) f b h = absurd (ground arith)

pub >>=-err {ℓ κ} :
    {A : Type ℓ} {B : Type κ} (r : Result A) (f : A → Result B) (e : Text)
    → (r >>= f) ≡ err e
    → (r ≡ err e) ⊎ ((a : A) × (r ≡ ok a) × (f a ≡ err e))
>>=-err (ok a) f e h = inr (a, refl, h)
>>=-err (err x) f e h = inl (ground arith)

pub ok-injective {ℓ} : {A : Type ℓ} {a b : A} → ok a ≡ ok b → a ≡ b
ok-injective h = ground arith

-- `context` of anyhow, on an `Option`.
abbrev pub context {ℓ} : {A : Type ℓ} → Option A → Text → Result A
context (some a) e = ok a
context none e = err e

pub context-ok {ℓ} :
    {A : Type ℓ} (o : Option A) (e : Text) (a : A) → context o e ≡ ok a → o ≡ some a
context-ok (some b) e a h = ground arith
context-ok none e a h = absurd (ground arith)

module _ (h : Hickory) where
  -- `for q in &query.queries { resp.add_query(q.clone()) }`
  unfoldable pub add_queries : Message → List Query → Message
  add_queries m [] = m
  add_queries m (q ∷ qs) = add_queries (h.add_query m q) qs

  unfoldable pub servfail : Message → Message
  servfail q =
      let fresh = h.new_message q.metadata.id response q.metadata.op_code in
      let resp = record fresh {
        metadata = record (fresh.metadata) {
          recursion_desired = q.metadata.recursion_desired;
          recursion_available = true;
          response_code = serv_fail;
        };
      } in
      add_queries resp q.queries

  module _ (doc : IsDocumented h) where
    add_queries_lem :
        (m : Message) (qs : List Query) → add_queries m qs ≡ record m { queries = m.queries ++ qs }
    unfolding add_queries
    add_queries_lem m [] = simp append-nil
    add_queries_lem m (q ∷ qs) =
        add_queries_lem (h.add_query m q) qs ∙ rw (doc.adds_query m q) (simp append_assoc)

    -- A SERVFAIL response answers its query: the same id, operation and questions, marked as a
    -- response with the code SERVFAIL and with no answer.
    pub servfail_answers :
        (q : Message)
        → ((servfail q).metadata.id ≡ q.metadata.id)
          × ((servfail q).metadata.message_type ≡ response)
          × ((servfail q).metadata.op_code ≡ q.metadata.op_code)
          × ((servfail q).metadata.recursion_desired ≡ q.metadata.recursion_desired)
          × ((servfail q).metadata.response_code ≡ serv_fail)
          × ((servfail q).queries ≡ q.queries)
          × ((servfail q).answers ≡ [])
    unfolding servfail
    servfail_answers q =
        let i = q.metadata.id in
        let o = q.metadata.op_code in
        rw add_queries_lem (
          doc.new-id i response o,
          doc.new-type i response o,
          doc.new-op_code i response o,
          refl,
          refl,
          rw (doc.new-queries i response o),
          doc.new-answers i response o,
        )
