-- ===== src/Local.antt =====
-- The response that hosts.rs and filter.rs start from when they answer a query themselves, with
-- the question and the addresses that they add to it.
use dnsbuffer.Prelude.{ℕ, ◌≡◌, refl, true, List, [], ◌∷◌, ◌++◌, nat_eq, list_eq}
use dnsbuffer.Text.{Text}
use dnsbuffer.Message.{
  Hickory, IsDocumented, Message, Query, Record, IpAddr, address, response, no_error,
}

abbrev pub address_record : Text → ℕ → IpAddr → Record
address_record owner t ip = record { name = owner; ttl = t; rdata = address ip }

module _ (h : Hickory) where
  -- `Message::new` and the assignments to its metadata.
  unfoldable pub local_response : Message → Message
  local_response query =
      let fresh = h.new_message query.metadata.id response query.metadata.op_code in
      record fresh {
        metadata = record (fresh.metadata) {
          response_code = no_error;
          recursion_desired = query.metadata.recursion_desired;
          recursion_available = true;
        };
      }

  -- A NoError response to `query` that echoes the questions `qs` and holds the records `rs`.
  pub record IsLocal (query : Message) (qs : List Query) (rs : List Record) (resp : Message)
      : Type 0 where
    pub same_id : resp.metadata.id ≡ query.metadata.id
    pub is_response : resp.metadata.message_type ≡ response
    pub same_op_code : resp.metadata.op_code ≡ query.metadata.op_code
    pub same_desired : resp.metadata.recursion_desired ≡ query.metadata.recursion_desired
    pub succeeds : resp.metadata.response_code ≡ no_error
    pub echoes : resp.queries ≡ qs
    pub answers : resp.answers ≡ rs

  module _ (doc : IsDocumented h) where
    pub local_response-IsLocal : (query : Message) → IsLocal query [] [] (local_response query)
    unfolding local_response
    local_response-IsLocal query =
        let i = query.metadata.id in
        let o = query.metadata.op_code in
        record {
          same_id = doc.new-id i response o;
          is_response = doc.new-type i response o;
          same_op_code = doc.new-op_code i response o;
          same_desired = refl;
          succeeds = refl;
          echoes = doc.new-queries i response o;
          answers = doc.new-answers i response o;
        }

    pub add_query-IsLocal :
        {query : Message} {qs : List Query} {rs : List Record} {resp : Message} (q : Query)
        → IsLocal query qs rs resp
        → IsLocal query (qs ++ q ∷ []) rs (h.add_query resp q)
    add_query-IsLocal {resp = resp} q l = rw (doc.adds_query resp q) (record {
      same_id = l.same_id;
      is_response = l.is_response;
      same_op_code = l.same_op_code;
      same_desired = l.same_desired;
      succeeds = l.succeeds;
      echoes = rw l.echoes;
      answers = l.answers;
    })

    pub add_answer-IsLocal :
        {query : Message} {qs : List Query} {rs : List Record} {resp : Message} (r : Record)
        → IsLocal query qs rs resp
        → IsLocal query qs (rs ++ r ∷ []) (h.add_answer resp r)
    add_answer-IsLocal {resp = resp} r l = rw (doc.adds_answer resp r) (record {
      same_id = l.same_id;
      is_response = l.is_response;
      same_op_code = l.same_op_code;
      same_desired = l.same_desired;
      succeeds = l.succeeds;
      echoes = l.echoes;
      answers = rw l.answers;
    })
