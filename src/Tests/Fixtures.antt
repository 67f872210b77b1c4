-- ===== src/Tests/Fixtures.antt =====
-- A concrete stand-in for hickory that behaves as documented, and data for the runs.
use dnsbuffer.Prelude.{◌≡◌, refl, ap, true, false, none, some, List, [], ◌∷◌, ◌++◌, nat_eq, list_eq}
use dnsbuffer.Text.{Text, str}
use dnsbuffer.Message.{
  Hickory, IsDocumented, Message, query, response, no_error, EdnsOption, subnet, other_option,
  subnets, others, address, v4,
}

-- A client's query for the A record of `name`, with a client subnet.
abbrev pub ask : Text → Message
ask name = record {
  metadata = record {
    id = 4660;
    message_type = query;
    op_code = 0;
    recursion_desired = true;
    recursion_available = false;
    response_code = no_error;
  };
  queries = record { name = name; query_type = 1; query_class = 1 } ∷ [];
  answers = [];
  edns = some (record { max_payload = 4096; options = subnet (v4 3405803776) 24 0 ∷ [] });
}

-- A response with one address that lives for 300 seconds.
abbrev pub answer : Text → Message
answer name = record (ask name) {
  metadata = record ((ask name).metadata) { message_type = response };
  answers = record { name = name; ttl = 300; rdata = address (v4 16909060) } ∷ [];
}

-- Every message is decoded as the same query.
abbrev pub plain : Hickory
plain = record {
  new_message = λ i t o. record {
    metadata = record {
      id = i;
      message_type = t;
      op_code = o;
      recursion_desired = false;
      recursion_available = false;
      response_code = no_error;
    };
    queries = [];
    answers = [];
    edns = none;
  };
  add_query = λ m q. record m { queries = m.queries ++ q ∷ [] };
  add_answer = λ m r. record m { answers = m.answers ++ r ∷ [] };
  new_edns = record { max_payload = 1232; options = [] };
  set_max_payload = λ n e. record e { max_payload = n };
  insert_option = λ o e. record e { options = o ∷ e.options };
  remove_subnet = λ e. record e { options = others e.options };
  to_vec = λ m. some (0 ∷ 0 ∷ []);
  from_vec = λ bytes. some (ask (str "a.b."));
}

subnets-others : (os : List EdnsOption) → subnets (others os) ≡ []
unfolding subnets others
subnets-others [] = refl
subnets-others (subnet a p q ∷ os) = subnets-others os
subnets-others (other_option n ∷ os) = subnets-others os

others-others : (os : List EdnsOption) → others (others os) ≡ others os
unfolding others
others-others [] = refl
others-others (subnet a p q ∷ os) = others-others os
others-others (other_option n ∷ os) = ap (◌∷◌ (other_option n)) (others-others os)

pub plain-IsDocumented : IsDocumented plain
unfolding subnets others
plain-IsDocumented = record {
  new-id = λ i t o. refl;
  new-type = λ i t o. refl;
  new-op_code = λ i t o. refl;
  new-queries = λ i t o. refl;
  new-answers = λ i t o. refl;
  adds_query = λ m q. refl;
  adds_answer = λ m r. refl;
  new_edns-subnets = refl;
  sets_max_payload = λ n e. refl;
  inserts_subnet = λ a p q e h. ap (◌∷◌ (subnet a p q)) h;
  insert-others = λ a p q e. refl;
  removes_subnet = λ e. subnets-others e.options;
  remove-others = λ e. others-others e.options;
}
