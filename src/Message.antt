-- ===== src/Message.antt =====
-- The DNS messages that the program handles: the public fields of hickory's `Message` that the
-- sources read or write, and hickory's functions as a parameter with their documented behaviour.
use dnsbuffer.Prelude.{
  ℕ, ◌≡◌, ◌↔◌, Bool, true, false, Option, none, some, List, [], ◌∷◌, ◌++◌, arith, Eq, ◌==◌, nat_eq,
  list_eq,
}
use dnsbuffer.Text.{Text}

-- `IpAddr`: the address by its bits.
pub data IpAddr : Type 0 where
  v4 v6 : ℕ → IpAddr

unfoldable pub ip_beq : IpAddr → IpAddr → Bool
ip_beq (v4 a) (v4 b) = a == b
ip_beq (v6 a) (v6 b) = a == b
ip_beq _ _ = false

pub ip_beq_iff : (a b : IpAddr) → (ip_beq a b ≡ true) ↔ (a ≡ b)
unfolding ip_beq
ip_beq_iff (v4 a) (v4 b) = ground arith
ip_beq_iff (v4 a) (v6 b) = ground arith
ip_beq_iff (v6 a) (v4 b) = ground arith
ip_beq_iff (v6 a) (v6 b) = ground arith

instance abbrev pub ip_eq : Eq IpAddr
ip_eq = record { beq = ip_beq; beq_iff = ip_beq_iff }

abbrev pub is_ipv6 : IpAddr → Bool
is_ipv6 (v4 _) = false
is_ipv6 (v6 _) = true

-- `is_unspecified`: 0.0.0.0 or ::.
abbrev pub is_unspecified : IpAddr → Bool
is_unspecified (v4 a) = a == 0
is_unspecified (v6 a) = a == 0

-- A record type by its number, `u16::from(record_type)`.
abbrev pub type_a : ℕ
type_a = 1

abbrev pub type_aaaa : ℕ
type_aaaa = 28

abbrev pub type_https : ℕ
type_https = 65

-- A parameter of an HTTPS record: the ECH configuration list, or another key.
pub data SvcParam : Type 0 where
  ech_config_list : List ℕ → SvcParam
  other_param : ℕ → SvcParam

-- The record data that the sources tell apart; an address record holds its address.
pub data RData : Type 0 where
  address : IpAddr → RData
  https : List SvcParam → RData
  other_data : ℕ → RData

pub record Record : Type 0 where
  pub name : Text
  pub ttl : ℕ
  pub rdata : RData

-- `name` is the text that `Name::to_string` gives.
pub record Query : Type 0 where
  pub name : Text
  pub query_type : ℕ
  pub query_class : ℕ

pub data MessageType : Type 0 where
  query response : MessageType

pub data ResponseCode : Type 0 where
  no_error form_err serv_fail nx_domain not_imp refused yx_domain yx_rr_set nx_rr_set not_auth :
      ResponseCode
  not_zone bad_vers bad_sig bad_key bad_time bad_mode bad_name bad_alg bad_trunc bad_cookie :
      ResponseCode
  unknown : ℕ → ResponseCode

-- `code == ResponseCode::NoError`.
abbrev pub is_no_error : ResponseCode → Bool
is_no_error no_error = true
is_no_error _ = false

pub record Metadata : Type 0 where
  pub id : ℕ
  pub message_type : MessageType
  pub op_code : ℕ
  pub recursion_desired : Bool
  pub recursion_available : Bool
  pub response_code : ResponseCode

pub data EdnsOption : Type 0 where
  subnet : IpAddr → ℕ → ℕ → EdnsOption
  other_option : ℕ → EdnsOption

pub record Edns : Type 0 where
  pub max_payload : ℕ
  pub options : List EdnsOption

pub record Message : Type 0 where
  pub metadata : Metadata
  pub queries : List Query
  pub answers : List Record
  pub edns : Option Edns

-- The client-subnet options among a list of options, and the others.
unfoldable pub subnets : List EdnsOption → List EdnsOption
subnets [] = []
subnets (subnet a p q ∷ os) = subnet a p q ∷ subnets os
subnets (other_option n ∷ os) = subnets os

unfoldable pub others : List EdnsOption → List EdnsOption
others [] = []
others (subnet a p q ∷ os) = others os
others (other_option n ∷ os) = other_option n ∷ others os

-- The functions of hickory that the sources call.
pub record Hickory : Type 0 where
  pub new_message : ℕ → MessageType → ℕ → Message
  pub add_query : Message → Query → Message
  pub add_answer : Message → Record → Message
  pub new_edns : Edns
  pub set_max_payload : ℕ → Edns → Edns
  pub insert_option : EdnsOption → Edns → Edns
  pub remove_subnet : Edns → Edns
  pub to_vec : Message → Option (List ℕ)
  pub from_vec : List ℕ → Option Message

-- Their documented behaviour, as far as the sources rely on it.
pub record IsDocumented (h : Hickory) : Type 0 where
  pub new-id : (i : ℕ) (t : MessageType) (o : ℕ) → (h.new_message i t o).metadata.id ≡ i
  pub new-type : (i : ℕ) (t : MessageType) (o : ℕ) → (h.new_message i t o).metadata.message_type ≡ t
  pub new-op_code : (i : ℕ) (t : MessageType) (o : ℕ) → (h.new_message i t o).metadata.op_code ≡ o
  pub new-queries : (i : ℕ) (t : MessageType) (o : ℕ) → (h.new_message i t o).queries ≡ []
  pub new-answers : (i : ℕ) (t : MessageType) (o : ℕ) → (h.new_message i t o).answers ≡ []
  pub adds_query :
      (m : Message) (q : Query) → h.add_query m q ≡ record m { queries = m.queries ++ q ∷ [] }
  pub adds_answer :
      (m : Message) (r : Record) → h.add_answer m r ≡ record m { answers = m.answers ++ r ∷ [] }
  pub new_edns-subnets : subnets h.new_edns.options ≡ []
  pub sets_max_payload : (n : ℕ) (e : Edns) → h.set_max_payload n e ≡ record e { max_payload = n }
  pub inserts_subnet :
      (a : IpAddr) (p q : ℕ) (e : Edns)
      → subnets e.options ≡ []
      → subnets (h.insert_option (subnet a p q) e).options ≡ subnet a p q ∷ []
  pub insert-others :
      (a : IpAddr) (p q : ℕ) (e : Edns)
      → others (h.insert_option (subnet a p q) e).options ≡ others e.options
  pub removes_subnet : (e : Edns) → subnets (h.remove_subnet e).options ≡ []
  pub remove-others : (e : Edns) → others (h.remove_subnet e).options ≡ others e.options

-- `items.first()`.
abbrev pub first {ℓ} : {A : Type ℓ} → List A → Option A
first [] = none
first (x ∷ _) = some x
