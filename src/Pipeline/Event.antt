-- ===== src/Pipeline/Event.antt =====
-- pipeline.rs: the record of a query for the dashboard, and what counts as a blocked response.
use dnsbuffer.Prelude.{
  ℕ, ◌+◌, ◌-◌, ◌^◌, min, ◌≡◌, Bool, true, false, not, ◌&&◌, ◌||◌, Option, List, [], ◌∷◌, ◌++◌,
  arith, ltb, if◌then◌else◌, ◌==◌, nat_eq, list_eq, length, any_of,
}
use dnsbuffer.Prelude.Int.{ℤ}
use dnsbuffer.Text.{Text, str, normalize}
use dnsbuffer.Message.{
  Message, Query, Record, address, https, other_data, IpAddr, is_unspecified, ResponseCode,
  is_no_error, no_error, form_err, serv_fail, nx_domain, not_imp, refused, yx_domain, yx_rr_set,
  nx_rr_set, not_auth, not_zone, bad_vers, bad_sig, bad_key, bad_time, bad_mode, bad_name, bad_alg,
  bad_trunc, bad_cookie, unknown,
}
use dnsbuffer.Dashboard.Recorder.{Recorder, QueryEvent, try_record}

-- `to_string` of addresses, of record types and of numbers.
pub record Printers : Type 0 where
  pub show_ip : IpAddr → Text
  pub show_type : ℕ → Text
  pub show_number : ℕ → Text

-- `QueryOutcome`.
pub record Outcome : Type 0 where
  pub blocked : Bool
  pub cache_hit : Bool
  pub upstream : Option Text

-- `started_at_ms`, and the milliseconds that have gone by.
pub record Times : Type 0 where
  pub started_at_ms : ℤ
  pub elapsed_ms : ℕ

-- The loop of `is_blocked_response`, with `addresses` counted so far.
unfoldable pub all_unspecified : ℕ → List Record → Bool
all_unspecified addresses [] = ltb 0 addresses
all_unspecified addresses (r ∷ rs) =
    let step : ℕ → Bool = λ n. all_unspecified n rs in
    elim r.rdata [
      | address ip ↦ if is_unspecified ip then step (addresses + 1) else false
      | https _ ↦ step addresses
      | other_data _ ↦ step addresses
    ]

unfoldable pub is_blocked_response : Message → Bool
is_blocked_response m =
    if not (is_no_error m.metadata.response_code) then false else all_unspecified 0 m.answers

unfoldable pub response_code_name : (ℕ → Text) → ResponseCode → Text
response_code_name show no_error = str "NOERROR"
response_code_name show form_err = str "FORMERR"
response_code_name show serv_fail = str "SERVFAIL"
response_code_name show nx_domain = str "NXDOMAIN"
response_code_name show not_imp = str "NOTIMP"
response_code_name show refused = str "REFUSED"
response_code_name show yx_domain = str "YXDOMAIN"
response_code_name show yx_rr_set = str "YXRRSET"
response_code_name show nx_rr_set = str "NXRRSET"
response_code_name show not_auth = str "NOTAUTH"
response_code_name show not_zone = str "NOTZONE"
response_code_name show bad_vers = str "BADVERS"
response_code_name show bad_sig = str "BADSIG"
response_code_name show bad_key = str "BADKEY"
response_code_name show bad_time = str "BADTIME"
response_code_name show bad_mode = str "BADMODE"
response_code_name show bad_name = str "BADNAME"
response_code_name show bad_alg = str "BADALG"
response_code_name show bad_trunc = str "BADTRUNC"
response_code_name show bad_cookie = str "BADCOOKIE"
response_code_name show (unknown value) = str "RCODE" ++ show value

-- The texts of the addresses among the answers.
unfoldable pub answer_ips : (IpAddr → Text) → List Record → List Text
answer_ips show [] = []
answer_ips show (r ∷ rs) = elim r.rdata [
  | address ip ↦ show ip ∷ answer_ips show rs
  | https _ ↦ answer_ips show rs
  | other_data _ ↦ answer_ips show rs
]

-- The order of texts, by their characters.
unfoldable pub text_leb : Text → Text → Bool
text_leb [] t = true
text_leb (c ∷ s) [] = false
text_leb (c ∷ s) (d ∷ t) = ltb c d || (c == d && text_leb s t)

unfoldable pub insert_text : Text → List Text → List Text
insert_text t [] = t ∷ []
insert_text t (u ∷ us) = if text_leb t u then t ∷ u ∷ us else u ∷ insert_text t us

-- `ips.sort()`.
unfoldable pub sort_texts : List Text → List Text
sort_texts [] = []
sort_texts (t ∷ ts) = insert_text t (sort_texts ts)

unfoldable pub keep_first : Text → List Text → List Text
keep_first t [] = t ∷ []
keep_first t (u ∷ us) = if t == u then u ∷ us else t ∷ u ∷ us

-- `ips.dedup()`: of equal neighbours one stays.
unfoldable pub dedup : List Text → List Text
dedup [] = []
dedup (t ∷ ts) = keep_first t (dedup ts)

unfoldable pub query_event : Printers → Times → Query → Message → Outcome → QueryEvent
query_event print t q response o = record {
  timestamp_ms = t.started_at_ms;
  domain = normalize q.name;
  query_type = print.show_type q.query_type;
  response_code = response_code_name print.show_number response.metadata.response_code;
  duration_ms = min t.elapsed_ms (2 ^ 64 - 1);
  blocked = o.blocked;
  cache_hit = o.cache_hit;
  response_ips = dedup (sort_texts (answer_ips print.show_ip response.answers));
  upstream = o.upstream;
}

unfoldable pub record_query : Printers → Times → Query → Message → Outcome → Recorder → Recorder
record_query print t q response o r = (try_record r (query_event print t q response o)).0

-- The addresses among the answers.
unfoldable pub addresses_of : List Record → List IpAddr
addresses_of [] = []
addresses_of (r ∷ rs) = elim r.rdata [
  | address ip ↦ ip ∷ addresses_of rs
  | https _ ↦ addresses_of rs
  | other_data _ ↦ addresses_of rs
]

all_unspecified_lem :
    (n : ℕ) (rs : List Record)
    → all_unspecified n rs ≡ (
        ltb 0 (n + length (addresses_of rs))
        && not (any_of (λ ip. not (is_unspecified ip)) (addresses_of rs)))
unfolding all_unspecified addresses_of
all_unspecified_lem n [] = ground arith
all_unspecified_lem n (r ∷ rs) =
    ground (arith, all_unspecified_lem n rs, all_unspecified_lem (n + 1) rs)

-- A response counts as blocked exactly when it is NoError, holds an address, and holds no address
-- but the unspecified ones.
pub is_blocked_response_lem :
    (m : Message)
    → is_blocked_response m ≡ (
        is_no_error m.metadata.response_code
        && ltb 0 (length (addresses_of m.answers))
        && not (any_of (λ ip. not (is_unspecified ip)) (addresses_of m.answers)))
unfolding is_blocked_response
is_blocked_response_lem m = ground (arith, all_unspecified_lem 0 m.answers)
