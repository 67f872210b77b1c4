-- ===== src/Dashboard/Store/Queries.antt =====
-- dashboard/store.rs: the pages of the query log.
use dnsbuffer.Prelude.{
  ℕ, ◌-◌, ◌*◌, ◌^◌, max, Bool, true, not, ◌&&◌, ◌||◌, Option, none, some, List, [], ◌∷◌, ◌++◌, map,
  leb, if◌then◌else◌, ◌==◌, nat_eq, list_eq, length, drop, take, any_of, contains,
}
use dnsbuffer.Prelude.Int.{ℤ, ltb_ℤ, int_eq}
use dnsbuffer.Text.{Text, str}
use dnsbuffer.Resolver.{Result, ok, err, ◌>>=◌, context}
use dnsbuffer.Pipeline.Event.{text_leb}
use dnsbuffer.Dashboard.Store.{
  Tables, Statement, count_logs, list_logs, select_ips, LogRow, IpRow, keep, execute,
  read_connection,
}
use dnsbuffer.Dashboard.Store.Search.{pattern_of}

pub record QueryRecord : Type 0 where
  pub id : ℕ
  pub timestamp_ms : ℤ
  pub domain : Text
  pub query_type : Text
  pub response_code : Text
  pub duration_ms : ℕ
  pub blocked : Bool
  pub cache_hit : Bool
  pub response_ips : List Text
  pub upstream : Option Text

pub record QueryPage : Type 0 where
  pub page : ℕ
  pub page_size : ℕ
  pub total : ℕ
  pub records : List QueryRecord

abbrev pub max_query_page_size : ℕ
max_query_page_size = 200

unfoldable pub query_record : LogRow → QueryRecord
query_record row = record {
  id = row.id;
  timestamp_ms = row.timestamp_ms;
  domain = row.domain;
  query_type = row.query_type;
  response_code = row.response_code;
  duration_ms = row.duration_ms;
  blocked = row.blocked;
  cache_hit = row.cache_hit;
  response_ips = [];
  upstream = row.upstream;
}

-- `ORDER BY`, with the test that a row may stand in front of another.
module _ {A : Type 0} (first : A → A → Bool) where
  unfoldable pub insert_by : A → List A → List A
  insert_by x [] = x ∷ []
  insert_by x (y ∷ ys) = let rest = insert_by x ys in if first x y then x ∷ y ∷ ys else y ∷ rest

  unfoldable pub sort_by : List A → List A
  sort_by [] = []
  sort_by (x ∷ xs) = insert_by x (sort_by xs)

-- `timestamp_ms DESC, id DESC`.
abbrev pub newer : LogRow → LogRow → Bool
newer a b =
    ltb_ℤ b.timestamp_ms a.timestamp_ms || (a.timestamp_ms == b.timestamp_ms && leb b.id a.id)

abbrev pub by_ip : IpRow → IpRow → Bool
by_ip a b = text_leb a.ip b.ip

-- `records.iter_mut().find(…)` and `response_ips.push(ip)`.
unfoldable pub push_ip : IpRow → List QueryRecord → List QueryRecord
push_ip i [] = []
push_ip i (r ∷ rs) =
    let rest = push_ip i rs in
    if r.id == i.query_id
    then record r { response_ips = r.response_ips ++ i.ip ∷ [] } ∷ rs
    else r ∷ rest

unfoldable pub push_ips : List IpRow → List QueryRecord → List QueryRecord
push_ips [] rs = rs
push_ips (i ∷ is) rs = push_ips is (push_ip i rs)

-- `checked_mul` on a `u64` and `i64::try_from`.
unfoldable pub offset_of : ℕ → ℕ → Result ℕ
offset_of page page_size =
    let offset = (page - 1) * page_size in
    context (if leb offset (2 ^ 64 - 1) && leb offset (2 ^ 63 - 1) then some offset else none)
      (str "query page offset is out of range")

unfoldable pub pattern_for : Option Text → Option Text
pattern_for none = none
pattern_for (some value) = some (pattern_of value)

-- SQLite's LIKE with an escape and without regard to case, which takes the pattern first.
module _ (like : Text → Text → Bool) where
  -- The `WHERE` clause of the two statements.
  unfoldable pub selects : Option Text → Tables → LogRow → Bool
  selects none t row = true
  selects (some pattern) t row =
      like pattern row.domain
      || any_of (λ (i : IpRow). i.query_id == row.id && like pattern i.ip) t.ips

  -- The rows of a page, before their addresses.
  unfoldable pub page_rows : Option Text → ℕ → ℕ → Tables → List LogRow
  page_rows pattern limit offset t =
      take limit (drop offset (sort_by newer (keep (selects pattern t) t.logs)))

-- What the three statements of a page read. They are not in a transaction, so the worker may have
-- written between any two of them, and each reads the tables as they are by then.
pub record Reads : Type 0 where
  pub counting : Tables
  pub listing : Tables
  pub addressing : Tables

-- Nothing is written while a page is read.
abbrev pub at_once : Tables → Reads
at_once t = record { counting = t; listing = t; addressing = t }

module _ (refuses : Statement → Tables → Option Text) where
  unfoldable pub fetch_ips : List QueryRecord → Tables → Result (List QueryRecord)
  fetch_ips [] t = ok []
  fetch_ips (r ∷ rs) t =
      let ids = map (λ (r : QueryRecord). r.id) (r ∷ rs) in
      execute refuses (select_ips ids) t >>= λ t.
      ok (push_ips (sort_by by_ip (keep (λ (i : IpRow). contains ids i.query_id) t.ips)) (r ∷ rs))

  module _ (like : Text → Text → Bool) where
    -- The three reads of a page.
    unfoldable pub read_page : ℕ → ℕ → ℕ → Option Text → Option ℕ → ℕ → Reads → Result QueryPage
    read_page page page_size offset pattern deadline now r =
        read_connection refuses deadline now r.counting >>= λ t.
        execute refuses (count_logs pattern) t >>= λ t.
        let total = length (keep (selects like pattern t) t.logs) in
        execute refuses (list_logs pattern page_size offset) r.listing >>= λ t.
        fetch_ips (map query_record (page_rows like pattern page_size offset t)) r.addressing
        >>= λ records.
            ok (record { page = page; page_size = page_size; total = total; records = records })

    unfoldable pub queries_with_deadline :
        ℕ → ℕ → Option Text → Option ℕ → ℕ → Reads → Result QueryPage
    queries_with_deadline page page_size search deadline now r =
        if not (leb 1 page_size && leb page_size max_query_page_size)
        then err (str "query page size must be between 1 and 200")
        else (offset_of (max page 1) page_size >>= λ offset.
            read_page (max page 1) page_size offset (pattern_for search) deadline now r)
