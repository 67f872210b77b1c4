-- ===== src/Dashboard/Http/Handlers.antt =====
-- dashboard/http.rs: the handlers of the query log and of the trend.
use dnsbuffer.Prelude.{
  ℕ, ◌+◌, ◌-◌, ◌*◌, Bool, true, false, ◌&&◌, Option, none, some, List, [], ◌∷◌, leb, if◌then◌else◌,
  ◌==◌, nat_eq, list_eq,
}
use dnsbuffer.Prelude.Int.{ℤ}
use dnsbuffer.Dashboard.Store.{Tables, Statement}
use dnsbuffer.Dashboard.Store.Search.{before}
use dnsbuffer.Dashboard.Store.Trend.{trend_with_deadline}
use dnsbuffer.Dashboard.Store.Queries.{Reads, queries_with_deadline}
use dnsbuffer.Text.{Text}
use dnsbuffer.Dashboard.Http.{
  Api, good, ◌>>>◌, refuse, invalid, ReadRequest, database_call, QueryParams, ValidatedQueryParams,
  validate,
}
use dnsbuffer.Dashboard.Http.Dto.{QueryPageDto, query_page_dto, TrendDto, trend_dto, or_database}

-- `u8::from_str_radix` in base 16 on two characters; it takes a plus sign in front.
unfoldable pub hex_digit : ℕ → Option ℕ
hex_digit c =
    if leb b'0' c && leb c b'9'
    then some (c - b'0')
    else if leb b'a' c && leb c b'f'
    then some (c - b'a' + 10)
    else if leb b'A' c && leb c b'F'
    then some (c - b'A' + 10)
    else none

unfoldable pub hex_byte : ℕ → ℕ → Option ℕ
hex_byte c d = if c == b'+' then hex_digit d else elim (hex_digit c) [
  | none ↦ none
  | some high ↦ elim (hex_digit d) [ none ↦ none | some low ↦ some (high * 16 + low) ]
]

-- The loop of `validate_query_encoding`; nothing for a percent sign without two digits.
unfoldable pub decode : List ℕ → Option (List ℕ)
decode [] = some []
decode (c ∷ []) = elim (c == b'%') [ true ↦ none | false ↦ some (c ∷ []) ]
decode (c ∷ d ∷ []) = elim (c == b'%') [ true ↦ none | false ↦ before c (decode (d ∷ [])) ]
decode (c ∷ d ∷ e ∷ s) = elim (c == b'%') [
  | true ↦ elim (hex_byte d e) [ none ↦ none | some value ↦ before value (decode s) ]
  | false ↦ before c (decode (d ∷ e ∷ s))
]

-- `std::str::from_utf8` on what was decoded; `is_utf8` tells whether it succeeds.
unfoldable pub check_decoded : (List ℕ → Bool) → Option (List ℕ) → Api Unit
check_decoded is_utf8 none = refuse invalid
check_decoded is_utf8 (some decoded) = if is_utf8 decoded then good tt else refuse invalid

unfoldable pub validate_query_encoding : (List ℕ → Bool) → List ℕ → Api Unit
validate_query_encoding is_utf8 query = check_decoded is_utf8 (decode query)

-- `raw_query.unwrap_or_default()`.
abbrev pub or_empty : Option Text → Text
or_empty none = []
or_empty (some query) = query

unfoldable pub validate_extracted : Option QueryParams → Api ValidatedQueryParams
validate_extracted none = refuse invalid
validate_extracted (some params) = validate params

-- `Query<QueryParams>` of axum: `extract` reads the query string, or fails.
module _ (is_utf8 : List ℕ → Bool) (extract : Text → Option QueryParams) where
  unfoldable pub read_params : Option Text → Api ValidatedQueryParams
  read_params raw_query = validate_query_encoding is_utf8 (or_empty raw_query) >>> λ checked.
      validate_extracted (extract (or_empty raw_query))

  -- The handlers; `deadline` and `now` are those of the read.
  unfoldable pub queries :
      (Statement → Tables → Option Text)
      → (Text → Text → Bool)
      → (ℤ → Option Text)
      → ReadRequest
      → ℕ
      → ℕ
      → Reads
      → Option Text
      → Api QueryPageDto
  queries refuses like print r deadline now reads raw_query = read_params raw_query >>> λ params.
      database_call r (
        queries_with_deadline refuses like params.page params.page_size params.search
          (some deadline) now reads)
      >>> λ value. or_database (query_page_dto print value)

unfoldable pub trend :
    (Statement → Tables → Option Text)
    → (ℤ → Option ℤ)
    → (ℤ → Option Text)
    → ReadRequest
    → ℕ
    → ℤ
    → ℕ
    → ℕ
    → Tables
    → Api TrendDto
trend refuses midnight print r retention_days now_ms deadline now t =
    database_call r
      (trend_with_deadline refuses midnight retention_days now_ms (some deadline) now t)
    >>> λ value. or_database (trend_dto print value)
