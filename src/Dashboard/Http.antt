-- ===== src/Dashboard/Http.antt =====
-- dashboard/http.rs: the errors of the dashboard, its access to the database, and the parameters
-- of a request for the query log.
pub mod Dto
pub mod Handlers
pub mod Figures
pub mod Encoding
pub mod Validated
pub mod Errors
use dnsbuffer.Prelude.{
  ℕ, zero, suc, ◌+◌, ◌-◌, ◌*◌, ◌/◌, ◌%◌, ◌^◌, ◌≤◌, ◌<◌, min, max, ◌≡◌, refl, sym, ap, ◌∙◌, ◌≢◌, ◌↔◌,
  ◌⊎◌, inl, inr, Bool, true, false, not, ◌&&◌, ◌||◌, Option, none, some, List, [], ◌∷◌, ◌++◌, map,
  reverse, arith, ltb, leb, nat_beq, if◌then◌else◌, tests, Bool-cases, Option-cases, Eq, ◌==◌,
  nat_beq_iff, ==_iff, ==_refl, nat_eq, list_beq, list_beq_iff, list_eq, length, get_elem?, drop,
  take, length-append, All, any_of, All-append, any_of-append, sum, contains, contains-append,
}
use dnsbuffer.Prelude.Int.{ℤ}
use dnsbuffer.Dashboard.Store.{Tables, Statement, TrendBucket}
use dnsbuffer.Dashboard.Store.Search.{before}
use dnsbuffer.Dashboard.Store.Trend.{TrendResponse, trend_with_deadline}
use dnsbuffer.Dashboard.Store.Queries.{QueryPage, QueryRecord, queries_with_deadline}
use dnsbuffer.Text.{Text, str, trim, parse_uint}
use dnsbuffer.Resolver.{Result, ok, err, ◌>>=◌, context}

-- `StatusCode`.
pub data Status : Type 0 where
  bad_request internal_server_error service_unavailable : Status

pub record ApiError : Type 0 where
  pub status : Status
  pub client_message : Text

-- `Result<A, ApiError>`.
pub data Api (A : Type 0) : Type 0 where
  good : A → Api A
  bad : ApiError → Api A

infixl 5 ◌>>>◌
abbrev pub ◌>>>◌ : {A B : Type 0} → Api A → (A → Api B) → Api B
good a >>> f = f a
bad e >>> f = bad e

unfoldable pub refuse : {A : Type 0} → Text → Api A
refuse message = bad (record { status = bad_request; client_message = message })

-- `ApiError::database`: the error itself is only logged.
unfoldable pub database : ApiError
database = record {
  status = internal_server_error;
  client_message = str "dashboard database unavailable";
}

unfoldable pub database_timeout : ApiError
database_timeout = record {
  status = service_unavailable;
  client_message = str "dashboard database request timed out";
}

pub data ReadError : Type 0 where
  timeout_error database_error join_error : ReadError

unfoldable pub from_read : ReadError → ApiError
from_read timeout_error = database_timeout
from_read database_error = database
from_read join_error = database

-- The codes of a `SqliteFailure` that the source tells apart.
pub data ErrorCode : Type 0 where
  operation_interrupted database_busy database_locked other_code : ErrorCode

unfoldable pub is_contention : ErrorCode → Bool
is_contention operation_interrupted = true
is_contention database_busy = true
is_contention database_locked = true
is_contention other_code = false

-- The error of a read by SQLite, with its code if it is a `SqliteFailure`.
unfoldable pub classify_sqlite_error_ref : Option ErrorCode → Bool → ReadError
classify_sqlite_error_ref none deadline_exhausted = database_error
classify_sqlite_error_ref (some code) deadline_exhausted =
    if deadline_exhausted && is_contention code then timeout_error else database_error

-- How the wait for a permit ends, and how that for the blocking task does.
pub data Permit : Type 0 where
  permit_timeout limiter_closed acquired : Permit

pub data Task : Type 0 where
  task_timeout panicked finished : Task

unfoldable pub database_operation : {A : Type 0} → Permit → Task → Api A → Api A
database_operation permit_timeout task result = bad (from_read timeout_error)
database_operation limiter_closed task result = bad (from_read database_error)
database_operation acquired task_timeout result = bad (from_read timeout_error)
database_operation acquired panicked result = bad (from_read join_error)
database_operation acquired finished result = result

-- One request: the permit, the task, whether the deadline has passed when an error is classified,
-- and what `downcast_ref` tells of an error: nothing if it is not of rusqlite.
pub record ReadRequest : Type 0 where
  pub permit : Permit
  pub task : Task
  pub deadline_exhausted : Bool
  pub downcast : Text → Option (Option ErrorCode)

-- `downcast_ref` and the classification.
unfoldable pub read_error : Bool → Option (Option ErrorCode) → ReadError
read_error deadline_exhausted none = database_error
read_error deadline_exhausted (some code) = classify_sqlite_error_ref code deadline_exhausted

unfoldable pub database_call : {A : Type 0} → ReadRequest → Result A → Api A
database_call r (ok a) = database_operation r.permit r.task (good a)
database_call r (err e) =
    database_operation r.permit r.task
      (bad (from_read (read_error r.deadline_exhausted (r.downcast e))))

pub record QueryParams : Type 0 where
  pub page : Option Text
  pub page_size : Option Text
  pub search : Option Text

pub record ValidatedQueryParams : Type 0 where
  pub page : ℕ
  pub page_size : ℕ
  pub search : Option Text

unfoldable pub parse_parameter : Option Text → Text → ℕ → Api ℕ
parse_parameter none name default = good default
parse_parameter (some value) name default = elim (parse_uint (2 ^ 64) value) [
  | none ↦ refuse (name ++ str " must be an integer")
  | some n ↦ good n
]

unfoldable pub trimmed : Option Text → Option Text
trimmed none = none
trimmed (some value) = some (trim value)

unfoldable pub is_long : Option Text → Bool
is_long none = false
is_long (some value) = ltb 253 (length value)

-- The rest of `validate`, with the page, the search and the page size.
unfoldable pub check_page_size : ℕ → Option Text → ℕ → Api ValidatedQueryParams
check_page_size page search page_size =
    if not (leb 1 page_size && leb page_size 200)
    then refuse (str "page_size must be between 1 and 200")
    else if not
        (leb ((page - 1) * page_size) (2 ^ 64 - 1) && leb ((page - 1) * page_size) (2 ^ 63 - 1))
    then refuse (str "page offset is out of range")
    else if is_long search
    then refuse (str "search must be at most 253 characters")
    else good (record { page = page; page_size = page_size; search = search })

unfoldable pub validate : QueryParams → Api ValidatedQueryParams
validate params = parse_parameter params.page (str "page") 1 >>> λ page.
    if ltb page 1
    then refuse (str "page must be at least 1")
    else (parse_parameter params.page_size (str "page_size") 50
        >>> check_page_size page (trimmed params.search))

abbrev pub invalid : Text
invalid = str "invalid query parameters"
