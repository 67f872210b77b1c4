-- ===== src/Dashboard/Http/Errors.antt =====
-- dashboard/http.rs: what an error tells the client.
use dnsbuffer.Prelude.{
  ℕ, ◌-◌, ◌*◌, ◌^◌, ◌≡◌, refl, ◌⊎◌, inl, inr, Bool, true, false, not, ◌&&◌, Option, none, some,
  List, ◌++◌, arith, ltb, leb, if◌then◌else◌, Option-cases, nat_eq, list_eq,
}
use mathlib.Core.Path.{subst}
use dnsbuffer.Prelude.Int.{ℤ}
use dnsbuffer.Text.{Text, str, parse_uint}
use dnsbuffer.Dashboard.Store.{Tables, Statement}
use dnsbuffer.Resolver.{Result, ok, err}
use dnsbuffer.Dashboard.Http.{
  Api, good, bad, ◌>>>◌, ApiError, bad_request, refuse, database, database_timeout, from_read,
  read_error, database_operation, database_call, ReadRequest, Permit, permit_timeout,
  limiter_closed, acquired, Task, task_timeout, panicked, finished, timeout_error, database_error,
  join_error, QueryParams, ValidatedQueryParams, parse_parameter, trimmed, is_long, validate,
  check_page_size, ReadError,
}
use dnsbuffer.Dashboard.Http.Handlers.{
  check_decoded, or_empty, validate_extracted, validate_query_encoding, read_params, queries,
  decode,
}
use dnsbuffer.Dashboard.Store.Queries.{Reads}
use dnsbuffer.Dashboard.Http.Dto.{or_database}

>>>-bad :
    {A B : Type 0} (r : Api A) (f : A → Api B) (e : ApiError)
    → (r >>> f) ≡ bad e
    → (r ≡ bad e) ⊎ ((a : A) × (r ≡ good a) × (f a ≡ bad e))
>>>-bad (good a) f e h = inr (a, refl, h)
>>>-bad (bad d) f e h = inl (ground arith)

-- Every error is one of the parameters.
abbrev IsChecked : {A : Type 0} → Api A → Type 0
IsChecked r = (e : ApiError) → r ≡ bad e → e.status ≡ bad_request

IsChecked-good : {A : Type 0} (a : A) → IsChecked (good a)
IsChecked-good a e h = absurd (ground arith)

IsChecked-refuse : {A : Type 0} (message : Text) → IsChecked (refuse {A = A} message)
unfolding refuse
IsChecked-refuse message e h = ground arith

IsChecked-bind :
    {A B : Type 0} (r : Api A) (f : A → Api B)
    → IsChecked r
    → ((a : A) → IsChecked (f a))
    → IsChecked (r >>> f)
IsChecked-bind (good a) f h k = k a
IsChecked-bind (bad d) f h k = λ e same. h e (ground arith)

IsChecked-if :
    {A : Type 0} (b : Bool) (r s : Api A)
    → IsChecked r
    → IsChecked s
    → IsChecked (if b then r else s)
IsChecked-if true r s h k = h
IsChecked-if false r s h k = k

IsChecked-parse_parameter :
    (value : Option Text) (name : Text) (n : ℕ) → IsChecked (parse_parameter value name n)
unfolding parse_parameter
IsChecked-parse_parameter none name n = IsChecked-good n
IsChecked-parse_parameter (some value) name n = elim (Option-cases (parse_uint (2 ^ 64) value)) [
  | inl failed ↦ rw (failed, parse_parameter) (IsChecked-refuse (name ++ str " must be an integer"))
  | inr (m, parsed) ↦ rw (parsed, parse_parameter) (IsChecked-good m)
]

IsChecked-check_page_size :
    (page : ℕ) (wanted : Option Text) (page_size : ℕ)
    → IsChecked (check_page_size page wanted page_size)
unfolding check_page_size
IsChecked-check_page_size page wanted page_size =
    let in_range =
      leb ((page - 1) * page_size) (2 ^ 64 - 1) && leb ((page - 1) * page_size) (2 ^ 63 - 1) in
    let made : ValidatedQueryParams = record {
      page = page;
      page_size = page_size;
      search = wanted;
    } in
    IsChecked-if (not (leb 1 page_size && leb page_size 200))
      (refuse (str "page_size must be between 1 and 200")) _ (IsChecked-refuse _)
      (IsChecked-if (not in_range) (refuse (str "page offset is out of range")) _
        (IsChecked-refuse _)
        (IsChecked-if (is_long wanted) (refuse (str "search must be at most 253 characters"))
          (good made) (IsChecked-refuse _) (IsChecked-good made)))

IsChecked-validate : (params : QueryParams) → IsChecked (validate params)
unfolding validate
IsChecked-validate params =
    IsChecked-bind _ _ (IsChecked-parse_parameter params.page (str "page") 1) (λ page.
      IsChecked-if (ltb page 1) (refuse (str "page must be at least 1")) _ (IsChecked-refuse _) (
        IsChecked-bind _ _ (IsChecked-parse_parameter params.page_size (str "page_size") 50)
          (IsChecked-check_page_size page (trimmed params.search))))

IsChecked-check_decoded :
    (is_utf8 : List ℕ → Bool) (decoded : Option (List ℕ))
    → IsChecked (check_decoded is_utf8 decoded)
unfolding check_decoded
IsChecked-check_decoded is_utf8 none = IsChecked-refuse _
IsChecked-check_decoded is_utf8 (some decoded) =
    IsChecked-if (is_utf8 decoded) _ _ (IsChecked-good tt) (IsChecked-refuse _)

IsChecked-validate_extracted : (params : Option QueryParams) → IsChecked (validate_extracted params)
unfolding validate_extracted
IsChecked-validate_extracted none = IsChecked-refuse _
IsChecked-validate_extracted (some params) = IsChecked-validate params

IsChecked-read_params :
    (is_utf8 : List ℕ → Bool) (extract : Text → Option QueryParams) (raw_query : Option Text)
    → IsChecked (read_params is_utf8 extract raw_query)
unfolding read_params validate_query_encoding
IsChecked-read_params is_utf8 extract raw_query =
    IsChecked-bind _ _ (IsChecked-check_decoded is_utf8 (decode (or_empty raw_query)))
      (λ checked. IsChecked-validate_extracted (extract (or_empty raw_query)))

-- What is left of an error of the database.
abbrev IsOpaque : ApiError → Type 0
IsOpaque e = (e ≡ database) ⊎ (e ≡ database_timeout)

IsOpaque-from_read : (e : ReadError) → IsOpaque (from_read e)
unfolding from_read
IsOpaque-from_read timeout_error = inr refl
IsOpaque-from_read database_error = inl refl
IsOpaque-from_read join_error = inl refl

-- Every error is one of the database.
abbrev IsHidden : {A : Type 0} → Api A → Type 0
IsHidden r = (e : ApiError) → r ≡ bad e → IsOpaque e

IsHidden-bad : {A : Type 0} (d : ApiError) → IsOpaque d → (r : Api A) → r ≡ bad d → IsHidden r
IsHidden-bad d v r same e h = subst IsOpaque (ground arith) v

IsHidden-good : {A : Type 0} (a : A) → IsHidden (good a)
IsHidden-good a e h = absurd (ground arith)

IsHidden-database_operation :
    {A : Type 0} (permit : Permit) (task : Task) (result : Api A)
    → IsHidden result
    → IsHidden (database_operation permit task result)
unfolding database_operation
IsHidden-database_operation permit_timeout task result v =
    IsHidden-bad _ (IsOpaque-from_read timeout_error) _ refl
IsHidden-database_operation limiter_closed task result v =
    IsHidden-bad _ (IsOpaque-from_read database_error) _ refl
IsHidden-database_operation acquired task_timeout result v =
    IsHidden-bad _ (IsOpaque-from_read timeout_error) _ refl
IsHidden-database_operation acquired panicked result v =
    IsHidden-bad _ (IsOpaque-from_read join_error) _ refl
IsHidden-database_operation acquired finished result v = v

IsHidden-database_call :
    {A : Type 0} (r : ReadRequest) (result : Result A) → IsHidden (database_call r result)
unfolding database_call
IsHidden-database_call r (ok a) =
    IsHidden-database_operation r.permit r.task (good a) (IsHidden-good a)
IsHidden-database_call r (err m) =
    IsHidden-database_operation r.permit r.task _
      (IsHidden-bad _ (IsOpaque-from_read (read_error r.deadline_exhausted (r.downcast m))) _ refl)

IsHidden-or_database : {A : Type 0} (r : Result A) → IsHidden (or_database r)
unfolding or_database
IsHidden-or_database (ok a) = IsHidden-good a
IsHidden-or_database (err m) = IsHidden-bad database (inl refl) _ refl

-- An error on the way to a page is an error of the parameters, with status 400, or it says no more
-- than that the database is unavailable or that it timed out.
pub queries_lem :
    (is_utf8 : List ℕ → Bool) (extract : Text → Option QueryParams)
    (refuses : Statement → Tables → Option Text) (like : Text → Text → Bool)
    (print : ℤ → Option Text) (r : ReadRequest) (deadline now : ℕ) (reads : Reads)
    (raw_query : Option Text) (e : ApiError)
    → queries is_utf8 extract refuses like print r deadline now reads raw_query ≡ bad e
    → ((read_params is_utf8 extract raw_query ≡ bad e) × (e.status ≡ bad_request))
      ⊎ (e ≡ database)
      ⊎ (e ≡ database_timeout)
unfolding queries
queries_lem is_utf8 extract refuses like print r deadline now reads raw_query e h =
    elim (>>>-bad (read_params is_utf8 extract raw_query) _ e h) [
      | inl refused ↦ inl (refused, IsChecked-read_params is_utf8 extract raw_query e refused)
      | inr (params, passed, later) ↦ elim (>>>-bad (database_call r _) _ e later) [
        | inl failed ↦ inr (IsHidden-database_call r _ e failed)
        | inr (value, read, shown) ↦ inr (IsHidden-or_database _ e shown)
      ]
    ]
