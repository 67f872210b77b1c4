-- ===== src/Dashboard/Http/Validated.antt =====
-- dashboard/http.rs: what a validated request may ask for.
use dnsbuffer.Prelude.{
  ℕ, ◌-◌, ◌*◌, ◌^◌, ◌≤◌, ◌≡◌, refl, ◌∙◌, Bool, true, false, not, ◌&&◌, Option, none, arith, ltb,
  leb, if◌then◌else◌, nat_eq, list_eq,
}
use mathlib.Core.Path.{subst}
use dnsbuffer.Text.{Text}
use dnsbuffer.Dashboard.Store.Queries.{Reads, queries_with_deadline}
use dnsbuffer.Dashboard.Store.Pages.{never, queries_with_deadline-is_ok}
use dnsbuffer.Resolver.{is_ok}
use dnsbuffer.Dashboard.Http.{
  Api, good, bad, ◌>>>◌, ApiError, refuse, QueryParams, ValidatedQueryParams, parse_parameter,
  trimmed, is_long, validate, check_page_size,
}

>>>-good :
    {A B : Type 0} (r : Api A) (f : A → Api B) (b : B)
    → (r >>> f) ≡ good b
    → (a : A) × (r ≡ good a) × (f a ≡ good b)
>>>-good (good a) f b h = (a, refl, h)
>>>-good (bad e) f b h = absurd (ground arith)

if-good :
    {A : Type 0} (b : Bool) (e : ApiError) (r : Api A) (v : A)
    → (if b then bad e else r) ≡ good v
    → (b ≡ false) × (r ≡ good v)
if-good true e r v h = absurd (ground arith)
if-good false e r v h = (refl, h)

check_page_size_lem :
    (like : Text → Text → Bool) (page page_size : ℕ) (wanted : Option Text)
    (v : ValidatedQueryParams) (now : ℕ) (r : Reads)
    → ltb page 1 ≡ false
    → check_page_size page wanted page_size ≡ good v
    → (1 ≤ v.page)
      × ((1 ≤ v.page_size) × (v.page_size ≤ 200))
      × (is_long v.search ≡ false)
      × (is_ok (queries_with_deadline never like v.page v.page_size v.search none now r) ≡ true)
unfolding check_page_size refuse
check_page_size_lem like page page_size wanted v now r k h =
    let (sized, h1) = if-good (not (leb 1 page_size && leb page_size 200)) _ _ v h in
    let in_range =
      leb ((page - 1) * page_size) (2 ^ 64 - 1) && leb ((page - 1) * page_size) (2 ^ 63 - 1) in
    let (fits, h2) = if-good (not in_range) _ _ v h1 in
    let (short, h3) = if-good (is_long wanted) _ _ v h2 in
    let made : ValidatedQueryParams = record {
      page = page;
      page_size = page_size;
      search = wanted;
    } in
    let same : made ≡ v = ground (arith, h3) in
    subst Fine same (
      ground (arith, k),
      (ground (arith, sized), ground (arith, sized)),
      short,
      queries_with_deadline-is_ok like page page_size wanted now r ∙ ground (arith, sized, fits),
    )
  where
    Fine : ValidatedQueryParams → Type 0
    Fine v =
        (1 ≤ v.page)
        × ((1 ≤ v.page_size) × (v.page_size ≤ 200))
        × (is_long v.search ≡ false)
        × (is_ok (queries_with_deadline never like v.page v.page_size v.search none now r) ≡ true)

-- A request for the query log that is let through asks for page 1 or a later one and for 1 to 200
-- rows, its search has at most 253 characters, and the store never refuses it: without errors of
-- SQLite and without a deadline the page is answered.
pub validate-is_ok :
    (like : Text → Text → Bool) (params : QueryParams) (v : ValidatedQueryParams) (now : ℕ)
    (r : Reads)
    → validate params ≡ good v
    → (1 ≤ v.page)
      × ((1 ≤ v.page_size) × (v.page_size ≤ 200))
      × (is_long v.search ≡ false)
      × (is_ok (queries_with_deadline never like v.page v.page_size v.search none now r) ≡ true)
unfolding validate refuse
validate-is_ok like params v now r h =
    let (page, h1, h2) = >>>-good (parse_parameter params.page _ 1) _ v h in
    let (at_least, h3) = if-good (ltb page 1) _ _ v h2 in
    let (page_size, h4, h5) = >>>-good (parse_parameter params.page_size _ 50) _ v h3 in
    check_page_size_lem like page page_size (trimmed params.search) v now r at_least h5
