-- ===== src/Dashboard/Store/Pages.antt =====
-- dashboard/store.rs: what a page of the query log shows, and which pages are refused.
use dnsbuffer.Prelude.{
  ℕ, ◌-◌, ◌*◌, ◌^◌, ◌≤◌, max, ◌≡◌, refl, sym, ap, ◌∙◌, inl, inr, Bool, true, false, ◌&&◌, Option,
  none, List, [], ◌∷◌, map, arith, leb, Bool-cases, nat_eq, list_eq, length, drop, take, contains,
}
use mathlib.Core.Path.{subst}
use dnsbuffer.Text.{Text}
use dnsbuffer.Resolver.{Result, ok, is_ok, ◌>>=◌, >>=-ok, ok-injective}
use dnsbuffer.Dashboard.Store.{
  Tables, Statement, count_logs, list_logs, select_ips, LogRow, IpRow, keep, execute,
  read_connection, apply, owns_ip,
}
use dnsbuffer.Dashboard.Store.Insert.{execute-ok, read_connection-ok}
use dnsbuffer.Dashboard.Store.Queries.{
  QueryRecord, QueryPage, Reads, query_record, sort_by, newer, by_ip, push_ips, offset_of, selects,
  fetch_ips, pattern_for, page_rows, queries_with_deadline, read_page, max_query_page_size,
}
use dnsbuffer.Dashboard.Store.Rows.{
  Distinct, any_of-sort_by, Distinct-sort_by, Distinct-keep, Distinct-take, Distinct-drop,
}
use dnsbuffer.Dashboard.Store.Addresses.{
  ShowsAll, ShowsAll-push_ips, ShowsAll-map, ShowsAll-agree, any_of-chosen, contains-ids,
}

abbrev ids_of : List LogRow → List ℕ
ids_of rows = map (λ (r : QueryRecord). r.id) (map query_record rows)

module _ (refuses : Statement → Tables → Option Text) (like : Text → Text → Bool) where
  ShowsAll-fetch_ips :
      (rows : List LogRow) (t : Tables) (records : List QueryRecord)
      → Distinct rows
      → fetch_ips refuses (map query_record rows) t ≡ ok records
      → ShowsAll t.ips rows records
  unfolding fetch_ips apply
  ShowsAll-fetch_ips [] t [] d h = tt
  ShowsAll-fetch_ips [] t (r ∷ rs) d h = absurd (ground arith)
  ShowsAll-fetch_ips (row ∷ rows) t records d h =
      let ids = ids_of (row ∷ rows) in
      let chosen : Tables → List IpRow =
        λ t. sort_by by_ip (keep (λ (i : IpRow). contains ids i.query_id) t.ips) in
      let (u, h1, h2) = >>=-ok (execute refuses (select_ips ids) t) _ records h in
      let same : t ≡ u = execute-ok refuses (select_ips ids) t u h1 in
      let pushed : push_ips (chosen u) (map query_record (row ∷ rows)) ≡ records =
        ok-injective h2 in
      let shown = ShowsAll-push_ips (chosen t) [] (row ∷ rows) _ d (ShowsAll-map (row ∷ rows)) in
      let agreed =
        ShowsAll-agree (chosen t) t.ips (row ∷ rows) _
          (λ id ip k.
            any_of-sort_by (owns_ip id ip) by_ip
              (keep (λ (i : IpRow). contains ids i.query_id) t.ips)
            ∙ any_of-chosen ids id ip t.ips (contains-ids (row ∷ rows) id k))
          shown in
      subst (ShowsAll t.ips (row ∷ rows))
        (ap (λ t. push_ips (chosen t) (map query_record (row ∷ rows))) same ∙ pushed) agreed

  Distinct-page_rows :
      (pattern : Option Text) (limit offset : ℕ) (t : Tables)
      → Distinct t.logs
      → Distinct (page_rows like pattern limit offset t)
  unfolding page_rows
  Distinct-page_rows pattern limit offset t d =
      Distinct-take limit _
        (Distinct-drop offset _ (Distinct-sort_by newer _ (Distinct-keep _ t.logs d)))

  offset_of_lem :
      (page page_size offset : ℕ)
      → offset_of page page_size ≡ ok offset
      → offset ≡ (page - 1) * page_size
  unfolding offset_of
  offset_of_lem page page_size offset h = ground arith

  read_page_lem :
      (page page_size offset : ℕ) (pattern : Option Text) (deadline : Option ℕ) (now : ℕ)
      (r : Reads) (answer : QueryPage)
      → Distinct r.listing.logs
      → read_page refuses like page page_size offset pattern deadline now r ≡ ok answer
      → (answer.page ≡ page)
        × (answer.total ≡ length (keep (selects like pattern r.counting) r.counting.logs))
        × ShowsAll r.addressing.ips
            (page_rows like pattern page_size offset r.listing)
            answer.records
  unfolding read_page apply
  read_page_lem page page_size offset pattern deadline now r answer d h =
      let (u, h1, h2) = >>=-ok (read_connection refuses deadline now r.counting) _ answer h in
      let (v, h3, h4) = >>=-ok (execute refuses (count_logs pattern) u) _ answer h2 in
      let list = list_logs pattern page_size offset in
      let (w, h5, h6) = >>=-ok (execute refuses list r.listing) _ answer h4 in
      let Fetches : Tables → List QueryRecord → Type 0 = λ x records.
        fetch_ips refuses (map query_record (page_rows like pattern page_size offset x))
          r.addressing
        ≡ ok records in
      let (records, h7, h8) =
        >>=-ok
          (fetch_ips refuses (map query_record (page_rows like pattern page_size offset w))
            r.addressing)
          _ answer h6 in
      let counted : r.counting ≡ v =
        read_connection-ok refuses deadline now r.counting u h1 ∙ execute-ok refuses _ u v h3 in
      let listed : r.listing ≡ w = execute-ok refuses list r.listing w h5 in
      let shown =
        ShowsAll-fetch_ips (page_rows like pattern page_size offset r.listing) r.addressing records
          (Distinct-page_rows pattern page_size offset r.listing d)
          (subst (λ x. Fetches x records) (sym listed) h7) in
      let e = ok-injective h8 in
      (
        sym (ap (λ (a : QueryPage). a.page) e),
        sym (ap (λ (a : QueryPage). a.total) e)
            ∙ ap (λ (x : Tables). length (keep (selects like pattern x) x.logs)) (sym counted),
        subst (ShowsAll r.addressing.ips (page_rows like pattern page_size offset r.listing))
            (ap (λ (a : QueryPage). a.records) e) shown,
      )

  -- A page that is answered has 1 to 200 rows to a page, counts all rows that the search selects when
  -- they are counted, and shows those behind the pages before it when they are listed, newest first;
  -- page 0 is page 1. Each record has the columns of its row and the addresses that are stored for it
  -- when the addresses are read. The ids of the listed table differ. The three reads may see three
  -- different states of the tables.
  pub queries_with_deadline_lem :
      (page page_size : ℕ) (wanted : Option Text) (deadline : Option ℕ) (now : ℕ) (r : Reads)
      (answer : QueryPage)
      → Distinct r.listing.logs
      → queries_with_deadline refuses like page page_size wanted deadline now r ≡ ok answer
      → (answer.page ≡ max page 1)
        × ((1 ≤ page_size) × (page_size ≤ max_query_page_size))
        × (answer.total
            ≡ length (keep (selects like (pattern_for wanted) r.counting) r.counting.logs))
        × ShowsAll r.addressing.ips
            (take page_size (
              drop ((max page 1 - 1) * page_size) (
                sort_by newer (keep (selects like (pattern_for wanted) r.listing) r.listing.logs))))
            answer.records
  unfolding queries_with_deadline page_rows
  queries_with_deadline_lem page page_size wanted deadline now r answer d h =
      elim (Bool-cases (leb 1 page_size && leb page_size max_query_page_size)) [
        | inr outside ↦ absurd (ground (arith, h, outside))
        | inl inside ↦
            let read : ℕ → Result QueryPage = λ offset.
              read_page refuses like (max page 1) page_size offset (pattern_for wanted) deadline now
                r in
            let run : (offset_of (max page 1) page_size >>= read) ≡ ok answer =
              sym (rw inside refl) ∙ h in
            let (offset, h1, h2) = >>=-ok (offset_of (max page 1) page_size) read answer run in
            let place = offset_of_lem (max page 1) page_size offset h1 in
            let (is_page, total, shown) =
              read_page_lem (max page 1) page_size offset (pattern_for wanted) deadline now r answer
                d h2 in
            (
              is_page,
              (ground (arith, inside), ground (arith, inside)),
              total,
              subst
                  (λ o.
                    ShowsAll r.addressing.ips
                      (page_rows like (pattern_for wanted) page_size o r.listing) answer.records)
                  place shown,
            )
      ]

-- SQLite has no error.
abbrev pub never : Statement → Tables → Option Text
never s t = none

fetch_ips-never :
    (rs : List QueryRecord) (t : Tables)
    → (found : List QueryRecord) × (fetch_ips never rs t ≡ ok found)
unfolding fetch_ips execute
fetch_ips-never [] t = ([], refl)
fetch_ips-never (r ∷ rs) t = (_, refl)

read_page-never :
    (like : Text → Text → Bool) (page page_size offset : ℕ) (pattern : Option Text) (now : ℕ)
    (r : Reads)
    → is_ok (read_page never like page page_size offset pattern none now r) ≡ true
unfolding read_page read_connection execute apply
read_page-never like page page_size offset pattern now r =
    let (found, e) =
      fetch_ips-never (map query_record (page_rows like pattern page_size offset r.listing))
        r.addressing in
    rw e refl

-- Without errors of SQLite and without a deadline, a page is answered exactly if it has 1 to 200
-- rows to a page and the number of rows before it fits in an `i64`.
pub queries_with_deadline-is_ok :
    (like : Text → Text → Bool) (page page_size : ℕ) (wanted : Option Text) (now : ℕ) (r : Reads)
    → is_ok (queries_with_deadline never like page page_size wanted none now r) ≡ (
        leb 1 page_size
        && leb page_size max_query_page_size
        && leb ((max page 1 - 1) * page_size) (2 ^ 63 - 1))
unfolding queries_with_deadline offset_of
queries_with_deadline-is_ok like page page_size wanted now r =
    let read = λ (offset : ℕ).
      read_page-never like (max page 1) page_size offset (pattern_for wanted) now r in
    elim (Bool-cases (leb 1 page_size && leb page_size max_query_page_size)) [
      | inr outside ↦ rw outside (ground (arith, outside))
      | inl inside ↦ elim (Bool-cases (leb ((max page 1 - 1) * page_size) (2 ^ 63 - 1))) [
        | inl fits ↦
            let small : leb ((max page 1 - 1) * page_size) (2 ^ 64 - 1) ≡ true =
              ground (arith, fits) in
            rw (inside, small, fits) (read ((max page 1 - 1) * page_size) ∙ ground (arith, inside))
        | inr over ↦
            let big : (leb ((max page 1 - 1) * page_size) (2 ^ 64 - 1)
                  && leb ((max page 1 - 1) * page_size) (2 ^ 63 - 1))
                ≡ false =
              ground (arith, over) in
            rw (inside, big) (ground (arith, over))
      ]
    ]
