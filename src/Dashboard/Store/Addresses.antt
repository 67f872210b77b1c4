-- ===== src/Dashboard/Store/Addresses.antt =====
-- dashboard/store.rs: each record of a page gets the addresses of its own row.
use dnsbuffer.Prelude.{
  ℕ, ◌≡◌, refl, sym, ap, ◌∙◌, inl, inr, Bool, true, false, List, [], ◌∷◌, ◌++◌, map, arith,
  Bool-cases, ◌==◌, nat_beq_iff, nat_eq, list_beq_iff, list_eq, any_of, any_of-append, contains,
  contains-append,
}
use mathlib.Core.List.{append-nil, append_assoc}
use mathlib.Core.Path.{subst}
use dnsbuffer.Text.{Text}
use dnsbuffer.Dashboard.Store.{LogRow, IpRow, keep, has_id, owns_ip}
use dnsbuffer.Dashboard.Store.Queries.{QueryRecord, query_record, push_ip, push_ips}
use dnsbuffer.Dashboard.Store.Rows.{Distinct}

-- A record shows a row with the addresses of it among those that were seen.
pub record Shows (seen : List IpRow) (row : LogRow) (r : QueryRecord) : Type 0 where
  pub columns : r ≡ record (query_record row) { response_ips = r.response_ips }
  pub addresses : (ip : Text) → contains r.response_ips ip ≡ any_of (owns_ip row.id ip) seen

-- The records show the rows, one after the other.
abbrev pub ShowsAll : List IpRow → List LogRow → List QueryRecord → Type 0
ShowsAll seen [] [] = Unit
ShowsAll seen [] (r ∷ rs) = ⊥
ShowsAll seen (row ∷ rows) [] = ⊥
ShowsAll seen (row ∷ rows) (r ∷ rs) = Shows seen row r × ShowsAll seen rows rs

-- An address of another row changes nothing.
Shows-other :
    (seen : List IpRow) (i : IpRow) (row : LogRow) (r : QueryRecord)
    → (row.id == i.query_id) ≡ false
    → Shows seen row r
    → Shows (seen ++ i ∷ []) row r
Shows-other seen i row r h v = record {
  columns = v.columns;
  addresses = λ ip.
      v.addresses ip ∙ sym (any_of-append (owns_ip row.id ip) seen (i ∷ []) ∙ ground (arith, h));
}

ShowsAll-other :
    (seen : List IpRow) (i : IpRow) (rows : List LogRow) (rs : List QueryRecord)
    → has_id i.query_id rows ≡ false
    → ShowsAll seen rows rs
    → ShowsAll (seen ++ i ∷ []) rows rs
ShowsAll-other seen i [] [] h v = tt
ShowsAll-other seen i [] (r ∷ rs) h v = v
ShowsAll-other seen i (row ∷ rows) [] h v = v
ShowsAll-other seen i (row ∷ rows) (r ∷ rs) h v = (
  Shows-other seen i row r (ground (arith, h)) v.0,
  ShowsAll-other seen i rows rs (ground (arith, h)) v.1,
)

Shows-own :
    (seen : List IpRow) (i : IpRow) (row : LogRow) (r : QueryRecord)
    → (row.id == i.query_id) ≡ true
    → Shows seen row r
    → Shows (seen ++ i ∷ []) row (record r { response_ips = r.response_ips ++ i.ip ∷ [] })
unfolding contains
Shows-own seen i row r h v = record {
  columns =
      ap (λ (q : QueryRecord). record q { response_ips = r.response_ips ++ i.ip ∷ [] }) v.columns;
  addresses = λ ip.
      contains-append r.response_ips (i.ip ∷ []) ip
      ∙ sym (
          any_of-append (owns_ip row.id ip) seen (i ∷ [])
          ∙ ground (
            arith,
            h,
            v.addresses ip,
            list_beq_iff i.ip ip,
            list_beq_iff ip i.ip,
            nat_beq_iff row.id i.query_id,
            nat_beq_iff i.query_id row.id,
          ));
}

ShowsAll-push_ip :
    (seen : List IpRow) (i : IpRow) (rows : List LogRow) (rs : List QueryRecord)
    → Distinct rows
    → ShowsAll seen rows rs
    → ShowsAll (seen ++ i ∷ []) rows (push_ip i rs)
unfolding push_ip query_record
ShowsAll-push_ip seen i [] [] d v = tt
ShowsAll-push_ip seen i [] (r ∷ rs) d v = absurd v
ShowsAll-push_ip seen i (row ∷ rows) [] d v = v
ShowsAll-push_ip seen i (row ∷ rows) (r ∷ rs) d v =
    let same : r.id ≡ row.id = ap (λ (q : QueryRecord). q.id) v.0.columns in
    let row_is : (b : Bool) → (r.id == i.query_id) ≡ b → (row.id == i.query_id) ≡ b =
      λ b h. ap (λ n. n == i.query_id) (sym same) ∙ h in
    elim (Bool-cases (r.id == i.query_id)) [
      | inl own ↦
          let rest =
            ap (λ n. has_id n rows) (sym ((nat_beq_iff row.id i.query_id).0 (row_is true own)))
            ∙ d.0 in
          rw own
            (Shows-own seen i row r (row_is true own) v.0, ShowsAll-other seen i rows rs rest v.1)
      | inr other ↦ rw other (
        Shows-other seen i row r (row_is false other) v.0,
        ShowsAll-push_ip seen i rows rs d.1 v.1,
      )
    ]

pub ShowsAll-push_ips :
    (is seen : List IpRow) (rows : List LogRow) (rs : List QueryRecord)
    → Distinct rows
    → ShowsAll seen rows rs
    → ShowsAll (seen ++ is) rows (push_ips is rs)
unfolding push_ips
ShowsAll-push_ips [] seen rows rs d v = rw (append-nil seen) v
ShowsAll-push_ips (i ∷ is) seen rows rs d v =
    subst (λ l. ShowsAll l rows (push_ips is (push_ip i rs))) (append_assoc seen (i ∷ []) is)
      (ShowsAll-push_ips is (seen ++ i ∷ []) rows (push_ip i rs) d
        (ShowsAll-push_ip seen i rows rs d v))

pub ShowsAll-map : (rows : List LogRow) → ShowsAll [] rows (map query_record rows)
unfolding query_record contains
ShowsAll-map [] = tt
ShowsAll-map (row ∷ rows) = (record { columns = refl; addresses = λ ip. refl }, ShowsAll-map rows)

-- The addresses of another list that agrees on the rows.
pub ShowsAll-agree :
    (seen all : List IpRow) (rows : List LogRow) (rs : List QueryRecord)
    → ((id : ℕ) (ip : Text)
        → has_id id rows ≡ true
        → any_of (owns_ip id ip) seen ≡ any_of (owns_ip id ip) all)
    → ShowsAll seen rows rs
    → ShowsAll all rows rs
ShowsAll-agree seen all [] [] h v = tt
ShowsAll-agree seen all [] (r ∷ rs) h v = v
ShowsAll-agree seen all (row ∷ rows) [] h v = v
ShowsAll-agree seen all (row ∷ rows) (r ∷ rs) h v = (
  record {
    columns = v.0.columns;
    addresses = λ ip. v.0.addresses ip ∙ h row.id ip (ground (arith, nat_beq_iff row.id row.id));
  },
  ShowsAll-agree seen all rows rs (λ id ip k. h id ip (ground (arith, k))) v.1,
)

-- The selection of the addresses of a list of ids.
pub any_of-chosen :
    (ids : List ℕ) (id : ℕ) (ip : Text) (all : List IpRow)
    → contains ids id ≡ true
    → any_of (owns_ip id ip) (keep (λ (i : IpRow). contains ids i.query_id) all)
      ≡ any_of (owns_ip id ip) all
unfolding keep
any_of-chosen ids id ip [] h = refl
any_of-chosen ids id ip (i ∷ is) h =
    let rest = any_of-chosen ids id ip is h in
    elim (Bool-cases (contains ids i.query_id)) [
      | inl chosen ↦ rw chosen (ground (arith, rest))
      | inr left_out ↦ rw left_out (ground (arith, rest, h, left_out, nat_beq_iff i.query_id id))
    ]

pub contains-ids :
    (rows : List LogRow) (id : ℕ)
    → has_id id rows ≡ true
    → contains (map (λ (r : QueryRecord). r.id) (map query_record rows)) id ≡ true
unfolding contains query_record
contains-ids [] id h = h
contains-ids (row ∷ rows) id h =
    ground (arith, contains-ids rows id, nat_beq_iff row.id id, nat_beq_iff id row.id)
