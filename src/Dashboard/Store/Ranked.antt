-- ===== src/Dashboard/Store/Ranked.antt =====
-- dashboard/store.rs: the grouping counts the queries of each domain.
use dnsbuffer.Prelude.{
  ℕ, ◌+◌, ◌≡◌, refl, sym, ap, ◌∙◌, inl, inr, Bool, List, [], ◌∷◌, arith, if◌then◌else◌, Bool-cases,
  ◌==◌, ==_iff, nat_eq, list_eq,
}
use dnsbuffer.Text.{Text}
use dnsbuffer.Dashboard.Store.{LogRow}
use dnsbuffer.Dashboard.Store.Rankings.{Ranking, add_row, first_row, group_row, group_by_domain}

-- What the groups count of a domain, and what the log has of it.
abbrev pub ranked : Text → List Ranking → ℕ × ℕ × ℕ
ranked domain [] = (0, 0, 0)
ranked domain (r ∷ rs) =
    let (total, blocked, hits) = ranked domain rs in
    if r.domain == domain
    then (r.total_queries + total, r.blocked_queries + blocked, r.cache_hits + hits)
    else (total, blocked, hits)

abbrev pub logged : Text → List LogRow → ℕ × ℕ × ℕ
logged domain [] = (0, 0, 0)
logged domain (row ∷ rows) =
    let (total, blocked, hits) = logged domain rows in
    if row.domain == domain
    then (
      1 + total,
      (if row.blocked then 1 else 0) + blocked,
      (if row.cache_hit then 1 else 0) + hits,
    )
    else (total, blocked, hits)

abbrev flag : Bool → ℕ
flag b = if b then 1 else 0

ranked-group_row :
    (domain : Text) (row : LogRow) (rs : List Ranking)
    → ranked domain (group_row row rs) ≡ (
        if row.domain == domain
        then (
          1 + (ranked domain rs).0,
          flag row.blocked + (ranked domain rs).1,
          flag row.cache_hit + (ranked domain rs).2,
        )
        else ranked domain rs)
unfolding group_row first_row add_row
ranked-group_row domain row [] = elim (Bool-cases (row.domain == domain)) [
  | inl own ↦ rw own (ground arith)
  | inr other ↦ rw other refl
]
ranked-group_row domain row (r ∷ rs) = elim (Bool-cases (r.domain == row.domain)) [
  | inl same ↦
      let e = ap (λ (t : Text). t == domain) ((==_iff r.domain row.domain).0 same) in
      elim (Bool-cases (row.domain == domain)) [
        | inl own ↦ let e' = e ∙ own in rw (same, own) (ground (arith, e'))
        | inr other ↦ let e' = e ∙ other in rw (same, other) (ground (arith, e', other))
      ]
  | inr apart ↦
      let ih = ranked-group_row domain row rs in
      elim (Bool-cases (row.domain == domain)) [
        | inl own ↦ elim (Bool-cases (r.domain == domain)) [
          | inl both ↦ absurd (
              cc (
                apart,
                (==_iff r.domain row.domain).1
                    ((==_iff r.domain domain).0 both ∙ sym ((==_iff row.domain domain).0 own)),
              ))
          | inr not_this ↦ rw (apart, own) (ground (arith, not_this, rw own at ih))
        ]
        | inr other ↦ rw (apart, other) (ground (arith, rw other at ih))
      ]
]

-- The groups count exactly the rows of the log: for each domain how many there are, how many of them
-- were blocked, and how many came from the cache.
pub ranked-group_by_domain :
    (domain : Text) (rows : List LogRow) → ranked domain (group_by_domain rows) ≡ logged domain rows
unfolding group_by_domain
ranked-group_by_domain domain [] = refl
ranked-group_by_domain domain (row ∷ rows) =
    ranked-group_row domain row (group_by_domain rows)
    ∙ rw (ranked-group_by_domain domain rows) refl
