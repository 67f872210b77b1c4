-- ===== src/Dashboard/Store/Calls.antt =====
-- dashboard/store.rs: sequences of writes and cleanups.
use dnsbuffer.Prelude.{
  ℕ, ◌*◌, ◌≤◌, ◌≡◌, refl, sym, ap, ◌∙◌, ◌≢◌, ◌⊎◌, inl, inr, Option, List, [], ◌∷◌, arith, false,
  ◌&&◌, if◌then◌else◌, Bool-cases, ◌==◌, nat_eq, list_eq,
}
use mathlib.Core.Path.{subst}
use dnsbuffer.Prelude.Int.{ℤ, pos, ◌-ℤ◌, checked_lem, times, checked, in_i64}
use dnsbuffer.Text.{Text}
use dnsbuffer.Resolver.{Result, ok, err, Result-cases, ◌>>=◌, >>=-ok, >>=-err, context-ok}
use dnsbuffer.Dashboard.Recorder.{QueryEvent}
use dnsbuffer.Dashboard.Store.{
  Tables, Statement, StatsTable, stats, day_ms, insert_events, cleanup, cutoff_of, delete_before,
  keep, hourly, daily, execute, delete_logs, delete_stats,
}
use dnsbuffer.Dashboard.Store.Buckets.{Column, count_at, InOrder}
use dnsbuffer.Dashboard.Store.Insert.{
  in_transaction-cases, in_transaction-err, execute-err, Refused, StartsDays,
}
use dnsbuffer.Dashboard.Store.Consistent.{IsConsistent, IsConsistent-recorded, rows_in}
use dnsbuffer.Dashboard.Store.Batch.{insert_events_lem}
use dnsbuffer.Dashboard.Store.Cleanup.{
  cleaned, has_ended, is_recent, IsConsistent-cleaned, delete_before-ok, count_at-cleaned,
}

-- A call, with the errors of SQLite while it runs.
pub data Call : Type 0 where
  insertion : (Statement → Tables → Option Text) → List QueryEvent → Call
  clean_up : (Statement → Tables → Option Text) → ℕ → ℤ → Call

abbrev pub no_tables : Tables
no_tables = record { last_id = 0; logs = []; ips = []; hourly_stats = []; daily_stats = [] }

unfoldable pub call : (ℤ → Option ℤ) → Call → Tables → Tables
call midnight (insertion refuses es) t = (insert_events refuses midnight es t).1
call midnight (clean_up refuses retention_days now_ms) t =
    (cleanup refuses retention_days now_ms t).1

unfoldable pub after : (ℤ → Option ℤ) → List Call → Tables → Tables
after midnight [] t = t
after midnight (c ∷ cs) t = after midnight cs (call midnight c t)

cutoff_of_lem :
    (retention_days : ℕ) (now_ms cutoff : ℤ)
    → cutoff_of retention_days now_ms ≡ ok cutoff
    → cutoff ≡ now_ms -ℤ pos (retention_days * day_ms)
unfolding cutoff_of times
cutoff_of_lem retention_days now_ms cutoff h =
    let (days, h1, h2) = >>=-ok _ _ cutoff h in
    let (retention, h3, h4) = >>=-ok _ _ cutoff h2 in
    let a = checked_lem _ _ (context-ok _ _ days h1) in
    let b = checked_lem _ _ (context-ok _ _ retention h3) in
    let c = checked_lem _ _ (context-ok _ _ cutoff h4) in
    sym c ∙ ap (λ r. now_ms -ℤ r) (sym b ∙ ap (λ d. times d day_ms) (sym a) ∙ refl)

-- The days are too many for an `i64`, in milliseconds or back from now.
abbrev pub IsOutOfRange : ℕ → ℤ → Type 0
IsOutOfRange retention_days now_ms =
    (in_i64 (pos retention_days)
      && in_i64 (pos (retention_days * day_ms))
      && in_i64 (now_ms -ℤ pos (retention_days * day_ms)))
    ≡ false

cutoff_of-err :
    (retention_days : ℕ) (now_ms : ℤ) (e : Text)
    → cutoff_of retention_days now_ms ≡ err e
    → IsOutOfRange retention_days now_ms
unfolding cutoff_of checked times
cutoff_of-err retention_days now_ms e h = ground arith

delete_before-err :
    (refuses : Statement → Tables → Option Text) (cutoff : ℤ) (t : Tables) (e : Text)
    → delete_before refuses cutoff t ≡ err e
    → Refused refuses e
unfolding delete_before
delete_before-err refuses cutoff t e h =
    let logs = execute refuses (delete_logs cutoff) t in
    elim (>>=-err (logs >>= execute refuses (delete_stats hourly cutoff)) _ e h) [
      | inr (u, ran, failed) ↦ execute-err refuses _ u e failed
      | inl failed ↦ elim (>>=-err logs _ e failed) [
        | inr (u, ran, broken) ↦ execute-err refuses _ u e broken
        | inl broken ↦ execute-err refuses _ t e broken
      ]
    ]

-- A cleanup that fails, with its reason.
abbrev pub FailsOf : (Statement → Tables → Option Text) → ℕ → ℤ → Text → Type 0
FailsOf refuses retention_days now_ms e = IsOutOfRange retention_days now_ms ⊎ Refused refuses e

cleanup-cases :
    (refuses : Statement → Tables → Option Text) (retention_days : ℕ) (now_ms : ℤ) (t : Tables)
    → ((retention_days ≡ 0) × (cleanup refuses retention_days now_ms t ≡ (ok tt, t)))
      ⊎ ((e : Text) × (cleanup refuses retention_days now_ms t ≡ (err e, t))
          × FailsOf refuses retention_days now_ms e)
      ⊎ ((retention_days ≢ 0)
          × ((cutoff : ℤ) × (cutoff_of retention_days now_ms ≡ ok cutoff)
              × (cleanup refuses retention_days now_ms t ≡ (ok tt, cleaned cutoff t))))
unfolding cleanup
cleanup-cases refuses retention_days now_ms t = elim (Bool-cases (retention_days == 0)) [
  | inl unlimited ↦ inl (ground arith, rw unlimited refl)
  | inr limited ↦ elim (Result-cases (cutoff_of retention_days now_ms)) [
    | inr (e, failed) ↦
        inr (inl (e, rw (limited, failed) refl, inl (cutoff_of-err retention_days now_ms e failed)))
    | inl (cutoff, found) ↦ elim (in_transaction-cases refuses (delete_before refuses cutoff) t) [
      | inl (e, failed) ↦ inr (
          inl (
            e,
            rw (limited, found) failed,
            inr (
                in_transaction-err refuses (delete_before refuses cutoff) t e
                  (λ u. delete_before-err refuses cutoff u e) failed),
          ))
      | inr (t', ran, done) ↦ inr (
          inr (
            (λ z. ground (arith, z, limited)),
            (
              cutoff,
              found,
              rw (limited, found, done)
                  (ap (λ (u : Tables). (ok tt, u))
                    (sym (delete_before-ok refuses cutoff t t' ran))),
            ),
          ))
    ]
  ]
]

-- A cleanup that is to keep everything (0 days) changes nothing. Otherwise it fails, and changes
-- nothing, only if the days are out of the range of an `i64` or SQLite refuses a statement with the
-- error of the cleanup. Else the cutoff is the given number of days before now; the rows from the
-- cutoff on stay, in order, and no others, and the cells of a bucket go to 0 if it has ended by the
-- cutoff and stay as they were if not.
pub cleanup_lem :
    (refuses : Statement → Tables → Option Text) (retention_days : ℕ) (now_ms : ℤ) (t : Tables)
    → ((retention_days ≡ 0) × (cleanup refuses retention_days now_ms t ≡ (ok tt, t)))
      ⊎ ((e : Text) × (cleanup refuses retention_days now_ms t ≡ (err e, t))
          × FailsOf refuses retention_days now_ms e)
      ⊎ ((retention_days ≢ 0)
          × ((cutoff : ℤ) × (t' : Tables) × (cleanup refuses retention_days now_ms t ≡ (ok tt, t'))
              × (cutoff ≡ now_ms -ℤ pos (retention_days * day_ms))
              × (t'.logs ≡ keep (is_recent cutoff) t.logs)
              × ((table : StatsTable) (c : Column) (b : ℤ)
                  → count_at c (stats table t') b
                    ≡ (if has_ended table cutoff b then 0 else count_at c (stats table t) b))))
cleanup_lem refuses retention_days now_ms t = elim (cleanup-cases refuses retention_days now_ms t) [
  | inl same ↦ inl same
  | inr (inl failed) ↦ inr (inl failed)
  | inr (inr (some_days, (cutoff, found, done))) ↦ inr (
      inr (
        some_days,
        (
          cutoff,
          cleaned cutoff t,
          done,
          cutoff_of_lem retention_days now_ms cutoff found,
          refl,
          count_at-cleaned cutoff t,
        ),
      ))
]

module _ (midnight : ℤ → Option ℤ) (days : StartsDays midnight) where
  -- The tables behind a call.
  abbrev Kept : Result {0} Unit × Tables → Type 0
  Kept r = IsConsistent midnight r.1

  IsConsistent-call :
      (c : Call) (t : Tables) → IsConsistent midnight t → IsConsistent midnight (call midnight c t)
  unfolding call
  IsConsistent-call (insertion refuses es) t v =
      elim (insert_events_lem refuses midnight days es t v.ordered) [
        | inl (e, failed) ↦ subst Kept (sym failed) v
        | inr (t', done, recorded) ↦
            subst Kept (sym done) (IsConsistent-recorded midnight es t t' v recorded)
      ]
  IsConsistent-call (clean_up refuses retention_days now_ms) t v =
      elim (cleanup-cases refuses retention_days now_ms t) [
        | inl (no_days, same) ↦ subst Kept (sym same) v
        | inr (inl (e, same, why)) ↦ subst Kept (sym same) v
        | inr (inr (some_days, (cutoff, found, done))) ↦
            subst Kept (sym done) (IsConsistent-cleaned midnight days cutoff t v)
      ]

  IsConsistent-after :
      (cs : List Call) (t : Tables)
      → IsConsistent midnight t
      → IsConsistent midnight (after midnight cs t)
  unfolding after
  IsConsistent-after [] t v = v
  IsConsistent-after (c ∷ cs) t v =
      IsConsistent-after cs (call midnight c t) (IsConsistent-call c t v)

  -- Whatever batches and cleanups follow each other from the empty tables, failed ones included,
  -- every stored address belongs to a stored row, the statistics tables are in order (one row to a
  -- bucket, ascending, at multiples of the interval), and no cell of a bucket counts less than the stored rows of the bucket, provided that chrono's midnights start the days.
  pub after_lem : (cs : List Call) → IsConsistent midnight (after midnight cs no_tables)
  unfolding rows_in count_at
  after_lem cs = IsConsistent-after cs no_tables (record {
    owned = λ id ip h. absurd (ground arith);
    ordered = λ table. empty table;
    covered = λ table c b. none_stored table c b;
  })
    where
      empty : (table : StatsTable) → InOrder table (stats table no_tables)
      empty hourly = (tt, tt)
      empty daily = (tt, tt)

      none_stored :
          (table : StatsTable) (c : Column) (b : ℤ)
          → rows_in midnight table c b [] ≤ count_at c (stats table no_tables) b
      none_stored hourly c b = omega arith
      none_stored daily c b = omega arith
