-- ===== src/Dashboard/Store/Insert.antt =====
-- dashboard/store.rs: what a batch of events leaves in the tables.
use dnsbuffer.Prelude.{
  ℕ, ◌+◌, ◌≡◌, refl, sym, ap, ◌∙◌, ◌⊎◌, inl, inr, Bool, false, ◌&&◌, ◌||◌, Option, none, some, List,
  [], ◌∷◌, ◌++◌, arith, if◌then◌else◌, Bool-cases, Option-cases, ◌==◌, nat_eq, list_beq_iff,
  list_eq, length, any_of, any_of-append, contains,
}
use dnsbuffer.Prelude.Int.{ℤ, int_eq, pos, ◌+ℤ◌, ◌≤ℤ◌, times}
use dnsbuffer.Text.{Text}
use dnsbuffer.Resolver.{Result, ok, err, ◌>>=◌, Result-cases, >>=-ok, >>=-err}
use dnsbuffer.Dashboard.Recorder.{QueryEvent}
use dnsbuffer.Dashboard.Store.{
  Tables, Statement, connect, begin, commit, insert_ip, StatsTable, hourly, daily, stats, LogRow,
  log_row, owns_ip, apply, conclude, hour_start, execute, in_transaction, read_connection,
  insert_ips, day_ms,
}
use dnsbuffer.Dashboard.Store.Buckets.{Column, share, count_at, InOrder}

abbrev pub falls_in : Option ℤ → ℤ → Bool
falls_in none b = false
falls_in (some a) b = a == b

-- The rows of a batch behind the id `n`, and whether it stores an address with an id.
abbrev pub rows_of : ℕ → List QueryEvent → List LogRow
rows_of n [] = []
rows_of n (e ∷ es) = log_row (n + 1) e ∷ rows_of (n + 1) es

abbrev pub ip_of : ℕ → List QueryEvent → ℕ → Text → Bool
ip_of n [] id ip = false
ip_of n (e ∷ es) id ip = n + 1 == id && contains e.response_ips ip || ip_of (n + 1) es id ip

-- The bucket of a timestamp in each table.
abbrev pub bucket : (ℤ → Option ℤ) → StatsTable → ℤ → Option ℤ
bucket midnight hourly timestamp_ms = some (hour_start timestamp_ms)
bucket midnight daily timestamp_ms = midnight timestamp_ms

-- What chrono documents of the midnight of a timestamp: days begin at the multiples of a day.
abbrev pub StartsDays : (ℤ → Option ℤ) → Type 0
StartsDays midnight =
    (timestamp_ms day : ℤ)
    → midnight timestamp_ms ≡ some day
    → (day ≤ℤ timestamp_ms)
      × (timestamp_ms +ℤ pos 1 ≤ℤ day +ℤ pos day_ms)
      × ((q : ℤ) × (day ≡ times q day_ms))

-- What a batch adds to a cell.
abbrev pub counted : (ℤ → Option ℤ) → StatsTable → Column → ℤ → List QueryEvent → ℕ
counted midnight table c b [] = 0
counted midnight table c b (e ∷ es) =
    (if falls_in (bucket midnight table e.timestamp_ms) b then share c e else 0)
    + counted midnight table c b es

-- `t'` is `t` with a batch: a row for each event in order, with ids that go on from the last
-- one, its addresses, and one more query in its hour and in its day.
pub record IsRecorded (midnight : ℤ → Option ℤ) (es : List QueryEvent) (t t' : Tables)
    : Type 0 where
  pub last_id : t'.last_id ≡ t.last_id + length es
  pub logs : t'.logs ≡ t.logs ++ rows_of t.last_id es
  pub ips :
      (id : ℕ) (ip : Text)
      → any_of (owns_ip id ip) t'.ips ≡ (any_of (owns_ip id ip) t.ips || ip_of t.last_id es id ip)
  pub counts :
      (table : StatsTable) (c : Column) (b : ℤ)
      → count_at c (stats table t') b ≡ count_at c (stats table t) b + counted midnight table c b es
  pub ordered : (table : StatsTable) → InOrder table (stats table t')

module _ (refuses : Statement → Tables → Option Text) where
  pub execute-ok : (s : Statement) (t t' : Tables) → execute refuses s t ≡ ok t' → apply s t ≡ t'
  unfolding execute
  execute-ok s t t' h = ground arith

  -- SQLite refused a statement with this error.
  abbrev pub Refused : Text → Type 0
  Refused e = (s : Statement) × (t : Tables) × (refuses s t ≡ some e)

  pub execute-err :
      (s : Statement) (t : Tables) (e : Text) → execute refuses s t ≡ err e → Refused e
  unfolding execute
  execute-err s t e h = elim (Option-cases (refuses s t)) [
    | inl fine ↦ absurd (ground (arith, h, fine))
    | inr (x, f) ↦ (s, t, f ∙ ap some (ground (arith, h, f)))
  ]

  conclude-err : (t : Tables) (r : Result Tables) (e : Text) → conclude t r ≡ (err e, t) → r ≡ err e
  conclude-err t (ok u) e h = absurd (ground arith)
  conclude-err t (err x) e h = ground arith

  -- A transaction fails only if SQLite refuses a statement, if that holds for its body.
  pub in_transaction-err :
      (body : Tables → Result Tables) (t : Tables) (e : Text)
      → ((u : Tables) → body u ≡ err e → Refused e)
      → in_transaction refuses body t ≡ (err e, t)
      → Refused e
  unfolding in_transaction
  in_transaction-err body t e inside h =
      let opened = execute refuses connect t in
      let begun = opened >>= execute refuses begin in
      elim (>>=-err (begun >>= body) (execute refuses commit) e (conclude-err t _ e h)) [
        | inr (u, ran, failed) ↦ execute-err commit u e failed
        | inl failed ↦ elim (>>=-err begun body e failed) [
          | inr (u, ran, broken) ↦ inside u broken
          | inl broken ↦ elim (>>=-err opened (execute refuses begin) e broken) [
            | inr (u, ran, refused) ↦ execute-err begin u e refused
            | inl refused ↦ execute-err connect t e refused
          ]
        ]
      ]

  pub read_connection-ok :
      (deadline : Option ℕ) (now : ℕ) (t t' : Tables)
      → read_connection refuses deadline now t ≡ ok t'
      → t ≡ t'
  unfolding read_connection apply
  read_connection-ok none now t t' h = execute-ok connect t t' h
  read_connection-ok (some deadline) now t t' h =
      let (u, opened, checked) = >>=-ok (execute refuses connect t) _ t' h in
      execute-ok connect t u opened ∙ ground arith

  pub in_transaction-cases :
      (body : Tables → Result Tables) (t : Tables)
      → ((e : Text) × (in_transaction refuses body t ≡ (err e, t)))
        ⊎ ((t' : Tables) × (body t ≡ ok t') × (in_transaction refuses body t ≡ (ok tt, t')))
  unfolding in_transaction execute apply
  in_transaction-cases body t =
      let run =
        execute refuses connect t >>= execute refuses begin >>= body >>= execute refuses commit in
      elim (Result-cases run) [
        | inr (e, h) ↦ inl (e, ap (conclude t) h)
        | inl (t', h) ↦
            let (u, ran, ended) = >>=-ok _ (execute refuses commit) t' h in
            let (v, began, done) = >>=-ok _ body u ran in
            let (w, joined, begun) = >>=-ok _ (execute refuses begin) v began in
            let opened = execute-ok connect t w joined in
            let started = execute-ok begin w v begun in
            let committed = execute-ok commit u t' ended in
            inr (t', rw (opened ∙ started) (done ∙ ap ok committed), ap (conclude t) h)
      ]

  any_of-insert_ip :
      (n : ℕ) (a : Text) (t : Tables) (id : ℕ) (ip : Text)
      → any_of (owns_ip id ip) (apply (insert_ip n a) t).ips
        ≡ (any_of (owns_ip id ip) t.ips || n == id && ip == a)
  unfolding apply
  any_of-insert_ip n a t id ip = elim (Bool-cases (any_of (owns_ip n a) t.ips)) [
    | inl old ↦ rw old (ground (arith, list_beq_iff ip a, old))
    | inr new ↦
        rw (new, any_of-append (owns_ip id ip) t.ips (record { query_id = n; ip = a } ∷ []))
          (ground (arith, list_beq_iff a ip, list_beq_iff ip a))
  ]

  apply-insert_ip :
      (n : ℕ) (a : Text) (t : Tables)
      → apply (insert_ip n a) t ≡ record t { ips = (apply (insert_ip n a) t).ips }
  unfolding apply
  apply-insert_ip n a t = elim (Bool-cases (any_of (owns_ip n a) t.ips)) [
    | inl old ↦ rw old refl
    | inr new ↦ rw new refl
  ]

  pub insert_ips-ok :
      (n : ℕ) (ips : List Text) (t t' : Tables)
      → insert_ips refuses n ips t ≡ ok t'
      → (t' ≡ record t { ips = t'.ips })
        × ((id : ℕ) (ip : Text)
            → any_of (owns_ip id ip) t'.ips
              ≡ (any_of (owns_ip id ip) t.ips || n == id && contains ips ip))
  unfolding insert_ips contains
  insert_ips-ok n [] t t' h = (ground arith, λ id ip. ground arith)
  insert_ips-ok n (a ∷ ips) t t' h =
      let (u, first, rest) = >>=-ok _ (insert_ips refuses n ips) t' h in
      let step = execute-ok (insert_ip n a) t u first in
      let (same, found) = insert_ips-ok n ips u t' rest in
      (
        same ∙ ap (λ (v : Tables). record v { ips = t'.ips }) (sym step ∙ apply-insert_ip n a t),
        λ id ip. ground (arith, step, found id ip, any_of-insert_ip n a t id ip),
      )
