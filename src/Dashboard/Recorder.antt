-- ===== src/Dashboard/Recorder.antt =====
-- dashboard/mod.rs: query events, and the recorder that hands them to the store without waiting.
use dnsbuffer.Prelude.{
  ℕ, ◌≤◌, ◌≡◌, Bool, true, false, not, ◌&&◌, Option, List, [], ◌∷◌, ◌++◌, arith, ltb, if◌then◌else◌,
  nat_eq, list_eq, length, length-append,
}
use dnsbuffer.Prelude.Int.{ℤ}
use dnsbuffer.Text.{Text}

pub record QueryEvent : Type 0 where
  pub timestamp_ms : ℤ
  pub domain : Text
  pub query_type : Text
  pub response_code : Text
  pub duration_ms : ℕ
  pub blocked : Bool
  pub cache_hit : Bool
  pub response_ips : List Text
  pub upstream : Option Text

-- The channel with its queue, the oldest event first, and the flags of the two warnings.
pub record Recorder : Type 0 where
  pub capacity : ℕ
  pub queue : List QueryEvent
  pub closed : Bool
  pub full_logged : Bool
  pub closed_logged : Bool

unfoldable pub channel : ℕ → Recorder
channel capacity = record {
  capacity = capacity;
  queue = [];
  closed = false;
  full_logged = false;
  closed_logged = false;
}

-- The receiver is dropped at once.
unfoldable pub disabled : Recorder
disabled = record (channel 1) { closed = true }

-- tokio's `try_send`: an event is refused if the channel is closed or full.
pub data Sent : Type 0 where
  sent full closed : Sent

unfoldable pub try_send : Recorder → QueryEvent → Recorder × Sent
try_send r e =
    if r.closed
    then (r, closed)
    else if ltb (length r.queue) r.capacity
    then (record r { queue = r.queue ++ e ∷ [] }, sent)
    else (r, full)

-- The new recorder, and whether a warning is logged.
unfoldable pub try_record : Recorder → QueryEvent → Recorder × Bool
try_record r e =
    let (r', result) = try_send r e in
    elim result [
      | sent ↦ (record r' { full_logged = false }, false)
      | full ↦ (record r' { full_logged = true }, not r'.full_logged)
      | closed ↦ (record r' { closed_logged = true }, not r'.closed_logged)
    ]

-- Recording never overfills the queue and keeps the events that wait, in order: the new event goes
-- behind them if the channel is open and has room, and is dropped otherwise. Of two calls in a row
-- with one event at most one logs a warning.
pub try_record_lem :
    (r : Recorder) (e : QueryEvent)
    → length r.queue ≤ r.capacity
    → ((try_record r e).0.queue
        ≡ (if not r.closed && ltb (length r.queue) r.capacity then r.queue ++ e ∷ [] else r.queue))
      × (length (try_record r e).0.queue ≤ r.capacity)
      × (((try_record r e).1 && (try_record (try_record r e).0 e).1) ≡ false)
unfolding try_record try_send
try_record_lem r e h = ground (arith, length-append r.queue (e ∷ []))
