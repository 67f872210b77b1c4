-- ===== src/Dashboard/Store/Worker.antt =====
-- dashboard/store.rs: the worker that drains the channel of events into the store.
use dnsbuffer.Prelude.{
  ℕ, zero, suc, ◌+◌, ◌-◌, Bool, true, false, Option, List, [], ◌∷◌, ◌++◌, ltb, if◌then◌else◌,
  nat_eq, list_eq,
}
use dnsbuffer.Prelude.Int.{ℤ}
use dnsbuffer.Text.{Text}
use dnsbuffer.Dashboard.Recorder.{QueryEvent}
use dnsbuffer.Dashboard.Store.{Tables, Statement, insert_events, cleanup}

abbrev pub max_batch_size : ℕ
max_batch_size = 128

-- The variables of the loop: the events that wait in the channel, the oldest first, whether the
-- channel is closed, whether the shutdown has been received, and the instant of the next cleanup.
-- `tables` is the database.
pub record Worker : Type 0 where
  pub waiting : List QueryEvent
  pub is_closed : Bool
  pub shutdown_received : Bool
  pub next_cleanup : ℕ
  pub tables : Tables

-- The arm of `select!` that is taken.
pub data Arm : Type 0 where
  received shutdown woken : Arm

-- What a turn of the loop meets: the events that were sent since the turn before it, whether no
-- sender is left, the arm, how many more events come before the deadline of the batch, the errors of
-- SQLite, and the two clocks at the end of the turn.
pub record Turn : Type 0 where
  pub sent : List QueryEvent
  pub senders_gone : Bool
  pub arm : Arm
  pub in_time : ℕ
  pub refuses : Statement → Tables → Option Text
  pub now : ℕ
  pub now_ms : ℤ

-- A closed channel takes no events.
unfoldable pub arrive : Turn → Worker → Worker
arrive c w =
    if w.is_closed
    then w
    else record w { waiting = w.waiting ++ c.sent; is_closed = c.senders_gone }

-- The loop that fills a batch, with the room that it has left and the events that come in time.
unfoldable pub fill_batch : ℕ → ℕ → List QueryEvent → List QueryEvent × List QueryEvent
fill_batch zero in_time waiting = ([], waiting)
fill_batch (suc room) zero waiting = ([], waiting)
fill_batch (suc room) (suc in_time) [] = ([], [])
fill_batch (suc room) (suc in_time) (e ∷ waiting) =
    let (batch, rest) = fill_batch room in_time waiting in (e ∷ batch, rest)

-- `receiver.recv()`, then the rest of the batch; nothing from a channel that is empty.
unfoldable pub receive : ℕ → List QueryEvent → List QueryEvent × List QueryEvent
receive in_time [] = ([], [])
receive in_time (e ∷ waiting) =
    let (batch, rest) = fill_batch (max_batch_size - 1) in_time waiting in (e ∷ batch, rest)

-- The events of a turn, and what is left of the variables. The arm of the shutdown is off once it
-- has been received.
unfoldable pub next_events : Arm → ℕ → Worker → Worker × List QueryEvent
next_events received in_time w =
    let (batch, rest) = receive in_time w.waiting in (record w { waiting = rest }, batch)
next_events shutdown in_time w =
    let (batch, rest) = receive in_time w.waiting in
    (record w { waiting = rest; is_closed = true; shutdown_received = true }, batch)
next_events woken in_time w = (w, [])

module _ (midnight : ℤ → Option ℤ) (retention_days cleanup_interval : ℕ) where
  -- Before the loop: the first cleanup. The channel is open and its events arrive with the turns.
  unfoldable pub initial_worker : (Statement → Tables → Option Text) → ℕ → ℤ → Tables → Worker
  initial_worker refuses now now_ms t = record {
    waiting = [];
    is_closed = false;
    shutdown_received = false;
    next_cleanup = now + cleanup_interval;
    tables = (cleanup refuses retention_days now_ms t).1;
  }

  unfoldable pub write_batch : Turn → List QueryEvent → Worker → Worker
  write_batch c [] w = w
  write_batch c (e ∷ es) w = record w {
    tables = (insert_events c.refuses midnight (e ∷ es) w.tables).1;
  }

  unfoldable pub clean : Turn → Worker → Worker
  clean c w = if ltb c.now w.next_cleanup then w else record w {
    tables = (cleanup c.refuses retention_days c.now_ms w.tables).1;
    next_cleanup = c.now + cleanup_interval;
  }

  -- The worker behind a turn, and the batch of the turn.
  unfoldable pub turn : Turn → Worker → Worker × List QueryEvent
  turn c w =
      let (w', batch) = next_events c.arm c.in_time (arrive c w) in
      (clean c (write_batch c batch w'), batch)

  -- `events.is_empty() && receiver.is_closed()`.
  unfoldable pub is_done : Worker → List QueryEvent → Bool
  is_done w [] = w.is_closed
  is_done w (e ∷ es) = false

  -- The loop over the turns: the worker in the end, the batches in order, and whether it has ended.
  unfoldable pub run_store_worker : List Turn → Worker → Worker × List (List QueryEvent) × Bool
  run_store_worker [] w = (w, [], false)
  run_store_worker (c ∷ cs) w =
      let (w', batch) = turn c w in
      let (last, batches, ended) = run_store_worker cs w' in
      if is_done w' batch then (w', batch ∷ [], true) else (last, batch ∷ batches, ended)
