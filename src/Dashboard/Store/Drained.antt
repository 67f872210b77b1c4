-- ===== src/Dashboard/Store/Drained.antt =====
-- dashboard/store.rs: a closed channel is drained, each event in one batch and in order.
use dnsbuffer.Prelude.{
  ℕ, zero, suc, ◌-◌, ◌≤◌, ◌<◌, ◌≡◌, refl, sym, ap, ◌∙◌, inl, inr, Bool, true, false, Option, List,
  [], ◌∷◌, ◌++◌, arith, ltb, if◌then◌else◌, Bool-cases, List-cases, nat_eq, list_eq, length, All,
}
use mathlib.Core.Path.{subst}
use mathlib.Core.List.{append-nil}
use dnsbuffer.Prelude.Int.{ℤ}
use dnsbuffer.Dashboard.Recorder.{QueryEvent}
use dnsbuffer.Dashboard.Store.Worker.{
  Worker, Turn, Arm, received, shutdown, woken, arrive, fill_batch, receive, next_events,
  write_batch, clean, turn, is_done, run_store_worker, max_batch_size,
}

abbrev is_woken : Arm → Bool
is_woken received = false
is_woken shutdown = false
is_woken woken = true

abbrev pub concat : List (List QueryEvent) → List QueryEvent
concat [] = []
concat (b ∷ bs) = b ++ concat bs

fill_batch_lem :
    (room in_time : ℕ) (waiting : List QueryEvent)
    → ((fill_batch room in_time waiting).0 ++ (fill_batch room in_time waiting).1 ≡ waiting)
      × (length (fill_batch room in_time waiting).0 ≤ room)
      × (length (fill_batch room in_time waiting).1 ≤ length waiting)
unfolding fill_batch
fill_batch_lem zero in_time waiting = (refl, omega arith, omega arith)
fill_batch_lem (suc room) zero waiting = (refl, omega arith, omega arith)
fill_batch_lem (suc room) (suc in_time) [] = (refl, omega arith, omega arith)
fill_batch_lem (suc room) (suc in_time) (e ∷ waiting) =
    let (whole, bound, rest) = fill_batch_lem room in_time waiting in
    (ap (λ es. e ∷ es) whole, omega (arith, bound), omega (arith, rest))

receive_lem :
    (in_time : ℕ) (waiting : List QueryEvent)
    → ((receive in_time waiting).0 ++ (receive in_time waiting).1 ≡ waiting)
      × (length (receive in_time waiting).0 ≤ max_batch_size)
      × (length (receive in_time waiting).1 ≤ length waiting - 1)
unfolding receive
receive_lem in_time [] = (refl, omega arith, omega arith)
receive_lem in_time (e ∷ waiting) =
    let (whole, bound, rest) = fill_batch_lem (max_batch_size - 1) in_time waiting in
    (ap (λ es. e ∷ es) whole, omega (arith, bound), omega (arith, rest))

next_events_lem :
    (a : Arm) (in_time : ℕ) (w : Worker)
    → w.is_closed ≡ true
    → is_woken a ≡ false
    → ((next_events a in_time w).0.waiting ≡ (receive in_time w.waiting).1)
      × ((next_events a in_time w).0.is_closed ≡ true)
      × ((next_events a in_time w).1 ≡ (receive in_time w.waiting).0)
unfolding next_events
next_events_lem received in_time w h k = (refl, h, refl)
next_events_lem shutdown in_time w h k = (refl, refl, refl)
next_events_lem woken in_time w h k = absurd (ground arith)

arrive_lem : (c : Turn) (w : Worker) → w.is_closed ≡ true → arrive c w ≡ w
unfolding arrive
arrive_lem c w h =
    ap
      (λ b. if b then w else record w { waiting = w.waiting ++ c.sent; is_closed = c.senders_gone })
      h

module _ (midnight : ℤ → Option ℤ) (retention_days cleanup_interval : ℕ) where
  -- The writes leave the channel alone.
  kept :
      (c : Turn) (batch : List QueryEvent) (w : Worker)
      → ((clean midnight retention_days cleanup_interval c
            (write_batch midnight retention_days cleanup_interval c batch w)).waiting
          ≡ w.waiting)
        × ((clean midnight retention_days cleanup_interval c
              (write_batch midnight retention_days cleanup_interval c batch w)).is_closed
            ≡ w.is_closed)
  unfolding clean write_batch
  kept c [] w = elim (Bool-cases (ltb c.now w.next_cleanup)) [
    | inl early ↦ rw (early, clean) (refl, refl)
    | inr due ↦ rw (due, clean) (refl, refl)
  ]
  kept c (e ∷ es) w = elim (Bool-cases (ltb c.now w.next_cleanup)) [
    | inl early ↦ rw (early, clean) (refl, refl)
    | inr due ↦ rw (due, clean) (refl, refl)
  ]

  turn_lem :
      (c : Turn) (w : Worker)
      → w.is_closed ≡ true
      → is_woken c.arm ≡ false
      → ((turn midnight retention_days cleanup_interval c w).0.waiting
          ≡ (receive c.in_time w.waiting).1)
        × ((turn midnight retention_days cleanup_interval c w).0.is_closed ≡ true)
        × ((turn midnight retention_days cleanup_interval c w).1 ≡ (receive c.in_time w.waiting).0)
  unfolding turn
  turn_lem c w h k =
      let (rest, closed, batch) = next_events_lem c.arm c.in_time w h k in
      let (same, still) =
        kept c (next_events c.arm c.in_time w).1 (next_events c.arm c.in_time w).0 in
      let Ends : Worker × List QueryEvent → Type 0 = λ x.
        ((clean midnight retention_days cleanup_interval c
            (write_batch midnight retention_days cleanup_interval c x.1 x.0)).waiting
          ≡ (receive c.in_time w.waiting).1)
        × ((clean midnight retention_days cleanup_interval c
              (write_batch midnight retention_days cleanup_interval c x.1 x.0)).is_closed
            ≡ true)
        × (x.1 ≡ (receive c.in_time w.waiting).0) in
      subst Ends (ap (next_events c.arm c.in_time) (sym (arrive_lem c w h)))
        (same ∙ rest, still ∙ closed, batch)

  -- Once the channel is closed, and as long as the timer of the cleanup does not fire, the loop ends
  -- after at most one turn more than there are events, and by then each event that waited has been in
  -- exactly one batch, in order; no batch has more than 128.
  pub run_store_worker_lem :
      (cs : List Turn) (w : Worker)
      → w.is_closed ≡ true
      → All (λ (c : Turn). is_woken c.arm ≡ false) cs
      → length w.waiting < length cs
      → ((run_store_worker midnight retention_days cleanup_interval cs w).2 ≡ true)
        × (concat (run_store_worker midnight retention_days cleanup_interval cs w).1 ≡ w.waiting)
        × All
            (λ b. length b ≤ max_batch_size)
            (run_store_worker midnight retention_days cleanup_interval cs w).1
  unfolding run_store_worker is_done receive
  run_store_worker_lem [] w h a l = absurd (omega arith)
  run_store_worker_lem (c ∷ cs) w h a l =
      let (rest, closed, batch) = turn_lem c w h a.0 in
      let (whole, bound, less) = receive_lem c.in_time w.waiting in
      let r = turn midnight retention_days cleanup_interval c w in
      elim (List-cases w.waiting) [
        | inl empty ↦
            let nothing : r.1 ≡ [] = batch ∙ ap (λ q. (receive c.in_time q).0) empty in
            let done : is_done midnight retention_days cleanup_interval r.0 r.1 ≡ true =
              ap (is_done midnight retention_days cleanup_interval r.0) nothing ∙ closed in
            rw done (refl, append-nil r.1 ∙ nothing ∙ sym empty, (rw batch bound, tt))
        | inr (e, es, full) ↦
            let (ends, all, bounds) =
              run_store_worker_lem cs r.0 closed a.1
                (omega (arith, ap length rest, less, ap length full, l)) in
            let first : r.1 ≡ e ∷ (fill_batch (max_batch_size - 1) c.in_time es).0 =
              batch ∙ ap (λ q. (receive c.in_time q).0) full in
            let goes_on : is_done midnight retention_days cleanup_interval r.0 r.1 ≡ false =
              ap (is_done midnight retention_days cleanup_interval r.0) first in
            rw goes_on (
              ends,
              ap (λ es. r.1 ++ es) (all ∙ rest)
                  ∙ ap (λ b. b ++ (receive c.in_time w.waiting).1) batch
                  ∙ whole,
              (rw batch bound, bounds),
            )
      ]
