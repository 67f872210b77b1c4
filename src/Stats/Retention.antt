-- ===== src/Stats/Retention.antt =====
-- The retention period of the hourly buckets.
use dnsbuffer.Prelude.{
  ℕ, ◌-◌, ◌≤◌, ◌<◌, ◌≡◌, refl, ◌≢◌, ◌⊎◌, inl, inr, true, false, Option, none, some, List, [], ◌∷◌,
  arith, ltb, leb, Bool-cases, Option-cases, nat_eq, list_eq, All,
}
use dnsbuffer.Stats.{
  HourBucket, UpstreamStats, record_history, retention_cutoff, bump, new_bucket, add_to_history,
  drop_ended, totals, snapshot_at, is_current, hour_of, hour_end,
}
use dnsbuffer.Upstream.Floats.{Floats}

module _ {F : Type 0} where
  -- The hours ascend.
  abbrev pub IsOrdered : List (HourBucket F) → Type 0
  IsOrdered [] = Unit
  IsOrdered (b ∷ []) = Unit
  IsOrdered (b ∷ c ∷ bs) = (b.hour_ms < c.hour_ms) × IsOrdered (c ∷ bs)

-- The beginning of the retention period, if there is one.
abbrev pub since : Option ℕ → ℕ → Option ℕ
since none now = none
since (some retention) now = some (now - retention)

module _ {F : Type 0} (fl : Floats F) where
  IsOrdered-add_to_history :
      (hour : ℕ) (latency : Option F) (bs : List (HourBucket F))
      → IsOrdered bs
      → IsOrdered (add_to_history fl hour latency bs)
  unfolding add_to_history new_bucket bump
  IsOrdered-add_to_history hour none [] o = o
  IsOrdered-add_to_history hour (some x) [] o = o
  IsOrdered-add_to_history hour none (b ∷ []) o = ground arith
  IsOrdered-add_to_history hour (some x) (b ∷ []) o = ground arith
  IsOrdered-add_to_history hour none (b ∷ c ∷ []) o = ground arith
  IsOrdered-add_to_history hour (some x) (b ∷ c ∷ []) o = ground arith
  IsOrdered-add_to_history hour latency (b ∷ c ∷ d ∷ bs) (o, os) =
      (o, IsOrdered-add_to_history hour latency (c ∷ d ∷ bs) os)

  IsOrdered-drop_ended :
      (cutoff : ℕ) (bs : List (HourBucket F)) → IsOrdered bs → IsOrdered (drop_ended fl cutoff bs)
  unfolding drop_ended
  IsOrdered-drop_ended cutoff [] o = o
  IsOrdered-drop_ended cutoff (b ∷ []) o = ground arith
  IsOrdered-drop_ended cutoff (b ∷ c ∷ bs) o = ground (arith, IsOrdered-drop_ended cutoff (c ∷ bs))

  totals-drop_ended :
      (cutoff later : ℕ) (acc : ℕ × ℕ × F) (bs : List (HourBucket F))
      → cutoff ≤ later
      → totals fl (some later) acc (drop_ended fl cutoff bs) ≡ totals fl (some later) acc bs
  unfolding drop_ended totals is_current
  totals-drop_ended cutoff later acc [] le = refl
  totals-drop_ended cutoff later acc (b ∷ bs) le =
      elim (Bool-cases (leb (hour_end b.hour_ms) cutoff)) [
        | inl t ↦
            let out : ltb later (hour_end b.hour_ms) ≡ false = ground (arith, t) in
            rw (t, out) (totals-drop_ended cutoff later acc bs le)
        | inr f ↦ rw f refl
      ]

  same_totals :
      (a b : UpstreamStats F) (now : ℕ)
      → totals fl (retention_cutoff fl a now) (0, 0, fl.of_count 0) a.history
        ≡ totals fl (retention_cutoff fl b now) (0, 0, fl.of_count 0) b.history
      → snapshot_at fl a now ≡ snapshot_at fl b now
  unfolding snapshot_at
  same_totals a b now e = rw e refl

  -- Dropping the buckets whose hour lies before the retention period is invisible: now and at any
  -- later time the dashboard's figures are those of the history with nothing dropped.
  pub snapshot_at-record_history :
      (st : UpstreamStats F) (now later : ℕ) (latency : Option F)
      → now ≤ later
      → snapshot_at fl (record_history fl st now latency) later
        ≡ snapshot_at fl
            (record st { history = add_to_history fl (hour_of now) latency st.history })
            later
  unfolding record_history retention_cutoff
  snapshot_at-record_history st now later latency le =
      let added = add_to_history fl (hour_of now) latency st.history in
      same_totals (record_history fl st now latency) (record st { history = added }) later
        (elim (Option-cases st.retention_ms) [
          | inl e ↦ ground (arith, e)
          | inr (r, e) ↦ ground (
            arith,
            e,
            totals-drop_ended (now - r) (later - r) (0, 0, fl.of_count 0) added (omega arith),
          )
        ])

  -- Without a cutoff every bucket is current.
  All-always : (bs : List (HourBucket F)) → All (λ b. is_current fl none b ≡ true) bs
  unfolding is_current
  All-always [] = tt
  All-always (b ∷ bs) = (refl, All-always bs)

  later_current :
      (cutoff : ℕ) (b c : HourBucket F)
      → is_current fl (some cutoff) b ≡ true
      → b.hour_ms < c.hour_ms
      → is_current fl (some cutoff) c ≡ true
  unfolding is_current hour_end
  later_current cutoff b c t less = ground (arith, t, less)

  not_ended :
      (cutoff : ℕ) (b : HourBucket F)
      → leb (hour_end b.hour_ms) cutoff ≡ false
      → is_current fl (some cutoff) b ≡ true
  unfolding is_current
  not_ended cutoff b f = ground (arith, f)

  current_from :
      (cutoff : ℕ) (b : HourBucket F) (bs : List (HourBucket F))
      → is_current fl (some cutoff) b ≡ true
      → IsOrdered (b ∷ bs)
      → All (λ c. is_current fl (some cutoff) c ≡ true) (b ∷ bs)
  current_from cutoff b [] t o = (t, tt)
  current_from cutoff b (c ∷ bs) t (less, o) =
      (t, current_from cutoff c bs (later_current cutoff b c t less) o)

  drop_ended_current :
      (cutoff : ℕ) (bs : List (HourBucket F))
      → IsOrdered bs
      → All (λ b. is_current fl (some cutoff) b ≡ true) (drop_ended fl cutoff bs)
  unfolding drop_ended
  drop_ended_current cutoff [] o = tt
  drop_ended_current cutoff (b ∷ []) o = elim (Bool-cases (leb (hour_end b.hour_ms) cutoff)) [
    | inl t ↦ rw t tt
    | inr f ↦ rw f (not_ended cutoff b f, tt)
  ]
  drop_ended_current cutoff (b ∷ c ∷ bs) o = elim (Bool-cases (leb (hour_end b.hour_ms) cutoff)) [
    | inl t ↦ rw t (drop_ended_current cutoff (c ∷ bs) o.1)
    | inr f ↦ rw f (current_from cutoff b (c ∷ bs) (not_ended cutoff b f) o)
  ]

  -- If the hours of the buckets ascend, they do after a call is recorded, also if the clock went
  -- back; and no bucket is left whose hour has gone out of the retention period, if there is one.
  -- Without a period no bucket is dropped.
  pub record_history-IsOrdered :
      (st : UpstreamStats F) (now : ℕ) (latency : Option F)
      → IsOrdered st.history
      → IsOrdered (record_history fl st now latency).history
        × All
            (λ b. is_current fl (since st.retention_ms now) b ≡ true)
            (record_history fl st now latency).history
        × ((st.retention_ms ≢ none)
            ⊎ ((record_history fl st now latency).history
                ≡ add_to_history fl (hour_of now) latency st.history))
  unfolding record_history retention_cutoff is_current
  record_history-IsOrdered st now latency o =
      let added = add_to_history fl (hour_of now) latency st.history in
      let o' = IsOrdered-add_to_history (hour_of now) latency st.history o in
      elim (Option-cases st.retention_ms) [
        | inl e ↦ rw e (o', All-always added, inr refl)
        | inr (r, e) ↦ rw e (
          IsOrdered-drop_ended (now - r) added o',
          drop_ended_current (now - r) added o',
          inl (λ none_set. ground arith),
        )
      ]
