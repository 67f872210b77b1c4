-- ===== src/Stats/History.antt =====
-- The hourly buckets behind the figures of the dashboard.
use dnsbuffer.Prelude.{
  ℕ, suc, ◌+◌, ◌^◌, ◌≤◌, ◌<◌, ◌≡◌, refl, ap, ◌∙◌, Option, none, some, List, [], ◌∷◌, arith, nat_eq,
  list_eq, length,
}
use dnsbuffer.Cache.{add_word, word}
use dnsbuffer.Cache.Budget.{add_word_lem}
use dnsbuffer.Stats.{
  HourBucket, success, failure, UpstreamStats, push, record_success_at, record_soft_fail,
  record_timeout_at, record_history, with_retention, retention_of, retention_cutoff, bump,
  new_bucket, add_to_history, totals, snapshot_at, is_current, hour_of,
}
use dnsbuffer.Stats.Window.{Event, succeeds, soft_fails, times_out, after, after_all}
use dnsbuffer.Upstream.Floats.{Floats}

module _ {F : Type 0} where
  -- The calls that reach the history, and those among them that succeeded.
  pub recorded_calls : List (Event F) → ℕ
  recorded_calls [] = 0
  recorded_calls (succeeds _ _ ∷ es) = suc (recorded_calls es)
  recorded_calls (soft_fails ∷ es) = recorded_calls es
  recorded_calls (times_out _ ∷ es) = suc (recorded_calls es)

  pub succeeded : List (Event F) → ℕ
  succeeded [] = 0
  succeeded (succeeds _ _ ∷ es) = suc (succeeded es)
  succeeded (soft_fails ∷ es) = succeeded es
  succeeded (times_out _ ∷ es) = succeeded es

  abbrev sample_count : List (HourBucket F) → ℕ
  sample_count [] = 0
  sample_count (b ∷ bs) = b.samples + sample_count bs

  abbrev success_count : List (HourBucket F) → ℕ
  success_count [] = 0
  success_count (b ∷ bs) = b.successes + success_count bs

  abbrev one_if : Option F → ℕ
  one_if none = 0
  one_if (some _) = 1

module _ {F : Type 0} (fl : Floats F) where
  bump_lem :
      (b : HourBucket F) (latency : Option F)
      → b.samples + 1 < word
      → b.successes + 1 < word
      → ((bump fl b latency).samples ≡ b.samples + 1)
        × ((bump fl b latency).successes ≡ b.successes + one_if latency)
  unfolding bump
  bump_lem b none s t = (add_word_lem b.samples 1 s, omega arith)
  bump_lem b (some x) s t = (add_word_lem b.samples 1 s, add_word_lem b.successes 1 t)

  add_to_history_lem :
      (hour : ℕ) (latency : Option F) (bs : List (HourBucket F))
      → sample_count bs + 1 < word
      → success_count bs + 1 < word
      → (sample_count (add_to_history fl hour latency bs) ≡ sample_count bs + 1)
        × (success_count (add_to_history fl hour latency bs) ≡ success_count bs + one_if latency)
  unfolding add_to_history new_bucket
  add_to_history_lem hour none [] s t = (refl, refl)
  add_to_history_lem hour (some x) [] s t = (refl, refl)
  add_to_history_lem hour none (b ∷ []) s t =
      ground (arith, bump_lem b none (omega arith) (omega arith))
  add_to_history_lem hour (some x) (b ∷ []) s t =
      ground (arith, bump_lem b (some x) (omega arith) (omega arith))
  add_to_history_lem hour latency (b ∷ c ∷ bs) s t =
      let later = add_to_history_lem hour latency (c ∷ bs) (omega arith) (omega arith) in
      (omega (arith, later.0), omega (arith, later.1))

  totals_lem :
      (n m : ℕ) (x : F) (bs : List (HourBucket F))
      → n + sample_count bs < word
      → m + success_count bs < word
      → ((totals fl none (n, m, x) bs).0 ≡ n + sample_count bs)
        × ((totals fl none (n, m, x) bs).1 ≡ m + success_count bs)
  unfolding totals is_current
  totals_lem n m x [] s t = (omega arith, omega arith)
  totals_lem n m x (b ∷ bs) s t =
      let a = add_word_lem n b.samples (omega arith) in
      let c = add_word_lem m b.successes (omega arith) in
      let rest =
        totals_lem (add_word n b.samples) (add_word m b.successes) (fl.add x b.latency_sum_ms) bs
          (omega (arith, a)) (omega (arith, c)) in
      (omega (arith, a, rest.0), omega (arith, c, rest.1))

  counts_cons :
      (e : Event F) (es : List (Event F))
      → (recorded_calls (e ∷ es) ≡ recorded_calls (e ∷ []) + recorded_calls es)
        × (succeeded (e ∷ es) ≡ succeeded (e ∷ []) + succeeded es)
        × (recorded_calls (e ∷ []) ≤ 1)
        × (succeeded (e ∷ []) ≤ 1)
  unfolding recorded_calls succeeded
  counts_cons (succeeds _ _) es = (omega arith, omega arith, omega arith, omega arith)
  counts_cons soft_fails es = (omega arith, omega arith, omega arith, omega arith)
  counts_cons (times_out _) es = (omega arith, omega arith, omega arith, omega arith)

  no_cutoff :
      (st : UpstreamStats F) (now : ℕ) → st.retention_ms ≡ none → retention_cutoff fl st now ≡ none
  unfolding retention_cutoff
  no_cutoff st now keep = rw keep refl

  history_of_record :
      (st : UpstreamStats F) (now : ℕ) (latency : Option F)
      → st.retention_ms ≡ none
      → (record_history fl st now latency).history
        ≡ add_to_history fl (hour_of now) latency st.history
  unfolding record_history retention_cutoff
  history_of_record st now latency none_set = ground (arith, none_set)

  -- The counts of a history before and after a call.
  record Counted (before behind : List (HourBucket F)) (n m : ℕ) : Type 0 where
    samples : sample_count behind ≡ sample_count before + n
    successes : success_count behind ≡ success_count before + m

  after_lem :
      (st : UpstreamStats F) (e : Event F)
      → st.retention_ms ≡ none
      → sample_count st.history + 1 < word
      → success_count st.history + 1 < word
      → Counted st.history (after fl st e).history (recorded_calls (e ∷ [])) (succeeded (e ∷ []))
        × ((after fl st e).retention_ms ≡ none)
  unfolding after record_success_at record_soft_fail record_timeout_at push record_history
      recorded_calls succeeded
  after_lem st (succeeds latency now) keep s t =
      let h = history_of_record (push fl st (success latency)) now (some latency) keep in
      let c = add_to_history_lem (hour_of now) (some latency) st.history s t in
      (record { samples = ap sample_count h ∙ c.0; successes = ap success_count h ∙ c.1 }, keep)
  after_lem st soft_fails keep s t =
      (record { samples = omega arith; successes = omega arith }, keep)
  after_lem st (times_out now) keep s t =
      let h = history_of_record (push fl st failure) now none keep in
      let c = add_to_history_lem (hour_of now) none st.history s t in
      (record { samples = ap sample_count h ∙ c.0; successes = ap success_count h ∙ c.1 }, keep)

  after_all_lem :
      (st : UpstreamStats F) (es : List (Event F))
      → st.retention_ms ≡ none
      → sample_count st.history + length es < word
      → success_count st.history + length es < word
      → Counted st.history (after_all fl st es).history (recorded_calls es) (succeeded es)
        × ((after_all fl st es).retention_ms ≡ none)
  unfolding after_all recorded_calls succeeded
  after_all_lem st [] keep s t = (record { samples = omega arith; successes = omega arith }, keep)
  after_all_lem st (e ∷ es) keep s t =
      let split = counts_cons e es in
      let one = after_lem st e keep (omega arith) (omega arith) in
      let rest =
        after_all_lem (after fl st e) es one.1 (omega (arith, one.0.samples, split.2))
          (omega (arith, one.0.successes, split.3)) in
      (
        record {
          samples = omega (arith, rest.0.samples, one.0.samples, split.0);
          successes = omega (arith, rest.0.successes, one.0.successes, split.1);
        },
        rest.1,
      )

  recorded_calls-le :
      (es : List (Event F)) → (recorded_calls es ≤ length es) × (succeeded es ≤ length es)
  unfolding recorded_calls succeeded
  recorded_calls-le [] = (omega arith, omega arith)
  recorded_calls-le (succeeds _ _ ∷ es) = ground (arith, recorded_calls-le es)
  recorded_calls-le (soft_fails ∷ es) = ground (arith, recorded_calls-le es)
  recorded_calls-le (times_out _ ∷ es) = ground (arith, recorded_calls-le es)

  -- Without a retention period, the dashboard's figures after any calls on new statistics, fewer
  -- than 2^64, are exact: the samples are the calls that succeeded or timed out, the successes
  -- those that succeeded, and a soft error counts in neither.
  pub snapshot_at-after_all :
      (window now : ℕ) (es : List (Event F))
      → length es < 2 ^ 64
      → ((snapshot_at fl (after_all fl (with_retention fl window 0) es) now).samples
          ≡ recorded_calls es)
        × ((snapshot_at fl (after_all fl (with_retention fl window 0) es) now).successes
            ≡ succeeded es)
  unfolding snapshot_at with_retention retention_of retention_cutoff
  snapshot_at-after_all window now es few =
      let st = after_all fl (with_retention fl window 0) es in
      let all = after_all_lem (with_retention fl window 0) es refl (omega arith) (omega arith) in
      let t =
        totals_lem 0 0 (fl.of_count 0) st.history
          (omega (arith, all.0.samples, recorded_calls-le es))
          (omega (arith, all.0.successes, recorded_calls-le es)) in
      rw (no_cutoff st now all.1)
        (omega (arith, t.0, all.0.samples), omega (arith, t.1, all.0.successes))
