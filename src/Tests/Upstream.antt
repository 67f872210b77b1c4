-- ===== src/Tests/Upstream.antt =====
-- Runs of the statistics, the group and the hedging loop, with whole numbers for the floats.
use dnsbuffer.Prelude.{
  ℕ, ◌+◌, ◌-◌, ◌*◌, ◌/◌, min, max, ◌≡◌, refl, ◌≢◌, ◌⊎◌, true, false, none, some, List, [], ◌∷◌,
  ◌++◌, map, arith, ltb, leb, nat_eq, list_eq, length, All, sum,
}
use dnsbuffer.Text.{str}
use dnsbuffer.Resolver.{err}
use dnsbuffer.Stats.{
  UpstreamStats, with_retention, snapshot_at, record_history, add_to_history, hour_of, is_current,
}
use dnsbuffer.Stats.Window.{
  Event, succeeds, soft_fails, times_out, after_all, sample_of_event, last_of, after_all-last_of,
}
use dnsbuffer.Stats.History.{recorded_calls, succeeded, snapshot_at-after_all}
use dnsbuffer.Stats.Retention.{IsOrdered, snapshot_at-record_history, record_history-IsOrdered}
use dnsbuffer.Upstream.Floats.{Floats}
use dnsbuffer.Upstream.Selector.{pick_weighted, pick_from, usable, usable_only, total_weight}
use dnsbuffer.Upstream.Group.{Member, Attempt, failed, resolve_member, max_attempts}
use dnsbuffer.Upstream.Group.Ending.{IsTrial, names}
use dnsbuffer.Upstream.Group.Trials.{resolve_member-IsTrial}
use dnsbuffer.Upstream.Hedged.{Poll, finished, start, resolve_loop}
use dnsbuffer.Upstream.Hedged.Ends.{has_ended, resolve_loop-has_ended}

abbrev pub whole : Floats ℕ
whole = record {
  of_count = λ n. n;
  to_count = λ n. n;
  add = λ a b. a + b;
  mul = λ a b. a * b;
  div = λ a b. a / b;
  max_of = λ a b. max a b;
  sum_of = sum;
  lt = ltb;
  le = leb;
  is_finite = λ _. true;
}

picks_second : pick_weighted whole (0 ∷ 3 ∷ []) 0 ≡ some 1
unfolding pick_weighted pick_from total_weight usable usable_only
picks_second = refl

abbrev calls : List (Event ℕ)
calls = succeeds 20 7200000 ∷ soft_fails ∷ times_out 7200005 ∷ []

after_all-last_of_example :
    (after_all whole (with_retention whole 2 0) calls).samples
    ≡ last_of (max 2 1) (map sample_of_event calls)
after_all-last_of_example = after_all-last_of whole 2 0 calls

snapshot_at-after_all_example :
    ((snapshot_at whole (after_all whole (with_retention whole 2 0) calls) 7200009).samples
      ≡ recorded_calls calls)
    × ((snapshot_at whole (after_all whole (with_retention whole 2 0) calls) 7200009).successes
        ≡ succeeded calls)
snapshot_at-after_all_example = snapshot_at-after_all whole 2 7200009 calls (ground arith)

abbrev busy : UpstreamStats ℕ
busy = record {
  window = 2;
  samples = [];
  retention_ms = some 86400000;
  history = record { hour_ms = 0; samples = 3; successes = 2; latency_sum_ms = 40 } ∷ [];
}

snapshot_at-record_history_example :
    snapshot_at whole (record_history whole busy 97200000 none) 97200001
    ≡ snapshot_at whole
        (record busy { history = add_to_history whole (hour_of 97200000) none busy.history })
        97200001
snapshot_at-record_history_example =
    snapshot_at-record_history whole busy 97200000 97200001 none (ground arith)

record_history-IsOrdered_example :
    IsOrdered (record_history whole busy 97200000 none).history
    × All
        (λ b. is_current whole (some (97200000 - 86400000)) b ≡ true)
        (record_history whole busy 97200000 none).history
    × ((busy.retention_ms ≢ none)
        ⊎ ((record_history whole busy 97200000 none).history
            ≡ add_to_history whole (hour_of 97200000) none busy.history))
record_history-IsOrdered_example = record_history-IsOrdered whole busy 97200000 none tt

abbrev refuses : ℕ → ℕ → Attempt ℕ
refuses n i = failed (str "refused")

abbrev member_a : Member ℕ
member_a = record { name = str "a"; stats = with_retention whole 4 0; poisoned = false }

resolve_member-IsTrial_example :
    IsTrial
      (names (member_a ∷ member_a ∷ []))
      refuses
      (min (length (member_a ∷ member_a ∷ [])) max_attempts)
      (resolve_member whole 1 (λ _. 0) refuses (member_a ∷ member_a ∷ []))
resolve_member-IsTrial_example =
    resolve_member-IsTrial whole refl 1 (λ _. 0) refuses member_a (member_a ∷ [])

abbrev quiet : ℕ → Poll ℕ
quiet t = record { now = t; joined = none; read_at = t }

abbrev failing : ℕ → Poll ℕ
failing t = record { now = t; joined = some (finished (err (str "reset"))); read_at = t }

abbrev late : List (Poll ℕ)
late =
    failing 6000
    ∷ quiet 6000
    ∷ quiet 6000
    ∷ quiet 6000
    ∷ quiet 6000
    ∷ quiet 6000
    ∷ quiet 6000
    ∷ quiet 6000
    ∷ quiet 6000
    ∷ []

resolve_loop-has_ended_example :
    has_ended (resolve_loop (start 200 5000 10) ((quiet 210 ∷ []) ++ late)) ≡ true
resolve_loop-has_ended_example =
    resolve_loop-has_ended 200 5000 10 (quiet 210 ∷ []) late (ground arith) (ground arith)
