-- ===== src/Upstream/Group.antt =====
-- upstream/group.rs: the group that tries its members by weight, and the fallback resolver.
pub mod Choice
pub mod Ending
pub mod Trials
use dnsbuffer.Prelude.{
  ℕ, zero, suc, ◌+◌, ◌-◌, ◌*◌, ◌/◌, ◌%◌, ◌^◌, ◌≤◌, ◌<◌, min, max, ◌≡◌, refl, sym, ap, ◌∙◌, ◌≢◌, ◌↔◌,
  ◌⊎◌, inl, inr, Bool, true, false, not, ◌&&◌, ◌||◌, Option, none, some, List, [], ◌∷◌, ◌++◌, map,
  reverse, arith, ltb, leb, nat_beq, if◌then◌else◌, tests, Bool-cases, Option-cases, Eq, ◌==◌,
  nat_beq_iff, ==_iff, ==_refl, nat_eq, list_beq, list_beq_iff, list_eq, length, get_elem?, drop,
  length-append, All, any_of, All-append, sum, contains, contains-append,
}
use dnsbuffer.Text.{Text, str}
use dnsbuffer.Message.{Message}
use dnsbuffer.Resolver.{Result, ok, err}
use dnsbuffer.Stats.{
  UpstreamStats, with_retention, record_success_at, record_soft_fail, record_timeout_at, weight,
}
use dnsbuffer.Upstream.Floats.{Floats}
use dnsbuffer.Upstream.Selector.{pick_weighted}

abbrev pub max_attempts : ℕ
max_attempts = 2

-- A member, without its resolver; `poisoned` is the state of the lock around its statistics.
pub record Member (F : Type 0) : Type 0 where
  pub name : Text
  pub stats : UpstreamStats F
  pub poisoned : Bool

-- How an attempt at a member ends: with a response after a time, with an error, or dropped while it
-- waits. The flag of a dropped attempt is `QUERY_SUCCEEDED`, if that is set up.
pub data Attempt (F : Type 0) : Type 0 where
  answered : Message → F → ℕ → Attempt F
  failed : Text → Attempt F
  dropped : Option Bool → ℕ → Attempt F

-- The state of the members, the indices tried, and the result, if the call was not dropped.
pub record Resolved (F : Type 0) : Type 0 where
  pub members : List (Member F)
  pub tried : List ℕ
  pub result : Option (Result (Message × Text))

-- `(0..n).find(|i| !tried.contains(i))`, from `i` on.
unfoldable pub first_untried : List ℕ → ℕ → ℕ → Option ℕ
first_untried tried i zero = none
first_untried tried i (suc n) = if contains tried i then first_untried tried (suc i) n else some i

module _ {F : Type 0} (fl : Floats F) where
  unfoldable pub new_members : ℕ → ℕ → List Text → List (Member F)
  new_members window retention_days [] = []
  new_members window retention_days (name ∷ names) =
      record { name = name; stats = with_retention fl window retention_days; poisoned = false }
      ∷ new_members window retention_days names

  -- `if let Ok(mut s) = m.stats.lock() { … }`
  unfoldable pub with_stats : (UpstreamStats F → UpstreamStats F) → Member F → Member F
  with_stats f m = if m.poisoned then m else record m { stats = f m.stats }

  -- `AttemptGuard::drop` of a guard that is armed.
  unfoldable pub drop_guard : Option Bool → ℕ → Member F → Member F
  drop_guard (some true) now m = m
  drop_guard (some false) now m = with_stats (λ s. record_timeout_at fl s now) m
  drop_guard none now m = with_stats (λ s. record_timeout_at fl s now) m

  unfoldable pub try_member : Attempt F → Member F → Member F × Option (Result Message)
  try_member (answered resp latency now) m =
      (with_stats (λ s. record_success_at fl s latency now) m, some (ok resp))
  try_member (failed e) m = (with_stats (record_soft_fail fl) m, some (err e))
  try_member (dropped succeeded now) m = (drop_guard succeeded now m, none)

  -- The weights of the members from index `i` on.
  unfoldable pub weights_from : F → List ℕ → ℕ → List (Member F) → List F
  weights_from k exclude i [] = []
  weights_from k exclude i (m ∷ ms) =
      (if contains exclude i || m.poisoned then fl.of_count 0 else weight fl m.stats k)
      ∷ weights_from k exclude (suc i) ms

  -- The member to try next: the pick, or the first that is untried if the pick was tried.
  unfoldable pub choose : F → List (Member F) → List ℕ → F → Option ℕ
  choose k ms tried roll = elim (pick_weighted fl (weights_from k tried 0 ms) roll) [
    | none ↦ none
    | some idx ↦ if contains tried idx then first_untried tried 0 (length ms) else some idx
  ]

  unfoldable pub set_member : List (Member F) → ℕ → Member F → List (Member F)
  set_member [] i m = []
  set_member (x ∷ xs) zero m = m ∷ xs
  set_member (x ∷ xs) (suc i) m = x ∷ set_member xs i m

  unfoldable pub exhausted : List (Member F) → List ℕ → Option Text → Resolved F
  exhausted ms tried last = record {
    members = ms;
    tried = tried;
    result = some (err (elim last [ some e ↦ e | none ↦ str "upstream group exhausted" ]));
  }

  -- The loop with `n` attempts to go. `roll n` is the random number and `run n i` what comes of
  -- trying member `i` in the round that leaves `n`.
  unfoldable pub attempt_loop :
      F → (ℕ → F) → (ℕ → ℕ → Attempt F) → ℕ → List ℕ → Option Text → List (Member F) → Resolved F
  attempt_loop k roll run zero tried last ms = exhausted ms tried last
  attempt_loop k roll run (suc n) tried last ms = elim (choose k ms tried (roll n)) [
    | none ↦ exhausted ms tried last
    | some idx ↦ elim (get_elem? ms idx) [
      | none ↦ exhausted ms tried last
      | some m ↦
          let (m', outcome) = try_member (run n idx) m in
          let ms' = set_member ms idx m' in
          let tried' = tried ++ idx ∷ [] in
          elim outcome [
            | none ↦ record { members = ms'; tried = tried'; result = none }
            | some (ok resp) ↦ record {
              members = ms';
              tried = tried';
              result = some (ok (resp, m.name));
            }
            | some (err e) ↦ attempt_loop k roll run n tried' (some e) ms'
          ]
    ]
  ]

  unfoldable pub resolve_member : F → (ℕ → F) → (ℕ → ℕ → Attempt F) → List (Member F) → Resolved F
  resolve_member k roll run [] = record {
    members = [];
    tried = [];
    result = some (err (str "upstream group is empty"));
  }
  resolve_member k roll run (m ∷ ms) =
      attempt_loop k roll run (min (length (m ∷ ms)) max_attempts) [] none (m ∷ ms)

-- `FallbackResolver`, whose resolvers' results are given: nothing if the call is dropped.
unfoldable pub fallback_resolve :
    Option (Result (Message × Option Text))
    → Option (Result (Message × Option Text))
    → Option (Result (Message × Option Text))
fallback_resolve none fallback = none
fallback_resolve (some (ok resp)) fallback = some (ok resp)
fallback_resolve (some (err e)) fallback = fallback
