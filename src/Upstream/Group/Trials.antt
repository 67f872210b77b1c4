-- ===== src/Upstream/Group/Trials.antt =====
-- What a query gets from the group, and which members it tries.
use dnsbuffer.Prelude.{
  ℕ, zero, suc, ◌+◌, ◌≤◌, ◌<◌, min, ◌≡◌, refl, sym, ap, ◌∙◌, true, false, Option, none, some, List,
  [], ◌∷◌, ◌++◌, arith, nat_eq, list_eq, length, get_elem?, length-append, All, All-append,
  contains,
}
use dnsbuffer.Text.{Text}
use dnsbuffer.Resolver.{ok, err}
use dnsbuffer.Upstream.Floats.{Floats, HasEmptySum}
use dnsbuffer.Upstream.Group.{
  Member, Attempt, answered, failed, dropped, Resolved, with_stats, drop_guard, try_member, choose,
  set_member, exhausted, attempt_loop, resolve_member, max_attempts,
}
use dnsbuffer.Upstream.Group.Choice.{choose_lem}
use dnsbuffer.Upstream.Group.Ending.{
  Untwice, Untwice-append, contains_last, names, answers, drops, fails, IsTrial, IsLast,
  get_elem?-names, length-names,
}

module _ {F : Type 0} (fl : Floats F) (doc : HasEmptySum fl) where
  names-set_member :
      (ms : List (Member F)) (i : ℕ) (m m' : Member F)
      → get_elem? ms i ≡ some m
      → m'.name ≡ m.name
      → names (set_member fl ms i m') ≡ names ms
  unfolding set_member
  names-set_member [] i m m' e same = refl
  names-set_member (x ∷ xs) zero m m' e same = ground (arith, e, same)
  names-set_member (x ∷ xs) (suc i) m m' e same =
      ap (λ l. x.name ∷ l) (names-set_member xs i m m' e same)

  set_name : (a : Attempt F) (m : Member F) → (try_member fl a m).0.name ≡ m.name
  unfolding try_member with_stats drop_guard
  set_name (answered resp latency now) m = ground arith
  set_name (failed e) m = ground arith
  set_name (dropped none now) m = ground arith
  set_name (dropped (some true) now) m = refl
  set_name (dropped (some false) now) m = ground arith

  -- One round of the loop, by what comes of its attempt.
  unfoldable round :
      F
      → (ℕ → F)
      → (ℕ → ℕ → Attempt F)
      → ℕ
      → List ℕ
      → List (Member F)
      → ℕ
      → Member F
      → Attempt F
      → Resolved F
  round k roll run n tried ms i m (answered resp latency now) = record {
    members = set_member fl ms i (try_member fl (answered resp latency now) m).0;
    tried = tried ++ i ∷ [];
    result = some (ok (resp, m.name));
  }
  round k roll run n tried ms i m (failed e) =
      attempt_loop fl k roll run n (tried ++ i ∷ []) (some e)
        (set_member fl ms i (try_member fl (failed e) m).0)
  round k roll run n tried ms i m (dropped succeeded now) = record {
    members = set_member fl ms i (try_member fl (dropped succeeded now) m).0;
    tried = tried ++ i ∷ [];
    result = none;
  }

  -- The same by the code's own test of the outcome.
  unfoldable finish :
      F
      → (ℕ → F)
      → (ℕ → ℕ → Attempt F)
      → ℕ
      → List ℕ
      → List (Member F)
      → ℕ
      → Member F
      → Attempt F
      → Resolved F
  finish k roll run n tried ms i m a =
      let (m', outcome) = try_member fl a m in
      let ms' = set_member fl ms i m' in
      let tried' = tried ++ i ∷ [] in
      elim outcome [
        | none ↦ record { members = ms'; tried = tried'; result = none }
        | some (ok resp) ↦ record {
          members = ms';
          tried = tried';
          result = some (ok (resp, m.name));
        }
        | some (err e) ↦ attempt_loop fl k roll run n tried' (some e) ms'
      ]

  finish_lem :
      (k : F) (roll : ℕ → F) (run : ℕ → ℕ → Attempt F) (n : ℕ) (tried : List ℕ)
      (ms : List (Member F)) (i : ℕ) (m : Member F) (a : Attempt F)
      → finish k roll run n tried ms i m a ≡ round k roll run n tried ms i m a
  unfolding finish round try_member
  finish_lem k roll run n tried ms i m (answered resp latency now) = refl
  finish_lem k roll run n tried ms i m (failed e) = refl
  finish_lem k roll run n tried ms i m (dropped succeeded now) = refl

  round_lem :
      (k : F) (roll : ℕ → F) (run : ℕ → ℕ → Attempt F) (n : ℕ) (tried : List ℕ) (last : Option Text)
      (ms : List (Member F)) (i : ℕ) (m : Member F)
      → choose fl k ms tried (roll n) ≡ some i
      → get_elem? ms i ≡ some m
      → attempt_loop fl k roll run (suc n) tried last ms ≡ round k roll run n tried ms i m (run n i)
  unfolding attempt_loop finish
  round_lem k roll run n tried last ms i m c g =
      rw (c, g, attempt_loop) (finish_lem k roll run n tried ms i m (run n i))

  round-IsTrial :
      (k : F) (roll : ℕ → F) (run : ℕ → ℕ → Attempt F) (all : List Text) (attempts n : ℕ)
      (tried : List ℕ) (ms : List (Member F)) (i : ℕ) (m : Member F) (a : Attempt F)
      → ((e : Text)
          → a ≡ failed e
          → IsTrial all run attempts (
              attempt_loop fl k roll run n
                (tried ++ i ∷ [])
                (some e)
                (set_member fl ms i (try_member fl (failed e) m).0)))
      → run n i ≡ a
      → get_elem? all i ≡ some m.name
      → Untwice (tried ++ i ∷ [])
      → All (λ j. j < length all) (tried ++ i ∷ [])
      → IsTrial all run attempts (round k roll run n tried ms i m a)
  unfolding round
  round-IsTrial k roll run all attempts n tried ms i m (answered resp latency now) next r g u w =
      record {
        untwice = u;
        within = w;
        ending = answers n i resp latency now m.name r (contains_last tried i) g refl;
      }
  round-IsTrial k roll run all attempts n tried ms i m (failed e) next r g u w = next e refl
  round-IsTrial k roll run all attempts n tried ms i m (dropped succeeded now) next r g u w =
      record {
        untwice = u;
        within = w;
        ending = drops n i succeeded now r (contains_last tried i) refl;
      }

  exhausted-IsTrial :
      (k : F) (roll : ℕ → F) (run : ℕ → ℕ → Attempt F) (all : List Text) (attempts : ℕ)
      (tried : List ℕ) (ms : List (Member F)) (n i : ℕ) (e : Text)
      → length tried ≡ attempts
      → Untwice tried
      → All (λ j. j < length all) tried
      → run n i ≡ failed e
      → contains tried i ≡ true
      → IsTrial all run attempts (attempt_loop fl k roll run zero tried (some e) ms)
  unfolding attempt_loop exhausted
  exhausted-IsTrial k roll run all attempts tried ms n i e count u w r c = record {
    untwice = u;
    within = w;
    ending = fails n i e r c refl count;
  }

  loop_lem :
      (k : F) (roll : ℕ → F) (run : ℕ → ℕ → Attempt F) (all : List Text) (attempts n : ℕ)
      (tried : List ℕ) (last : Option Text) (ms : List (Member F))
      → names ms ≡ all
      → length tried + n ≡ attempts
      → 0 < attempts
      → attempts ≤ length all
      → Untwice tried
      → All (λ i. i < length all) tried
      → IsLast run tried last
      → IsTrial all run attempts (attempt_loop fl k roll run n tried last ms)
  unfolding exhausted contains
  loop_lem k roll run all attempts zero tried none ms same count pos enough u w lastly =
      ground (arith, ap length lastly)
  loop_lem k roll run all attempts zero tried (some e) ms same count pos enough u w (n, i, r, c) =
      exhausted-IsTrial k roll run all attempts tried ms n i e (omega arith) u w r c
  loop_lem k roll run all attempts (suc n) tried last ms same count pos enough u w lastly =
      let long = length-names ms in
      let long' = ap length same in
      let (i, chosen, less, new) =
        choose_lem fl doc k ms tried (roll n) (omega (arith, long, long')) in
      let (m, g, g') = get_elem?-names ms i less in
      let u' = Untwice-append tried i u new in
      let w' = All-append (λ j. j < length all) tried (i ∷ []) w (omega (arith, long, long'), tt) in
      rw (round_lem k roll run n tried last ms i m chosen g) (
        round-IsTrial k roll run all attempts n tried ms i m (run n i)
          (λ e r.
            let m' = (try_member fl (failed e) m).0 in
            loop_lem k roll run all attempts n (tried ++ i ∷ []) (some e) (set_member fl ms i m')
              (names-set_member ms i m m' g (set_name (failed e) m) ∙ same)
              (omega (arith, length-append tried (i ∷ []))) pos enough u' w'
              (n, i, r, contains_last tried i))
          refl (ap (λ l. get_elem? l i) (sym same) ∙ g') u' w')

  -- A query to a group with members ends in one of three ways. A member tried answered, and the
  -- result is its response with its name; or the query was dropped while a member was tried; or the
  -- result is the error of a member tried, and then as many were tried as allowed, two or the only
  -- one. No member is tried twice, whatever the random numbers and the weights are, provided the
  -- sum of no weights is not above zero.
  pub resolve_member-IsTrial :
      (k : F) (roll : ℕ → F) (run : ℕ → ℕ → Attempt F) (m : Member F) (ms : List (Member F))
      → IsTrial
          (names (m ∷ ms))
          run
          (min (length (m ∷ ms)) max_attempts)
          (resolve_member fl k roll run (m ∷ ms))
  unfolding resolve_member
  resolve_member-IsTrial k roll run m ms =
      loop_lem k roll run (names (m ∷ ms)) (min (length (m ∷ ms)) max_attempts)
        (min (length (m ∷ ms)) max_attempts) [] none (m ∷ ms) refl (omega arith) (omega arith)
        (omega (arith, length-names ms)) tt tt refl
