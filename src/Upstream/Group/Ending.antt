-- ===== src/Upstream/Group/Ending.antt =====
-- The ways in which a query to a group ends.
use dnsbuffer.Prelude.{
  ℕ, zero, suc, ◌<◌, ◌≡◌, refl, ap, Bool, true, false, Option, none, some, List, [], ◌∷◌, ◌++◌,
  arith, nat_eq, list_eq, length, get_elem?, All, contains, contains-append,
}
use dnsbuffer.Text.{Text}
use dnsbuffer.Message.{Message}
use dnsbuffer.Resolver.{ok, err}
use dnsbuffer.Upstream.Group.{Member, Attempt, answered, failed, dropped, Resolved}

-- No index stands twice.
abbrev pub Untwice : List ℕ → Type 0
Untwice [] = Unit
Untwice (i ∷ is) = (contains is i ≡ false) × Untwice is

pub Untwice-append :
    (is : List ℕ) (j : ℕ) → Untwice is → contains is j ≡ false → Untwice (is ++ j ∷ [])
unfolding contains
Untwice-append [] j u f = (refl, tt)
Untwice-append (i ∷ is) j (out, u) f = (
  ground (arith, out, f, contains-append is (j ∷ []) i),
  Untwice-append is j u (ground (arith, f)),
)

pub contains_last : (is : List ℕ) (i : ℕ) → contains (is ++ i ∷ []) i ≡ true
unfolding contains
contains_last is i = ground (arith, contains-append is (i ∷ []) i)

module _ {F : Type 0} where
  -- The names of the members, which do not change.
  abbrev pub names : List (Member F) → List Text
  names [] = []
  names (m ∷ ms) = m.name ∷ names ms

  -- How a query with `attempts` tries ends. `run n i` is what comes of trying member `i` with `n`
  -- attempts to go after it.
  pub data Ending (all : List Text) (run : ℕ → ℕ → Attempt F) (attempts : ℕ) (r : Resolved F)
      : Type 0 where
    answers :
        (n i : ℕ) (resp : Message) (latency : F) (now : ℕ) (name : Text)
        → run n i ≡ answered resp latency now
        → contains r.tried i ≡ true
        → get_elem? all i ≡ some name
        → r.result ≡ some (ok (resp, name))
        → Ending all run attempts r
    drops :
        (n i : ℕ) (succeeded : Option Bool) (now : ℕ)
        → run n i ≡ dropped succeeded now
        → contains r.tried i ≡ true
        → r.result ≡ none
        → Ending all run attempts r
    fails :
        (n i : ℕ) (e : Text)
        → run n i ≡ failed e
        → contains r.tried i ≡ true
        → r.result ≡ some (err e)
        → length r.tried ≡ attempts
        → Ending all run attempts r

  pub record IsTrial (all : List Text) (run : ℕ → ℕ → Attempt F) (attempts : ℕ) (r : Resolved F)
      : Type 0 where
    pub untwice : Untwice r.tried
    pub within : All (λ i. i < length all) r.tried
    pub ending : Ending all run attempts r

  -- The last error is that of a member tried, and there is one if any was tried.
  abbrev pub IsLast : (ℕ → ℕ → Attempt F) → List ℕ → Option Text → Type 0
  IsLast run tried none = tried ≡ []
  IsLast run tried (some e) = (n : ℕ) × (i : ℕ) × (run n i ≡ failed e) × (contains tried i ≡ true)

  pub get_elem?-names :
      (ms : List (Member F)) (i : ℕ)
      → i < length ms
      → (m : Member F) × (get_elem? ms i ≡ some m) × (get_elem? (names ms) i ≡ some m.name)
  get_elem?-names [] i less = ground arith
  get_elem?-names (m ∷ ms) zero less = (m, refl, refl)
  get_elem?-names (m ∷ ms) (suc i) less = get_elem?-names ms i (omega arith)

  pub length-names : (ms : List (Member F)) → length (names ms) ≡ length ms
  length-names [] = refl
  length-names (m ∷ ms) = ap suc (length-names ms)
