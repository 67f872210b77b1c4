-- ===== src/Assembly/Shared.antt =====
-- The dashboard's members share the statistics of the groups' members.
use dnsbuffer.Prelude.{
  ℕ, ◌+◌, ◌≡◌, refl, ap, false, List, [], ◌∷◌, ◌++◌, arith, nat_eq, list_eq, length, length-append,
  All, All-append,
}
use mathlib.Core.Path.{subst}
use dnsbuffer.Text.{Text}
use dnsbuffer.Stats.{with_retention}
use dnsbuffer.Upstream.Floats.{Floats}
use dnsbuffer.Dashboard.Metrics.{MetricMember, Cell, register, register_all}
use dnsbuffer.Assembly.{GroupMember, Registry, new_members}

-- What is registered of the members of a group.
abbrev pub rows : {L : Type 0} → Text → List (GroupMember L) → List (Text × Text × ℕ)
rows kind [] = []
rows kind (m ∷ ms) = (m.name, kind, m.stats) ∷ rows kind ms

-- The addresses follow one another from `n` on, so that no two are the same.
abbrev pub Consecutive : ℕ → List (Text × Text × ℕ) → Type 0
Consecutive n [] = Unit {0}
Consecutive n ((name, kind, address) ∷ rest) = (address ≡ n) × Consecutive (n + 1) rest

pub Consecutive-append :
    (n : ℕ) (xs ys : List (Text × Text × ℕ))
    → Consecutive n xs
    → Consecutive (n + length xs) ys
    → Consecutive n (xs ++ ys)
Consecutive-append n [] ys hx hy = subst (λ k. Consecutive k ys) (omega arith) hy
Consecutive-append n ((name, kind, address) ∷ xs) ys (e, hx) hy =
    (e, Consecutive-append (n + 1) xs ys hx (subst (λ k. Consecutive k ys) (omega arith) hy))

pub register_all-append :
    (ms : List MetricMember) (xs ys : List (Text × Text × ℕ))
    → register_all ms (xs ++ ys) ≡ register_all (register_all ms xs) ys
unfolding register_all
register_all-append ms [] ys = refl
register_all-append ms ((name, kind, address) ∷ xs) ys =
    register_all-append (register ms name kind address) xs ys

-- Statistics as they are made: without samples, and unlocked.
abbrev pub IsNew : {F : Type 0} → Floats F → ℕ → ℕ → Cell F → Type 0
IsNew fl window retention_days c =
    c ≡ record { stats = with_retention fl window retention_days; poisoned = false }

-- The names and the resolvers of the members, in their order.
abbrev pub named : {L : Type 0} → List (GroupMember L) → List (Text × L)
named [] = []
named (m ∷ ms) = (m.name, m.resolver) ∷ named ms

module _ {L F : Type 0} (fl : Floats F) (window retention_days : ℕ) (kind : Text) where
  pub record IsRegistered (members : List (GroupMember L)) (before after : Registry F)
      : Type 0 where
    pub in_metrics : after.metrics ≡ register_all before.metrics (rows kind members)
    pub own_cells : Consecutive (length before.cells) (rows kind members)
    pub new_cells :
        All (IsNew fl window retention_days) before.cells
        → All (IsNew fl window retention_days) after.cells
    pub counted : length after.cells ≡ length before.cells + length (rows kind members)

  pub new_members-IsRegistered :
      (ms : List (Text × L)) (g : Registry F)
      → IsRegistered
          (new_members fl window retention_days kind ms g).0
          g
          (new_members fl window retention_days kind ms g).1
  unfolding new_members register_all
  new_members-IsRegistered [] g = record {
    in_metrics = refl;
    own_cells = tt;
    new_cells = λ h. h;
    counted = omega arith;
  }
  new_members-IsRegistered ((name, resolver) ∷ rest) g =
      let cell : Cell F = record {
        stats = with_retention fl window retention_days;
        poisoned = false;
      } in
      let g' : Registry F = record {
        cells = g.cells ++ cell ∷ [];
        metrics = register g.metrics name kind (length g.cells);
      } in
      let ih = new_members-IsRegistered rest g' in
      let grown = length-append g.cells (cell ∷ []) in
      record {
        in_metrics = ih.in_metrics;
        own_cells = (
          refl,
          subst
              (λ k. Consecutive k (rows kind (new_members fl window retention_days kind rest g').0))
              grown ih.own_cells,
        );
        new_cells = λ h.
            ih.new_cells
              (All-append (IsNew fl window retention_days) g.cells (cell ∷ []) h (refl, tt));
        counted = omega (arith, ih.counted, grown);
      }

  pub named-new_members :
      (ms : List (Text × L)) (g : Registry F)
      → named (new_members fl window retention_days kind ms g).0 ≡ ms
  unfolding new_members
  named-new_members [] g = refl
  named-new_members ((name, resolver) ∷ rest) g =
      ap (λ l. (name, resolver) ∷ l) (named-new_members rest _)
