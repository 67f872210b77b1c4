-- ===== src/Filter/Refresh.antt =====
-- The sources and the periodic refresh.
use dnsbuffer.Prelude.{
  ℕ, ◌≤◌, min, ◌≡◌, refl, ◌⊎◌, inl, inr, Bool, true, false, ◌||◌, Option, none, some, List, [], ◌∷◌,
  arith, Option-cases, nat_beq_iff, nat_eq, list_eq, All, contains,
}
use dnsbuffer.Text.{Text}
use dnsbuffer.Resolver.{Result}
use dnsbuffer.Filter.{
  Filter, RuleSet, no_rules, merge, World, RuleSource, source_text, load_from, load_sources,
  valid_interval, min_interval, parse_rules,
}
use dnsbuffer.Filter.Blocked.{contains-merge}

-- Some source can be read and its rules block `d`.
pub supplied : World → List RuleSource → Text → Bool
supplied w [] d = false
supplied w (s ∷ ss) d =
    elim (source_text w s) [
      | some text ↦ contains (parse_rules w.parses_ip text).blocked d
      | none ↦ false
    ]
    || supplied w ss d

blocked-load_from :
    (w : World) (r : RuleSet) (ss : List RuleSource) (d : Text)
    → contains (load_from w r ss).blocked d ≡ (contains r.blocked d || supplied w ss d)
unfolding load_from supplied
blocked-load_from w r [] d = ground arith
blocked-load_from w r (s ∷ ss) d = elim (Option-cases (source_text w s)) [
  | inl e ↦ ground (arith, blocked-load_from w r ss d)
  | inr (t, e) ↦
      let rules = parse_rules w.parses_ip t in
      rw e (ground (arith, blocked-load_from w (merge r rules) ss d, (contains-merge r rules d).0))
]

-- The loaded rules block exactly the domains that some source which can be read blocks; a source
-- that fails, times out or names nothing is passed over and does not hide the others.
pub blocked-load_sources :
    (w : World) (ss : List RuleSource) (d : Text)
    → contains (load_sources w ss).blocked d ≡ supplied w ss d
unfolding load_sources contains
blocked-load_sources w ss d = blocked-load_from w no_rules ss d

-- The intervals that count, of all sources.
pub intervals : (Text → Result ℕ) → List RuleSource → List ℕ
intervals parse [] = []
intervals parse (s ∷ ss) = elim (valid_interval parse s) [
  | none ↦ intervals parse ss
  | some d ↦ d ∷ intervals parse ss
]

-- `out` is the smallest of `best` and the intervals `ds`, or nothing if there is none.
abbrev pub IsLeast : Option ℕ → List ℕ → Option ℕ → Type 0
IsLeast none ds none = ds ≡ []
IsLeast (some b) ds none = ⊥
IsLeast none ds (some m) = (contains ds m ≡ true) × All (λ d. m ≤ d) ds
IsLeast (some b) ds (some m) = ((m ≡ b) ⊎ (contains ds m ≡ true)) × (m ≤ b) × All (λ d. m ≤ d) ds

IsLeast-cons_none :
    (d : ℕ) (ds : List ℕ) (out : Option ℕ) → IsLeast (some d) ds out → IsLeast none (d ∷ ds) out
unfolding contains
IsLeast-cons_none d ds none h = absurd h
IsLeast-cons_none d ds (some m) h = ground (arith, nat_beq_iff m d)

IsLeast-cons_some :
    (b d : ℕ) (ds : List ℕ) (out : Option ℕ)
    → IsLeast (some (min b d)) ds out
    → IsLeast (some b) (d ∷ ds) out
unfolding contains
IsLeast-cons_some b d ds none h = h
IsLeast-cons_some b d ds (some m) h = ground (arith, nat_beq_iff m d)

min_interval-IsLeast_from :
    (parse : Text → Result ℕ) (best : Option ℕ) (ss : List RuleSource)
    → IsLeast best (intervals parse ss) (min_interval parse best ss)
unfolding min_interval intervals contains
min_interval-IsLeast_from parse none [] = refl
min_interval-IsLeast_from parse (some b) [] = (inl refl, omega arith, tt)
min_interval-IsLeast_from parse none (s ∷ ss) = elim (Option-cases (valid_interval parse s)) [
  | inl e ↦ rw (e, min_interval, intervals) (min_interval-IsLeast_from parse none ss)
  | inr (d, e) ↦
      rw (e, min_interval, intervals)
        (IsLeast-cons_none d (intervals parse ss) (min_interval parse (some d) ss)
          (min_interval-IsLeast_from parse (some d) ss))
]
min_interval-IsLeast_from parse (some b) (s ∷ ss) = elim (Option-cases (valid_interval parse s)) [
  | inl e ↦ rw (e, min_interval, intervals) (min_interval-IsLeast_from parse (some b) ss)
  | inr (d, e) ↦
      rw (e, min_interval, intervals)
        (IsLeast-cons_some b d (intervals parse ss) (min_interval parse (some (min b d)) ss)
          (min_interval-IsLeast_from parse (some (min b d)) ss))
]

-- The refresh runs at the smallest valid interval of the url sources, and not at all if there is none.
min_interval-IsLeast :
    (parse : Text → Result ℕ) (ss : List RuleSource)
    → IsLeast none (intervals parse ss) (min_interval parse none ss)
min_interval-IsLeast parse ss = min_interval-IsLeast_from parse none ss
