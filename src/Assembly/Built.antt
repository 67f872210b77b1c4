-- ===== src/Assembly/Built.antt =====
-- The chain that is built, and what the dashboard knows of it.
use dnsbuffer.Prelude.{
  ℕ, suc, ◌+◌, ◌<◌, ◌≡◌, refl, sym, ap, ◌∙◌, inl, inr, Bool, Option, none, some, List, [], ◌∷◌,
  ◌++◌, arith, nat_beq, Bool-cases, nat_eq, list_eq, length, length-append, All,
}
use mathlib.Core.Path.{subst}
use dnsbuffer.Text.{Text}
use dnsbuffer.Message.{Hickory, Message}
use dnsbuffer.Resolver.{Result, ok, >>=-ok, ok-injective}
use dnsbuffer.Bootstrap.{Bootstrap, Source}
use dnsbuffer.Config.{UpstreamConfig}
use dnsbuffer.Upstream.Floats.{Floats}
use dnsbuffer.Dashboard.Metrics.{register_all}
use dnsbuffer.Dashboard.Metrics.Ids.{ids, IsDistinct, registered, register_all_lem}
use dnsbuffer.Assembly.{
  GroupMember, Leaf, Libraries, UpstreamGroup, Registry, new_members, new_group, build_member,
  build_members,
}
use dnsbuffer.Assembly.Shared.{
  rows, Consecutive, Consecutive-append, register_all-append, IsNew, IsRegistered,
  new_members-IsRegistered, named, named-new_members,
}
use dnsbuffer.Assembly.Chain.{
  ChainConfig, Hedged, Chain, primary_kind, fallback_kind, from_config, build_group, engine,
  build_fallback, build_chain,
}

length-named :
    {L : Type 0} (kind : Text) (ms : List (GroupMember L))
    → length (rows kind ms) ≡ length (named ms)
length-named kind [] = refl
length-named kind (m ∷ ms) = ap suc (length-named kind ms)

-- What is registered of the fallback group, if there is one.
abbrev pub fallback_rows : {L F : Type 0} → Option (Hedged L F) → List (Text × Text × ℕ)
fallback_rows none = []
fallback_rows (some engine) = rows fallback_kind engine.group.members

-- The members of both groups are in the metrics, with distinct ids, each with its own statistics.
pub record IsBuilt {L F : Type 0} (fl : Floats F) (config : ChainConfig F) (c : Chain L F)
    (g : Registry F) : Type 0 where
  pub distinct : IsDistinct (ids g.metrics)
  pub shared :
      registered g.metrics ≡ rows primary_kind c.primary.group.members ++ fallback_rows c.fallback
  pub own_cells : Consecutive 0 (registered g.metrics)
  pub counted : length g.cells ≡ length (registered g.metrics)
  pub new_cells : All (IsNew fl config.window config.retention_days) g.cells
  pub primary_size : length (rows primary_kind c.primary.group.members) ≡ length config.upstream
  pub primary_members : 0 < length config.upstream
  pub fallback_size : length (fallback_rows c.fallback) ≡ length config.fallback

module _ {H T C S E F : Type 0} (lib : Libraries T E) (fl : Floats F) (h : Hickory)
    (src : Source) where
  length-build_members :
      (b : Bootstrap) (prefer_ipv6 : Bool) (us : List UpstreamConfig)
      → (ms : List (Text × Leaf H T C S E)) → build_members lib h src b prefer_ipv6 us ≡ ok ms
      → length ms ≡ length us
  unfolding build_members
  length-build_members b prefer_ipv6 [] ms e = ap length (sym (ok-injective e))
  length-build_members b prefer_ipv6 (u ∷ us) ms e =
      let (m, made, f) = >>=-ok (build_member lib h src b prefer_ipv6 u) _ ms e in
      let (rest, built, g) = >>=-ok (build_members lib h src b prefer_ipv6 us) _ ms f in
      ap length (sym (ok-injective g)) ∙ ap suc (length-build_members b prefer_ipv6 us rest built)

  -- A group that is built has a member for each entry, and at least one.
  build_group-ok :
      (entries : List UpstreamConfig) (config : ChainConfig F) (b : Bootstrap) (g : Registry F)
      → (kind : Text) (group : UpstreamGroup (Leaf H T C S E) F) (g' : Registry F)
      → build_group lib fl h src entries config b g kind ≡ ok (group, g')
      → IsRegistered fl config.window config.retention_days kind group.members g g'
        × (length (rows kind group.members) ≡ length entries)
        × (0 < length entries)
  unfolding build_group new_group
  build_group-ok entries config b g kind group g' e =
      let (ms, made, f) =
        >>=-ok (build_members lib h src b config.prefer_ipv6 entries) _ (group, g') e in
      let size = length-build_members b config.prefer_ipv6 entries ms made in
      elim (Bool-cases (nat_beq (length ms) 0)) [
        | inl none_left ↦ absurd (ground (arith, rw none_left at f))
        | inr some_left ↦
            let members = new_members fl config.window config.retention_days kind ms g in
            let built : (record { members = members.0; k = config.k }, members.1) ≡ (group, g') =
              ok-injective (rw some_left at f) in
            subst
              (λ (p : UpstreamGroup (Leaf H T C S E) F × Registry F).
                IsRegistered fl config.window config.retention_days kind p.0.members g p.1
                × (length (rows kind p.0.members) ≡ length entries)
                × (0 < length entries))
              built
              (
                new_members-IsRegistered fl config.window config.retention_days kind ms g,
                length-named kind members.0
                    ∙ ap length (named-new_members fl config.window config.retention_days kind ms g)
                    ∙ size,
                ground (arith, size),
              )
      ]

  -- What the fallback adds to the registry.
  abbrev Adds :
      ChainConfig F → Registry F → Option (Hedged (Leaf H T C S E) F) → Registry F → Type 0
  Adds config g fallback g' =
      (g'.metrics ≡ register_all g.metrics (fallback_rows fallback))
      × Consecutive (length g.cells) (fallback_rows fallback)
      × (All (IsNew fl config.window config.retention_days) g.cells
          → All (IsNew fl config.window config.retention_days) g'.cells)
      × (length g'.cells ≡ length g.cells + length (fallback_rows fallback))
      × (length (fallback_rows fallback) ≡ length config.fallback)

  build_fallback-Adds :
      (config : ChainConfig F) (b : Bootstrap) (g g' : Registry F)
      → (fallback : Option (Hedged (Leaf H T C S E) F))
      → build_fallback lib fl h src config b g ≡ ok (fallback, g')
      → Adds config g fallback g'
  unfolding build_fallback engine register_all
  build_fallback-Adds config b g g' fallback e =
      elim (Bool-cases (nat_beq (length config.fallback) 0)) [
        | inl absent ↦
            let built : (none, g) ≡ (fallback, g') =
              ok-injective (rw (absent, build_fallback) at e) in
            subst (λ (p : Option (Hedged (Leaf H T C S E) F) × Registry F). Adds config g p.0 p.1)
              built (refl, tt, (λ n. n), omega arith, ground arith)
        | inr present ↦
            let ((group, g''), made, f) =
              >>=-ok (build_group lib fl h src config.fallback config b g fallback_kind) _
                (fallback, g') (rw (present, build_fallback) at e) in
            let (r, size, some_members) =
              build_group-ok config.fallback config b g fallback_kind group g'' made in
            subst (λ (p : Option (Hedged (Leaf H T C S E) F) × Registry F). Adds config g p.0 p.1)
              (ok-injective f) (r.in_metrics, r.own_cells, r.new_cells, r.counted, size)
      ]

  -- A chain that is built has as many members as the configuration has entries, and one primary member at
  -- least. The dashboard lists the members of the primary group and then those of the fallback group,
  -- with distinct ids. Each shares with its group's member one cell of statistics, which is new, and
  -- no two share the same.
  pub build_chain-IsBuilt :
      (ask : Leaf H T C S E → Message → Result Message) (config : ChainConfig F)
      → (c : Chain (Leaf H T C S E) F) (g : Registry F)
      → build_chain lib fl h src ask config ≡ ok (c, g)
      → IsBuilt fl config c g
  unfolding build_chain engine
  build_chain-IsBuilt ask config c g e =
      let fresh : Registry F = record { cells = []; metrics = [] } in
      let (b, started, f) =
        >>=-ok (from_config lib ask config.bootstrap_servers config.prefer_ipv6) _ (c, g) e in
      let ((group, g'), made, f') =
        >>=-ok (build_group lib fl h src config.upstream config b fresh primary_kind) _ (c, g) f in
      let ((fallback, g''), added, f'') =
        >>=-ok (build_fallback lib fl h src config b g') _ (c, g) f' in
      let (r, size, some_members) =
        build_group-ok config.upstream config b fresh primary_kind group g' made in
      let (in_metrics, own_cells, new_cells, counted, fallback_size) =
        build_fallback-Adds config b g' g'' fallback added in
      let all = rows primary_kind group.members ++ fallback_rows fallback in
      let metrics : g''.metrics ≡ register_all [] all =
        in_metrics
        ∙ ap (λ ms. register_all ms (fallback_rows fallback)) r.in_metrics
        ∙ sym (register_all-append [] (rows primary_kind group.members) (fallback_rows fallback)) in
      let (distinct, kept) = register_all_lem all in
      let listed : registered g''.metrics ≡ all = ap registered metrics ∙ kept in
      subst (λ (p : Chain (Leaf H T C S E) F × Registry F). IsBuilt fl config p.0 p.1)
        (ok-injective f'')
        (record {
          distinct = subst (λ ms. IsDistinct (ids ms)) (sym metrics) distinct;
          shared = listed;
          own_cells = subst (Consecutive 0) (sym listed) (
              Consecutive-append 0 (rows primary_kind group.members) (fallback_rows fallback)
                r.own_cells
                (subst (λ n. Consecutive n (fallback_rows fallback)) r.counted own_cells));
          counted = omega (
            arith,
            counted,
            r.counted,
            ap length listed,
            length-append (rows primary_kind group.members) (fallback_rows fallback),
          );
          new_cells = new_cells (r.new_cells tt);
          primary_size = size;
          primary_members = some_members;
          fallback_size = fallback_size;
        })
