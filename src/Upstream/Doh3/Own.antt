-- ===== src/Upstream/Doh3/Own.antt =====
-- A failed request discards its own connection and no other.
use dnsbuffer.Prelude.{◌<◌, ◌≡◌, ◌⊎◌, none, some, List, nat_eq, list_eq}
use dnsbuffer.Message.{IpAddr}
use dnsbuffer.Upstream.Doh3.{H3State, Shared}

module _ {C S : Type 0} (ips : List IpAddr) where
  -- What the others can have made of a state in which `used` was leased.
  abbrev IsAfter : H3State C S → Shared C S → Type 0
  IsAfter used s = (used.generation < s.next_generation) × elim s.state [
    | none ↦ Unit {0}
    | some current ↦ (current ≡ used) ⊎ (used.generation < current.generation)
  ]
