-- ===== src/Hosts/Find.antt =====
-- What a name resolves to, against the list of entries in the configuration.
use dnsbuffer.Prelude.{
  suc, ◌≡◌, refl, ap, ◌∙◌, inl, inr, Option, none, some, List, [], ◌∷◌, arith, if◌then◌else◌,
  Option-cases, ◌==◌, nat_eq, list_eq, length,
}
use mathlib.Core.Path.{fun_ext}
use dnsbuffer.HashMap.{get, get-insert}
use dnsbuffer.Text.{Text, str, normalize, strip_prefix}
use dnsbuffer.Text.Walk.{parents, walk, first_some, walk-eq-first_some}
use dnsbuffer.Message.{IpAddr}
use dnsbuffer.Hosts.{HostEntry, HostsMap, add_entry, add_entries, from_entries, find}

-- `later` if there is one, and otherwise `earlier`.
abbrev pub or_else : {A : Type 0} → Option A → Option A → Option A
or_else (some a) _ = some a
or_else none b = b

-- The base domain of a wildcard entry.
abbrev wildcard_base : HostEntry → Option Text
wildcard_base e = strip_prefix (str "*.") (normalize e.name)

exact_entry : HostEntry → Text → Option (List IpAddr)
exact_entry e name = elim (wildcard_base e) [
  | some base ↦ none
  | none ↦ if normalize e.name == name then some e.addrs else none
]

wildcard_entry : HostEntry → Text → Option (List IpAddr)
wildcard_entry e name = elim (wildcard_base e) [
  | some base ↦ if base == name then some e.addrs else none
  | none ↦ none
]

-- The addresses of the last entry that names `name` exactly.
pub last_exact : List HostEntry → Text → Option (List IpAddr)
last_exact [] name = none
last_exact (e ∷ es) name = or_else (last_exact es name) (exact_entry e name)

-- The addresses of the last wildcard entry over the base domain `name`.
pub last_wildcard : List HostEntry → Text → Option (List IpAddr)
last_wildcard [] name = none
last_wildcard (e ∷ es) name = or_else (last_wildcard es name) (wildcard_entry e name)

get-add_entry :
    (m : HostsMap) (e : HostEntry) (name : Text)
    → (get (add_entry m e).exact name ≡ or_else (exact_entry e name) (get m.exact name))
      × (get (add_entry m e).wildcard name ≡ or_else (wildcard_entry e name) (get m.wildcard name))
unfolding add_entry exact_entry wildcard_entry
get-add_entry m e name = elim (Option-cases (wildcard_base e)) [
  | inl w ↦ ground (arith, get-insert m.exact (normalize e.name) name e.addrs)
  | inr (base, w) ↦ ground (arith, get-insert m.wildcard base name e.addrs)
]

get-add_entries :
    (m : HostsMap) (es : List HostEntry) (name : Text)
    → (get (add_entries m es).exact name ≡ or_else (last_exact es name) (get m.exact name))
      × (get (add_entries m es).wildcard name
          ≡ or_else (last_wildcard es name) (get m.wildcard name))
unfolding add_entries last_exact last_wildcard
get-add_entries m [] name = (refl, refl)
get-add_entries m (e ∷ es) name =
    ground (arith, get-add_entries (add_entry m e) es name, get-add_entry m e name)

get-exact :
    (es : List HostEntry) (name : Text) → get (from_entries es).exact name ≡ last_exact es name
unfolding from_entries get
get-exact es name = ground (arith, get-add_entries (record { exact = []; wildcard = [] }) es name)

get-wildcard :
    (es : List HostEntry) (name : Text)
    → get (from_entries es).wildcard name ≡ last_wildcard es name
unfolding from_entries get
get-wildcard es name =
    ground (arith, get-add_entries (record { exact = []; wildcard = [] }) es name)

walk-wildcard :
    (es : List HostEntry) (name : Text)
    → walk (suc (length name)) (get (from_entries es).wildcard) name
      ≡ first_some (last_wildcard es) (parents name)
walk-wildcard es name =
    walk-eq-first_some (suc (length name)) (get (from_entries es).wildcard) name (omega arith)
    ∙ ap (λ f. first_some f (parents name)) (fun_ext (get-wildcard es))

-- A name resolves to the last entry that names it exactly, and otherwise to the last wildcard over
-- its nearest parent domain that has one.
pub find-from_entries :
    (es : List HostEntry) (name : Text)
    → find (from_entries es) name
      ≡ or_else (last_exact es name) (first_some (last_wildcard es) (parents name))
unfolding find from_entries
find-from_entries es name = ground (arith, get-exact es name, walk-wildcard es name)
