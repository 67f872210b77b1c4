-- ===== src/Config.antt =====
-- config.rs: the upstream servers, the check of a configuration, and the port in a DoT domain.
pub mod Checks
use dnsbuffer.Prelude.{
  ℕ, zero, suc, ◌+◌, ◌-◌, ◌*◌, ◌/◌, ◌%◌, ◌^◌, ◌≤◌, ◌<◌, min, max, ◌≡◌, refl, sym, ap, ◌∙◌, ◌≢◌, ◌↔◌,
  ◌⊎◌, inl, inr, Bool, true, false, not, ◌&&◌, ◌||◌, Option, none, some, List, [], ◌∷◌, ◌++◌, map,
  reverse, arith, ltb, leb, nat_beq, if◌then◌else◌, tests, Bool-cases, Option-cases, Eq, ◌==◌,
  nat_beq_iff, ==_iff, ==_refl, nat_eq, list_beq, list_beq_iff, list_eq, length, get_elem?, drop,
  length-append, All, any_of, All-append, sum, contains, contains-append,
}
use dnsbuffer.Text.{Text, str, is_empty, rsplit_once, parse_uint}
use dnsbuffer.Message.{IpAddr}
use dnsbuffer.Resolver.{Result, ok, err}

-- A plain server has an address and a port, a DoH server perhaps an address.
pub data UpstreamConfig : Type 0 where
  plain : IpAddr → ℕ → UpstreamConfig
  doh : (url ech : Text) (http3 : Bool) → Option IpAddr → UpstreamConfig
  dot : IpAddr → Text → UpstreamConfig

-- The parts of the configuration that are checked.
pub record Config : Type 0 where
  pub upstream : List UpstreamConfig
  pub database_path : Text
  pub retention_days : ℕ
  pub bootstrap_servers : List UpstreamConfig

-- `for b in &self.bootstrap.servers`.
unfoldable pub validate_bootstrap : List UpstreamConfig → Result {0} Unit
validate_bootstrap [] = ok tt
validate_bootstrap (plain _ _ ∷ bs) = validate_bootstrap bs
validate_bootstrap (dot _ _ ∷ bs) = validate_bootstrap bs
validate_bootstrap (doh url ech http3 none ∷ bs) = err (str "bootstrap doh must specify ip")
validate_bootstrap (doh url ech http3 (some _) ∷ bs) = validate_bootstrap bs

unfoldable pub validate : Config → Result {0} Unit
validate c =
    if nat_beq (length c.upstream) 0
    then err (str "config must define at least one [[upstream]]")
    else if is_empty c.database_path
    then err (str "dashboard database_path must not be empty")
    else if ltb 9999 c.retention_days
    then err (str "dashboard retention_days must be between 0 and 9999")
    else validate_bootstrap c.bootstrap_servers

-- The host and the port of a DoT domain.
unfoldable pub split_domain_port : Text → Result (Text × ℕ)
split_domain_port domain = elim (rsplit_once b':' domain) [
  | none ↦ ok (domain, 853)
  | some (host, port) ↦ elim (parse_uint (2 ^ 16) port) [
    | none ↦ err (str "invalid port in dot domain")
    | some n ↦ ok (host, n)
  ]
]
