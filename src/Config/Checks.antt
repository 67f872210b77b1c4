-- ===== src/Config/Checks.antt =====
-- Which configurations are accepted, and what a DoT domain stands for.
use dnsbuffer.Prelude.{
  ℕ, ◌^◌, ◌<◌, ◌≡◌, refl, ◌⊎◌, inl, inr, Bool, true, false, not, ◌&&◌, none, some, List, [], ◌∷◌,
  ◌++◌, arith, ltb, leb, ==_refl, nat_eq, list_eq, length, any_of, contains,
}
use dnsbuffer.Text.{Text, str, is_empty, rsplit_once, parse_uint}
use dnsbuffer.Resolver.{ok, err, is_ok}
use dnsbuffer.Config.{
  UpstreamConfig, plain, doh, dot, Config, validate_bootstrap, validate, split_domain_port,
}

-- A server that can be reached without looking up its name.
pub has_address : UpstreamConfig → Bool
has_address (plain _ _) = true
has_address (dot _ _) = true
has_address (doh _ _ _ none) = false
has_address (doh _ _ _ (some _)) = true

validate_bootstrap_lem :
    (bs : List UpstreamConfig)
    → is_ok (validate_bootstrap bs) ≡ not (any_of (λ b. not (has_address b)) bs)
unfolding validate_bootstrap has_address
validate_bootstrap_lem [] = refl
validate_bootstrap_lem (plain _ _ ∷ bs) = validate_bootstrap_lem bs
validate_bootstrap_lem (dot _ _ ∷ bs) = validate_bootstrap_lem bs
validate_bootstrap_lem (doh url ech http3 none ∷ bs) = refl
validate_bootstrap_lem (doh url ech http3 (some _) ∷ bs) = validate_bootstrap_lem bs

List-split {ℓ} : {A : Type ℓ} (xs : List A) → (length xs ≡ 0) ⊎ (0 < length xs)
List-split [] = inl refl
List-split (_ ∷ xs) = inr (omega arith)

path_lem : (s : Text) → is_empty s ≡ not (ltb 0 (length s))
path_lem [] = refl
path_lem (_ ∷ s) = ground arith

-- A configuration is accepted exactly if it has an upstream server, a path of the database, at most
-- 9999 days of retention, and an address with each bootstrap server.
pub validate_lem :
    (c : Config)
    → is_ok (validate c) ≡ (
        ltb 0 (length c.upstream)
        && ltb 0 (length c.database_path)
        && leb c.retention_days 9999
        && not (any_of (λ b. not (has_address b)) c.bootstrap_servers))
unfolding validate
validate_lem c = elim (List-split c.upstream) [
  | inl e ↦ ground (arith, e)
  | inr pos ↦
      ground (arith, pos, path_lem c.database_path, validate_bootstrap_lem c.bootstrap_servers)
]

rsplit_once-none : (c : ℕ) (s : Text) → contains s c ≡ false → rsplit_once c s ≡ none
unfolding rsplit_once contains
rsplit_once-none c [] out = refl
rsplit_once-none c (x ∷ s) out =
    rw (rsplit_once-none c s (ground (arith, out)), rsplit_once) (ground (arith, out))

rsplit_once-append :
    (c : ℕ) (a b : Text) → contains b c ≡ false → rsplit_once c (a ++ c ∷ b) ≡ some (a, b)
unfolding rsplit_once
rsplit_once-append c [] b out = rw (rsplit_once-none c b out, rsplit_once, ==_refl c) refl
rsplit_once-append c (x ∷ a) b out = rw (rsplit_once-append c a b out, rsplit_once) refl

-- Behind the last colon of a DoT domain stands its port: for a port text without a colon, `host` and
-- the port are read back if it is a number below 65536, and the domain is refused otherwise.
split_domain_port-append :
    (host port : Text)
    → contains port b':' ≡ false
    → split_domain_port (host ++ b':' ∷ port) ≡ elim (parse_uint (2 ^ 16) port) [
      | none ↦ err (str "invalid port in dot domain")
      | some n ↦ ok (host, n)
    ]
unfolding split_domain_port
split_domain_port-append host port out =
    rw (rsplit_once-append b':' host port out, split_domain_port) refl
