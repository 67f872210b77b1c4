-- ===== src/Filter.antt =====
-- filter.rs: the rule sets, their parser, the blocker, the sources and the periodic refresh.
pub mod Rules
pub mod Blocked
pub mod Refresh
use dnsbuffer.Prelude.{
  ℕ, zero, suc, ◌+◌, ◌-◌, ◌*◌, ◌/◌, ◌%◌, ◌^◌, ◌≤◌, ◌<◌, min, max, ◌≡◌, refl, sym, ap, ◌∙◌, ◌≢◌, ◌↔◌,
  ◌⊎◌, inl, inr, Bool, true, false, not, ◌&&◌, ◌||◌, Option, none, some, List, [], ◌∷◌, ◌++◌, map,
  reverse, arith, ltb, leb, nat_beq, if◌then◌else◌, tests, Bool-cases, Option-cases, Eq, ◌==◌,
  ==_iff, ==_refl, nat_eq, list_beq, list_beq_iff, list_eq, length, get_elem?, drop, length-append,
  All, any_of, All-append, sum, contains, contains-append,
}
use dnsbuffer.HashMap.{add, extend}
use dnsbuffer.Text.{
  Text, str, dot, is_empty, is_space, trim, trim_start, normalize, after_dot, strip_prefix, before,
  behind,
}
use dnsbuffer.Text.Walk.{walk_any}
use dnsbuffer.Local.{local_response, address_record}
use dnsbuffer.Message.{
  Hickory, Message, Metadata, Query, Record, IpAddr, v4, v6, type_a, type_aaaa, first,
}
use dnsbuffer.Resolver.{Result, ok, err}

abbrev pub block_ttl : ℕ
block_ttl = 300

-- The characters that `valid_domain` refuses.
abbrev pub refused_chars : Text
refused_chars = b'/' ∷ b'*' ∷ b'$' ∷ b'|' ∷ b'^' ∷ 32 ∷ 9 ∷ []

unfoldable pub valid_domain : Text → Bool
valid_domain s =
    not (is_empty s) && not (any_of (contains refused_chars) s) && any_of (λ c. c == dot) s

-- The two sets of domains.
pub record RuleSet : Type 0 where
  pub blocked : List Text
  pub exceptions : List Text

abbrev pub no_rules : RuleSet
no_rules = record { blocked = []; exceptions = [] }

unfoldable pub merge : RuleSet → RuleSet → RuleSet
merge r other = record {
  blocked = extend r.blocked other.blocked;
  exceptions = extend r.exceptions other.exceptions;
}

-- `RuleSet::len`.
unfoldable pub rule_counts : RuleSet → ℕ × ℕ
rule_counts r = (length r.blocked, length r.exceptions)

-- `text.lines()`: without the line feeds, and without a carriage return in front of one.
unfoldable pub chomp : Text → Text
chomp [] = []
chomp (c ∷ s) = if c == 13 && is_empty s then [] else c ∷ chomp s

-- The lines of a text whose current line holds `line` so far.
unfoldable pub lines_from : Text → Text → List Text
lines_from line [] = if is_empty line then [] else line ∷ []
lines_from line (c ∷ s) =
    if c == 10 then chomp line ∷ lines_from [] s else lines_from (line ++ c ∷ []) s

unfoldable pub lines : Text → List Text
lines text = lines_from [] text

-- The first item of `s.split_whitespace()`.
unfoldable pub first_word : Text → Option Text
first_word s =
    let t = trim_start is_space s in if is_empty t then none else some (before is_space t)

-- The second.
unfoldable pub second_word : Text → Option Text
second_word s = elim (behind is_space (trim_start is_space s)) [
  | none ↦ none
  | some rest ↦ first_word rest
]

unfoldable pub block : RuleSet → Text → RuleSet
block set raw =
    let domain = normalize raw in
    if valid_domain domain then record set { blocked = add set.blocked domain } else set

unfoldable pub except : RuleSet → Text → RuleSet
except set raw =
    let domain = normalize raw in
    if valid_domain domain then record set { exceptions = add set.exceptions domain } else set

-- `rest.split(['^', '$']).next()`.
unfoldable pub rule_domain : Text → Text
rule_domain = before (λ c. c == b'^' || c == b'$')

-- `line.starts_with(c)`.
abbrev pub starts_with : ℕ → Text → Bool
starts_with c [] = false
starts_with c (x ∷ _) = x == c

module _ (parses_ip : Text → Bool) where
  -- Hosts syntax, or a plain domain.
  unfoldable pub parse_hosts_line : RuleSet → Text → RuleSet
  parse_hosts_line set line =
      let body = trim (before (λ c. c == b'#') line) in
      elim (first_word body) [
        | none ↦ set
        | some first ↦ elim (second_word body) [
          | some second ↦ if parses_ip first then block set second else set
          | none ↦ block set first
        ]
      ]

  -- One round of the loop of `parse_rules`.
  unfoldable pub parse_line : RuleSet → Text → RuleSet
  parse_line set raw =
      let line = trim raw in
      if is_empty line || starts_with b'!' line || starts_with b'#' line
      then set
      else elim (strip_prefix (str "@@||") line) [
        | some rest ↦ except set (rule_domain rest)
        | none ↦ elim (strip_prefix (str "||") line) [
          | some rest ↦ block set (rule_domain rest)
          | none ↦ parse_hosts_line set line
        ]
      ]

  unfoldable pub parse_lines : RuleSet → List Text → RuleSet
  parse_lines set [] = set
  parse_lines set (raw ∷ rest) = parse_lines (parse_line set raw) rest

  unfoldable pub parse_rules : Text → RuleSet
  parse_rules text = parse_lines no_rules (lines text)

-- `Filter`; `ArcSwap` holds the current rules.
pub record Filter : Type 0 where
  pub rules : RuleSet
  pub allowlist : List Text

unfoldable pub new : List Text → Filter
new allowlist = record { rules = no_rules; allowlist = extend [] (map normalize allowlist) }

unfoldable pub store : Filter → RuleSet → Filter
store f rules = record f { rules = rules }

-- The two loops of `is_blocked`; the fuel is one round for each character, and one.
unfoldable pub exempt : Filter → Text → Bool
exempt f name =
    walk_any (suc (length name))
      (λ candidate. contains f.allowlist candidate || contains f.rules.exceptions candidate) name

unfoldable pub listed : Filter → Text → Bool
listed f name = walk_any (suc (length name)) (contains f.rules.blocked) name

unfoldable pub is_blocked : Filter → Text → Bool
is_blocked f name = let n = normalize name in if exempt f n then false else listed f n

module _ (h : Hickory) where
  -- The question, and the unspecified address for its type.
  unfoldable pub block_question : Message → Query → Message
  block_question resp q =
      let resp' = h.add_query resp q in
      if q.query_type == type_a
      then h.add_answer resp' (address_record q.name block_ttl (v4 0))
      else if q.query_type == type_aaaa
      then h.add_answer resp' (address_record q.name block_ttl (v6 0))
      else resp'

  unfoldable pub block_response : Message → Message
  block_response query = elim (first query.queries) [
    | none ↦ local_response h query
    | some q ↦ block_question (local_response h query) q
  ]

-- `config::RuleSource`.
pub record RuleSource : Type 0 where
  pub path : Option Text
  pub url : Option Text
  pub update_interval : Option Text

-- What the files and the network give while sources are loaded: `fetch` is `none` after 60 seconds.
pub record World : Type 0 where
  pub read_to_string : Text → Result Text
  pub fetch_url : Text → Option (Result Text)
  pub parses_ip : Text → Bool

-- The text of one source, if it can be had.
unfoldable pub source_text : World → RuleSource → Option Text
source_text w s = elim s.path [
  | some path ↦ elim (w.read_to_string path) [ ok t ↦ some t | err _ ↦ none ]
  | none ↦ elim s.url [
    | some url ↦ elim (w.fetch_url url) [
      | some result ↦ elim result [ ok t ↦ some t | err _ ↦ none ]
      | none ↦ none
    ]
    | none ↦ none
  ]
]

unfoldable pub load_from : World → RuleSet → List RuleSource → RuleSet
load_from w merged [] = merged
load_from w merged (s ∷ ss) =
    load_from w
      (elim (source_text w s) [
        | some text ↦ merge merged (parse_rules w.parses_ip text)
        | none ↦ merged
      ])
      ss

unfoldable pub load_sources : World → List RuleSource → RuleSet
load_sources w sources = load_from w no_rules sources

-- The update interval of a source, by `humantime::parse_duration`, if it counts: that of a url
-- source, readable and not zero.
unfoldable pub valid_interval : (Text → Result ℕ) → RuleSource → Option ℕ
valid_interval parse s = elim s.url [
  | none ↦ none
  | some _ ↦ elim s.update_interval [
    | none ↦ none
    | some iv ↦ elim (parse iv) [ err _ ↦ none | ok d ↦ if d == 0 then none else some d ]
  ]
]

-- The loop of `spawn_updater` over the sources.
unfoldable pub min_interval : (Text → Result ℕ) → Option ℕ → List RuleSource → Option ℕ
min_interval parse best [] = best
min_interval parse best (s ∷ ss) =
    min_interval parse
      (elim (valid_interval parse s) [
        | none ↦ best
        | some d ↦ elim best [ none ↦ some d | some m ↦ some (min m d) ]
      ])
      ss

-- One round of the refresh loop.
unfoldable pub refresh : World → List RuleSource → Filter → Filter
refresh w sources f =
    let rules = load_sources w sources in if (rule_counts rules).0 == 0 then f else store f rules
