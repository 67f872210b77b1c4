-- ===== src/Filter/Rules.antt =====
-- What the parser of rule files lets into a rule set.
use dnsbuffer.Prelude.{
  ◌≡◌, inl, inr, Bool, true, ◌||◌, Option, none, some, List, [], ◌∷◌, if◌then◌else◌, Bool-cases,
  Option-cases, ◌==◌, nat_eq, list_eq, All,
}
use dnsbuffer.HashMap.{All-add, All-extend}
use dnsbuffer.Text.{Text, str, is_empty, trim, normalize, strip_prefix, before}
use dnsbuffer.Text.Normal.{normalize_idem}
use dnsbuffer.Filter.{
  RuleSet, no_rules, valid_domain, merge, block, except, rule_domain, first_word, second_word,
  starts_with, parse_hosts_line, parse_line, parse_lines, parse_rules, lines, World, RuleSource,
  load_from, load_sources, source_text,
}

-- A domain as the rules hold it: in normal form, with a dot, and without the characters of patterns.
pub record IsRule (d : Text) : Type 0 where
  pub normal : normalize d ≡ d
  pub valid : valid_domain d ≡ true

pub record IsClean (r : RuleSet) : Type 0 where
  pub blocked : All IsRule r.blocked
  pub exceptions : All IsRule r.exceptions

block-IsClean : (set : RuleSet) (raw : Text) → IsClean set → IsClean (block set raw)
unfolding block
block-IsClean set raw c = elim (Bool-cases (valid_domain (normalize raw))) [
  | inl v ↦ rw v (record {
    blocked =
        All-add IsRule set.blocked (normalize raw) c.blocked
          (record { normal = normalize_idem raw; valid = v });
    exceptions = c.exceptions;
  })
  | inr v ↦ rw v c
]

except-IsClean : (set : RuleSet) (raw : Text) → IsClean set → IsClean (except set raw)
unfolding except
except-IsClean set raw c = elim (Bool-cases (valid_domain (normalize raw))) [
  | inl v ↦ rw v (record {
    blocked = c.blocked;
    exceptions =
        All-add IsRule set.exceptions (normalize raw) c.exceptions
          (record { normal = normalize_idem raw; valid = v });
  })
  | inr v ↦ rw v c
]

-- A line yields one of these.
data Effect (set : RuleSet) : RuleSet → Type 0 where
  skips : Effect set set
  blocks : (raw : Text) → Effect set (block set raw)
  excepts : (raw : Text) → Effect set (except set raw)

Effect-IsClean : {set out : RuleSet} → Effect set out → IsClean set → IsClean out
Effect-IsClean skips c = c
Effect-IsClean {set} (blocks raw) c = block-IsClean set raw c
Effect-IsClean {set} (excepts raw) c = except-IsClean set raw c

module _ (ip : Text → Bool) where
  hosts_words :
      (set : RuleSet) (first second : Option Text)
      → Effect set (elim first [
        | none ↦ set
        | some a ↦ elim second [ some b ↦ if ip a then block set b else set | none ↦ block set a ]
      ])
  hosts_words set none second = skips
  hosts_words set (some a) none = blocks a
  hosts_words set (some a) (some b) = elim (Bool-cases (ip a)) [
    | inl e ↦ rw e (blocks b)
    | inr e ↦ rw e skips
  ]

  parse_hosts_line-Effect :
      (set : RuleSet) (line : Text) → Effect set (parse_hosts_line ip set line)
  unfolding parse_hosts_line
  parse_hosts_line-Effect set line =
      let body = trim (before (λ c. c == b'#') line) in
      hosts_words set (first_word body) (second_word body)

  rule_Effect :
      (set : RuleSet) (line : Text) (exception plain : Option Text)
      → Effect set (elim exception [
        | some rest ↦ except set (rule_domain rest)
        | none ↦ elim plain [
          | some rest ↦ block set (rule_domain rest)
          | none ↦ parse_hosts_line ip set line
        ]
      ])
  rule_Effect set line (some rest) plain = excepts (rule_domain rest)
  rule_Effect set line none (some rest) = blocks (rule_domain rest)
  rule_Effect set line none none = parse_hosts_line-Effect set line

  parse_line-Effect : (set : RuleSet) (raw : Text) → Effect set (parse_line ip set raw)
  unfolding parse_line
  parse_line-Effect set raw =
      let line = trim raw in
      elim (Bool-cases (is_empty line || starts_with b'!' line || starts_with b'#' line)) [
        | inl e ↦ rw e skips
        | inr e ↦
            rw e
              (rule_Effect set line (strip_prefix (str "@@||") line) (strip_prefix (str "||") line))
      ]

  parse_lines-IsClean :
      (set : RuleSet) (ls : List Text) → IsClean set → IsClean (parse_lines ip set ls)
  unfolding parse_lines
  parse_lines-IsClean set [] c = c
  parse_lines-IsClean set (raw ∷ ls) c =
      parse_lines-IsClean (parse_line ip set raw) ls (Effect-IsClean (parse_line-Effect set raw) c)

  -- Whatever text is parsed, every domain that it blocks or excepts is in normal form and valid.
  pub parse_rules-IsClean : (text : Text) → IsClean (parse_rules ip text)
  unfolding parse_rules
  parse_rules-IsClean text =
      parse_lines-IsClean no_rules (lines text) (record { blocked = tt; exceptions = tt })

pub merge-IsClean : (r other : RuleSet) → IsClean r → IsClean other → IsClean (merge r other)
unfolding merge
merge-IsClean r other a b = record {
  blocked = All-extend IsRule r.blocked other.blocked a.blocked b.blocked;
  exceptions = All-extend IsRule r.exceptions other.exceptions a.exceptions b.exceptions;
}

load_from-IsClean :
    (w : World) (r : RuleSet) (ss : List RuleSource) → IsClean r → IsClean (load_from w r ss)
unfolding load_from
load_from-IsClean w r [] c = c
load_from-IsClean w r (s ∷ ss) c = elim (Option-cases (source_text w s)) [
  | inl e ↦ rw e (load_from-IsClean w r ss c)
  | inr (t, e) ↦ rw e (
      load_from-IsClean w (merge r (parse_rules w.parses_ip t)) ss
        (merge-IsClean r (parse_rules w.parses_ip t) c (parse_rules-IsClean w.parses_ip t)))
]

-- Whatever the files and the network give, the loaded rules hold only valid domains in normal form.
pub load_sources-IsClean : (w : World) (ss : List RuleSource) → IsClean (load_sources w ss)
unfolding load_sources
load_sources-IsClean w ss =
    load_from-IsClean w no_rules ss (record { blocked = tt; exceptions = tt })
