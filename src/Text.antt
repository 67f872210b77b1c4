-- ===== src/Text.antt =====
-- Text as the program walks it: lists of character codes, with the parts of Rust's `str` that the
-- sources call. The model covers ASCII text, where lower-casing and white space are by the byte.
pub mod Walk
pub mod Normal
use Prim.Native.Char.{code}
use Prim.Native.String.{String}
use dnsbuffer.Prelude.{
  ℕ, zero, suc, ◌+◌, ◌-◌, ◌*◌, ◌≤◌, Bool, true, false, not, ◌&&◌, ◌||◌, List, [], ◌∷◌, Option, none,
  some, ltb, leb, ◌==◌, nat_eq, if◌then◌else◌, reverse, any_of,
}

abbrev pub Text : Type 0
Text = List ℕ

-- A literal of the source.
abbrev pub str : String → Text
str String.[] = []
str (String.◌∷◌ c s) = code c ∷ str s

abbrev pub dot : ℕ
dot = b'.'

abbrev pub is_empty : Text → Bool
is_empty [] = true
is_empty (_ ∷ _) = false

-- `char::is_whitespace`: tab, line feed, vertical tab, form feed, carriage return, space.
unfoldable pub is_space : ℕ → Bool
is_space c = (leb 9 c && leb c 13) || c == 32

unfoldable pub lower : ℕ → ℕ
lower c = if leb b'A' c && leb c b'Z' then c + 32 else c

unfoldable pub to_lowercase : Text → Text
unfolding lower
to_lowercase [] = []
to_lowercase (c ∷ s) = lower c ∷ to_lowercase s

-- `s.trim_end_matches(p)`.
unfoldable pub trim_end : (ℕ → Bool) → Text → Text
trim_end p [] = []
trim_end p (c ∷ s) = let rest = trim_end p s in if p c && is_empty rest then [] else c ∷ rest

-- `s.trim_start_matches(p)`.
unfoldable pub trim_start : (ℕ → Bool) → Text → Text
trim_start p [] = []
trim_start p (c ∷ s) = if p c then trim_start p s else c ∷ s

-- `s.trim()`.
unfoldable pub trim : Text → Text
unfolding trim_start trim_end is_space
trim s = trim_end is_space (trim_start is_space s)

-- `normalize` of hosts.rs and filter.rs: no trailing dots, lower case.
unfoldable pub normalize : Text → Text
unfolding trim_end to_lowercase
normalize name = to_lowercase (trim_end (λ c. c == dot) name)

-- `s.find('.')` and `&s[pos + 1..]`: what stands behind the first dot.
unfoldable pub after_dot : Text → Option Text
after_dot [] = none
after_dot (c ∷ s) = if c == dot then some s else after_dot s

-- `s.strip_prefix(p)`.
unfoldable pub strip_prefix : Text → Text → Option Text
strip_prefix [] s = some s
strip_prefix (p ∷ ps) [] = none
strip_prefix (p ∷ ps) (c ∷ s) = if p == c then strip_prefix ps s else none

-- `s.split(p).next()`: the text in front of the first character that `p` accepts.
unfoldable pub before : (ℕ → Bool) → Text → Text
before p [] = []
before p (c ∷ s) = if p c then [] else c ∷ before p s

-- What stands behind that character.
unfoldable pub behind : (ℕ → Bool) → Text → Option Text
behind p [] = none
behind p (c ∷ s) = if p c then some s else behind p s

-- `s.split_once(c)`.
unfoldable pub split_once : ℕ → Text → Option (Text × Text)
split_once c [] = none
split_once c (x ∷ s) =
    if x == c
    then some ([], s)
    else elim (split_once c s) [ none ↦ none | some (a, b) ↦ some (x ∷ a, b) ]

-- `s.rsplit_once(c)`.
unfoldable pub rsplit_once : ℕ → Text → Option (Text × Text)
rsplit_once c [] = none
rsplit_once c (x ∷ s) = elim (rsplit_once c s) [
  | some (a, b) ↦ some (x ∷ a, b)
  | none ↦ if x == c then some ([], s) else none
]

unfoldable pub digits_value : ℕ → Text → Option ℕ
digits_value acc [] = some acc
digits_value acc (c ∷ s) =
    if leb b'0' c && leb c b'9' then digits_value (acc * 10 + (c - b'0')) s else none

-- `s.parse::<uN>()` with `limit` = 2^N: decimal digits behind an optional `+`, in range.
unfoldable pub parse_uint : ℕ → Text → Option ℕ
unfolding digits_value
parse_uint limit [] = none
parse_uint limit (c ∷ s) =
    let body = if c == b'+' then s else c ∷ s in
    if is_empty body
    then none
    else elim (digits_value 0 body) [ none ↦ none | some n ↦ if ltb n limit then some n else none ]
