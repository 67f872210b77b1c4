-- ===== src/Dashboard/Store/Search.antt =====
-- dashboard/store.rs: the pattern of a search, in which nothing but the two ends is a wildcard.
use dnsbuffer.Prelude.{
  ℕ, Bool, not, ◌&&◌, ◌||◌, Option, none, some, List, [], ◌∷◌, ◌++◌, if◌then◌else◌, ◌==◌, nat_eq,
  list_eq,
}
use dnsbuffer.Text.{Text}

-- `str::replace` of one character.
unfoldable pub replace : ℕ → Text → Text → Text
replace c by [] = []
replace c by (d ∷ s) = let rest = replace c by s in if d == c then by ++ rest else d ∷ rest

unfoldable pub escape_like : Text → Text
escape_like value =
    replace b'_' (b'\\' ∷ b'_' ∷ [])
      (replace b'%' (b'\\' ∷ b'%' ∷ []) (replace b'\\' (b'\\' ∷ b'\\' ∷ []) value))

-- The pattern of `queries_with_deadline`.
unfoldable pub pattern_of : Text → Text
pattern_of value = b'%' ∷ escape_like value ++ b'%' ∷ []

-- How LIKE reads a pattern whose ESCAPE is a backslash.
pub data Token : Type 0 where
  any_text any_char : Token
  char : ℕ → Token

unfoldable pub is_special : ℕ → Bool
is_special c = c == b'\\' || c == b'%' || c == b'_'

unfoldable pub token : ℕ → Token
token c = if c == b'%' then any_text else if c == b'_' then any_char else char c

abbrev pub before {ℓ} : {A : Type ℓ} → A → Option (List A) → Option (List A)
before a none = none
before a (some rest) = some (a ∷ rest)

-- `escaped`: the character before is a backslash that escapes. A pattern may not end so.
unfoldable pub tokens : Bool → Text → Option (List Token)
tokens escaped [] = if escaped then none else some []
tokens escaped (c ∷ s) =
    let rest = tokens (not escaped && c == b'\\') s in
    if escaped then before (char c) rest else if c == b'\\' then rest else before (token c) rest
