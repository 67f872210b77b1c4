-- ===== src/Dashboard/Http/Encoding.antt =====
-- dashboard/http.rs: query strings that are percent-encoded are read back.
use dnsbuffer.Prelude.{
  ℕ, ◌+◌, ◌-◌, ◌/◌, ◌%◌, ◌<◌, ◌≡◌, refl, ap, ◌∙◌, inl, inr, Bool, true, false, some, List, [], ◌∷◌,
  arith, ltb, if◌then◌else◌, Bool-cases, ◌==◌, nat_beq_iff, nat_eq, list_eq, All,
}
use dnsbuffer.Dashboard.Store.Search.{before}
use dnsbuffer.Dashboard.Http.Handlers.{hex_digit, hex_byte, decode}

-- What a client sends: two hexadecimal digits for each byte that `p` picks.
abbrev hex_char : ℕ → ℕ
hex_char d = if ltb d 10 then d + b'0' else d - 10 + b'A'

encode : (ℕ → Bool) → List ℕ → List ℕ
encode p [] = []
encode p (c ∷ s) =
    if p c then b'%' ∷ hex_char (c / 16) ∷ hex_char (c % 16) ∷ encode p s else c ∷ encode p s

hex_digit-hex_char : (d : ℕ) → d < 16 → hex_digit (hex_char d) ≡ some d
unfolding hex_digit
hex_digit-hex_char d h = ground arith

hex_byte-hex_char : (c : ℕ) → c < 256 → hex_byte (hex_char (c / 16)) (hex_char (c % 16)) ≡ some c
unfolding hex_byte
hex_byte-hex_char c h =
    let high : c / 16 < 16 = omega arith in
    let low : c % 16 < 16 = omega arith in
    let digit : (hex_char (c / 16) == b'+') ≡ false = ground arith in
    rw (digit, hex_digit-hex_char (c / 16) high, hex_digit-hex_char (c % 16) low)
      (ap some (omega arith))

decode-plain : (c : ℕ) (s : List ℕ) → (c == b'%') ≡ false → decode (c ∷ s) ≡ before c (decode s)
unfolding decode
decode-plain c [] h = rw (h, decode) refl
decode-plain c (d ∷ []) h = rw (h, decode) refl
decode-plain c (d ∷ e ∷ s) h = rw (h, decode) refl

decode-escape :
    (d e v : ℕ) (s : List ℕ)
    → hex_byte d e ≡ some v
    → decode (b'%' ∷ d ∷ e ∷ s) ≡ before v (decode s)
unfolding decode
decode-escape d e v s h = rw (h, decode) refl

-- A query string that has an escape for each percent sign, and for any other bytes, passes the
-- decoder as what it encodes.
decode-encode :
    (p : ℕ → Bool) (s : List ℕ)
    → p b'%' ≡ true
    → All (λ c. c < 256) s
    → decode (encode p s) ≡ some s
unfolding encode decode
decode-encode p [] h a = refl
decode-encode p (c ∷ s) h a =
    let rest = decode-encode p s h a.1 in
    elim (Bool-cases (p c)) [
      | inl escaped ↦ rw escaped (
          decode-escape (hex_char (c / 16)) (hex_char (c % 16)) c (encode p s)
            (hex_byte-hex_char c a.0)
          ∙ ap (before c) rest)
      | inr plain ↦ rw plain (decode-plain c (encode p s) (not_percent plain) ∙ ap (before c) rest)
    ]
  where
    not_percent : p c ≡ false → (c == b'%') ≡ false
    not_percent k = ground (arith, h, k, nat_beq_iff c 37)
