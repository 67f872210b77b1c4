-- ===== src/Dashboard/Metrics/Ids.antt =====
-- The ids of the members are distinct.
use dnsbuffer.Prelude.{
  ℕ, zero, suc, ◌+◌, ◌-◌, ◌*◌, ◌/◌, ◌%◌, ◌≤◌, ◌<◌, ◌≡◌, refl, sym, ap, ◌∙◌, inl, inr, Bool, true,
  false, ◌&&◌, ◌||◌, Option, none, some, List, [], ◌∷◌, ◌++◌, arith, ltb, leb, if◌then◌else◌,
  Bool-cases, ◌==◌, ==_iff, ==_refl, nat_eq, list_eq, contains, contains-append,
}
use mathlib.Core.List.{append-nil, append_assoc}
use dnsbuffer.Text.{Text, rsplit_once, digits_value}
use dnsbuffer.Dashboard.Metrics.{
  decimal_from, decimal, MetricMember, count_group, id_of, register, register_all,
}

digits_value-append :
    (acc v d : ℕ) (xs : Text)
    → digits_value acc xs ≡ some v
    → d < 10
    → digits_value acc (xs ++ (b'0' + d) ∷ []) ≡ some (v * 10 + d)
unfolding digits_value
digits_value-append acc v d [] h small = ground arith
digits_value-append acc v d (x ∷ xs) h small = elim (Bool-cases (leb b'0' x && leb x b'9')) [
  | inl digit ↦
      rw digit
        (digits_value-append (acc * 10 + (x - b'0')) v d xs (rw (digit, digits_value) at h) small)
  | inr other ↦ absurd (ground (arith, rw (other, digits_value) at h))
]

-- The digits of a number have its value.
digits_value-decimal_from : (fuel n : ℕ) → n ≤ fuel → digits_value 0 (decimal_from fuel n) ≡ some n
unfolding decimal_from digits_value
digits_value-decimal_from zero n h =
    digits_value-append 0 0 (n % 10) [] refl (omega arith) ∙ ap some (omega arith)
digits_value-decimal_from (suc fuel) n h = elim (Bool-cases (ltb n 10)) [
  | inl small ↦
      rw (small, decimal_from)
        (digits_value-append 0 0 n [] refl (ground arith) ∙ ap some (omega arith))
  | inr large ↦
      let ih = digits_value-decimal_from fuel (n / 10) (ground arith) in
      let e =
        digits_value-append 0 (n / 10) (n % 10) (decimal_from fuel (n / 10)) ih (omega arith) in
      rw (large, decimal_from) (e ∙ ap some (omega arith))
]

rsplit_once-digits :
    (acc v : ℕ) (xs : Text) → digits_value acc xs ≡ some v → rsplit_once b'-' xs ≡ none
unfolding digits_value rsplit_once
rsplit_once-digits acc v [] h = refl
rsplit_once-digits acc v (x ∷ xs) h = elim (Bool-cases (leb b'0' x && leb x b'9')) [
  | inr other ↦ absurd (ground (arith, rw (other, digits_value) at h))
  | inl digit ↦
      let ih = rsplit_once-digits (acc * 10 + (x - b'0')) v xs (rw (digit, digits_value) at h) in
      let plain : (x == b'-') ≡ false = ground arith in rw (ih, rsplit_once) (rw plain refl)
]

rsplit_once-append :
    (c : ℕ) (a s : Text) → rsplit_once c s ≡ none → rsplit_once c (a ++ c ∷ s) ≡ some (a, s)
unfolding rsplit_once
rsplit_once-append c [] s h =
    let same : (c == c) ≡ true = ground arith in rw (h, rsplit_once) (rw same refl)
rsplit_once-append c (x ∷ a) s h = rw (rsplit_once-append c a s h, rsplit_once) refl

id_of-injective : (a b : Text) (i j : ℕ) → id_of a i ≡ id_of b j → (a ≡ b) × (i ≡ j)
unfolding id_of decimal
id_of-injective a b i j e =
    let di = digits_value-decimal_from i i (omega arith) in
    let dj = digits_value-decimal_from j j (omega arith) in
    let left : Option (Text × Text) = some (a, decimal i) in
    let right : Option (Text × Text) = some (b, decimal j) in
    let same : left ≡ right =
      sym (rsplit_once-append b'-' a (decimal i) (rsplit_once-digits 0 i (decimal i) di))
      ∙ ap (rsplit_once b'-') e
      ∙ rsplit_once-append b'-' b (decimal j) (rsplit_once-digits 0 j (decimal j) dj) in
    let digits : decimal i ≡ decimal j = ground (arith, same) in
    let value : some i ≡ some j = sym di ∙ ap (digits_value 0) digits ∙ dj in
    (ground (arith, same), ground (arith, value))

abbrev pub ids : List MetricMember → List Text
ids [] = []
ids (m ∷ ms) = m.id ∷ ids ms

-- No two elements are equal.
abbrev pub IsDistinct : List Text → Type 0
IsDistinct [] = Unit {0}
IsDistinct (x ∷ xs) = (contains xs x ≡ false) × IsDistinct xs

-- Each id is that of its group, with an index below the number of members in the group.
abbrev HasIndices : List MetricMember → List MetricMember → Type 0
HasIndices all [] = Unit {0}
HasIndices all (m ∷ ms) =
    ((k : ℕ) × (m.id ≡ id_of m.group k) × (k < count_group m.group all)) × HasIndices all ms

text_sym : (x y : Text) → (x == y) ≡ false → (y == x) ≡ false
text_sym x y h = elim (Bool-cases (y == x)) [
  | inr e ↦ e
  | inl e ↦ let same = (==_iff y x).0 e in absurd (cc (h, (==_iff x y).1 (sym same)))
]

or-false : (a b : Bool) → (a || b) ≡ false → (a ≡ false) × (b ≡ false)
or-false true b h = absurd (cc)
or-false false b h = (refl, h)

IsDistinct-append :
    (xs : List Text) (y : Text) → IsDistinct xs → contains xs y ≡ false → IsDistinct (xs ++ y ∷ [])
unfolding contains
IsDistinct-append [] y d new = (refl, tt)
IsDistinct-append (x ∷ xs) y d new =
    let (apart, rest) = or-false (y == x) (contains xs y) new in
    let other = text_sym y x apart in
    (contains-append xs (y ∷ []) x ∙ ground (arith, d.0, other), IsDistinct-append xs y d.1 rest)

count_group-append :
    (group : Text) (ms : List MetricMember) (m : MetricMember)
    → count_group group (ms ++ m ∷ []) ≡ count_group group ms + (if m.group == group then 1 else 0)
unfolding count_group
count_group-append group [] m = ground arith
count_group-append group (n ∷ ms) m = ground (arith, count_group-append group ms m)

HasIndices-grow :
    (all ms : List MetricMember) (m : MetricMember)
    → HasIndices all ms
    → HasIndices (all ++ m ∷ []) ms
HasIndices-grow all [] m h = tt
HasIndices-grow all (n ∷ ms) m ((k, e, low), h) =
    ((k, e, ground (arith, count_group-append n.group all m)), HasIndices-grow all ms m h)

HasIndices-append :
    (all ms : List MetricMember) (m : MetricMember)
    → HasIndices all ms
    → ((k : ℕ) × (m.id ≡ id_of m.group k) × (k < count_group m.group all))
    → HasIndices all (ms ++ m ∷ [])
HasIndices-append all [] m h new = (new, tt)
HasIndices-append all (n ∷ ms) m (old, h) new = (old, HasIndices-append all ms m h new)

-- The next id of a group is not among those that are there.
next_id_new :
    (all ms : List MetricMember) (group : Text)
    → HasIndices all ms
    → contains (ids ms) (id_of group (count_group group all)) ≡ false
unfolding contains
next_id_new all [] group h = refl
next_id_new all (m ∷ ms) group ((k, e, low), h) =
    elim (Bool-cases (id_of group (count_group group all) == m.id)) [
      | inr apart ↦ ground (arith, next_id_new all ms group h, apart)
      | inl hit ↦
          let same : id_of group (count_group group all) ≡ id_of m.group k =
            (==_iff _ _).0 hit ∙ e in
          let (group_same, index_same) =
            id_of-injective group m.group (count_group group all) k same in
          absurd (omega (arith, index_same, low, ap (λ g. count_group g all) group_same))
    ]

ids-append : (ms : List MetricMember) (m : MetricMember) → ids (ms ++ m ∷ []) ≡ ids ms ++ m.id ∷ []
ids-append [] m = refl
ids-append (n ∷ ms) m = ap (λ l. n.id ∷ l) (ids-append ms m)

-- What was registered, as it was given.
abbrev pub registered : List MetricMember → List (Text × Text × ℕ)
registered [] = []
registered (m ∷ ms) = (m.name, m.group, m.stats) ∷ registered ms

registered-append :
    (ms : List MetricMember) (m : MetricMember)
    → registered (ms ++ m ∷ []) ≡ registered ms ++ (m.name, m.group, m.stats) ∷ []
registered-append [] m = refl
registered-append (n ∷ ms) m = ap (λ l. (n.name, n.group, n.stats) ∷ l) (registered-append ms m)

register_from :
    (rs : List (Text × Text × ℕ)) (ms : List MetricMember)
    → HasIndices ms ms
    → IsDistinct (ids ms)
    → IsDistinct (ids (register_all ms rs))
      × (registered (register_all ms rs) ≡ registered ms ++ rs)
unfolding register_all register
register_from [] ms h d = (d, sym (append-nil _))
register_from ((name, group, stats) ∷ rs) ms h d =
    let m : MetricMember = record {
      id = id_of group (count_group group ms);
      name = name;
      group = group;
      stats = stats;
    } in
    let same : (group == group) ≡ true = ==_refl group in
    let counted : count_group group ms < count_group group (ms ++ m ∷ []) =
      ground (arith, count_group-append group ms m, same) in
    let (distinct, kept) =
      register_from rs (ms ++ m ∷ [])
        (HasIndices-append (ms ++ m ∷ []) ms m (HasIndices-grow ms ms m h)
          (count_group group ms, refl, counted))
        (rw (ids-append ms m) (IsDistinct-append (ids ms) m.id d (next_id_new ms ms group h))) in
    (
      distinct,
      kept
          ∙ rw (registered-append ms m)
              (append_assoc (registered ms) ((name, group, stats) ∷ []) rs),
    )

-- Whatever is registered, from any groups in any order, the members have distinct ids, and are
-- listed in the order of their registration, each with its name, group and statistics.
pub register_all_lem :
    (rs : List (Text × Text × ℕ))
    → IsDistinct (ids (register_all [] rs)) × (registered (register_all [] rs) ≡ rs)
register_all_lem rs = register_from rs [] tt tt
