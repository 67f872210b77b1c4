-- ===== src/Stats/Window.antt =====
-- The window that the weights are computed from.
use mathlib.Core.List.{append-nil, append_assoc}
use dnsbuffer.Prelude.{
  ℕ, zero, suc, ◌-◌, ◌≤◌, ◌<◌, max, ◌≡◌, refl, sym, ap, ◌∙◌, inl, inr, true, false, List, [], ◌∷◌,
  ◌++◌, map, arith, leb, nat_beq, if◌then◌else◌, Bool-cases, nat_eq, list_eq, length, drop,
  length-append,
}
use dnsbuffer.Stats.{
  UpstreamStats, Sample, push, record_success_at, record_soft_fail, record_timeout_at,
  record_history, with_retention, success, failure,
}
use dnsbuffer.Upstream.Floats.{Floats}

-- The calls that record an attempt.
pub data Event (F : Type 0) : Type 0 where
  succeeds : F → ℕ → Event F
  soft_fails : Event F
  times_out : ℕ → Event F

pub sample_of_event : {F : Type 0} → Event F → Sample F
sample_of_event (succeeds latency now) = success latency
sample_of_event soft_fails = failure
sample_of_event (times_out now) = failure

module _ {ℓ} {A : Type ℓ} where
  -- The last `n` of a list.
  abbrev pub last_of : ℕ → List A → List A
  last_of n xs = drop (length xs - n) xs

  drop-append : (n : ℕ) (xs ys : List A) → n ≤ length xs → drop n (xs ++ ys) ≡ drop n xs ++ ys
  drop-append zero xs ys h = refl
  drop-append (suc n) [] ys h = ground arith
  drop-append (suc n) (x ∷ xs) ys h = drop-append n xs ys (omega arith)

  drop_nil : (n : ℕ) → drop {A = A} n [] ≡ []
  drop_nil zero = refl
  drop_nil (suc n) = refl

  drop_one-drop : (n : ℕ) (xs : List A) → drop 1 (drop n xs) ≡ drop (suc n) xs
  drop_one-drop zero [] = refl
  drop_one-drop zero (x ∷ xs) = refl
  drop_one-drop (suc n) [] = refl
  drop_one-drop (suc n) (x ∷ xs) = drop_one-drop n xs

  length-drop : (n : ℕ) (xs : List A) → length (drop n xs) ≡ length xs - n
  length-drop zero xs = omega arith
  length-drop (suc n) [] = omega arith
  length-drop (suc n) (x ∷ xs) = omega (arith, length-drop n xs)

  -- A full window loses its oldest sample to a new one.
  slide :
      (w : ℕ) (xs : List A) (x : A)
      → 0 < w
      → (if nat_beq (length (last_of w xs)) w then drop 1 (last_of w xs) else last_of w xs)
          ++ x ∷ []
        ≡ last_of w (xs ++ x ∷ [])
  slide w xs x pos =
      let n = length xs - w in
      let more = length-append xs (x ∷ []) in
      elim (Bool-cases (leb w (length xs))) [
        | inl t ↦
            let full : nat_beq (length (drop n xs)) w ≡ true =
              ground (arith, t, length-drop n xs) in
            rw full (
              ap (λ l. l ++ x ∷ []) (drop_one-drop n xs)
              ∙ sym (drop-append (suc n) xs (x ∷ []) (ground (arith, t)))
              ∙ ap (λ i. drop i (xs ++ x ∷ [])) {x = suc n} (ground (arith, t, more)))
        | inr f ↦
            let room : nat_beq (length (drop n xs)) w ≡ false =
              ground (arith, f, length-drop n xs) in
            rw room (
              sym (drop-append n xs (x ∷ []) (omega arith))
              ∙ ap (λ i. drop i (xs ++ x ∷ [])) {x = n} (ground (arith, f, more)))
      ]

module _ {F : Type 0} (fl : Floats F) where
  unfoldable pub after : UpstreamStats F → Event F → UpstreamStats F
  after st (succeeds latency now) = record_success_at fl st latency now
  after st soft_fails = record_soft_fail fl st
  after st (times_out now) = record_timeout_at fl st now

  unfoldable pub after_all : UpstreamStats F → List (Event F) → UpstreamStats F
  after_all st [] = st
  after_all st (e ∷ es) = after_all (after st e) es

  after_window : (st : UpstreamStats F) (e : Event F) → (after st e).window ≡ st.window
  unfolding after push record_success_at record_soft_fail record_timeout_at record_history
  after_window st (succeeds latency now) = refl
  after_window st soft_fails = refl
  after_window st (times_out now) = refl

  after_samples :
      (st : UpstreamStats F) (e : Event F)
      → (after st e).samples ≡ (push fl st (sample_of_event e)).samples
  unfolding after push record_success_at record_soft_fail record_timeout_at record_history
      sample_of_event
  after_samples st (succeeds latency now) = refl
  after_samples st soft_fails = refl
  after_samples st (times_out now) = refl

  push_lem :
      (w : ℕ) (st : UpstreamStats F) (xs : List (Sample F)) (s : Sample F)
      → 0 < w
      → st.window ≡ w
      → st.samples ≡ last_of w xs
      → (push fl st s).samples ≡ last_of w (xs ++ s ∷ [])
  unfolding push
  push_lem w st xs s pos same h =
      ap (λ ys. (if nat_beq (length ys) st.window then drop 1 ys else ys) ++ s ∷ []) h
      ∙ ap
          (λ v.
            (if nat_beq (length (last_of w xs)) v then drop 1 (last_of w xs) else last_of w xs)
            ++ s ∷ [])
          same
      ∙ slide w xs s pos

  after_all_lem :
      (w : ℕ) (st : UpstreamStats F) (xs : List (Sample F)) (es : List (Event F))
      → 0 < w
      → st.window ≡ w
      → st.samples ≡ last_of w xs
      → (after_all st es).samples ≡ last_of w (xs ++ map sample_of_event es)
  unfolding after_all
  after_all_lem w st xs [] pos same h = rw (append-nil xs) h
  after_all_lem w st xs (e ∷ es) pos same h =
      let s = sample_of_event e in
      let now = after_samples st e ∙ push_lem w st xs s pos same h in
      rw (sym (append_assoc xs (s ∷ []) (map sample_of_event es)))
        (after_all_lem w (after st e) (xs ++ s ∷ []) es pos (after_window st e ∙ same) now)

  -- After any calls on new statistics, the window holds exactly the last `window` outcomes, in
  -- order, and at least one place: soft errors and timeouts count as failures alike.
  pub after_all-last_of :
      (window days : ℕ) (es : List (Event F))
      → (after_all (with_retention fl window days) es).samples
        ≡ last_of (max window 1) (map sample_of_event es)
  unfolding with_retention
  after_all-last_of window days es =
      after_all_lem (max window 1) (with_retention fl window days) [] es (omega arith) refl
        (sym (drop_nil (0 - max window 1)))
