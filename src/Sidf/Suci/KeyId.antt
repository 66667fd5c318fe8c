-- ===== src/Sidf/Suci/KeyId.antt =====
-- Which public key ids the pattern of a SUCI takes.
use g_cn_testbed_k8s.Base.{
  ℕ, ◌+◌, ◌≤◌, ◌≡◌, ◌⊎◌, inl, inr, refl, ◌∙◌, Bool, Bool-cases, true, false, List, [], ◌∷◌, ◌++◌,
  none, some, Text, arith, codes, length, ◌==◌, leb, ◌&&◌,
}
use g_cn_testbed_k8s.Strconv.Digits.{Digits, print, value}
use g_cn_testbed_k8s.Sidf.Regexp.{Regexp, Groups, Next, match, class, empty, seq, optional, alt}
use g_cn_testbed_k8s.Sidf.Suci.{digit, key_id, literal}
use g_cn_testbed_k8s.Sidf.Suci.Fields.{Takes, Finds, NoDigit, matching, take_digit, take_class}

-- As many digits as are said.
abbrev pub Between : (low high : ℕ) → List ℕ → Type 0
Between low high ds = Digits ds × (low ≤ length ds) × (length ds ≤ high)

-- One or two digits, or the three of a number from 100 to 255.
abbrev pub IsKeyId : List ℕ → Type 0
IsKeyId ds = Between 1 2 ds ⊎ (Between 3 3 ds × (100 ≤ value ds) × (value ds ≤ 255))

module _ (r other : Regexp) (s : Text) (g result : Groups) (next : Next) where
  alt-first : match r s g next ≡ some result → match (alt r other) s g next ≡ some result
  unfolding match
  alt-first e = rw e refl

  alt-second :
      match r s g next ≡ none
      → match other s g next ≡ some result
      → match (alt r other) s g next ≡ some result
  unfolding match
  alt-second n e = rw n e

id-Takes :
    (a : ℕ) (ds : List ℕ)
    → Digits (a ∷ ds)
    → length ds ≤ 1
    → Takes (seq digit (optional digit)) (print (a ∷ ds))
id-Takes a [] (h, _) l rest g next n = simp (matching, take_digit a h)
id-Takes a (b ∷ []) (h, (k, _)) l rest g next n =
    simp (matching, take_digit a h, take_digit b k, n b k)
id-Takes a (b ∷ c ∷ ds) h l rest g next n = absurd (omega arith)

-- One character that a class takes or refuses, and two that stand for themselves.
module _ (p q : ℕ → Bool) (r : Regexp) (x y : ℕ) (s : Text) (g : Groups) (next : Next) where
  class_step : p x ≡ true → match (seq (class p) r) (x ∷ s) g next ≡ match r s g next
  unfolding match
  class_step h = rw h refl

  class_stop : p x ≡ false → match (seq (class p) r) (x ∷ s) g next ≡ none
  unfolding match
  class_stop h = rw h refl

  pair_step :
      p x ≡ true
      → q y ≡ true
      → match (seq (seq (class p) (seq (class q) empty)) r) (x ∷ y ∷ s) g next ≡ match r s g next
  unfolding match
  pair_step h k = rw (h, k) refl

abbrev is_1 : ℕ → Bool
is_1 x = x == b'1'

abbrev is_2 : ℕ → Bool
is_2 x = x == b'2'

abbrev is_5 : ℕ → Bool
is_5 x = x == b'5'

abbrev is_0_to_4 : ℕ → Bool
is_0_to_4 x = leb b'0' x && leb x b'4'

abbrev is_0_to_5 : ℕ → Bool
is_0_to_5 x = leb b'0' x && leb x b'5'

-- Three digits with a dash behind them, where what goes on wants the dash.
module _ (a b c : ℕ) (h : Digits (a ∷ b ∷ c ∷ [])) (rest : Text) (g result : Groups) (next : Next)
    (n : NoDigit next) (e : next (b'-' ∷ rest) g ≡ some result) where
  abbrev here : Text
  here = print (a ∷ b ∷ c ∷ []) ++ b'-' ∷ rest

  short_refused : match (seq digit (optional digit)) here g next ≡ none
  short_refused =
      let (ha, (hb, (hc, _))) = h in
      simp (matching, take_digit a ha, take_digit b hb, n b hb, n c hc)

  two_digits :
      match (seq digit digit) (print (b ∷ c ∷ []) ++ b'-' ∷ rest) g next ≡ next (b'-' ∷ rest) g
  two_digits = let (ha, (hb, (hc, _))) = h in simp (matching, take_digit b hb, take_digit c hc)

  hundreds : a ≡ 1 → match (seq (class is_1) (seq digit digit)) here g next ≡ some result
  hundreds f =
      let (ha, (hb, (hc, _))) = h in
      let t : is_1 (b'0' + a) ≡ true = ground arith in
      class_step is_1 is_1 _ (b'0' + a) 0 _ g next t ∙ two_digits ∙ e

  no_hundreds : a ≡ 2 → match (seq (class is_1) (seq digit digit)) here g next ≡ none
  no_hundreds f =
      let t : is_1 (b'0' + a) ≡ false = ground arith in
      class_stop is_1 is_1 _ (b'0' + a) 0 _ g next t

  two_hundreds :
      a ≡ 2
      → b ≤ 4
      → match (seq (class is_2) (seq (class is_0_to_4) digit)) here g next ≡ some result
  two_hundreds f l =
      let (ha, (hb, (hc, _))) = h in
      let t : is_2 (b'0' + a) ≡ true = ground arith in
      let u : is_0_to_4 (b'0' + b) ≡ true = ground arith in
      class_step is_2 is_2 _ (b'0' + a) 0 _ g next t
      ∙ class_step is_0_to_4 is_2 _ (b'0' + b) 0 _ g next u
      ∙ take_digit c hc (b'-' ∷ rest) g next
      ∙ e

  no_two_hundreds :
      a ≡ 2 → 5 ≤ b → match (seq (class is_2) (seq (class is_0_to_4) digit)) here g next ≡ none
  no_two_hundreds f l =
      let t : is_2 (b'0' + a) ≡ true = ground arith in
      let u : is_0_to_4 (b'0' + b) ≡ false = ground arith in
      class_step is_2 is_2 _ (b'0' + a) 0 _ g next t
      ∙ class_stop is_0_to_4 is_2 _ (b'0' + b) 0 _ g next u

  fifties :
      a ≡ 2
      → b ≡ 5
      → c ≤ 5
      → match (seq (literal (codes "25")) (class is_0_to_5)) here g next ≡ some result
  fifties f l m =
      let t : is_2 (b'0' + a) ≡ true = ground arith in
      let u : is_5 (b'0' + b) ≡ true = ground arith in
      let v : is_0_to_5 (b'0' + c) ≡ true = ground arith in
      pair_step is_2 is_5 _ (b'0' + a) (b'0' + b) _ g next t u
      ∙ take_class g next is_0_to_5 (b'0' + c) (b'-' ∷ rest) v
      ∙ e

  -- Each number from 100 to 255 is taken by one of the alternatives.
  three_found :
      100 ≤ value (a ∷ b ∷ c ∷ [])
      → value (a ∷ b ∷ c ∷ []) ≤ 255
      → match key_id here g next ≡ some result
  three_found low high =
      let (ha, (hb, (hc, _))) = h in
      alt-second _ _ here g result next short_refused (elim (Bool-cases (a == 1)) [
        | inl f ↦ alt-first _ _ here g result next (hundreds (ground arith))
        | inr f ↦
            let two : a ≡ 2 = ground arith in
            alt-second _ _ here g result next (no_hundreds two) (elim (Bool-cases (leb b 4)) [
              | inl l ↦ alt-first _ _ here g result next (two_hundreds two (ground arith))
              | inr l ↦
                  alt-second _ _ here g result next (no_two_hundreds two (ground arith))
                    (fifties two (ground arith) (ground arith))
            ])
      ])

-- A key id of one or two digits, or from 100 to 255, is found.
pub key_id-Finds : (ds : List ℕ) → IsKeyId ds → Finds key_id (print ds)
key_id-Finds [] (inl (h, l, m)) = absurd (omega arith)
key_id-Finds (a ∷ ds) (inl (h, l, m)) = λ rest g result next n e.
    alt-first _ _ (print (a ∷ ds) ++ b'-' ∷ rest) g result next
      (id-Takes a ds h (omega arith) rest g next n ∙ e)
key_id-Finds (a ∷ b ∷ c ∷ []) (inr ((h, l, m), low, high)) =
    λ rest g result next n e. three_found a b c h rest g result next n e low high
key_id-Finds [] (inr ((h, l, m), low, high)) = absurd (omega arith)
key_id-Finds (a ∷ []) (inr ((h, l, m), low, high)) = absurd (omega arith)
key_id-Finds (a ∷ b ∷ []) (inr ((h, l, m), low, high)) = absurd (omega arith)
key_id-Finds (a ∷ b ∷ c ∷ d ∷ ds) (inr ((h, l, m), low, high)) = absurd (omega arith)
