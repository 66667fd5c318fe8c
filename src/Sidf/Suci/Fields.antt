-- ===== src/Sidf/Suci/Fields.antt =====
-- What `ParseSuci` makes of the text of a SUCI.
use g_cn_testbed_k8s.Base.{
  ℕ, ◌+◌, ◌-◌, ◌<◌, ◌≤◌, ◌≡◌, refl, ap, ◌∙◌, Bool, true, false, List, [], ◌∷◌, ◌++◌, Option, none,
  some, Text, arith, length, take, insert, ◌==◌, leb, ◌&&◌, length-append, take-append,
}
use g_cn_testbed_k8s.Strconv.Digits.{Digits, print}
use g_cn_testbed_k8s.Sidf.Regexp.{
  Regexp, Groups, Next, match, match_many, class, seq, optional, alt, group, or_else, at_end,
}
use g_cn_testbed_k8s.Sidf.Suci.{is_digit, is_hex, digit, dash, scheme_output}

-- Hexadecimal text.
abbrev pub Hex : Text → Type 0
Hex [] = Unit
Hex (c ∷ s) = (is_hex c ≡ true) × Hex s

-- A group that takes a field is recorded with the field.
group_field : (s rest : Text) → take (length (s ++ rest) - length rest) (s ++ rest) ≡ s
group_field s rest =
    let same : length (s ++ rest) - length rest ≡ length s = omega (arith, length-append s rest) in
    rw same (take-append s rest)

-- The last group takes all of the text.
whole : (s : Text) → take (length s) s ≡ s
whole [] = refl
whole (c ∷ s) = ap (λ (t : Text). c ∷ t) (whole s)

whole_group : (s : Text) → take (length s - length {A = ℕ} []) s ≡ s
whole_group s = let same : length s - 0 ≡ length s = omega arith in rw same (whole s)

digit-print : (d : ℕ) → d < 10 → is_digit (b'0' + d) ≡ true
digit-print d h = ground arith

pub digit-is_hex : (d : ℕ) → d < 10 → is_hex (b'0' + d) ≡ true
digit-is_hex d h = ground arith

not_dash : (d : ℕ) → d < 10 → ((b'0' + d) == b'-') ≡ false
not_dash d h = ground arith

pub or_else-none : (o : Option Groups) → or_else o none ≡ o
or_else-none none = refl
or_else-none (some g) = refl

module _ (g : Groups) (next : Next) where
  pub take_class :
      (p : ℕ → Bool) (c : ℕ) (s : Text) → p c ≡ true → match (class p) (c ∷ s) g next ≡ next s g
  unfolding match
  take_class p c s h = rw h refl

  pub refuse_class :
      (p : ℕ → Bool) (c : ℕ) (s : Text) → p c ≡ false → match (class p) (c ∷ s) g next ≡ none
  unfolding match
  refuse_class p c s h = rw h refl

  pub take_seq :
      (a b : Regexp) (s : Text)
      → match (seq a b) s g next ≡ match a s g (λ s' g'. match b s' g' next)
  unfolding match
  take_seq a b s = refl

  pub take_optional :
      (a : Regexp) (s : Text) → match (optional a) s g next ≡ or_else (match a s g next) (next s g)
  unfolding match
  take_optional a s = refl

-- A digit is a digit and no dash, and a dash is no digit.
pub take_digit :
    (d : ℕ)
    → d < 10
    → (s : Text) (g : Groups) (next : Next) → match digit ((b'0' + d) ∷ s) g next ≡ next s g
take_digit d h s g next = take_class g next is_digit (b'0' + d) s (digit-print d h)

refuse_digit :
    (d : ℕ)
    → d < 10
    → (s : Text) (g : Groups) (next : Next) → match dash ((b'0' + d) ∷ s) g next ≡ none
refuse_digit d h s g next = refuse_class g next (λ c. c == b'-') (b'0' + d) s (not_dash d h)

pub take_dash : (s : Text) (g : Groups) (next : Next) → match dash (b'-' ∷ s) g next ≡ next s g
take_dash s g next = take_class g next (λ c. c == b'-') b'-' s refl

pub refuse_dash : (s : Text) (g : Groups) (next : Next) → match digit (b'-' ∷ s) g next ≡ none
refuse_dash s g next = refuse_class g next is_digit b'-' s refl

pub ruleset matching = (take_seq, take_optional, take_dash, refuse_dash, or_else-none)

-- What goes on only where no digit follows.
abbrev pub NoDigit : Next → Type 0
NoDigit next = (d : ℕ) → d < 10 → (s : Text) (g : Groups) → next ((b'0' + d) ∷ s) g ≡ none

-- A pattern that takes a field, no more and no less, where a dash follows and what goes on wants it.
abbrev pub Takes : Regexp → Text → Type 0
Takes r field =
    (rest : Text) (g : Groups) (next : Next)
    → NoDigit next
    → match r (field ++ b'-' ∷ rest) g next ≡ next (b'-' ∷ rest) g

pub mcc-Takes :
    (a b c : ℕ)
    → Digits (a ∷ b ∷ c ∷ [])
    → Takes (seq digit (seq digit digit)) (print (a ∷ b ∷ c ∷ []))
mcc-Takes a b c (h, (k, (m, _))) rest g next n =
    simp (matching, take_digit a h, take_digit b k, take_digit c m)

pub mnc-Takes :
    (a b : ℕ) (ds : List ℕ)
    → Digits (a ∷ b ∷ ds)
    → length ds ≤ 1
    → Takes (seq digit (seq digit (optional digit))) (print (a ∷ b ∷ ds))
mnc-Takes a b [] (h, (k, _)) l rest g next n = simp (matching, take_digit a h, take_digit b k)
mnc-Takes a b (c ∷ []) (h, (k, (m, _))) l rest g next n =
    simp (matching, take_digit a h, take_digit b k, take_digit c m, n c m)
mnc-Takes a b (c ∷ d ∷ ds) h l rest g next n = absurd (omega arith)

pub indicator-Takes :
    (a : ℕ) (ds : List ℕ)
    → Digits (a ∷ ds)
    → length ds ≤ 3
    → Takes
        (seq digit (optional (seq digit (optional (seq digit (optional digit))))))
        (print (a ∷ ds))
indicator-Takes a [] (h, _) l rest g next n = simp (matching, take_digit a h)
indicator-Takes a (b ∷ []) (h, (k, _)) l rest g next n =
    simp (matching, take_digit a h, take_digit b k, n b k)
indicator-Takes a (b ∷ c ∷ []) (h, (k, (m, _))) l rest g next n =
    simp (matching, take_digit a h, take_digit b k, take_digit c m, n b k, n c m)
indicator-Takes a (b ∷ c ∷ d ∷ []) (h, (k, (m, (o, _)))) l rest g next n =
    simp (
      matching,
      take_digit a h,
      take_digit b k,
      take_digit c m,
      take_digit d o,
      n b k,
      n c m,
      n d o,
    )
indicator-Takes a (b ∷ c ∷ d ∷ e ∷ ds) h l rest g next n = absurd (omega arith)

-- Where what goes on with the groups that have changed succeeds, so does the whole.
abbrev pub Changes : Regexp → Text → (Groups → Groups) → Type 0
Changes r field change =
    (rest : Text) (g result : Groups) (next : Next)
    → NoDigit next
    → next (b'-' ∷ rest) (change g) ≡ some result
    → match r (field ++ b'-' ∷ rest) g next ≡ some result

abbrev pub Finds : Regexp → Text → Type 0
Finds r field = Changes r field (λ g. g)

pub Takes-Finds : (r : Regexp) (field : Text) → Takes r field → Finds r field
Takes-Finds r field t rest g result next n e = t rest g next n ∙ e

pub scheme-Finds : (k : ℕ) → k < 3 → Finds (class (λ c. leb b'0' c && leb c b'2')) (print (k ∷ []))
scheme-Finds k h rest g result next n e =
    let held : (leb b'0' (b'0' + k) && leb (b'0' + k) b'2') ≡ true = ground arith in
    take_class g next (λ c. leb b'0' c && leb c b'2') (b'0' + k) (b'-' ∷ rest) held ∙ e

dash-NoDigit : (r : Regexp) (next : Next) → NoDigit (λ s g. match (seq dash r) s g next)
dash-NoDigit r next d h s g =
    take_seq g next dash r ((b'0' + d) ∷ s) ∙ refuse_digit d h s g (λ s' g'. match r s' g' next)

find_dash :
    (r : Regexp) (rest : Text) (g result : Groups) (next : Next)
    → match r rest g next ≡ some result
    → match (seq dash r) (b'-' ∷ rest) g next ≡ some result
find_dash r rest g result next e =
    take_seq g next dash r (b'-' ∷ rest) ∙ take_dash rest g (λ s' g'. match r s' g' next) ∙ e

module _ (r : Regexp) (field : Text) (change : Groups → Groups)
    (found : Changes r field change) where
  pub alt-Changes : (other : Regexp) → Changes (alt r other) field change
  unfolding match
  alt-Changes other rest g result next n e =
      ap (λ (o : Option Groups). or_else o (match other (field ++ b'-' ∷ rest) g next))
        (found rest g result next n e)

  -- A group of such a pattern is recorded.
  pub group-Changes : (n : ℕ) → Changes (group n r) field (λ g. insert n field (change g))
  unfolding match
  group-Changes n rest g result next k e =
      found rest g result
        (λ s' g'.
          next s'
            (insert n (take (length (field ++ b'-' ∷ rest) - length s') (field ++ b'-' ∷ rest)) g'))
        (λ d h s g'. k d h s _)
        (ap (λ (t : Text). next (b'-' ∷ rest) (insert n t (change g)))
            (group_field field (b'-' ∷ rest))
          ∙ e)

  -- Behind it the dash is taken, and the rest is matched.
  pub find_field :
      (after : Regexp) (rest : Text) (g result : Groups) (next : Next)
      → match after rest (change g) next ≡ some result
      → match (seq r (seq dash after)) (field ++ b'-' ∷ rest) g next ≡ some result
  find_field after rest g result next e =
      take_seq g next r (seq dash after) (field ++ b'-' ∷ rest)
      ∙ found rest g result (λ s' g'. match (seq dash after) s' g' next) (dash-NoDigit after next)
          (find_dash after rest (change g) result next e)

many_step :
    (p : ℕ → Bool) (c : ℕ) (s : Text) (g : Groups) (next : Next)
    → p c ≡ true
    → match_many p (c ∷ s) g next ≡ or_else (match_many p s g next) (next (c ∷ s) g)
unfolding match_many
many_step p c s g next h = rw (h, match_many) refl

many-Hex :
    (s : Text) (g r : Groups) (next : Next)
    → Hex s
    → next [] g ≡ some r
    → match_many is_hex s g next ≡ some r
unfolding match_many
many-Hex [] g r next h e = e
many-Hex (c ∷ s) g r next (h, hs) e =
    many_step is_hex c s g next h
    ∙ ap (λ (o : Option Groups). or_else o (next (c ∷ s) g)) (many-Hex s g r next hs e)

pub take_output :
    (c : ℕ) (s : Text) (g : Groups)
    → Hex (c ∷ s)
    → match scheme_output (c ∷ s) g at_end ≡ some (insert 9 (c ∷ s) g)
unfolding match
take_output c s g (h, hs) =
    let recorded : Next =
      λ s' g'. at_end s' (insert 9 (take (length (c ∷ s) - length s') (c ∷ s)) g') in
    take_class g (λ s' g'. match_many is_hex s' g' recorded) is_hex c s h
    ∙ many-Hex s g (insert 9 (c ∷ s) g) recorded hs
        (ap (λ (f : Text). some (insert 9 f g)) (whole_group (c ∷ s)))
