-- ===== src/Strconv.antt =====
-- What the program uses of Go's strconv and strings: `ParseUint`, `Atoi`, `IndexRune`, `HasPrefix`,
-- `Split` and `SplitN`. A text is a list of bytes; an error of `ParseUint` is `none`, whichever it is.
pub mod Digits
pub mod Bounds
use g_cn_testbed_k8s.Base.{
  ℕ, zero, suc, ◌+◌, ◌-◌, ◌*◌, ◌^◌, Bool, true, false, ◌&&◌, ◌||◌, not, List, [], ◌∷◌, Option, none,
  some, Text, ltb, leb, ◌==◌, if◌then◌else◌,
}

-- The value of a digit or a letter, of either case.
unfoldable pub digit_value : ℕ → Option ℕ
digit_value c =
    if leb b'0' c && leb c b'9'
    then some (c - b'0')
    else if leb b'a' c && leb c b'z'
    then some (c - b'a' + 10)
    else if leb b'A' c && leb c b'Z'
    then some (c - b'A' + 10)
    else none

-- The loop of `ParseUint` with the number so far; `underscores` says that underscores are skipped,
-- as they are in base 0. The number is compared with the bound before it can wrap around.
unfoldable pub scan_digits : (base bound : ℕ) (underscores : Bool) → Text → ℕ → Option ℕ
unfolding digit_value
scan_digits base bound underscores [] n = some n
scan_digits base bound underscores (c ∷ s) n =
    let skipped = scan_digits base bound underscores s n in
    elim (c == b'_' && underscores) [
      | true ↦ skipped
      | false ↦ elim (digit_value c) [
        | none ↦ none
        | some d ↦ elim (leb base d || ltb bound (n * base + d)) [
          | true ↦ none
          | false ↦ scan_digits base bound underscores s (n * base + d)
        ]
      ]
    ]

-- What `underscoreOK` saw last.
pub data Saw : Type 0 where
  nothing digit underscore other : Saw

abbrev after_digit : Saw → Bool
after_digit digit = true
after_digit _ = false

abbrev after_underscore : Saw → Bool
after_underscore underscore = true
after_underscore _ = false

pub is_number_char : Bool → ℕ → Bool
is_number_char hex c =
    (leb b'0' c && leb c b'9')
    || (hex && ((leb b'a' c && leb c b'f') || (leb b'A' c && leb c b'F')))

unfoldable pub underscores_from : Bool → Saw → Text → Bool
unfolding is_number_char
underscores_from hex saw [] = not (after_underscore saw)
underscores_from hex saw (c ∷ s) =
    let as_digit = underscores_from hex digit s in
    let as_underscore = after_digit saw && underscores_from hex underscore s in
    let as_other = not (after_underscore saw) && underscores_from hex other s in
    if is_number_char hex c then as_digit else if c == b'_' then as_underscore else as_other

-- The base that a prefix gives, and what follows the prefix.
unfoldable pub split_base : Text → ℕ × Text
split_base (z ∷ p ∷ d ∷ s) =
    if not (z == b'0')
    then (10, z ∷ p ∷ d ∷ s)
    else if p == b'b' || p == b'B'
    then (2, d ∷ s)
    else if p == b'o' || p == b'O'
    then (8, d ∷ s)
    else if p == b'x' || p == b'X'
    then (16, d ∷ s)
    else (8, p ∷ d ∷ s)
split_base (z ∷ s) = if z == b'0' then (8, s) else (10, z ∷ s)
split_base [] = (10, [])

-- `underscoreOK` of a text with no sign: after a base prefix one is behind a digit.
unfoldable pub underscore_ok : Text → Bool
unfolding underscores_from
underscore_ok (z ∷ p ∷ s) =
    if z == b'0' && (p == b'x' || p == b'X')
    then underscores_from true digit s
    else if z == b'0' && (p == b'b' || (p == b'B' || (p == b'o' || p == b'O')))
    then underscores_from false digit s
    else underscores_from false nothing (z ∷ p ∷ s)
underscore_ok s = underscores_from false nothing s

pub has_underscore : Text → Bool
has_underscore [] = false
has_underscore (c ∷ s) = c == b'_' || has_underscore s

-- `strconv.ParseUint(s, 10, bits)`
unfoldable pub parse_uint : (bits : ℕ) → Text → Option ℕ
unfolding scan_digits
parse_uint bits [] = none
parse_uint bits (c ∷ s) = scan_digits 10 (2 ^ bits - 1) false (c ∷ s) 0

-- `strconv.ParseUint(s, 0, bits)`
unfoldable pub parse_uint_any : (bits : ℕ) → Text → Option ℕ
unfolding scan_digits split_base underscore_ok has_underscore
parse_uint_any bits [] = none
parse_uint_any bits (c ∷ s) =
    let (base, digits) = split_base (c ∷ s) in
    elim (scan_digits base (2 ^ bits - 1) true digits 0) [
      | none ↦ none
      | some n ↦ if has_underscore (c ∷ s) && not (underscore_ok (c ∷ s)) then none else some n
    ]

-- `strconv.Atoi`: whether the number is negative, and its size.
unfoldable pub atoi : Text → Option (Bool × ℕ)
unfolding parse_uint
atoi [] = none
atoi (c ∷ s) =
    if c == b'-'
    then elim (parse_uint 64 s) [
      | none ↦ none
      | some n ↦ if leb n (2 ^ 63) then some (true, n) else none
    ]
    else elim (parse_uint 64 (if c == b'+' then s else c ∷ s)) [
      | none ↦ none
      | some n ↦ if ltb n (2 ^ 63) then some (false, n) else none
    ]

-- `strings.HasPrefix(s, prefix)`
unfoldable pub has_prefix : (s prefix : Text) → Bool
has_prefix s [] = true
has_prefix [] (b ∷ prefix) = false
has_prefix (a ∷ s) (b ∷ prefix) = a == b && has_prefix s prefix

-- What stands before and behind the first `c`: `IndexRune` with the two slices, or `SplitN` by one
-- byte into two.
unfoldable pub cut : ℕ → Text → Option (Text × Text)
cut c [] = none
cut c (x ∷ s) =
    let rest = cut c s in
    if x == c
    then some ([], s)
    else elim rest [ none ↦ none | some (before, after) ↦ some (x ∷ before, after) ]

abbrev before_first : ℕ → List Text → List Text
before_first c [] = (c ∷ []) ∷ []
before_first c (s ∷ parts) = (c ∷ s) ∷ parts

-- `strings.Split(s, sep)` by one byte.
unfoldable pub split : ℕ → Text → List Text
split sep [] = [] ∷ []
split sep (c ∷ s) = let rest = split sep s in if c == sep then [] ∷ rest else before_first c rest
