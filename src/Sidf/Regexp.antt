-- ===== src/Sidf/Regexp.antt =====
-- Regular expressions of Go's regexp package, as far as PacketRusher/internal/common/sidf uses them: the
-- match from the start of the text to its end that comes first, every repetition taking as much as it
-- can, with the texts of its groups.
use g_cn_testbed_k8s.Base.{
  ℕ, ◌-◌, Bool, true, false, [], ◌∷◌, Option, none, some, Text, length, take, Map, insert,
}

pub data Regexp : Type 0 where
  empty : Regexp
  class : (ℕ → Bool) → Regexp
  many : (ℕ → Bool) → Regexp
  seq alt : Regexp → Regexp → Regexp
  optional : Regexp → Regexp
  group : ℕ → Regexp → Regexp

-- The groups that have matched.
abbrev pub Groups : Type 0
Groups = Map Text

-- What a match goes on with: the rest of the text, and the groups.
abbrev pub Next : Type 0
Next = Text → Groups → Option Groups

abbrev pub or_else : Option Groups → Option Groups → Option Groups
or_else (some g) other = some g
or_else none other = other

unfoldable pub match_many : (ℕ → Bool) → Text → Groups → Next → Option Groups
match_many p [] g next = next [] g
match_many p (c ∷ s) g next =
    let longer = match_many p s g next in
    elim (p c) [ true ↦ or_else longer (next (c ∷ s) g) | false ↦ next (c ∷ s) g ]

unfoldable pub match : Regexp → Text → Groups → Next → Option Groups
unfolding match_many
match empty s g next = next s g
match (class p) [] g next = none
match (class p) (c ∷ s) g next = elim (p c) [ true ↦ next s g | false ↦ none ]
match (many p) s g next = match_many p s g next
match (seq a b) s g next = match a s g (λ s' g'. match b s' g' next)
match (alt a b) s g next = or_else (match a s g next) (match b s g next)
match (optional a) s g next = or_else (match a s g next) (next s g)
match (group n a) s g next =
    match a s g (λ s' g'. next s' (insert n (take (length s - length s') s) g'))

abbrev pub at_end : Next
at_end [] g = some g
at_end (c ∷ s) g = none

-- `FindStringSubmatch` of a pattern between `^` and `$`.
unfoldable pub find_submatch : Regexp → Text → Option Groups
unfolding match
find_submatch r s = match r s [] at_end
