-- ===== src/Sidf/Tbcd.antt =====
-- Telephony BCD: `Tbcd` of PacketRusher/internal/common/sidf/suci_deconcealing.go.
pub mod RoundTrip
use g_cn_testbed_k8s.Base.{
  ℕ, ◌%◌, Bool, ◌||◌, List, [], ◌∷◌, ◌++◌, Text, Result, ok, panic, ◌>>=◌, length, ◌==◌,
  if◌then◌else◌,
}

-- The bytes in groups of two, each turned round.
unfoldable pub swap_pairs : Text → Text
swap_pairs (a ∷ b ∷ s) = b ∷ a ∷ swap_pairs s
swap_pairs s = s

-- The text without its last byte, if that is a filler; an empty text has no last byte.
unfoldable pub strip_filler : Text → Result Text
strip_filler [] = panic
strip_filler (c ∷ []) = if c == b'F' || c == b'f' then ok [] else ok (c ∷ [])
strip_filler (c ∷ d ∷ s) = strip_filler (d ∷ s) >>= λ r. ok (c ∷ r)

unfoldable pub pad : Text → Text
pad s = if length s % 2 == 0 then s else s ++ b'F' ∷ []

-- `Tbcd`
unfoldable pub tbcd : Text → Result Text
unfolding swap_pairs strip_filler pad
tbcd value = strip_filler (swap_pairs (pad value))
