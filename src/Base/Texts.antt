-- ===== src/Base/Texts.antt =====
-- Go strings as lists of bytes, with the standard library's hexadecimal.
use Prim.Native.Nat.{ℕ, ◌<◌, ◌+◌, ◌-◌, ◌*◌}
use Prim.Native.String.{String}
use Prim.Native.Char.{code}
use mathlib.Core.Path.{◌≡◌, refl}
use mathlib.Core.Logic.{◌↔◌}
use mathlib.Core.Bool.{Bool, true, false, ◌&&◌}
use mathlib.Core.List.{List, [], ◌∷◌}
use mathlib.Core.Option.{Option, none, some}
use native.Mathlib.Omega.{arith}
use g_cn_testbed_k8s.Base.Tests.{ltb, leb, ◌==◌, if◌then◌else◌}

-- The bytes of a string.
abbrev pub Text : Type 0
Text = List ℕ

abbrev pub AreOctets : List ℕ → Type 0
AreOctets [] = Unit {0}
AreOctets (b ∷ bs) = (b < 256) × AreOctets bs

-- The code points of a literal: its bytes, as it is ASCII.
abbrev pub codes : String → Text
codes String.[] = []
codes (String.◌∷◌ c s) = code c ∷ codes s

unfoldable pub text_eq : Text → Text → Bool
text_eq [] [] = true
text_eq (a ∷ s) (b ∷ t) = (a == b) && text_eq s t
text_eq _ _ = false

pub text_eq_iff : (s t : Text) → (text_eq s t ≡ true) ↔ (s ≡ t)
unfolding text_eq
text_eq_iff [] [] = (λ h. refl, λ h. refl)
text_eq_iff [] (b ∷ t) = (λ h. cc, λ h. cc)
text_eq_iff (a ∷ s) [] = (λ h. cc, λ h. cc)
text_eq_iff (a ∷ s) (b ∷ t) =
    (λ h. ground (arith, (text_eq_iff s t).0), λ h. ground (arith, (text_eq_iff s t).1))

pub text_eq_refl : (s : Text) → text_eq s s ≡ true
text_eq_refl s = (text_eq_iff s s).1 refl

-- encoding/hex: the value of one digit, and of a string of pairs up to the first bad digit.
unfoldable pub from_hex_char : ℕ → Option ℕ
from_hex_char c =
    if leb b'0' c && leb c b'9'
    then some (c - b'0')
    else if leb b'a' c && leb c b'f'
    then some (c - b'a' + 10)
    else if leb b'A' c && leb c b'F'
    then some (c - b'A' + 10)
    else none

hex_byte : Option ℕ → Option ℕ → Option ℕ
hex_byte (some a) (some b) = some (a * 16 + b)
hex_byte _ _ = none

-- The bytes that `hex.DecodeString` returns, beside its error.
unfoldable pub hex_decode : Text → List ℕ × Bool
unfolding from_hex_char hex_byte
hex_decode [] = ([], true)
hex_decode (a ∷ []) = ([], false)
hex_decode (a ∷ b ∷ s) =
    let rest = hex_decode s in
    elim (hex_byte (from_hex_char a) (from_hex_char b)) [
      | none ↦ ([], false)
      | some v ↦ (v ∷ rest.0, rest.1)
    ]

-- `%x` of one digit.
unfoldable pub to_hex_char : ℕ → ℕ
to_hex_char d = if ltb d 10 then b'0' + d else b'a' + (d - 10)
