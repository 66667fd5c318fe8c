-- ===== src/Scenario/Numbers.antt =====
-- Signed integers of 64 bits, as a sign and a size, and how Go prints them padded with zeros.
use g_cn_testbed_k8s.Base.{
  ℕ, zero, suc, ◌+◌, ◌-◌, ◌*◌, ◌/◌, ◌%◌, ◌^◌, ◌<◌, ◌≡◌, refl, subst, ◌∙◌, Bool, true, false, List,
  [], ◌∷◌, ◌++◌, Text, arith, length, length-append, ltb, leb, ◌==◌, map, if◌then◌else◌,
}
use g_cn_testbed_k8s.Strconv.Digits.{Digits, value, value_behind}

-- Whether it is negative, and its size.
abbrev pub Signed : Type 0
Signed = Bool × ℕ

-- `v + k`, which wraps around.
unfoldable pub add_int : Signed → ℕ → Signed
add_int (true, m) k = if leb m k then (false, k - m) else (true, m - k)
add_int (false, m) k = if ltb (m + k) (2 ^ 63) then (false, m + k) else (true, 2 ^ 64 - (m + k))

-- `v - 1`, which wraps around.
unfoldable pub pred_int : Signed → Signed
pred_int (true, m) = if m == 2 ^ 63 then (false, 2 ^ 63 - 1) else (true, m + 1)
pred_int (false, m) = if m == 0 then (true, 1) else (false, m - 1)

-- The last `w` digits, the highest first.
unfoldable pub last_digits : (base w n : ℕ) → List ℕ
last_digits base zero n = []
last_digits base (suc w) n = last_digits base w (n / base) ++ n % base ∷ []

-- The width from `w` on in which a number has room; 64 rounds are more than any integer needs.
unfoldable pub width : (rounds base w n : ℕ) → ℕ
width zero base w n = w
width (suc k) base w n = if ltb n (base ^ w) then w else width k base (w + 1) n

-- `%0wd` and the like: at least `w` characters, the sign included.
unfoldable pub format : (base w : ℕ) → (ℕ → ℕ) → Signed → Text
unfolding last_digits width
format base w char (true, n) = b'-' ∷ map char (last_digits base (width 64 base (w - 1) n) n)
format base w char (false, n) = map char (last_digits base (width 64 base w n) n)

-- A width that is found has room for the number, if there are rounds enough.
pub width-lt : (k base w n : ℕ) → n < base ^ (w + k) → n < base ^ width k base w n
unfolding width
width-lt zero base w n h =
    let same : w + 0 ≡ w = omega arith in subst (λ (x : ℕ). n < base ^ x) same h
width-lt (suc k) base w n h = ground (arith, width-lt k base (w + 1) n)

value_behind-append :
    (m d : ℕ) (ds : List ℕ) → value_behind m (ds ++ d ∷ []) ≡ value_behind m ds * 10 + d
value_behind-append m d [] = refl
value_behind-append m d (x ∷ ds) = value_behind-append (m * 10 + x) d ds

append-Digits : (ds : List ℕ) (d : ℕ) → Digits ds → d < 10 → Digits (ds ++ d ∷ [])
append-Digits [] d h l = (l, tt)
append-Digits (x ∷ ds) d (h, hs) l = (h, append-Digits ds d hs l)

pub last_digits-Digits : (w n : ℕ) → Digits (last_digits 10 w n)
unfolding last_digits
last_digits-Digits zero n = tt
last_digits-Digits (suc w) n =
    append-Digits (last_digits 10 w (n / 10)) (n % 10) (last_digits-Digits w (n / 10)) (omega arith)

pub length-last_digits : (w n : ℕ) → length (last_digits 10 w n) ≡ w
unfolding last_digits
length-last_digits zero n = refl
length-last_digits (suc w) n =
    omega (
      arith,
      length-append (last_digits 10 w (n / 10)) (n % 10 ∷ []),
      length-last_digits w (n / 10),
    )

-- The last digits of a number that has no more stand for it.
pub value-last_digits : (w n : ℕ) → n < 10 ^ w → value (last_digits 10 w n) ≡ n
unfolding last_digits
value-last_digits zero n h = omega arith
value-last_digits (suc w) n h =
    let rest = value-last_digits w (n / 10) (omega arith) in
    value_behind-append 0 (n % 10) (last_digits 10 w (n / 10)) ∙ omega arith
