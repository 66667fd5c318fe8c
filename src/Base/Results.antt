-- ===== src/Base/Results.antt =====
-- How a Go function ends: it returns, it leaves the process by `log.Fatal`, it panics, or it waits
-- for ever, on a nil channel or on a lock that nobody gives back.
use mathlib.Core.Path.{◌≡◌, refl}
use mathlib.Core.Logic.{◌⊎◌, inl, inr}
use mathlib.Core.Bool.{Bool, true, false}
use mathlib.Core.Option.{Option, none, some}

pub data Result {ℓ} (A : Type ℓ) : Type ℓ where
  ok : A → Result A
  fatal : Result A
  panic : Result A
  blocked : Result A

module _ {ℓ κ} {A : Type ℓ} {B : Type κ} where
  infixl 5 ◌>>=◌
  -- What follows a call runs only where the call returned.
  abbrev pub ◌>>=◌ : Result A → (A → Result B) → Result B
  fatal >>= next = fatal
  panic >>= next = panic
  blocked >>= next = blocked
  ok value >>= next = next value

infixl 5 ◌>>◌
abbrev pub ◌>>◌ {ℓ} : {B : Type ℓ} → Result (Unit {0}) → Result B → Result B
call >> next = call >>= λ done. next

-- `if b { log.Fatal(...) }`
abbrev pub fatal_if : Bool → Result (Unit {0})
fatal_if true = fatal
fatal_if false = ok tt

-- A nil pointer that is used, or an index out of range.
abbrev pub or_panic {ℓ} : {A : Type ℓ} → Option A → Result A
or_panic none = panic
or_panic (some a) = ok a

module _ {ℓ κ} {A : Type ℓ} {B : Type κ} where
  -- What two calls returned in a row, each returned.
  pub >>=-eq-ok :
      {b : B} (call : Result A) (next : A → Result B)
      → (call >>= next) ≡ ok b
      → (value : A) × (call ≡ ok value) × (next value ≡ ok b)
  >>=-eq-ok fatal next returned = cc
  >>=-eq-ok panic next returned = cc
  >>=-eq-ok blocked next returned = cc
  >>=-eq-ok (ok value) next returned = (value, refl, returned)

pub Result-cases {ℓ} :
    {A : Type ℓ} (m : Result A)
    → ((a : A) × (m ≡ ok a)) ⊎ ((m ≡ fatal) ⊎ ((m ≡ panic) ⊎ (m ≡ blocked)))
Result-cases (ok a) = inl (a, refl)
Result-cases fatal = inr (inl refl)
Result-cases panic = inr (inr (inl refl))
Result-cases blocked = inr (inr (inr refl))
