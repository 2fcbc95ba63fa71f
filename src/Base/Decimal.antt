-- ===== src/Base/Decimal.antt =====
-- Numbers in decimal, as `%d` prints them.
use Prim.Native.Nat.{ℕ, zero, suc, ◌+◌, ◌-◌, ◌*◌, ◌/◌, ◌%◌, ◌<◌}
use mathlib.Core.Path.{◌≡◌, refl, sym, ap, ◌∙◌}
use mathlib.Core.Logic.{◌⊎◌, inl, inr}
use mathlib.Core.Bool.{Bool, false, ◌||◌}
use mathlib.Core.List.{[], ◌∷◌, ◌++◌}
use native.Mathlib.Omega.{arith}
use zmqcat.Base.Tests.{ltb, ◌==◌, if◌then◌else◌, Bool-cases}
use zmqcat.Base.Texts.{Text}

-- `%d` of a number; the fuel is more than the number of digits.
unfoldable pub digits : ℕ → ℕ → Text
digits zero n = []
digits (suc fuel) n =
    let rest = digits fuel (n / 10) in
    if ltb n 10 then (48 + n) ∷ [] else rest ++ (48 + n % 10) ∷ []

unfoldable pub decimal : ℕ → Text
unfolding digits
decimal n = digits (suc n) n

-- The number that decimal digits stand for, after some others.
unfoldable pub value_from : Text → ℕ → ℕ
value_from [] n = n
value_from (c ∷ s) n = value_from s (n * 10 + (c - 48))

pub value_from-append :
    (xs ys : Text) (n : ℕ) → value_from (xs ++ ys) n ≡ value_from ys (value_from xs n)
unfolding value_from
value_from-append [] ys n = refl
value_from-append (x ∷ xs) ys n = value_from-append xs ys (n * 10 + (x - 48))

pub value_from-digits : (fuel n : ℕ) → n < fuel → value_from (digits fuel n) 0 ≡ n
unfolding value_from digits
value_from-digits zero n h = absurd (omega arith)
value_from-digits (suc fuel) n h = elim (Bool-cases (ltb n 10)) [
  | inl e ↦
      let same : digits (suc fuel) n ≡ (48 + n) ∷ [] = rw e refl in
      ap (λ t. value_from t 0) same ∙ omega arith
  | inr e ↦
      let rest = digits fuel (n / 10) in
      let same : digits (suc fuel) n ≡ rest ++ (48 + n % 10) ∷ [] = rw e refl in
      ap (λ t. value_from t 0) same
      ∙ value_from-append rest ((48 + n % 10) ∷ []) 0
      ∙ ap (value_from ((48 + n % 10) ∷ []))
          (value_from-digits fuel (n / 10) (ground (arith, e, h)))
      ∙ omega arith
]

pub decimal_injective : (n m : ℕ) → decimal n ≡ decimal m → n ≡ m
unfolding decimal
decimal_injective n m h =
    sym (value_from-digits (suc n) n (omega arith))
    ∙ ap (λ t. value_from t 0) h
    ∙ value_from-digits (suc m) m (omega arith)

unfoldable pub has_byte : ℕ → Text → Bool
has_byte sep [] = false
has_byte sep (c ∷ s) = c == sep || has_byte sep s

pub has_byte-append :
    (sep : ℕ) (xs ys : Text) → has_byte sep (xs ++ ys) ≡ (has_byte sep xs || has_byte sep ys)
unfolding has_byte
has_byte-append sep [] ys = refl
has_byte-append sep (x ∷ xs) ys = ground (arith, has_byte-append sep xs ys)

-- Digits are not below the byte of `0`, nor above that of `9`.
module _ (sep : ℕ) (other : (sep < 48) ⊎ (57 < sep)) where
  has_byte-digits : (fuel n : ℕ) → has_byte sep (digits fuel n) ≡ false
  unfolding has_byte digits
  has_byte-digits zero n = refl
  has_byte-digits (suc fuel) n =
      let rest = digits fuel (n / 10) in
      ground
        (arith, other, has_byte-digits fuel (n / 10), has_byte-append sep rest ((48 + n % 10) ∷ []))

  pub has_byte-decimal : (n : ℕ) → has_byte sep (decimal n) ≡ false
  unfolding decimal
  has_byte-decimal n = has_byte-digits (suc n) n

-- Texts that are joined by a byte which neither first part holds come apart again.
pub parted :
    (sep : ℕ) (xs xs' ys ys' : Text)
    → has_byte sep xs ≡ false
    → has_byte sep xs' ≡ false
    → xs ++ sep ∷ ys ≡ xs' ++ sep ∷ ys'
    → (xs ≡ xs') × (ys ≡ ys')
unfolding has_byte
parted sep [] [] ys ys' h h' e = (refl, ground arith)
parted sep [] (c ∷ xs') ys ys' h h' e = ground arith
parted sep (c ∷ xs) [] ys ys' h h' e = ground arith
parted sep (c ∷ xs) (c' ∷ xs') ys ys' h h' e = ground (arith, parted sep xs xs' ys ys')
