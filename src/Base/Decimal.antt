-- ===== src/Base/Decimal.antt =====
-- `std::to_string` of a number that is not negative, as ASCII bytes, and the number that such a
-- text stands for.
use Prim.Native.Nat.{ℕ, zero, suc, ◌+◌, ◌-◌, ◌*◌, ◌/◌, ◌%◌, ◌<◌, ◌≤◌}
use mathlib.Core.Path.{◌≡◌, ap, ◌∙◌}
use mathlib.Core.List.{List, [], ◌∷◌}
use native.Mathlib.Omega.{arith}
use yonaa.Base.Tests.{ltb, if◌then◌else◌, Bool-cases}
use mathlib.Core.Logic.{inl, inr}
use yonaa.Base.Lists.{All}

-- The digits of `n` in front of `acc`. Each round takes a digit off `n`, so the fuel `suc n` is
-- enough.
unfoldable pub digits_onto : ℕ → ℕ → List ℕ → List ℕ
digits_onto zero n acc = acc
digits_onto (suc fuel) n acc =
    let rest = digits_onto fuel (n / 10) ((b'0' + n % 10) ∷ acc) in
    if ltb n 10 then (b'0' + n) ∷ acc else rest

unfoldable pub to_string : ℕ → List ℕ
unfolding digits_onto
to_string n = digits_onto (suc n) n []

-- The value of a text of digits, read after the digits of `n`.
abbrev pub value_from : ℕ → List ℕ → ℕ
value_from n [] = n
value_from n (c ∷ cs) = value_from (n * 10 + (c - b'0')) cs

-- Every number is read back from its text.
value_from-digits_onto :
    (fuel n : ℕ) (acc : List ℕ)
    → n < fuel
    → value_from 0 (digits_onto fuel n acc) ≡ value_from n acc
unfolding digits_onto
value_from-digits_onto zero n acc h = elim h [ ]
value_from-digits_onto (suc fuel) n acc h = elim (Bool-cases (ltb n 10)) [
  | inl small ↦ rw small (ap (λ (k : ℕ). value_from k acc) (omega arith))
  | inr large ↦ rw large (
      value_from-digits_onto fuel (n / 10) ((b'0' + n % 10) ∷ acc) (ground arith)
      ∙ ap (λ (k : ℕ). value_from k acc) (omega arith))
]

pub value_from-to_string : (n : ℕ) → value_from 0 (to_string n) ≡ n
unfolding to_string
value_from-to_string n = value_from-digits_onto (suc n) n [] (omega arith)

abbrev pub IsDigit : ℕ → Type 0
IsDigit c = (b'0' ≤ c) × (c ≤ b'9')

All-digits_onto :
    (fuel n : ℕ) (acc : List ℕ) → All IsDigit acc → All IsDigit (digits_onto fuel n acc)
unfolding digits_onto
All-digits_onto zero n acc h = h
All-digits_onto (suc fuel) n acc h = elim (Bool-cases (ltb n 10)) [
  | inl small ↦ rw small ((ground arith, ground arith), h)
  | inr large ↦ rw large (All-digits_onto fuel (n / 10) _ ((omega arith, omega arith), h))
]

pub All-to_string : (n : ℕ) → All IsDigit (to_string n)
unfolding to_string
All-to_string n = All-digits_onto (suc n) n [] tt
