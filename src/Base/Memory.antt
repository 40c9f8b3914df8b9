-- ===== src/Base/Memory.antt =====
-- The C library's operations on raw memory, over lists of bytes. `stray` gives the bytes that a
-- read past the end of an array finds, which C++ leaves undefined.
use Prim.Native.Nat.{ℕ, zero, suc, ◌≤◌, compare, Ordering}
use mathlib.Core.Path.{◌≡◌, refl, ap, ◌∙◌}
use mathlib.Core.Logic.{◌↔◌}
use mathlib.Core.List.{List, [], ◌∷◌, ◌++◌}
use native.Mathlib.Omega.{arith}
use yonaa.Base.Lists.{length, take, drop, take_all}

-- The first `n` bytes at a pointer to `bs`.
abbrev pub read : (ℕ → ℕ) → ℕ → List ℕ → List ℕ
read stray zero bs = []
read stray (suc n) [] = stray n ∷ read stray n []
read stray (suc n) (b ∷ bs) = b ∷ read stray n bs

-- `memcpy(dst, src, n)`: the destination afterwards.
abbrev pub memcpy : (ℕ → ℕ) → List ℕ → List ℕ → ℕ → List ℕ
memcpy stray dst src n = read stray n src ++ drop n dst

-- `memcmp` of two blocks of one length: the order of the first bytes that differ.
abbrev pub memcmp : List ℕ → List ℕ → Ordering
memcmp [] bs = Ordering.eq
memcmp (a ∷ as') [] = Ordering.eq
memcmp (a ∷ as') (b ∷ bs) =
    let rest = memcmp as' bs in
    elim (compare a b) [
      | Ordering.eq ↦ rest
      | Ordering.lt ↦ Ordering.lt
      | Ordering.gt ↦ Ordering.gt
    ]

pub read-eq-take :
    (stray : ℕ → ℕ) (n : ℕ) (bs : List ℕ) → n ≤ length bs → read stray n bs ≡ take n bs
read-eq-take stray zero bs h = refl
read-eq-take stray (suc n) [] h = elim h [ ]
read-eq-take stray (suc n) (b ∷ bs) h = ap (◌∷◌ b) (read-eq-take stray n bs (omega arith))

pub length-read : (stray : ℕ → ℕ) (n : ℕ) (bs : List ℕ) → length (read stray n bs) ≡ n
length-read stray zero bs = refl
length-read stray (suc n) [] = ap suc (length-read stray n [])
length-read stray (suc n) (b ∷ bs) = ap suc (length-read stray n bs)

pub memcmp_iff :
    (as' bs : List ℕ) → length as' ≡ length bs → (memcmp as' bs ≡ Ordering.eq) ↔ (as' ≡ bs)
memcmp_iff [] [] h = (λ _. refl, λ _. refl)
memcmp_iff [] (b ∷ bs) h = absurd (omega arith)
memcmp_iff (a ∷ as') [] h = absurd (omega arith)
memcmp_iff (a ∷ as') (b ∷ bs) h = ground (arith, memcmp_iff as' bs (omega arith))

pub read_all : (stray : ℕ → ℕ) (bs : List ℕ) → read stray (length bs) bs ≡ bs
read_all stray bs = read-eq-take stray (length bs) bs (omega arith) ∙ take_all bs
