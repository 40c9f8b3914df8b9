-- ===== src/Base/Distinct.antt =====
-- Lists with one more element, and lists of distinct numbers.
use Prim.Native.Nat.{ℕ, zero, suc, ◌<◌}
use mathlib.Core.Path.{◌≡◌, refl, ap, sym, ◌∙◌}
use mathlib.Core.Logic.{◌≢◌, inl, inr}
use mathlib.Core.Bool.{Bool}
use mathlib.Core.List.{List, [], ◌∷◌, ◌++◌, map}
use native.Mathlib.Omega.{arith}
use yonaa.Base.Tests.{Bool-cases}
use yonaa.Base.Lists.{All, filter, length, take, take-append}

module _ {ℓ κ} {A : Type ℓ} (P : A → Type κ) where
  pub All-snoc : (xs : List A) (a : A) → All P xs → P a → All P (xs ++ (a ∷ []))
  All-snoc [] a h p = (p, tt)
  All-snoc (x ∷ xs) a h p = (h.0, All-snoc xs a h.1 p)

  pub All-append : (xs ys : List A) → All P xs → All P ys → All P (xs ++ ys)
  All-append [] ys h k = k
  All-append (x ∷ xs) ys h k = (h.0, All-append xs ys h.1 k)

  pub All-mono : {Q : A → Type κ} → ((a : A) → P a → Q a) → (xs : List A) → All P xs → All Q xs
  All-mono f [] h = tt
  All-mono f (x ∷ xs) h = (f x h.0, All-mono f xs h.1)

pub map-snoc {ℓ κ} :
    {A : Type ℓ} {B : Type κ} (f : A → B) (xs : List A) (a : A)
    → map f (xs ++ (a ∷ [])) ≡ map f xs ++ (f a ∷ [])
map-snoc f [] a = refl
map-snoc f (x ∷ xs) a = ap (◌∷◌ (f x)) (map-snoc f xs a)

module _ {ℓ κ} {A : Type ℓ} {B : Type κ} (f : A → B) where
  pub map-append : (xs ys : List A) → map f (xs ++ ys) ≡ map f xs ++ map f ys
  map-append [] ys = refl
  map-append (x ∷ xs) ys = ap (◌∷◌ (f x)) (map-append xs ys)

  map-take : (n : ℕ) (xs : List A) → map f (take n xs) ≡ take n (map f xs)
  map-take zero [] = refl
  map-take zero (x ∷ xs) = refl
  map-take (suc n) [] = refl
  map-take (suc n) (x ∷ xs) = ap (◌∷◌ (f x)) (map-take n xs)

  length-map : (xs : List A) → length (map f xs) ≡ length xs
  length-map [] = refl
  length-map (x ∷ xs) = ap suc (length-map xs)

  -- The first elements of a list that has what `xs` and more behind it have.
  pub map-take-append :
      (xs ys zs : List A) → map f zs ≡ map f (xs ++ ys) → map f (take (length xs) zs) ≡ map f xs
  map-take-append xs ys zs h =
      map-take (length xs) zs
      ∙ ap (take (length xs)) (h ∙ map-append xs ys)
      ∙ ap (λ n. take n (map f xs ++ map f ys)) (sym (length-map xs))
      ∙ take-append (map f xs) (map f ys)

-- No number occurs twice.
abbrev pub IsDistinct : List ℕ → Type 0
IsDistinct [] = Unit {0}
IsDistinct (n ∷ ns) = All (λ m. m ≢ n) ns × IsDistinct ns

pub snoc-IsDistinct :
    (ns : List ℕ) (n : ℕ) → IsDistinct ns → All (λ m. m < n) ns → IsDistinct (ns ++ (n ∷ []))
snoc-IsDistinct [] n d b = (tt, tt)
snoc-IsDistinct (m ∷ ns) n d b =
    (All-snoc (λ k. k ≢ m) ns n d.0 (omega (arith, b.0)), snoc-IsDistinct ns n d.1 b.1)

-- What is left of a list after a filter.
pub new-IsDistinct :
    (ns : List ℕ) (n : ℕ) → IsDistinct ns → All (λ m. n ≢ m) ns → IsDistinct (ns ++ (n ∷ []))
new-IsDistinct [] n d b = (tt, tt)
new-IsDistinct (m ∷ ns) n d b = (All-snoc (λ k. k ≢ m) ns n d.0 b.0, new-IsDistinct ns n d.1 b.1)

pub filter-All {ℓ} :
    {A : Type ℓ} (f : A → ℕ) (P : ℕ → Type 0) (p : A → Bool) (xs : List A)
    → All P (map f xs)
    → All P (map f (filter p xs))
filter-All f P p [] h = tt
filter-All f P p (x ∷ xs) h = elim (Bool-cases (p x)) [
  | inl e ↦ rw e (h.0, filter-All f P p xs h.1)
  | inr e ↦ rw e (filter-All f P p xs h.1)
]

pub filter-IsDistinct {ℓ} :
    {A : Type ℓ} (f : A → ℕ) (p : A → Bool) (xs : List A)
    → IsDistinct (map f xs)
    → IsDistinct (map f (filter p xs))
filter-IsDistinct f p [] h = tt
filter-IsDistinct f p (x ∷ xs) h = elim (Bool-cases (p x)) [
  | inl e ↦ rw e (filter-All f (λ m. m ≢ f x) p xs h.0, filter-IsDistinct f p xs h.1)
  | inr e ↦ rw e (filter-IsDistinct f p xs h.1)
]
