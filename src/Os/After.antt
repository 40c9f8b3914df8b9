-- ===== src/Os/After.antt =====
-- What holds of the value of a run that came to its end, and the rules to prove it.
use yonaa.Base.{Bool, true, false, if◌then◌else◌, ◌≡◌, refl, ap}
use yonaa.Os.Events.{Trace}
use yonaa.Os.Outcome.{Outcome, done, stops, R, ◌>>=◌}

-- `Q` of the value, if there is one.
abbrev pub After {ℓ κ} : {A : Type ℓ} → (A → Type κ) → Outcome A → Type κ
After Q (done a) = Q a
After Q (stops s) = Unit

module _ {ℓ κ} {A : Type ℓ} {B : Type κ} where
  -- A first run that gives `Q`, and for each of its values a second one.
  pub After-bind {μ ν} :
      (Q : A → Type μ) (S : B → Type ν) (m : R A) (f : A → R B) (w : Trace)
      → After Q (m w).0
      → ((a : A) (w' : Trace) → Q a → After S (f a w').0)
      → After S ((m >>= f) w).0
  After-bind Q S m f w h k = go (m w).0 h
    where
      go :
          (r : Outcome A)
          → After Q r
          → After S
              (let x : Outcome B × Trace = elim r [
                | done a ↦ f a (m w).1
                | stops s ↦ (stops s, (m w).1)
              ] in
                x).0
      go (done a) q = k a (m w).1 q
      go (stops s) q = tt

  -- A first run of which nothing is known.
  pub After-any {ν} :
      (S : B → Type ν) (m : R A) (f : A → R B) (w : Trace)
      → ((a : A) (w' : Trace) → After S (f a w').0)
      → After S ((m >>= f) w).0
  After-any S m f w k = go (m w).0
    where
      go :
          (r : Outcome A)
          → After S
              (let x : Outcome B × Trace = elim r [
                | done a ↦ f a (m w).1
                | stops s ↦ (stops s, (m w).1)
              ] in
                x).0
      go (done a) = k a (m w).1
      go (stops s) = tt

module _ {ℓ ν} {A : Type ℓ} (S : A → Type ν) where
  pub After-if :
      (b : Bool) (m n : R A) (w : Trace)
      → After S (m w).0
      → After S (n w).0
      → After S ((if b then m else n) w).0
  After-if true m n w h k = h
  After-if false m n w h k = k

  pub After-mono {μ} :
      {Q : A → Type μ} (r : Outcome A) → ((a : A) → Q a → S a) → After Q r → After S r
  After-mono (done a) h q = h a q
  After-mono (stops s) h q = tt

-- A run that comes to its end goes on with its value.
pub bind-done {ℓ κ} :
    {A : Type ℓ} {B : Type κ} {a : A} {w w' : Trace} (m : R A) (f : A → R B)
    → m w ≡ (done a, w')
    → (m >>= f) w ≡ f a w'
bind-done {A = A} {B = B} m f h =
    ap
      (λ (p : Outcome A × Trace).
        let x : Outcome B × Trace = elim p.0 [ done a ↦ f a p.1 | stops s ↦ (stops s, p.1) ] in x)
      h

module _ {ℓ κ μ} {A : Type ℓ} {B : Type κ} where
  -- Two continuations that agree on the values of a run.
  pub After-cong :
      (Q : A → Type μ) (m : R A) (f g : A → R B) (w : Trace)
      → After Q (m w).0
      → ((a : A) (w' : Trace) → Q a → f a w' ≡ g a w')
      → (m >>= f) w ≡ (m >>= g) w
  After-cong Q m f g w h k = go (m w).0 h
    where
      go :
          (r : Outcome A)
          → After Q r
          → (let x : Outcome B × Trace = elim r [
            | done a ↦ f a (m w).1
            | stops s ↦ (stops s, (m w).1)
          ] in
              x)
            ≡ (let x : Outcome B × Trace = elim r [
              | done a ↦ g a (m w).1
              | stops s ↦ (stops s, (m w).1)
            ] in
                x)
      go (done a) q = k a (m w).1 q
      go (stops s) q = refl

-- A run of two parts that came to its end is one of each.
pub done-bind {ℓ κ} :
    {A : Type ℓ} {B : Type κ} (m : R A) (f : A → R B) (w : Trace) {b : B} {w'' : Trace}
    → (m >>= f) w ≡ (done b, w'')
    → (a : A) × (w' : Trace) × (m w ≡ (done a, w')) × (f a w' ≡ (done b, w''))
done-bind {A = A} {B = B} m f w {b} {w''} h = go (m w).0 (m w).1 refl h
  where
    go :
        (r : Outcome A) (v : Trace)
        → m w ≡ (r, v)
        → (let x : Outcome B × Trace = elim r [ done a ↦ f a v | stops s ↦ (stops s, v) ] in x)
          ≡ (done b, w'')
        → (a : A) × (w' : Trace) × (m w ≡ (done a, w')) × (f a w' ≡ (done b, w''))
    go (done a) v e k = (a, v, e, k)
    go (stops s) v e k = let x = ap (λ p. p.0) k in absurd (cc)
