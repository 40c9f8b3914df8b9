-- ===== src/Os/Always.antt =====
-- What holds of the value of a run that does come to its end, and the rules to prove it.
use yonaa.Base.{Bool, true, false, if◌then◌else◌}
use yonaa.Os.Events.{Trace}
use yonaa.Os.Outcome.{Outcome, done, stops, R, ◌>>=◌}
use yonaa.Os.After.{After}

-- There is a value, and `Q` of it.
abbrev pub Always {ℓ} : {A : Type ℓ} → (A → Type 0) → Outcome A → Type 0
Always Q (done a) = Q a
Always Q (stops s) = ⊥

-- There is a value.
abbrev pub Returns {ℓ} : {A : Type ℓ} → Outcome A → Type 0
Returns = Always (λ a. Unit {0})

module _ {ℓ κ} {A : Type ℓ} {B : Type κ} where
  pub Always-bind :
      (Q : A → Type 0) (S : B → Type 0) (m : R A) (f : A → R B) (w : Trace)
      → Always Q (m w).0
      → ((a : A) (w' : Trace) → Q a → Always S (f a w').0)
      → Always S ((m >>= f) w).0
  Always-bind Q S m f w h k = go (m w).0 h
    where
      go :
          (r : Outcome A)
          → Always Q r
          → Always S
              (let x : Outcome B × Trace = elim r [
                | done a ↦ f a (m w).1
                | stops s ↦ (stops s, (m w).1)
              ] in
                x).0
      go (done a) q = k a (m w).1 q
      go (stops s) q = absurd q

module _ {ℓ} {A : Type ℓ} (S : A → Type 0) where
  pub Always-if :
      (b : Bool) (m n : R A) (w : Trace)
      → Always S (m w).0
      → Always S (n w).0
      → Always S ((if b then m else n) w).0
  Always-if true m n w h k = h
  Always-if false m n w h k = k

  pub After-Always : (r : Outcome A) → After S r → Returns r → Always S r
  After-Always (done a) h k = h
  After-Always (stops s) h k = absurd k
