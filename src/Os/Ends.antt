-- ===== src/Os/Ends.antt =====
-- What holds of the value and the history of a run that came to its end.
use yonaa.Base.{Bool, true, false, if◌then◌else◌, ◌≡◌, refl, subst}
use yonaa.Os.Events.{Trace}
use yonaa.Os.Outcome.{Outcome, done, stops, R, ◌>>=◌}
use yonaa.Os.After.{After}

-- `Q` of the value and the history, if there is a value.
abbrev pub Ends {ℓ κ} : {A : Type ℓ} → (A → Trace → Type κ) → Outcome A × Trace → Type κ
Ends Q r = After (λ a. Q a r.1) r.0

module _ {ℓ κ} {A : Type ℓ} where
  pub Ends-if :
      (Q : A → Trace → Type κ) (b : Bool) (m n : R A) (w : Trace)
      → Ends Q (m w)
      → Ends Q (n w)
      → Ends Q ((if b then m else n) w)
  Ends-if Q true m n w h k = h
  Ends-if Q false m n w h k = k

  -- The same, with what the test says.
  pub Ends-test :
      (Q : A → Trace → Type κ) (b : Bool) (m n : R A) (w : Trace)
      → (b ≡ true → Ends Q (m w))
      → (b ≡ false → Ends Q (n w))
      → Ends Q ((if b then m else n) w)
  Ends-test Q true m n w h k = h refl
  Ends-test Q false m n w h k = k refl

  pub Ends-mono {μ} :
      {S : A → Trace → Type μ} (Q : A → Trace → Type κ) (r : Outcome A × Trace)
      → ((a : A) (w : Trace) → S a w → Q a w)
      → Ends S r
      → Ends Q r
  Ends-mono {S = S} Q r f h = go r.0 h
    where
      go : (x : Outcome A) → After (λ a. S a r.1) x → After (λ a. Q a r.1) x
      go (done a) k = f a r.1 k
      go (stops s) k = tt

  -- What holds of a value, and what holds of the history in any case.
  pub Ends-both {μ} :
      (S : A → Type μ) (T : Trace → Type κ) (r : Outcome A × Trace)
      → After S r.0
      → T r.1
      → After (λ a. S a × T r.1) r.0
  Ends-both S T r h t = go r.0 h
    where
      go : (x : Outcome A) → After S x → After (λ a. S a × T r.1) x
      go (done a) k = (k, t)
      go (stops s) k = tt

  pub Ends-any : (T : Trace → Type κ) (r : Outcome A × Trace) → T r.1 → Ends (λ a w. T w) r
  Ends-any T r t = go r.0
    where
      go : (x : Outcome A) → After (λ a. T r.1) x
      go (done a) = t
      go (stops s) = tt

  pub Ends-and {μ} :
      (S : A → Type μ) (Q : A → Trace → Type κ) (r : Outcome A × Trace)
      → After S r.0
      → Ends Q r
      → After (λ a. S a × Q a r.1) r.0
  Ends-and S Q r h k = go r.0 h k
    where
      go : (x : Outcome A) → After S x → After (λ a. Q a r.1) x → After (λ a. S a × Q a r.1) x
      go (done a) h k = (h, k)
      go (stops s) h k = tt

module _ {ℓ κ μ ν} {A : Type ℓ} {B : Type κ} where
  pub Ends-bind :
      (Q : A → Trace → Type μ) (S : B → Trace → Type ν) (m : R A) (f : A → R B) (w : Trace)
      → Ends Q (m w)
      → ((a : A) (w' : Trace) → Q a w' → Ends S (f a w'))
      → Ends S ((m >>= f) w)
  Ends-bind Q S m f w h k = go (m w).0 h
    where
      go :
          (r : Outcome A)
          → After (λ a. Q a (m w).1) r
          → Ends S (
              let x : Outcome B × Trace = elim r [
                | done a ↦ f a (m w).1
                | stops s ↦ (stops s, (m w).1)
              ] in
              x)
      go (done a) q = k a (m w).1 q
      go (stops s) q = tt

-- What holds if a run comes to its end holds of the value and the history that it came to.
pub Ends-done {ℓ κ} :
    {A : Type ℓ} (Q : A → Trace → Type κ) (a : A) (w : Trace) (r : Outcome A × Trace)
    → r ≡ (done a, w)
    → Ends Q r
    → Q a w
Ends-done {A = A} Q a w r e h = subst (λ (p : Outcome A × Trace). Ends Q p) e h
