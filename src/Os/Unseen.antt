-- ===== src/Os/Unseen.antt =====
-- Views of a history: what a part of the program does not change in the view of it.
use yonaa.Base.{◌≡◌, ◌∙◌, refl}
use yonaa.Os.Events.{Trace}
use yonaa.Os.Outcome.{Outcome, done, stops, R, ◌>>=◌}

-- Two parts that the view does not see.
pub unseen-bind {ℓ κ μ} :
    {A : Type ℓ} {B : Type κ} {C : Type μ} (view : Trace → C) (m : R A) (f : A → R B) (w : Trace)
    → view (m w).1 ≡ view w
    → ((a : A) (w' : Trace) → view (f a w').1 ≡ view w')
    → view ((m >>= f) w).1 ≡ view w
unseen-bind {A = A} {B = B} view m f w h k = go (m w).0 ∙ h
  where
    go :
        (r : Outcome A)
        → view
            (let x : Outcome B × Trace = elim r [
              | done a ↦ f a (m w).1
              | stops s ↦ (stops s, (m w).1)
            ] in
              x).1
          ≡ view (m w).1
    go (done a) = k a (m w).1
    go (stops s) = refl
