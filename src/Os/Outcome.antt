-- ===== src/Os/Outcome.antt =====
-- Operations that may not come to an end of their own: `R` adds to `M` the ways in which a run of
-- the code stops short.
use yonaa.Base.{ℕ}
use yonaa.Os.Events.{Trace}
use yonaa.Os.Calls.{M}

-- Why a run stopped short: the rounds of a loop that the model allows are used up; a null pointer
-- was read; a callback that was never installed was called (`std::bad_function_call`, which ends
-- the program on a network thread); the code called `std::exit`.
pub data Stop : Type 0 where
  out_of_rounds null_pointer no_callback exited : Stop

pub data Outcome {ℓ} (A : Type ℓ) : Type ℓ where
  done : A → Outcome A
  stops : Stop → Outcome A

abbrev pub R {ℓ} : Type ℓ → Type ℓ
R A = Trace → Outcome A × Trace

abbrev pub return {ℓ} : {A : Type ℓ} → A → R A
return a w = (done a, w)

abbrev pub halt {ℓ} : {A : Type ℓ} → Stop → R A
halt s w = (stops s, w)

abbrev pub lift {ℓ} : {A : Type ℓ} → M A → R A
lift m w = let (a, w') = m w in (done a, w')

infixl 5 ◌>>=◌ ◌>>◌
abbrev pub ◌>>=◌ {ℓ κ} : {A : Type ℓ} {B : Type κ} → R A → (A → R B) → R B
◌>>=◌ m f w = let (r, w') = m w in elim r [ done a ↦ f a w' | stops s ↦ (stops s, w') ]

abbrev pub ◌>>◌ {κ} : {B : Type κ} → R (Unit {0}) → R B → R B
m >> k = m >>= λ _. k

-- What an overload without an `error_code` does: it returns, or it throws the code.
pub data Thrown {ℓ} (A : Type ℓ) : Type ℓ where
  returns : A → Thrown A
  throws : ℕ → Thrown A
