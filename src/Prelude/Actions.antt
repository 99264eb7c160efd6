-- ===== src/Prelude/Actions.antt =====
-- Calls with a state that may fail, one after another.
use registry_k8s_io.Prelude.Results.{Result, ok, err}

-- A call that may fail, and changes the state in either case.
abbrev pub Action : Type 0 → Type 0 → Type 0
Action State A = State → Result A × State

infixl 5 ◌>>=◌ ◌>>◌
abbrev pub ◌>>=◌ : {State A B : Type 0} → Action State A → (A → Action State B) → Action State B
◌>>=◌ m f s = let (r, s') = m s in elim r [ ok a ↦ f a s' | err e ↦ (err e, s') ]

abbrev pub ◌>>◌ : {State B : Type 0} → Action State (Unit {0}) → Action State B → Action State B
m >> k = m >>= λ _. k

-- A result that leaves the state as it is.
abbrev pub lift : {State A : Type 0} → Result A → Action State A
lift r s = (r, s)
