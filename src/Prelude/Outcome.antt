-- ===== src/Prelude/Outcome.antt =====
-- How a call ends: with a value, by an exception, or by undefined behaviour (a null dereference).

pub data Outcome {ℓ} (A : Type ℓ) : Type ℓ where
  ok : A → Outcome A
  throws : Outcome A
  faults : Outcome A

infixl 5 ◌>>=◌ ◌>>◌
abbrev pub ◌>>=◌ {ℓ κ} : {A : Type ℓ} {B : Type κ} → Outcome A → (A → Outcome B) → Outcome B
ok a >>= f = f a
throws >>= f = throws
faults >>= f = faults

abbrev pub ◌>>◌ {ℓ κ} : {A : Type ℓ} {B : Type κ} → Outcome A → Outcome B → Outcome B
m >> k = m >>= λ _. k

-- How a call ended, its value forgotten.
pub data Ending : Type 0 where
  done threw crashed : Ending

abbrev pub ending {ℓ} : {A : Type ℓ} → Outcome A → Ending
ending (ok a) = done
ending throws = threw
ending faults = crashed
