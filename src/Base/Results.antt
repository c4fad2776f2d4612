-- ===== src/Base/Results.antt =====
-- What a call comes to: it returns, an exception or `exit` ends it, its behaviour is not defined (a null
-- pointer is used, an index is out of range), the fuel of a walk ran out, or it leaves what is
-- modelled.

pub data Outcome {ℓ} (A : Type ℓ) : Type ℓ where
  done : A → Outcome A
  aborted fault starved unmodelled : Outcome A

infixl 5 ◌>>=◌
abbrev pub ◌>>=◌ {ℓ κ} : {A : Type ℓ} {B : Type κ} → Outcome A → (A → Outcome B) → Outcome B
done a >>= f = f a
aborted >>= f = aborted
fault >>= f = fault
starved >>= f = starved
unmodelled >>= f = unmodelled
