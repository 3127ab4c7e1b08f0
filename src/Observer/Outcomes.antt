-- ===== src/Observer/Outcomes.antt =====
-- How a call of a handler of couchbase/observer.go can end.
pub data Outcome {ℓ} (A : Type ℓ) : Type ℓ where
  done : A → Outcome A
  -- it still waits for rollback mitigation when the given polls are over
  waiting : Outcome A
  -- the panic of IsInSnapshotMarker
  not_in_snapshot : Outcome A

infixl 5 ◌>>=◌ ◌>>◌
abbrev pub ◌>>=◌ {ℓ κ} : {A : Type ℓ} {B : Type κ} → Outcome A → (A → Outcome B) → Outcome B
done a >>= f = f a
waiting >>= f = waiting
not_in_snapshot >>= f = not_in_snapshot

abbrev pub ◌>>◌ {ℓ κ} : {A : Type ℓ} {B : Type κ} → Outcome A → Outcome B → Outcome B
m >> k = m >>= λ _. k
