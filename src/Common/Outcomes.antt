-- ===== src/Common/Outcomes.antt =====
-- How a call ends in C++.

-- It returns, or the process dies, by a null pointer or an exception that nobody catches, or does
-- with an object that has been destroyed what C++ leaves undefined.
pub data Outcome {ℓ} (A : Type ℓ) : Type ℓ where
  done : A → Outcome A
  crashed : Outcome A
