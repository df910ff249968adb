-- ===== src/Base/Faults.antt =====
-- What a run of C++ code ends in: a value, or one of the ways in which it leaves the defined
-- behaviour. `not_reached` is a failed ASSERT_NOT_REACHED or ASSERT_COND, `undefined` is undefined
-- behaviour of the language, `no_fuel` stands for a loop that the given fuel does not finish.

pub data Fault : Type 0 where
  not_reached undefined no_fuel : Fault

pub data Outcome {ℓ} (A : Type ℓ) : Type ℓ where
  ok : A → Outcome A
  fault : Fault → Outcome A

infixl 5 ◌>>=◌
abbrev pub ◌>>=◌ {κ ℓ} : {S : Type κ} {T : Type ℓ} → Outcome S → (S → Outcome T) → Outcome T
fault why >>= next = fault why
ok value >>= next = next value
