-- ===== src/Compiler/ShString.antt =====
-- The shared strings of the library YmUtils (ShString), which the compiler uses for names: what it
-- relies on is that `==` tells texts apart and that a text has one hash value.
use ymsl.Base.{ℕ, ◌≡◌, Bool, true, ◌↔◌}

pub record ShString (S : Type 0) : Type 0 where
  pub equal : S → S → Bool
  pub equal_iff : (a b : S) → (equal a b ≡ true) ↔ (a ≡ b)
  pub hash : S → ℕ
