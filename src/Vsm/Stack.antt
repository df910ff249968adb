-- ===== src/Vsm/Stack.antt =====
-- The operand stack as the instructions use it: `push_INT`, `pop_INT` and their like (include/Vsm.h),
-- as an interface.
use ymsl.Base.{Outcome}

pub record StackOf (V S : Type 0) : Type 0 where
  pub push : V → S → Outcome S
  pub pop : S → Outcome (V × S)
