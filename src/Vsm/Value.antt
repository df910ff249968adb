-- ===== src/Vsm/Value.antt =====
-- The values of the stack machine (include/VsmValue.h), a union. To read another member than the one
-- that was written last is undefined.
use ymsl.Base.{Outcome, ok, fault, undefined}
use ymsl.Base.Int.{ℤ}
use ymsl.Ir.Interp.{FloatOps}
use ymsl.Vsm.CodeList.{TwoWords}

pub data VsmValue (F P : Type 0) : Type 0 where
  int_value : ℤ → VsmValue F P
  float_value : F → VsmValue F P
  obj_value : P → VsmValue F P

module _ {F P : Type 0} where
  abbrev pub as_int : VsmValue F P → Outcome ℤ
  as_int (int_value n) = ok n
  as_int _ = fault undefined

  abbrev pub as_float : VsmValue F P → Outcome F
  as_float (float_value x) = ok x
  as_float _ = fault undefined

  abbrev pub as_obj : VsmValue F P → Outcome P
  as_obj (obj_value p) = ok p
  as_obj _ = fault undefined

-- What the code takes from the machine it runs on: the arithmetic of `double`, its conversion to
-- `int`, which is undefined outside the range, its two words in a code list, and NULL.
pub record Platform (F P : Type 0) : Type 0 where
  pub floats : FloatOps F
  pub to_int : F → Outcome ℤ
  pub float_words : TwoWords F
  pub null : P
