-- ===== src/OpCode.antt =====
-- The operator codes that the syntax tree and the intermediate code share (include/OpCode.h).

pub data OpCode : Type 0 where
  cast_boolean cast_int cast_float bit_neg log_not uni_minus : OpCode
  inc dec : OpCode
  bit_and bit_or bit_xor log_and log_or add sub mul div mod_op lshift rshift : OpCode
  equal not_eq lt le : OpCode
  ite : OpCode
