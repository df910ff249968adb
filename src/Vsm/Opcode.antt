-- ===== src/Vsm/Opcode.antt =====
-- The instructions of the stack machine and their numbers (VsmOpcode of include/Vsm.h).
use ymsl.Base.{ℕ, Option, List, [], ◌∷◌, get_elem?}

pub data VsmOpcode : Type 0 where
  nop : VsmOpcode
  push_int_imm push_float_imm push_float_zero push_float_one push_obj_null : VsmOpcode
  load_global_int load_global_float load_global_obj : VsmOpcode
  load_local_int load_local_float load_local_obj : VsmOpcode
  store_global_int store_global_float store_global_obj : VsmOpcode
  store_local_int store_local_float store_local_obj : VsmOpcode
  int_minus int_inc int_dec int_not int_to_bool int_to_float : VsmOpcode
  int_add int_sub int_mul int_div int_mod int_lshift int_rshift int_eq int_ne int_lt int_le int_and
        int_or int_xor :
      VsmOpcode
  int_ite : VsmOpcode
  float_minus float_to_bool float_to_int : VsmOpcode
  float_add float_sub float_mul float_div float_eq float_ne float_lt float_le : VsmOpcode
  float_ite : VsmOpcode
  obj_minus obj_inc obj_dec obj_not obj_to_int obj_to_float : VsmOpcode
  obj_add obj_sub obj_mul obj_div obj_mod obj_lshift obj_rshift obj_eq obj_ne obj_lt obj_le obj_and
        obj_or obj_xor :
      VsmOpcode
  obj_ite : VsmOpcode
  jump jump_r branch_true branch_false : VsmOpcode
  call call_r return : VsmOpcode
  halt : VsmOpcode

-- All instructions, in the order of their numbers.
unfoldable pub opcodes : List VsmOpcode
opcodes =
    nop ∷ push_int_imm ∷ push_float_imm ∷ push_float_zero ∷ push_float_one ∷ push_obj_null
    ∷ load_global_int ∷ load_global_float ∷ load_global_obj ∷ load_local_int ∷ load_local_float
    ∷ load_local_obj ∷ store_global_int ∷ store_global_float ∷ store_global_obj ∷ store_local_int
    ∷ store_local_float ∷ store_local_obj ∷ int_minus ∷ int_inc ∷ int_dec ∷ int_not ∷ int_to_bool
    ∷ int_to_float ∷ int_add ∷ int_sub ∷ int_mul ∷ int_div ∷ int_mod ∷ int_lshift ∷ int_rshift
    ∷ int_eq ∷ int_ne ∷ int_lt ∷ int_le ∷ int_and ∷ int_or ∷ int_xor ∷ int_ite ∷ float_minus
    ∷ float_to_bool ∷ float_to_int ∷ float_add ∷ float_sub ∷ float_mul ∷ float_div ∷ float_eq
    ∷ float_ne ∷ float_lt ∷ float_le ∷ float_ite ∷ obj_minus ∷ obj_inc ∷ obj_dec ∷ obj_not
    ∷ obj_to_int ∷ obj_to_float ∷ obj_add ∷ obj_sub ∷ obj_mul ∷ obj_div ∷ obj_mod ∷ obj_lshift
    ∷ obj_rshift ∷ obj_eq ∷ obj_ne ∷ obj_lt ∷ obj_le ∷ obj_and ∷ obj_or ∷ obj_xor ∷ obj_ite ∷ jump
    ∷ jump_r ∷ branch_true ∷ branch_false ∷ call ∷ call_r ∷ return ∷ halt ∷ []

-- The instruction with a number, as the `switch` of execute() finds it.
unfoldable pub decode : ℕ → Option VsmOpcode
unfolding opcodes
decode n = get_elem? opcodes n
