-- ===== src/Vsm/Tests.antt =====
-- Concrete code, with a pair of words for each value of two words.
use ymsl.Base.{
  ℕ, ◌+◌, ◌≡◌, refl, false, ◌==◌, some, List, [], ◌∷◌, arith, length, ltb, leb, replicate, inr,
  Outcome, ok, fault, no_fuel,
}
use ymsl.Base.Int.{pos, negsuc}
use ymsl.Ir.Interp.{FloatOps}
use ymsl.Vsm.CodeList.{TwoWords, Builder, new_code_list}
use ymsl.Vsm.CodeList.RoundTrip.{
  Item, opcode, int, float, objptr, write_all, read_all, read_all-write_all,
}
use ymsl.Vsm.CodeList.{VsmCodeList, read_opcode, read_int}
use ymsl.Vsm.Opcode.{VsmOpcode, decode, opcodes}
use ymsl.Vsm.Value.{VsmValue, int_value, Platform}
use ymsl.Vsm.Effect.{apply, effect}
use ymsl.Vsm.Machine.{State, VsmFunction, machine, pop}
use ymsl.Vsm.Machine.Refine.{Represents, list_stack, Pushed, apply-Agree}
use ymsl.Vsm.Exec.{step, execute}
use ymsl.Vsm.Exec.Straight.{Instr, push_int, push_float, plain, ArePlain, write_instrs, apply_all}
use ymsl.Vsm.Exec.Straight.Refine.{execute-Agree}
use ymsl.Vsm.Module.{
  Call, import_module, export_function, export_var, build, new_builder, new_module, IsArray,
  new_module-IsArray, imported_module, exported_function, exported_variable, add_module,
  add_function, add_exported_var,
}
use ymsl.Vsm.Exec.Control.{step-branch, execute-no_end}

abbrev pair : TwoWords (ℕ × ℕ)
pair = record { first = λ v. v.0; second = λ v. v.1; value = λ a b. (a, b) }

abbrev items : List (Item (ℕ × ℕ) (ℕ × ℕ))
items = opcode 1 ∷ int (negsuc 6) ∷ float (5, 7) ∷ objptr (0, 9) ∷ int (pos 2) ∷ []

abbrev header : Builder
header = 17 ∷ []

read_all-write_all_example :
    read_all pair pair (new_code_list (write_all pair pair header items)) items 1
    ≡ ok (items, length (write_all pair pair header items))
read_all-write_all_example =
    read_all-write_all pair pair (λ v. refl) (λ v. refl) items header
      (omega arith, (omega arith, tt))

-- Numbers of two words, added word by word.
abbrev ops : FloatOps (ℕ × ℕ)
ops = record {
  of_int = λ n. elim n [ pos k ↦ (k, 0) | negsuc k ↦ (k, 1) ];
  neg = λ x. (x.0, 1);
  add = λ x y. (x.0 + y.0, x.1 + y.1);
  sub = λ x y. (x.0, y.1);
  mul = λ x y. (x.1, y.0);
  div = λ x y. x;
  equal = λ x y. x.0 == y.0;
  less = λ x y. ltb x.0 y.0;
  less_equal = λ x y. leb x.0 y.0;
}

abbrev pf : Platform (ℕ × ℕ) ℕ
pf = record { floats = ops; to_int = λ x. ok (pos x.0); float_words = pair; null = 0 }

abbrev Value : Type 0
Value = VsmValue (ℕ × ℕ) ℕ

-- A stack with room for four values.
abbrev room : List Value
room = replicate 4 (int_value (pos 0))

abbrev start : State Value
start = record { local_stack = room; sp = 0; global_heap = [] }

abbrev one_value : State Value
one_value = record { local_stack = room; sp = 1; global_heap = [] }

start-Represents : Represents 4 [] start []
start-Represents = record { holds = tt; size = refl; same_heap = refl }

one_value-Represents : Represents 4 [] one_value (int_value (pos 0) ∷ [])
one_value-Represents = record { holds = (refl, tt); size = refl; same_heap = refl }

apply-Agree_example :
    Pushed 4 []
      (apply machine (effect pf VsmOpcode.int_inc) one_value)
      (apply (list_stack 4) (effect pf VsmOpcode.int_inc) (int_value (pos 0) ∷ []))
apply-Agree_example =
    apply-Agree 4 [] (effect pf VsmOpcode.int_inc) one_value (int_value (pos 0) ∷ [])
      one_value-Represents

-- 7 + 5, below a floating-point number.
abbrev sum : List (Instr (ℕ × ℕ))
sum = push_float (3, 1) ∷ push_int (pos 5) ∷ push_int (pos 7) ∷ plain 24 ∷ []

sum-ArePlain : ArePlain sum
unfolding decode opcodes
sum-ArePlain = (tt, (omega arith, (omega arith, ((VsmOpcode.int_add, refl, refl), tt))))

execute-Agree_example :
    Pushed 4 []
      (execute pf [] 9 (new_code_list (write_instrs pf [] sum)) 0 0 start)
      (apply_all pf (list_stack 4) sum [])
execute-Agree_example =
    execute-Agree pf (λ x. refl) [] 0 4 [] sum 9 start [] sum-ArePlain (omega arith)
      start-Represents

-- A branch on a false condition, with the int 0 on the stack.
abbrev branch_code : VsmCodeList
branch_code = record { size = 2; body = 75 ∷ 9 ∷ [] }

branch_false_number : decode 75 ≡ some VsmOpcode.branch_false
unfolding decode opcodes
branch_false_number = refl

branch_opcode : read_opcode branch_code 0 ≡ ok (75, 1)
unfolding read_opcode
branch_opcode = refl

branch_address : read_int branch_code 1 ≡ ok (pos 9, 2)
unfolding read_int
branch_address = refl

pop_zero : pop one_value ≡ ok (int_value (pos 0), start)
unfolding pop
pop_zero = refl

abbrev ignore : VsmFunction Value → ℕ → State Value → Outcome (State Value)
ignore f base s = ok s

step-branch_example : step pf branch_code 0 [] ignore one_value 0 ≡ ok (start, 2)
step-branch_example =
    step-branch pf [] 0 branch_code ignore false 75 1 9 2 0 (pos 0) one_value start
      branch_false_number branch_opcode branch_address pop_zero

-- HALT, and a jump back to it.
abbrev halt_code : VsmCodeList
halt_code = record { size = 3; body = 79 ∷ 72 ∷ 0 ∷ [] }

halt_number : decode 79 ≡ some VsmOpcode.halt
unfolding decode opcodes
halt_number = refl

halt_opcode : read_opcode halt_code 0 ≡ ok (79, 1)
unfolding read_opcode
halt_opcode = refl

jump_opcode : read_opcode halt_code 1 ≡ ok (72, 2)
unfolding read_opcode
jump_opcode = refl

jump_address : read_int halt_code 2 ≡ ok (pos 0, 3)
unfolding read_int
jump_address = refl

execute-no_end_example : execute pf [] 100 halt_code 0 0 start ≡ fault no_fuel
execute-no_end_example =
    execute-no_end pf [] 0 halt_code 100 0 79 1 2 3 start (inr halt_number) halt_opcode jump_opcode
      jump_address (omega arith) (omega arith)

-- Two functions, 31 and 32, around an import of 5 and a variable 7.
abbrev module_name : ℕ
module_name = 0

abbrev calls : List (Call ℕ ℕ ℕ)
calls = export_function 31 ∷ import_module 5 ∷ export_var 7 ∷ export_function 32 ∷ []

second_function : exported_function (new_module (build calls (new_builder module_name))) 1 ≡ ok 32
unfolding exported_function new_module build new_builder
second_function = refl

new_module-IsArray_example :
    (IsArray (5 ∷ []) (imported_module (new_module (build calls (new_builder module_name))))
      × ((m : ℕ) → (add_module m (build calls (new_builder module_name))).0 ≡ 1))
    × (IsArray
          (31 ∷ 32 ∷ [])
          (exported_function (new_module (build calls (new_builder module_name))))
        × ((f : ℕ) → (add_function f (build calls (new_builder module_name))).0 ≡ 2))
    × (IsArray (7 ∷ []) (exported_variable (new_module (build calls (new_builder module_name))))
        × ((v : ℕ) → (add_exported_var v (build calls (new_builder module_name))).0 ≡ 1))
new_module-IsArray_example = new_module-IsArray module_name calls
