-- ===== src/Vsm/Exec.antt =====
-- Vsm::execute (src/vsm/Vsm.cc), instruction by instruction. The loop runs on fuel, one for each
-- instruction; a call runs its function on what is left. A jump to a negative address is undefined,
-- since the loop goes on to read the code there.
pub mod Straight
pub mod Control
use ymsl.Base.{
  ℕ, zero, suc, ◌+◌, Bool, true, false, not, ◌==◌, Option, none, some, List, [], ◌∷◌, ltb,
  if◌then◌else◌, length, get_elem?, Outcome, ok, fault, undefined, not_reached, no_fuel, ◌>>=◌,
}
use ymsl.Base.Int.{ℤ, pos, negsuc}
use ymsl.Base.Int32
use ymsl.Vsm.CodeList.{VsmCodeList, read_opcode, read_int, read_two}
use ymsl.Vsm.Opcode.{VsmOpcode, decode}
use ymsl.Vsm.Value.{VsmValue, int_value, float_value, obj_value, as_int, as_float, as_obj, Platform}
use ymsl.Vsm.Effect.{apply, effect}
use ymsl.Vsm.Machine.{
  State, VsmFunction, native_func, builtin_func, read_stack, write_stack, load_global, store_global,
  push, pop, machine, execute_builtin,
}

module _ {F P : Type 0} where
  -- The value at hand, if it is of the kind that the instruction is for.
  abbrev pub of_int_kind : VsmValue F P → Outcome (VsmValue F P)
  of_int_kind v = do n ← as_int v; ok (int_value n)

  abbrev pub of_float_kind : VsmValue F P → Outcome (VsmValue F P)
  of_float_kind v = do x ← as_float v; ok (float_value x)

  abbrev pub of_obj_kind : VsmValue F P → Outcome (VsmValue F P)
  of_obj_kind v = do p ← as_obj v; ok (obj_value p)

-- A jump to an address.
unfoldable pub jump_to : {S : Type 0} → ℤ → S → Outcome (S × ℕ)
jump_to (pos addr) s = ok (s, addr)
jump_to (negsuc addr) s = fault undefined

-- The entry of `mFuncTable`, whose bounds are asserted.
unfoldable pub func_at : {A : Type 0} → List A → ℤ → Outcome A
func_at table (pos i) = elim (get_elem? table i) [ none ↦ fault not_reached | some f ↦ ok f ]
func_at table (negsuc i) = fault not_reached

module _ {F P : Type 0} (pf : Platform F P) (code : VsmCodeList) (base : ℕ) where
  -- The instructions that read an index from the code.
  unfoldable pub load :
      (VsmValue F P → Outcome (VsmValue F P))
      → (ℤ → Outcome (VsmValue F P))
      → State (VsmValue F P)
      → ℕ
      → Outcome (State (VsmValue F P) × ℕ)
  unfolding read_int push
  load kind get s pc = do
    (i, next) ← read_int code pc
    v ← get i
    w ← kind v
    t ← push w s
    ok (t, next)

  unfoldable pub store :
      (VsmValue F P → Outcome (VsmValue F P))
      → (State (VsmValue F P) → ℤ → VsmValue F P → Outcome (State (VsmValue F P)))
      → State (VsmValue F P)
      → ℕ
      → Outcome (State (VsmValue F P) × ℕ)
  unfolding read_int pop
  store kind put s pc = do
    (i, next) ← read_int code pc
    (v, t) ← pop s
    w ← kind v
    u ← put t i w
    ok (u, next)

  -- `base + index`
  abbrev local_get : State (VsmValue F P) → ℤ → Outcome (VsmValue F P)
  local_get s i = do a ← Int32.add (pos base) i; read_stack s a

  abbrev local_put : State (VsmValue F P) → ℤ → VsmValue F P → Outcome (State (VsmValue F P))
  local_put s i v = do a ← Int32.add (pos base) i; write_stack s a v

  -- VSM_BRANCH_TRUE and VSM_BRANCH_FALSE: the condition is popped, and the test is of the number of
  -- the instruction.
  unfoldable pub branch : Bool → State (VsmValue F P) → ℕ → Outcome (State (VsmValue F P) × ℕ)
  unfolding read_int pop jump_to
  branch test s pc = do
    (addr, next) ← read_int code pc
    (v, t) ← pop s
    cond ← as_int v
    if test then jump_to addr t else ok (t, next)

  module _ (funcs : List (VsmFunction (VsmValue F P)))
      (call : VsmFunction (VsmValue F P)
        → ℕ
        → State (VsmValue F P)
        → Outcome (State (VsmValue F P))) where
    -- The case of the `switch` for an instruction, whose number is `number`; `pc` is behind it.
    unfoldable pub exec :
        ℕ → VsmOpcode → State (VsmValue F P) → ℕ → Outcome (State (VsmValue F P) × ℕ)
    unfolding read_int read_two push pop load store load_global store_global read_stack write_stack
        branch jump_to func_at apply effect Int32.add
    exec number VsmOpcode.push_int_imm s pc = do
      (n, next) ← read_int code pc
      t ← push (int_value n) s
      ok (t, next)
    exec number VsmOpcode.push_float_imm s pc = do
      (x, next) ← read_two pf.float_words code pc
      t ← push (float_value x) s
      ok (t, next)
    exec number VsmOpcode.load_global_int s pc = load of_int_kind (load_global s) s pc
    exec number VsmOpcode.load_global_float s pc = load of_float_kind (load_global s) s pc
    exec number VsmOpcode.load_global_obj s pc = load of_obj_kind (load_global s) s pc
    exec number VsmOpcode.load_local_int s pc = load of_int_kind (local_get s) s pc
    exec number VsmOpcode.load_local_float s pc = load of_float_kind (local_get s) s pc
    exec number VsmOpcode.load_local_obj s pc = load of_obj_kind (local_get s) s pc
    exec number VsmOpcode.store_global_int s pc = store of_int_kind store_global s pc
    exec number VsmOpcode.store_global_float s pc = store of_float_kind store_global s pc
    exec number VsmOpcode.store_global_obj s pc = store of_obj_kind store_global s pc
    exec number VsmOpcode.store_local_int s pc = store of_int_kind local_put s pc
    exec number VsmOpcode.store_local_float s pc = store of_float_kind local_put s pc
    exec number VsmOpcode.store_local_obj s pc = store of_obj_kind local_put s pc
    exec number VsmOpcode.jump s pc = do (addr, next) ← read_int code pc; jump_to addr s
    exec number VsmOpcode.jump_r s pc = do (v, t) ← pop s; addr ← as_int v; jump_to addr t
    exec number VsmOpcode.branch_true s pc = branch (not (number == 0)) s pc
    exec number VsmOpcode.branch_false s pc = branch (number == 0) s pc
    exec number VsmOpcode.call s pc = do
      (i, next) ← read_int code pc
      f ← func_at funcs i
      t ← call f s.sp s
      ok (t, next)
    exec number VsmOpcode.call_r s pc = do
      (v, t) ← pop s
      i ← as_int v
      f ← func_at funcs i
      u ← call f t.sp t
      ok (u, pc)
    exec number op s pc = do t ← apply machine (effect pf op) s; ok (t, pc)

    -- One turn of the loop. A number that is no instruction has no case.
    unfoldable pub step : State (VsmValue F P) → ℕ → Outcome (State (VsmValue F P) × ℕ)
    unfolding read_opcode decode exec
    step s pc = do
      (number, next) ← read_opcode code pc
      elim (decode number) [ none ↦ ok (s, next) | some op ↦ exec number op s next ]

module _ {F P : Type 0} (pf : Platform F P) (funcs : List (VsmFunction (VsmValue F P))) where
  -- The virtual `execute` of a function; `run` executes code.
  unfoldable pub call_with :
      (VsmCodeList → ℕ → ℕ → State (VsmValue F P) → Outcome (State (VsmValue F P)))
      → VsmFunction (VsmValue F P)
      → ℕ
      → State (VsmValue F P)
      → Outcome (State (VsmValue F P))
  unfolding execute_builtin
  call_with run (native_func code) base s = run code base 0 s
  call_with run (builtin_func n body) base s = execute_builtin n body base s

  -- The loop from the address `pc` on.
  unfoldable pub execute :
      ℕ → VsmCodeList → ℕ → ℕ → State (VsmValue F P) → Outcome (State (VsmValue F P))
  unfolding step call_with
  execute zero code base pc s = fault no_fuel
  execute (suc fuel) code base pc s =
      let rest = λ (r : State (VsmValue F P) × ℕ). execute fuel code base r.1 r.0 in
      let call = call_with (λ c b p t. execute fuel c b p t) in
      if ltb pc code.size then step pf code base funcs call s pc >>= rest else ok s
