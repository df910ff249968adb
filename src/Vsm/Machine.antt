-- ===== src/Vsm/Machine.antt =====
-- The state of the stack machine and its accesses (the inline functions of include/Vsm.h, and the
-- functions of a module in src/vsm/VsmNativeFunc.cc and VsmBuiltinFunc.cc). The stack and the heap
-- are arrays of a fixed size; an access outside of them is undefined. `sp` is the number of the values
-- on the stack.
pub mod Refine
use ymsl.Base.{
  ℕ, zero, suc, ◌+◌, Option, none, some, List, [], ◌∷◌, ltb, if◌then◌else◌, length, get_elem?, set,
  Outcome, ok, fault, undefined, ◌>>=◌,
}
use ymsl.Base.Int.{ℤ, pos, negsuc}
use ymsl.Vsm.CodeList.{VsmCodeList}
use ymsl.Vsm.Value.{VsmValue}
use ymsl.Vsm.Stack.{StackOf}

pub record State (V : Type 0) : Type 0 where
  pub local_stack : List V
  pub sp : ℕ
  pub global_heap : List V

-- VsmNativeFunc, and VsmBuiltinFunc with its number of arguments and its own `_execute`.
pub data VsmFunction (V : Type 0) : Type 0 where
  native_func : VsmCodeList → VsmFunction V
  builtin_func : ℕ → (List V → V) → VsmFunction V

module _ {V : Type 0} where
  unfoldable pub read_at : List V → ℤ → Outcome V
  read_at xs (pos i) = elim (get_elem? xs i) [ none ↦ fault undefined | some v ↦ ok v ]
  read_at xs (negsuc i) = fault undefined

  unfoldable pub write_at : List V → ℤ → V → Outcome (List V)
  write_at xs (pos i) v = if ltb i (length xs) then ok (set xs i v) else fault undefined
  write_at xs (negsuc i) v = fault undefined

  -- Vsm::read_stack and write_stack, which are also the accesses to local variables.
  unfoldable pub read_stack : State V → ℤ → Outcome V
  unfolding read_at
  read_stack s i = read_at s.local_stack i

  unfoldable pub write_stack : State V → ℤ → V → Outcome (State V)
  unfolding write_at
  write_stack s i v = do xs ← write_at s.local_stack i v; ok (record s { local_stack = xs })

  -- The accesses to global variables.
  unfoldable pub load_global : State V → ℤ → Outcome V
  unfolding read_at
  load_global s i = read_at s.global_heap i

  unfoldable pub store_global : State V → ℤ → V → Outcome (State V)
  unfolding write_at
  store_global s i v = do xs ← write_at s.global_heap i v; ok (record s { global_heap = xs })

  unfoldable pub push : V → State V → Outcome (State V)
  unfolding write_stack
  push v s = do t ← write_stack s (pos s.sp) v; ok (record t { sp = s.sp + 1 })

  -- The value that a pop leaves above the stack stays in the array.
  unfoldable pub pop_to : ℕ → State V → Outcome (V × State V)
  unfolding read_stack
  pop_to zero s = fault undefined
  pop_to (suc n) s = do v ← read_stack s (pos n); ok (v, record s { sp = n })

  unfoldable pub pop : State V → Outcome (V × State V)
  unfolding pop_to
  pop s = pop_to s.sp s

  abbrev pub machine : StackOf V (State V)
  machine = record { push = push; pop = pop }

  -- `arg_list[i] = vsm.read_stack(base + i)` for the `n` arguments from `i` on.
  unfoldable pub read_args : State V → ℕ → ℕ → Outcome (List V)
  unfolding read_stack
  read_args s i zero = ok []
  read_args s i (suc n) = do v ← read_stack s (pos i); vs ← read_args s (i + 1) n; ok (v ∷ vs)

  -- VsmBuiltinFunc::execute
  unfoldable pub execute_builtin : ℕ → (List V → V) → ℕ → State V → Outcome (State V)
  unfolding read_args write_stack
  execute_builtin arg_num body base s = do
    args ← read_args s base arg_num
    write_stack s (pos base) (body args)
