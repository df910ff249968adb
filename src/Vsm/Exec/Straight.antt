-- ===== src/Vsm/Exec/Straight.antt =====
-- Straight-line code, written by the builder and executed (VsmCodeList::Builder and Vsm::execute of
-- src/vsm).
pub mod Step
pub mod Refine
use mathlib.Core.List.{append_assoc, append-nil}
use ymsl.Base.{
  ℕ, zero, suc, ◌+◌, ◌<◌, ◌≤◌, ◌≡◌, refl, sym, ap, ◌∙◌, Bool, true, false, arith, Option, none,
  some, List, [], ◌∷◌, ◌++◌, length, length-append, ltb, lt→ltb, Bool-cases, Option-cases, inl, inr,
  if◌then◌else◌, Outcome, ok, fault, ◌>>=◌, get_elem?,
}
use ymsl.Base.Int.{ℤ, InRange, to_word, of_word}
use ymsl.Vsm.CodeList.{
  TwoWords, Builder, write_opcode, write_int, write_two, VsmCodeList, new_code_list, word_at,
  read_opcode, read_int, read_two,
}
use ymsl.Vsm.CodeList.RoundTrip.{of_word-to_word, word_at-middle, read_two-write_two}
use ymsl.Vsm.Opcode.{VsmOpcode, decode, opcodes}
use ymsl.Vsm.Value.{VsmValue, int_value, float_value, Platform}
use ymsl.Vsm.Stack.{StackOf}
use ymsl.Vsm.Effect.{Effect, skip, pushes, apply, effect}
use ymsl.Vsm.Machine.{State, VsmFunction, machine, push}
use ymsl.Vsm.Machine.Refine.{Represents, list_stack, Pushed, Agree-bind, apply-Agree}
use ymsl.Vsm.Exec.{exec, step, call_with, execute}

-- The instructions that work on the operand stack only, by their effect.
abbrev pub is_stack_op : VsmOpcode → Bool
is_stack_op VsmOpcode.push_int_imm = false
is_stack_op VsmOpcode.push_float_imm = false
is_stack_op VsmOpcode.load_global_int = false
is_stack_op VsmOpcode.load_global_float = false
is_stack_op VsmOpcode.load_global_obj = false
is_stack_op VsmOpcode.load_local_int = false
is_stack_op VsmOpcode.load_local_float = false
is_stack_op VsmOpcode.load_local_obj = false
is_stack_op VsmOpcode.store_global_int = false
is_stack_op VsmOpcode.store_global_float = false
is_stack_op VsmOpcode.store_global_obj = false
is_stack_op VsmOpcode.store_local_int = false
is_stack_op VsmOpcode.store_local_float = false
is_stack_op VsmOpcode.store_local_obj = false
is_stack_op VsmOpcode.jump = false
is_stack_op VsmOpcode.jump_r = false
is_stack_op VsmOpcode.branch_true = false
is_stack_op VsmOpcode.branch_false = false
is_stack_op VsmOpcode.call = false
is_stack_op VsmOpcode.call_r = false
is_stack_op _ = true

-- An instruction of straight-line code: a constant, or the number of an instruction.
pub data Instr (F : Type 0) : Type 0 where
  push_int : ℤ → Instr F
  push_float : F → Instr F
  plain : ℕ → Instr F

-- The constants are of 32 bits, and the numbers are those of instructions on the stack.
abbrev pub IsPlain : {F : Type 0} → Instr F → Type 0
IsPlain (push_int n) = InRange n
IsPlain (push_float x) = Unit
IsPlain (plain w) = (op : VsmOpcode) × (decode w ≡ some op) × (is_stack_op op ≡ true)

abbrev pub ArePlain : {F : Type 0} → List (Instr F) → Type 0
ArePlain [] = Unit
ArePlain (i ∷ is) = IsPlain i × ArePlain is

module _ {F P : Type 0} (pf : Platform F P) where
  unfoldable pub write_instr : Builder → Instr F → Builder
  unfolding write_opcode write_int write_two
  write_instr b (push_int n) = write_int (write_opcode b 1) n
  write_instr b (push_float x) = write_two pf.float_words (write_opcode b 2) x
  write_instr b (plain w) = write_opcode b w

  unfoldable pub write_instrs : Builder → List (Instr F) → Builder
  write_instrs b [] = b
  write_instrs b (i ∷ is) = write_instrs (write_instr b i) is

  -- What an instruction is to do to the stack.
  unfoldable pub instr_effect : Instr F → Effect (VsmValue F P)
  instr_effect (push_int n) = pushes (int_value n)
  instr_effect (push_float x) = pushes (float_value x)
  instr_effect (plain w) = elim (decode w) [ none ↦ skip | some op ↦ effect pf op ]

  module _ {S : Type 0} (st : StackOf (VsmValue F P) S) where
    unfoldable pub apply_all : List (Instr F) → S → Outcome S
    apply_all [] s = ok s
    apply_all (i ∷ is) s = apply st (instr_effect i) s >>= λ t. apply_all is t
