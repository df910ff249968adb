-- ===== src/Vsm/Exec/Control.antt =====
-- The instructions that leave the row (the branches, return and halt of Vsm::execute in
-- src/vsm/Vsm.cc).
use ymsl.Base.{
  ℕ, zero, suc, ◌<◌, ◌≡◌, refl, ◌∙◌, Bool, true, false, ◌==◌, arith, some, List, ltb, lt→ltb, inl,
  inr, ◌⊎◌, if◌then◌else◌, Outcome, ok, fault, no_fuel,
}
use ymsl.Base.Int.{ℤ, pos}
use ymsl.Vsm.CodeList.{VsmCodeList, read_opcode, read_int}
use ymsl.Vsm.Opcode.{VsmOpcode, opcodes, decode}
use ymsl.Vsm.Value.{VsmValue, int_value, Platform}
use ymsl.Vsm.Effect.{apply, effect}
use ymsl.Vsm.Machine.{State, VsmFunction, pop}
use ymsl.Vsm.Exec.{jump_to, branch, exec, step, call_with, execute}

-- The branch on a true condition, and the one on a false condition.
abbrev pub branch_on : Bool → VsmOpcode
branch_on true = VsmOpcode.branch_true
branch_on false = VsmOpcode.branch_false

branch_nonzero : (taken : Bool) (w : ℕ) → decode w ≡ some (branch_on taken) → (w == 0) ≡ false
unfolding decode opcodes
branch_nonzero true zero d = cc
branch_nonzero false zero d = cc
branch_nonzero taken (suc w) d = ground arith

decode_jump : decode 72 ≡ some VsmOpcode.jump
unfolding decode opcodes
decode_jump = refl

module _ {F P : Type 0} (pf : Platform F P) (funcs : List (VsmFunction (VsmValue F P))) (base : ℕ)
    (code : VsmCodeList) where
  module _
      (call : VsmFunction (VsmValue F P)
        → ℕ
        → State (VsmValue F P)
        → Outcome (State (VsmValue F P))) where
    step-decode :
        (s : State (VsmValue F P)) (pc w next : ℕ) (op : VsmOpcode)
        → read_opcode code pc ≡ ok (w, next)
        → decode w ≡ some op
        → step pf code base funcs call s pc ≡ exec pf code base funcs call w op s next
    unfolding step
    step-decode s pc w next op e f = rw (e, f) refl

    step-pass :
        (s : State (VsmValue F P)) (pc w next : ℕ)
        → ((decode w ≡ some VsmOpcode.return) ⊎ (decode w ≡ some VsmOpcode.halt))
        → read_opcode code pc ≡ ok (w, next)
        → step pf code base funcs call s pc ≡ ok (s, next)
    unfolding exec apply effect
    step-pass s pc w next (inl d) e = step-decode s pc w next VsmOpcode.return e d
    step-pass s pc w next (inr d) e = step-decode s pc w next VsmOpcode.halt e d

    step-jump :
        (s : State (VsmValue F P)) (pc next addr after : ℕ)
        → read_opcode code pc ≡ ok (72, next)
        → read_int code next ≡ ok (pos addr, after)
        → step pf code base funcs call s pc ≡ ok (s, addr)
    unfolding exec jump_to
    step-jump s pc next addr after e f =
        step-decode s pc 72 next VsmOpcode.jump e decode_jump ∙ rw f refl

    branch-test :
        (test : Bool) (s t : State (VsmValue F P)) (pc addr after : ℕ) (cond : ℤ)
        → read_int code pc ≡ ok (pos addr, after)
        → pop s ≡ ok (int_value cond, t)
        → branch pf code base test s pc ≡ ok (t, if test then addr else after)
    unfolding branch jump_to
    branch-test true s t pc addr after cond e f = rw (e, f) refl
    branch-test false s t pc addr after cond e f = rw (e, f) refl

    -- A branch on a true condition always goes to its address, and a branch on a false condition
    -- always goes on behind itself, whatever int is popped as the condition: the code tests the
    -- number of the instruction. The address is not negative, and there is an int to pop.
    pub step-branch :
        (taken : Bool) (w next addr after pc : ℕ) (cond : ℤ) (s t : State (VsmValue F P))
        → decode w ≡ some (branch_on taken)
        → read_opcode code pc ≡ ok (w, next)
        → read_int code next ≡ ok (pos addr, after)
        → pop s ≡ ok (int_value cond, t)
        → step pf code base funcs call s pc ≡ ok (t, if taken then addr else after)
    unfolding exec
    step-branch true w next addr after pc cond s t d e f g =
        step-decode s pc w next VsmOpcode.branch_true e d
        ∙ rw (branch_nonzero true w d) (branch-test true s t next addr after cond f g)
    step-branch false w next addr after pc cond s t d e f g =
        step-decode s pc w next VsmOpcode.branch_false e d
        ∙ rw (branch_nonzero false w d) (branch-test false s t next addr after cond f g)

  out_of_fuel :
      (pc : ℕ) (s : State (VsmValue F P)) → execute pf funcs zero code base pc s ≡ fault no_fuel
  unfolding execute
  out_of_fuel pc s = refl

  execute-step :
      (fuel pc next : ℕ) (s t : State (VsmValue F P))
      → pc < code.size
      → ((call : VsmFunction (VsmValue F P)
            → ℕ
            → State (VsmValue F P)
            → Outcome (State (VsmValue F P)))
          → step pf code base funcs call s pc ≡ ok (t, next))
      → execute pf funcs (suc fuel) code base pc s ≡ execute pf funcs fuel code base next t
  unfolding execute
  execute-step fuel pc next s t h e =
      let inside : ltb pc code.size ≡ true = lt→ltb _ _ h in
      rw (inside, e (call_with pf funcs (λ c b p u. execute pf funcs fuel c b p u))) refl

  -- The loop goes on behind a return or a halt: in front of a jump back to it, neither ends the
  -- execution, however much fuel there is.
  pub execute-no_end :
      (fuel pc w next j after : ℕ) (s : State (VsmValue F P))
      → ((decode w ≡ some VsmOpcode.return) ⊎ (decode w ≡ some VsmOpcode.halt))
      → read_opcode code pc ≡ ok (w, next)
      → read_opcode code next ≡ ok (72, j)
      → read_int code j ≡ ok (pos pc, after)
      → pc < code.size
      → next < code.size
      → execute pf funcs fuel code base pc s ≡ fault no_fuel
  execute-no_end fuel pc w next j after s op e f g h k = loop fuel
    where
      loop : (n : ℕ) → execute pf funcs n code base pc s ≡ fault no_fuel
      loop zero = out_of_fuel pc s
      loop (suc zero) =
          execute-step zero pc next s s h (λ call. step-pass call s pc w next op e)
          ∙ out_of_fuel next s
      loop (suc (suc n)) =
          execute-step (suc n) pc next s s h (λ call. step-pass call s pc w next op e)
          ∙ execute-step n next pc s s k (λ call. step-jump call s next j pc after f g)
          ∙ loop n
