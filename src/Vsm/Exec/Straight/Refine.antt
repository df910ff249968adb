-- ===== src/Vsm/Exec/Straight/Refine.antt =====
-- Straight-line code against what its instructions are to do to a stack (Vsm::execute of
-- src/vsm/Vsm.cc).
use ymsl.Base.{
  ℕ, zero, suc, ◌<◌, ◌≡◌, refl, ap, ◌∙◌, true, false, arith, List, [], ◌∷◌, length, length-append,
  ltb, lt→ltb, Outcome, ok, fault, ◌>>=◌,
}
use ymsl.Vsm.CodeList.{Builder, new_code_list}
use ymsl.Vsm.Value.{VsmValue, Platform}
use ymsl.Vsm.Effect.{apply}
use ymsl.Vsm.Machine.{State, VsmFunction, machine}
use ymsl.Vsm.Machine.Refine.{Represents, list_stack, Pushed, Agree-bind, apply-Agree}
use ymsl.Vsm.Exec.{step, call_with, execute}
use ymsl.Vsm.Exec.Straight.{Instr, ArePlain, write_instr, write_instrs, instr_effect, apply_all}
use ymsl.Vsm.Exec.Straight.Step.{length-write_instr, written_all, step-write_instr}

bind_assoc :
    {A B C : Type 0} (x : Outcome A) (f : A → Outcome B) (g : B → Outcome C)
    → ((x >>= f) >>= g) ≡ (x >>= λ a. f a >>= g)
bind_assoc (ok a) f g = refl
bind_assoc (fault e) f g = refl

bind_cong :
    {A B : Type 0} (x : Outcome A) (f g : A → Outcome B)
    → ((a : A) → f a ≡ g a)
    → (x >>= f) ≡ (x >>= g)
bind_cong (ok a) f g h = h a
bind_cong (fault e) f g h = refl

ltb_refl : (n : ℕ) → ltb n n ≡ false
ltb_refl n = ground arith

module _ {F P : Type 0} (pf : Platform F P) where
  module _
      (law : (x : F) → pf.float_words.value (pf.float_words.first x) (pf.float_words.second x) ≡ x)
      (funcs : List (VsmFunction (VsmValue F P))) (base : ℕ) where
    -- Code that the builder writes behind any code for a row of instructions, which push constants
    -- or work on the stack only, is executed from there as these instructions in their order, and
    -- the loop ends behind the last of them, if there is fuel for more steps than instructions; it
    -- fails where one of them fails. The integers are of 32 bits, and the two words of a
    -- floating-point number are this number again.
    pub execute-write_instrs :
        (is : List (Instr F)) (b : Builder) (fuel : ℕ) (s : State (VsmValue F P))
        → ArePlain is
        → length is < fuel
        → execute pf funcs fuel (new_code_list (write_instrs pf b is)) base (length b) s
          ≡ apply_all pf machine is s
    unfolding execute write_instrs new_code_list apply_all
    execute-write_instrs is b zero s h le = absurd (omega arith)
    execute-write_instrs [] b (suc fuel) s h le = rw (ltb_refl (length b)) refl
    execute-write_instrs (i ∷ is) b (suc fuel) s h le =
        let (ws, f) = written_all pf (write_instr pf b i) is in
        let inside : ltb (length b) (length (write_instrs pf (write_instr pf b i) is)) ≡ true =
          lt→ltb _ _ (
            rw f
              (omega (arith, length-write_instr pf b i, length-append (write_instr pf b i) ws))) in
        let rest = λ (r : State (VsmValue F P) × ℕ).
          execute pf funcs fuel (new_code_list (write_instrs pf (write_instr pf b i) is)) base r.1
            r.0 in
        let call = call_with pf funcs (λ c b p t. execute pf funcs fuel c b p t) in
        let first : step pf (new_code_list (write_instrs pf (write_instr pf b i) is)) base funcs
              call s (length b)
            ≡ (apply machine (instr_effect pf i) s >>= λ t. ok (t, length (write_instr pf b i))) =
          ap (λ c. step pf (new_code_list c) base funcs call s (length b)) f
          ∙ step-write_instr pf law funcs base call b i ws s h.0 in
        rw inside (
          ap (λ r. r >>= rest) first
          ∙ bind_assoc (apply machine (instr_effect pf i) s) _ rest
          ∙ bind_cong (apply machine (instr_effect pf i) s) _ _
              (λ t. execute-write_instrs is (write_instr pf b i) fuel t h.1 (omega (arith, le))))

    apply_all-Agree :
        (cap : ℕ) (heap : List (VsmValue F P)) (is : List (Instr F)) (s : State (VsmValue F P))
        (l : List (VsmValue F P))
        → Represents cap heap s l
        → Pushed cap heap (apply_all pf machine is s) (apply_all pf (list_stack cap) is l)
    unfolding apply_all
    apply_all-Agree cap heap [] s l r = r
    apply_all-Agree cap heap (i ∷ is) s l r =
        Agree-bind (Represents cap heap) (Represents cap heap) _ _ _ _
          (apply-Agree cap heap (instr_effect pf i) s l r)
          (λ t m q. apply_all-Agree cap heap is t m q)

    -- The code that the builder writes for a row of instructions, which push constants or work on
    -- the stack only, does from its start what these instructions do in their order to a list of
    -- values that is bounded by the size of the array: it ends with the same values on the stack and
    -- with the global variables as they were, or fails where the list does. The integers are of 32
    -- bits, the two words of a floating-point number are this number again, and there is fuel for
    -- more steps than instructions.
    pub execute-Agree :
        (cap : ℕ) (heap : List (VsmValue F P)) (is : List (Instr F)) (fuel : ℕ)
        (s : State (VsmValue F P)) (l : List (VsmValue F P))
        → ArePlain is
        → length is < fuel
        → Represents cap heap s l
        → Pushed cap heap
            (execute pf funcs fuel (new_code_list (write_instrs pf [] is)) base 0 s)
            (apply_all pf (list_stack cap) is l)
    execute-Agree cap heap is fuel s l h le r =
        rw (execute-write_instrs is [] fuel s h le) (apply_all-Agree cap heap is s l r)
