-- ===== src/Vsm/Exec/Straight/Step.antt =====
-- One instruction of straight-line code, read back and executed (src/vsm/Vsm.cc).
use mathlib.Core.List.{append_assoc, append-nil}
use ymsl.Base.{
  ℕ, ◌+◌, ◌<◌, ◌≡◌, refl, sym, ap, ◌∙◌, true, arith, some, List, [], ◌∷◌, ◌++◌, length,
  length-append, Outcome, ok, ◌>>=◌,
}
use ymsl.Base.Int.{ℤ, InRange, to_word}
use ymsl.Vsm.CodeList.{Builder, write_two, VsmCodeList, new_code_list, read_opcode, read_int}
use ymsl.Vsm.CodeList.RoundTrip.{of_word-to_word, word_at-middle, read_two-write_two}
use ymsl.Vsm.Opcode.{VsmOpcode, decode}
use ymsl.Vsm.Value.{VsmValue, Platform}
use ymsl.Vsm.Effect.{apply, effect}
use ymsl.Vsm.Machine.{State, VsmFunction, machine}
use ymsl.Vsm.Exec.{exec, step}
use ymsl.Vsm.Exec.Straight.{
  is_stack_op, Instr, push_int, push_float, plain, IsPlain, write_instr, write_instrs, instr_effect,
}

module _ {F P : Type 0} (pf : Platform F P) where
  opcode_at :
      (b rest : List ℕ) (w : ℕ)
      → read_opcode (new_code_list ((b ++ w ∷ []) ++ rest)) (length b)
        ≡ ok (w, length (b ++ w ∷ []))
  unfolding read_opcode
  opcode_at b rest w =
      let next : length b + 1 ≡ length (b ++ w ∷ []) = omega (arith, length-append b (w ∷ [])) in
      rw (word_at-middle b rest w, next)

  int_at :
      (b rest : List ℕ) (n : ℤ)
      → InRange n
      → read_int (new_code_list ((b ++ to_word n ∷ []) ++ rest)) (length b)
        ≡ ok (n, length (b ++ to_word n ∷ []))
  unfolding read_int
  int_at b rest n h =
      let next : length b + 1 ≡ length (b ++ to_word n ∷ []) =
        omega (arith, length-append b (to_word n ∷ [])) in
      rw (word_at-middle b rest (to_word n), of_word-to_word n h, next)

  decode_1 : decode 1 ≡ some VsmOpcode.push_int_imm
  unfolding decode
  decode_1 = refl

  decode_2 : decode 2 ≡ some VsmOpcode.push_float_imm
  unfolding decode
  decode_2 = refl

  -- The words that an instruction takes.
  pub written :
      (b : Builder) (i : Instr F) → (w : ℕ) × (ws : List ℕ) × (write_instr pf b i ≡ b ++ w ∷ ws)
  unfolding write_instr write_two
  written b (push_int n) = (1, to_word n ∷ [], append_assoc b (1 ∷ []) (to_word n ∷ []))
  written b (push_float x) =
      let first = pf.float_words.first x in
      let second = pf.float_words.second x in
      (
        2,
        first ∷ second ∷ [],
        append_assoc (b ++ 2 ∷ []) (first ∷ []) (second ∷ [])
            ∙ append_assoc b (2 ∷ []) (first ∷ second ∷ []),
      )
  written b (plain w) = (w, [], refl)

  pub length-write_instr : (b : Builder) (i : Instr F) → length b < length (write_instr pf b i)
  length-write_instr b i =
      let (w, ws, e) = written b i in rw e (omega (arith, length-append b (w ∷ ws)))

  pub written_all :
      (b : Builder) (is : List (Instr F)) → (ws : List ℕ) × (write_instrs pf b is ≡ b ++ ws)
  unfolding write_instrs
  written_all b [] = ([], sym (append-nil b))
  written_all b (i ∷ is) =
      let (w, v, e) = written b i in
      let (ws, f) = written_all (write_instr pf b i) is in
      ((w ∷ v) ++ ws, f ∙ ap (λ c. c ++ ws) e ∙ append_assoc b (w ∷ v) ws)

  module _
      (law : (x : F) → pf.float_words.value (pf.float_words.first x) (pf.float_words.second x) ≡ x)
      (funcs : List (VsmFunction (VsmValue F P))) (base : ℕ) where
    exec-stack_op :
        (call : VsmFunction (VsmValue F P)
          → ℕ
          → State (VsmValue F P)
          → Outcome (State (VsmValue F P)))
        (code : VsmCodeList) (number : ℕ) (op : VsmOpcode) (s : State (VsmValue F P)) (pc : ℕ)
        → is_stack_op op ≡ true
        → exec pf code base funcs call number op s pc
          ≡ (apply machine (effect pf op) s >>= λ t. ok (t, pc))
    unfolding exec
    exec-stack_op call code number VsmOpcode.push_int_imm s pc h = cc
    exec-stack_op call code number VsmOpcode.push_float_imm s pc h = cc
    exec-stack_op call code number VsmOpcode.load_global_int s pc h = cc
    exec-stack_op call code number VsmOpcode.load_global_float s pc h = cc
    exec-stack_op call code number VsmOpcode.load_global_obj s pc h = cc
    exec-stack_op call code number VsmOpcode.load_local_int s pc h = cc
    exec-stack_op call code number VsmOpcode.load_local_float s pc h = cc
    exec-stack_op call code number VsmOpcode.load_local_obj s pc h = cc
    exec-stack_op call code number VsmOpcode.store_global_int s pc h = cc
    exec-stack_op call code number VsmOpcode.store_global_float s pc h = cc
    exec-stack_op call code number VsmOpcode.store_global_obj s pc h = cc
    exec-stack_op call code number VsmOpcode.store_local_int s pc h = cc
    exec-stack_op call code number VsmOpcode.store_local_float s pc h = cc
    exec-stack_op call code number VsmOpcode.store_local_obj s pc h = cc
    exec-stack_op call code number VsmOpcode.jump s pc h = cc
    exec-stack_op call code number VsmOpcode.jump_r s pc h = cc
    exec-stack_op call code number VsmOpcode.branch_true s pc h = cc
    exec-stack_op call code number VsmOpcode.branch_false s pc h = cc
    exec-stack_op call code number VsmOpcode.call s pc h = cc
    exec-stack_op call code number VsmOpcode.call_r s pc h = cc
    exec-stack_op call code number _ s pc h = refl

    step-decode :
        (call : VsmFunction (VsmValue F P)
          → ℕ
          → State (VsmValue F P)
          → Outcome (State (VsmValue F P)))
        (code : VsmCodeList) (s : State (VsmValue F P)) (pc w next : ℕ) (op : VsmOpcode)
        → read_opcode code pc ≡ ok (w, next)
        → decode w ≡ some op
        → step pf code base funcs call s pc ≡ exec pf code base funcs call w op s next
    unfolding step
    step-decode call code s pc w next op e f = rw (e, f) refl

    pub step-write_instr :
        (call : VsmFunction (VsmValue F P)
          → ℕ
          → State (VsmValue F P)
          → Outcome (State (VsmValue F P)))
        (b : Builder) (i : Instr F) (rest : List ℕ) (s : State (VsmValue F P))
        → IsPlain i
        → step pf (new_code_list (write_instr pf b i ++ rest)) base funcs call s (length b)
          ≡ (apply machine (instr_effect pf i) s >>= λ t. ok (t, length (write_instr pf b i)))
    unfolding write_instr write_two instr_effect apply exec decode
    step-write_instr call b (push_int n) rest s h =
        let c = b ++ 1 ∷ [] in
        let at : read_opcode (new_code_list ((c ++ to_word n ∷ []) ++ rest)) (length b)
            ≡ ok (1, length c) =
          ap (λ l. read_opcode (new_code_list l) (length b)) (append_assoc c (to_word n ∷ []) rest)
          ∙ opcode_at b (to_word n ∷ rest) 1 in
        step-decode call _ s _ 1 _ _ at decode_1 ∙ rw (int_at c rest n h) refl
    step-write_instr call b (push_float x) rest s h =
        let c = b ++ 2 ∷ [] in
        let first = pf.float_words.first x in
        let second = pf.float_words.second x in
        let at : read_opcode (new_code_list (write_two pf.float_words c x ++ rest)) (length b)
            ≡ ok (2, length c) =
          ap (λ l. read_opcode (new_code_list l) (length b))
            (append_assoc (c ++ first ∷ []) (second ∷ []) rest
              ∙ append_assoc c (first ∷ []) (second ∷ rest))
          ∙ opcode_at b (first ∷ second ∷ rest) 2 in
        step-decode call _ s _ 2 _ _ at decode_2
        ∙ rw (read_two-write_two pf.float_words c rest x (law x)) refl
    step-write_instr call b (plain w) rest s (op, e, k) =
        step-decode call _ s _ w _ op (opcode_at b rest w) e
        ∙ exec-stack_op call (new_code_list ((b ++ w ∷ []) ++ rest)) w op s (length (b ++ w ∷ [])) k
        ∙ rw (e, apply) refl
