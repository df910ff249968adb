-- ===== src/Ir/Tests.antt =====
-- Concrete expressions of constants, with integers in the place of the floating-point numbers.
use ymsl.Base.{
  ok, ℕ, ◌+◌, ◌≤◌, false, Option, some, none, List, [], ◌∷◌, ◌++◌, length, replicate, ◌≡◌, refl,
  arith, fault, not_reached,
}
use ymsl.Base.Int.{ℤ, pos, ◌+ℤ◌, ◌-ℤ◌, ◌*ℤ◌, eq_ℤ, lt_ℤ, le_ℤ}
use ymsl.OpCode.{OpCode}
use ymsl.Compiler.Types.{TypeId}
use ymsl.Ir.Node.{IrNode, bin_op, load, int_const}
use ymsl.Ir.Interp.{FloatOps, eval_int}
use ymsl.Ir.Enum.Constants.{Numbers, elem_value-Typed}
use ymsl.Ir.Enum.{elem_value, check, next_free, enum_values}
use ymsl.Ir.Enum.Values.{
  AreDistinct, AreValues, count_up, enum_values-AreDistinct, next_free-total, enum_values-implicit,
}
use ymsl.Ir.Interp.Typed.{Typed, int_load, int_op, equality}
use ymsl.Ir.Interp.Operators.{Evaluates}
use ymsl.Ir.Interp.Sound.{eval-Typed}

abbrev ops : FloatOps ℤ
ops = record {
  of_int = λ n. n;
  neg = λ n. pos 0 -ℤ n;
  add = λ m n. m +ℤ n;
  sub = λ m n. m -ℤ n;
  mul = λ m n. m *ℤ n;
  div = λ m n. m;
  equal = eq_ℤ;
  less = lt_ℤ;
  less_equal = le_ℤ;
}

-- 3 << 4 == 48
abbrev shifted : IrNode ℤ
shifted =
    bin_op OpCode.equal TypeId.boolean
      (bin_op OpCode.lshift TypeId.int (load TypeId.int (int_const (pos 3)))
        (load TypeId.int (int_const (pos 4))))
      (load TypeId.int (int_const (pos 48)))

shifted-Typed : Typed TypeId.boolean shifted
shifted-Typed =
    equality refl refl
      (int_op refl (int_load (pos 3) (omega arith)) (int_load (pos 4) (omega arith)))
      (int_load (pos 48) (omega arith))

eval-Typed_example : Evaluates ops TypeId.boolean shifted
eval-Typed_example = eval-Typed ops shifted shifted-Typed

-- An enum type with the constants 1 and two without an expression.
abbrev elems : List (Option (IrNode ℤ))
elems = some (load TypeId.int (int_const (pos 1))) ∷ none ∷ none ∷ []

elems_values : enum_values ops 3 [] (pos 0) elems ≡ ok (some (pos 1 ∷ pos 0 ∷ pos 2 ∷ []))
unfolding enum_values ymsl.Base.Int32.add
elems_values = refl

enum_values-AreDistinct_example :
    (new : List ℤ) × (pos 1 ∷ pos 0 ∷ pos 2 ∷ [] ≡ [] ++ new)
    × AreValues ops elems new
    × AreDistinct (pos 1 ∷ pos 0 ∷ pos 2 ∷ [])
enum_values-AreDistinct_example = enum_values-AreDistinct ops 3 elems [] (pos 0) tt elems_values

next_free-total_example :
    (v : ℕ) × (next_free 3 (pos 1 ∷ pos 0 ∷ []) (pos 0) ≡ ok (pos v))
    × (check (pos 1 ∷ pos 0 ∷ []) (pos v) ≡ false)
    × (0 ≤ v)
    × (v ≤ 0 + 2)
next_free-total_example = next_free-total 3 (pos 1 ∷ pos 0 ∷ []) 0 (omega arith) (omega arith)

enum_values-implicit_example :
    enum_values ops 1 [] (pos 0) (replicate 3 none) ≡ ok (some (count_up 0 3))
enum_values-implicit_example = enum_values-implicit ops 0 3 (omega arith)

-- 6 >> 1
abbrev halved : IrNode ℤ
halved =
    bin_op OpCode.rshift TypeId.int (load TypeId.int (int_const (pos 6)))
      (load TypeId.int (int_const (pos 1)))

elem_value-Typed_example :
    Numbers
      (eval_int ops halved)
      (pos 1 ∷ [])
      (pos 0)
      (elem_value ops 3 (pos 1 ∷ []) (pos 0) (some halved))
elem_value-Typed_example =
    elem_value-Typed ops 3 (pos 1 ∷ []) (pos 0) halved
      (int_op refl (int_load (pos 6) (omega arith)) (int_load (pos 1) (omega arith)))
