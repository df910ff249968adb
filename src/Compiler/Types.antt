-- ===== src/Compiler/Types.antt =====
-- The types of the language (include/ymsl_int.h, include/Type.h and the classes of src/compiler).
-- A `Type` object is known by its pointer; the model's pointer is the place of the object in the
-- list of its manager, so a type that has others inside holds their numbers. `S` is ShString.
use ymsl.Base.{ℕ, Bool, true, false, List, ◌==◌}
use ymsl.Base.Int.{ℤ}

pub data TypeId : Type 0 where
  void boolean int float string array set map func named enum class user_def : TypeId

pub data TypeDef (S : Type 0) : Type 0 where
  prim_type : TypeId → TypeDef S
  array_type set_type : ℕ → TypeDef S
  map_type : ℕ → ℕ → TypeDef S
  func_type : ℕ → List ℕ → TypeDef S
  enum_type : S → List (S × ℤ) → TypeDef S

unfoldable pub type_id : {S : Type 0} → TypeDef S → TypeId
type_id (prim_type t) = t
type_id (array_type e) = TypeId.array
type_id (set_type e) = TypeId.set
type_id (map_type k e) = TypeId.map
type_id (func_type o i) = TypeId.func
type_id (enum_type n l) = TypeId.enum

-- PrimType::castable_to: from this kind, to that kind.
unfoldable pub prim_castable : TypeId → TypeId → Bool
prim_castable TypeId.boolean TypeId.boolean = true
prim_castable TypeId.int TypeId.boolean = true
prim_castable TypeId.float TypeId.boolean = true
prim_castable TypeId.boolean TypeId.int = true
prim_castable TypeId.int TypeId.int = true
prim_castable TypeId.int TypeId.float = true
prim_castable TypeId.float TypeId.float = true
prim_castable TypeId.string TypeId.string = true
prim_castable _ _ = false

-- The virtual `castable_to`: of the object `self` with number `a`, to the object `other` with
-- number `b`. All but the primitive types compare the pointers.
unfoldable pub castable_to : {S : Type 0} → ℕ → TypeDef S → ℕ → TypeDef S → Bool
unfolding prim_castable type_id
castable_to a (prim_type t) b other = prim_castable t (type_id other)
castable_to a _ b other = b == a
