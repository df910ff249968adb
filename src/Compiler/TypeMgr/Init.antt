-- ===== src/Compiler/TypeMgr/Init.antt =====
-- The type manager as its constructor leaves it (TypeMgr::init of src/compiler/TypeMgr.cc).
use ymsl.Base.{ℕ, ◌≡◌, refl, map, List, [], ◌∷◌, some, arith, get_elem?}
use ymsl.Base.Chained.{Holds-iff, empty-Holds, move_all}
use ymsl.Compiler.Types.{TypeId, prim_type}
use ymsl.Compiler.TypeMgr.{TypeMgr, new_prim_type, blank, init}
use ymsl.Compiler.TypeMgr.Valid.{IsValid}
use ymsl.Compiler.TypeMgr.Intern.{reg_type-IsValid}

-- The kinds of the built-in types, in the order of the members.
abbrev pub builtin_ids : List TypeId
builtin_ids = TypeId.void ∷ TypeId.boolean ∷ TypeId.int ∷ TypeId.float ∷ TypeId.string ∷ []

module _ {S : Type 0} where
  blank-IsValid : IsValid {S = S} blank
  unfolding blank move_all
  blank-IsValid = record {
    stores = record {
      pos = omega arith;
      holds = Holds-iff _ (empty-Holds _ 1024) (λ y e. absurd e) (λ y (d, e, h). cc);
    };
    once = λ i j d e f h. cc;
  }

  new_prim_type-IsValid : (m : TypeMgr S) (t : TypeId) → IsValid m → IsValid (new_prim_type m t).1
  unfolding new_prim_type
  new_prim_type-IsValid m t v = reg_type-IsValid m (prim_type t) v (λ i p q. cc)

  -- The members for the built-in types.
  abbrev pub builtins : TypeMgr S → List ℕ
  builtins m = m.void_type ∷ m.boolean_type ∷ m.int_type ∷ m.float_type ∷ m.string_type ∷ []

  abbrev m1 : TypeMgr S
  m1 = (new_prim_type blank TypeId.void).1

  abbrev m2 : TypeMgr S
  m2 = (new_prim_type m1 TypeId.boolean).1

  abbrev m3 : TypeMgr S
  m3 = (new_prim_type m2 TypeId.int).1

  abbrev m4 : TypeMgr S
  m4 = (new_prim_type m3 TypeId.float).1

  abbrev m5 : TypeMgr S
  m5 = (new_prim_type m4 TypeId.string).1

  m5-IsValid : IsValid m5
  m5-IsValid = new_prim_type-IsValid m4 TypeId.string (
      new_prim_type-IsValid m3 TypeId.float (
        new_prim_type-IsValid m2 TypeId.int (
          new_prim_type-IsValid m1 TypeId.boolean
            (new_prim_type-IsValid blank TypeId.void blank-IsValid))))

  -- The constructor leaves a valid manager, whose members for the five built-in types are objects
  -- of these types.
  pub init-IsValid :
      IsValid {S = S} init
      × (map (get_elem? (init {S = S}).types) (builtins init)
          ≡ map (λ t. some (prim_type t)) builtin_ids)
  unfolding init
  init-IsValid = (
    (record {
      stores = record { pos = m5-IsValid.stores.pos; holds = m5-IsValid.stores.holds };
      once = m5-IsValid.once;
    }),
    refl,
  )
