-- ===== src/Compiler/Tests.antt =====
-- Concrete type managers and scopes, with numbers for the shared strings.
use mathlib.Core.Logic.{◌↔◌}
use ymsl.Base.{
  true, map, ℕ, zero, suc, ◌+◌, ◌≡◌, refl, subst, ◌⊎◌, false, Option, none, some, List, [], ◌∷◌,
  ◌++◌, arith, ◌==◌, ==_iff, get_elem?, ok,
}
use ymsl.Base.Chained.{move_all}
use ymsl.OpCode.{OpCode}
use ymsl.Compiler.ShString.{ShString}
use ymsl.Compiler.Types.{TypeId, prim_type, array_type}
use ymsl.Compiler.TypeMgr.{TypeMgr, init, new_prim_type, reg_type}
use ymsl.Compiler.TypeMgr.Valid.{IsValid}
use ymsl.Compiler.TypeMgr.Intern.{Interned}
use ymsl.Compiler.TypeMgr.Pointers.{
  Request, want_array, want_set, wanted, run, run_all, run-pointers, run-Interned,
}
use ymsl.Compiler.TypeMgr.Init.{builtins, builtin_ids, init-IsValid}
use ymsl.Compiler.TypeMgr.Calc.{calc2, calc_type1, calc_type2, calc_type3, castable, is_enum_id}
use ymsl.Compiler.TypeMgr.Coercions.{
  HasBuiltins, Castable, calc_type2-Castable, calc_type2-arith, calc_type1-Castable,
}
use ymsl.Compiler.Scope.{Scope, make_scope, add, find_local, find, alloc_table, new_scope}
use ymsl.Compiler.Scope.Table.{IsScope, find_local-add, add-IsScope, make_scope-IsScope}
use ymsl.Compiler.Scope.Loops.{chain_total}
use ymsl.Compiler.Scope.Count.{hash_num-alloc_table}
use ymsl.Compiler.Scope.Resolve.{
  Older, AreLinked, Pointers, Resolves, find-Resolves, new_scope-AreLinked,
}

instance number_string : ShString ℕ
number_string = record { equal = λ a b. a == b; equal_iff = ==_iff; hash = λ a. a }

-- The manager of an empty program.
abbrev mgr : TypeMgr ℕ
mgr = init

mgr-IsValid : IsValid mgr
mgr-IsValid = init-IsValid.0

init-IsValid_example :
    IsValid {S = ℕ} init
    × (map (get_elem? (init {S = ℕ}).types) (builtins (init {S = ℕ}))
        ≡ map (λ t. some (prim_type t)) builtin_ids)
init-IsValid_example = init-IsValid {S = ℕ}

-- An array type asked for again, after a set type.
abbrev ints : Request ℕ
ints = want_array 2

run-Interned_example : Interned mgr (array_type 2) (run ints mgr)
run-Interned_example = run-Interned ints mgr mgr-IsValid refl

run-pointers_example :
    ((run ints (run_all (want_set 2 ∷ []) (run ints mgr).1)).0 ≡ (run ints mgr).0)
    ↔ (wanted ints ≡ wanted ints)
run-pointers_example = run-pointers mgr ints ints (want_set 2 ∷ []) mgr-IsValid refl refl

types-init : (init {S = ℕ}).types ≡ map prim_type builtin_ids
unfolding init reg_type new_prim_type
types-init = refl

of_kind : (k t : TypeId) → is_enum_id k ≡ false → k ≡ t → is_enum_id t ≡ false
of_kind k t n e = subst (λ u. is_enum_id u ≡ false) e n

HasBuiltins-init : HasBuiltins mgr
unfolding init is_enum_id
HasBuiltins-init = record { boolean = refl; int = refl; float = refl; string = refl; prims = prims }
  where
    prims : (i : ℕ) (t : TypeId) → get_elem? mgr.types i ≡ some (prim_type t) → is_enum_id t ≡ false
    prims zero t e = of_kind TypeId.void t refl cc
    prims (suc zero) t e = of_kind TypeId.boolean t refl cc
    prims (suc (suc zero)) t e = cc
    prims (suc (suc (suc zero))) t e = cc
    prims (suc (suc (suc (suc zero)))) t e = cc
    prims (suc (suc (suc (suc (suc i))))) t e = cc

compare_int_float :
    calc_type2 mgr OpCode.lt 2 3 ≡ ok (some (record { type = 1; req1 = 3; req2 = 3 }))
unfolding calc_type2 init
compare_int_float = refl

calc_type2-Castable_example : Castable mgr 2 3 (record { type = 1; req1 = 3; req2 = 3 })
calc_type2-Castable_example =
    calc_type2-Castable mgr HasBuiltins-init OpCode.lt 2 3 refl compare_int_float

calc_type2-arith_example :
    ((a : ℕ)
      → calc_type2 mgr OpCode.add a mgr.float_type
        ≡ calc2 mgr.float_type mgr.float_type mgr.float_type)
    × (calc_type2 mgr OpCode.add mgr.float_type mgr.int_type ≡ ok none)
calc_type2-arith_example = calc_type2-arith mgr HasBuiltins-init OpCode.add refl

minus_int : calc_type1 mgr OpCode.uni_minus 2 ≡ ok (some (record { type = 2; req1 = 2 }))
unfolding calc_type1 init
minus_int = refl

calc_type1-Castable_example : (castable mgr 2 2 ≡ ok true) × ◌≡◌ {A = ℕ} 2 2
calc_type1-Castable_example = calc_type1-Castable mgr HasBuiltins-init OpCode.uni_minus 2 minus_int

choose_string :
    calc_type3 mgr OpCode.ite 3 4 4 ≡ ok (some (record { type = 4; req1 = 1; req2 = 4; req3 = 4 }))
unfolding calc_type3 init
choose_string = refl

-- The handles are their own names.
abbrev self : ℕ → ℕ
self h = h

abbrev empty_scope : Scope ℕ ℕ
empty_scope = make_scope self none none 0

empty_scope-IsScope : IsScope self (λ _. ⊥) empty_scope
empty_scope-IsScope = make_scope-IsScope self none none 0

empty_scope-find_local : find_local self empty_scope 5 ≡ none
unfolding make_scope find_local move_all number_string
empty_scope-find_local = refl

find_local-add_example : find_local self (add self empty_scope 5) 5 ≡ some 5
unfolding number_string
find_local-add_example =
    find_local-add self (λ _. ⊥) empty_scope 5 5 empty_scope-IsScope empty_scope-find_local

add-IsScope_example : IsScope self (λ g. (g ≡ 5) ⊎ ⊥) (add self empty_scope 5)
add-IsScope_example =
    add-IsScope self (λ _. ⊥) empty_scope 5 empty_scope-IsScope empty_scope-find_local

hash_num-alloc_table_example :
    (chain_total (alloc_table self (add self empty_scope 5) 32).hash_table
      ≡ chain_total (add self empty_scope 5).hash_table)
    × ((alloc_table self (add self empty_scope 5) 32).hash_num
        ≡ (add self empty_scope 5).hash_num + chain_total (add self empty_scope 5).hash_table)
hash_num-alloc_table_example = hash_num-alloc_table self (add self empty_scope 5) 32 (omega arith)

-- A global scope with one handle, and a scope below it.
abbrev two_scopes : List (Scope ℕ ℕ)
two_scopes = add self empty_scope 5 ∷ make_scope self none (some 0) 7 ∷ []

linked_if :
    (id : ℕ) (t s : Scope ℕ ℕ)
    → some t ≡ some s
    → Older id t.parent_scope × Older id t.global_scope
    → Older id s.parent_scope × Older id s.global_scope
linked_if id t s e h =
    let same : t ≡ s = cc in
    subst (λ (u : Scope ℕ ℕ). Older id u.parent_scope × Older id u.global_scope) same h

two_scopes-AreLinked : AreLinked two_scopes
unfolding make_scope add
two_scopes-AreLinked zero s e = linked_if 0 _ s e (tt, tt)
two_scopes-AreLinked (suc zero) s e = linked_if 1 _ s e (tt, omega arith)
two_scopes-AreLinked (suc (suc id)) s e = cc

find-Resolves_example : Resolves self 5 two_scopes 1 (find self two_scopes 2 1 5)
find-Resolves_example =
    find-Resolves self 5 two_scopes two_scopes-AreLinked 2 1 (omega arith) (omega arith)

new_scope-AreLinked_example :
    (p g : Option ℕ) × Pointers two_scopes (some 1) p g
    × (new_scope self two_scopes (some 1) 9 ≡ ok (2, two_scopes ++ make_scope self p g 9 ∷ []))
    × AreLinked (two_scopes ++ make_scope self p g 9 ∷ [])
new_scope-AreLinked_example =
    new_scope-AreLinked self two_scopes two_scopes-AreLinked 9 (some 1) (omega arith)
