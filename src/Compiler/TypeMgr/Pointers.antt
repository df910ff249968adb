-- ===== src/Compiler/TypeMgr/Pointers.antt =====
-- Comparing types by pointer, over any sequence of requests to one type manager
-- (src/compiler/TypeMgr.cc).
use mathlib.Core.Logic.{◌↔◌}
use ymsl.Base.{ℕ, ◌≡◌, sym, ap, ◌∙◌, subst, true, some, List, [], ◌∷◌, get_elem?}
use ymsl.Base.Int.{ℤ}
use ymsl.Compiler.Types.{TypeDef, array_type, set_type, map_type, func_type, enum_type}
use ymsl.Compiler.TypeMgr.{
  TypeMgr, get_array_type, get_set_type, get_map_type, get_function_type, new_enum_type,
}
use ymsl.Compiler.TypeMgr.Valid.{is_hashed, IsValid}
use ymsl.Compiler.TypeMgr.Intern.{
  Interned, reg_type-IsValid, reg_type-kept, get_array_type-Interned, get_set_type-Interned,
  get_map_type-Interned, get_function_type-Interned,
}

-- A request to the manager.
pub data Request (S : Type 0) : Type 0 where
  want_array want_set : ℕ → Request S
  want_map : ℕ → ℕ → Request S
  want_function : ℕ → List ℕ → Request S
  want_enum : S → List (S × ℤ) → Request S

module _ {S : Type 0} where
  abbrev pub wanted : Request S → TypeDef S
  wanted (want_array e) = array_type e
  wanted (want_set e) = set_type e
  wanted (want_map k e) = map_type k e
  wanted (want_function o i) = func_type o i
  wanted (want_enum n l) = enum_type n l

  unfoldable pub run : Request S → TypeMgr S → ℕ × TypeMgr S
  run (want_array e) m = get_array_type m e
  run (want_set e) m = get_set_type m e
  run (want_map k e) m = get_map_type m k e
  run (want_function o i) m = get_function_type m o i
  run (want_enum n l) m = new_enum_type m n l

  unfoldable pub run_all : List (Request S) → TypeMgr S → TypeMgr S
  run_all [] m = m
  run_all (c ∷ cs) m = run_all cs (run c m).1

  -- In a valid manager, a request for an array, set, map or function type has as its result an
  -- object of this type, the only one of the new manager, which is valid again and keeps every
  -- object that was there.
  pub run-Interned :
      (c : Request S) (m : TypeMgr S)
      → IsValid m
      → is_hashed (wanted c) ≡ true
      → Interned m (wanted c) (run c m)
  unfolding run
  run-Interned (want_array e) m v h = get_array_type-Interned m v e
  run-Interned (want_set e) m v h = get_set_type-Interned m v e
  run-Interned (want_map k e) m v h = get_map_type-Interned m v k e
  run-Interned (want_function o i) m v h = get_function_type-Interned m v o i
  run-Interned (want_enum n l) m v h = cc

  -- What every request keeps.
  record Keeps (m n : TypeMgr S) : Type 0 where
    valid : IsValid n
    kept : (i : ℕ) (e : TypeDef S) → get_elem? m.types i ≡ some e → get_elem? n.types i ≡ some e

  run-Keeps : (c : Request S) (m : TypeMgr S) → IsValid m → Keeps m (run c m).1
  unfolding run new_enum_type
  run-Keeps (want_array e) m v =
      let r = get_array_type-Interned m v e in record { valid = r.valid; kept = r.kept }
  run-Keeps (want_set e) m v =
      let r = get_set_type-Interned m v e in record { valid = r.valid; kept = r.kept }
  run-Keeps (want_map k e) m v =
      let r = get_map_type-Interned m v k e in record { valid = r.valid; kept = r.kept }
  run-Keeps (want_function o i) m v =
      let r = get_function_type-Interned m v o i in record { valid = r.valid; kept = r.kept }
  run-Keeps (want_enum n l) m v = record {
    valid = reg_type-IsValid m (enum_type n l) v (λ i p q. cc);
    kept = reg_type-kept m (enum_type n l) v;
  }

  run_all-Keeps : (cs : List (Request S)) (m : TypeMgr S) → IsValid m → Keeps m (run_all cs m)
  unfolding run_all
  run_all-Keeps [] m v = record { valid = v; kept = λ i e p. p }
  run_all-Keeps (c ∷ cs) m v =
      let a = run-Keeps c m v in
      let b = run_all-Keeps cs (run c m).1 a.valid in
      record { valid = b.valid; kept = λ i e p. b.kept i e (a.kept i e p) }

  -- Of two requests for array, set, map or function types, with any requests between them, the
  -- results are the same pointer exactly when the types are the same.
  pub run-pointers :
      (m : TypeMgr S) (c d : Request S) (cs : List (Request S))
      → IsValid m
      → is_hashed (wanted c) ≡ true
      → is_hashed (wanted d) ≡ true
      → ((run d (run_all cs (run c m).1)).0 ≡ (run c m).0) ↔ (wanted d ≡ wanted c)
  run-pointers m c d cs v hc hd =
      let a = run-Interned c m v hc in
      let k = run_all-Keeps cs (run c m).1 a.valid in
      let b = run-Interned d (run_all cs (run c m).1) k.valid hd in
      let first = k.kept (run c m).0 (wanted c) a.named in
      (
        (λ p. some_eq (
            sym (
              subst (λ i. get_elem? (run d (run_all cs (run c m).1)).1.types i ≡ some (wanted d)) p
                b.named)
            ∙ b.kept _ _ first)),
        (λ p. ap (λ r. r.0) (b.found (run c m).0 (rw p first))),
      )
    where
      some_eq : {x y : TypeDef S} → some x ≡ some y → x ≡ y
      some_eq e = cc
