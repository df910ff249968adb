-- ===== src/Compiler/TypeMgr/Intern.antt =====
-- What the operations that hand out types promise (TypeMgr::array_type, set_type, map_type,
-- function_type, enum_type, init of src/compiler/TypeMgr.cc): one object for one type, so that the
-- rest of the compiler may compare types by their pointers.
use ymsl.Base.{
  In, ℕ, ◌≡◌, refl, sym, ap, ◌∙◌, ◌⊎◌, inl, inr, Bool, true, false, Option, none, some, List, [],
  ◌∷◌, arith, Option-cases, length, get_elem?, get_or, get_elem?-lt, get_elem?-append_left,
  get_elem?-append_length, get_elem?-snoc,
}
use ymsl.Base.Chained.{find_in, find_in-some, find_in-none}
use ymsl.Compiler.Types.{TypeDef, prim_type, array_type, set_type, map_type, func_type, enum_type}
use ymsl.Compiler.TypeMgr.{
  TypeMgr, hash_type, same_inputs, is_array, is_set, is_map, is_func, find_or_reg, reg_type,
  get_array_type, get_set_type, get_map_type, get_function_type,
}
use ymsl.Compiler.TypeMgr.Valid.{is_hashed, IsValid, hash_id-some, reg_type-Stores, types-reg_type}

module _ {S : Type 0} where
  -- What a call that asks the manager `m` for the type `d` returns.
  pub record Interned (m : TypeMgr S) (d : TypeDef S) (r : ℕ × TypeMgr S) : Type 0 where
    pub valid : IsValid r.1
    pub named : get_elem? r.1.types r.0 ≡ some d
    pub kept :
        (i : ℕ) (e : TypeDef S) → get_elem? m.types i ≡ some e → get_elem? r.1.types i ≡ some e
    pub found : (i : ℕ) → get_elem? m.types i ≡ some d → r ≡ (i, m)

  module _ (m : TypeMgr S) (d : TypeDef S) (v : IsValid m) where
    pub reg_type-IsValid :
        ((i : ℕ) → get_elem? m.types i ≡ some d → is_hashed d ≡ true → ⊥) → IsValid (reg_type m d).1
    reg_type-IsValid fresh = record {
      stores = reg_type-Stores m d v.stores;
      once = λ i j e hi hj h.
          once' i j e (get_elem?-snoc m.types d i (rw types-reg_type at hi))
            (get_elem?-snoc m.types d j (rw types-reg_type at hj)) h;
    }
      where
        once' :
            (i j : ℕ) (e : TypeDef S)
            → ((i ≡ length m.types) × (d ≡ e)) ⊎ (get_elem? m.types i ≡ some e)
            → ((j ≡ length m.types) × (d ≡ e)) ⊎ (get_elem? m.types j ≡ some e)
            → is_hashed e ≡ true
            → i ≡ j
        once' i j e (inl (p, q)) (inl (p', q')) h = p ∙ sym p'
        once' i j e (inl (p, q)) (inr g) h = absurd (fresh j (g ∙ ap some (sym q)) (rw q h))
        once' i j e (inr g) (inl (p, q)) h = absurd (fresh i (g ∙ ap some (sym q)) (rw q h))
        once' i j e (inr g) (inr g') h = v.once i j e g g' h

    reg_type-id : (reg_type m d).0 ≡ length m.types
    unfolding reg_type
    reg_type-id = refl

    pub reg_type-named : get_elem? (reg_type m d).1.types (reg_type m d).0 ≡ some d
    reg_type-named = rw (reg_type-id, types-reg_type) (get_elem?-append_length m.types d)

    pub reg_type-kept :
        (i : ℕ) (e : TypeDef S)
        → get_elem? m.types i ≡ some e
        → get_elem? (reg_type m d).1.types i ≡ some e
    reg_type-kept i e h =
        rw types-reg_type (get_elem?-append_left m.types (d ∷ []) i (get_elem?-lt m.types i h) ∙ h)

    -- The search of a chain finds the type that it is for, wherever it is registered.
    find_or_reg-Interned :
        (h : ℕ) (test : Option (TypeDef S) → Bool)
        → is_hashed d ≡ true
        → h ≡ hash_type m.hash_size d
        → ((o : Option (TypeDef S)) → test o ≡ true → o ≡ some d)
        → test (some d) ≡ true
        → Interned m d (find_or_reg m h test d)
    unfolding find_or_reg
    find_or_reg-Interned h test k e sound complete =
        elim (Option-cases
          (find_in (λ id. test (get_elem? m.types id)) (get_or m.hash_table h []))) [
            | inl q ↦ rw (q, find_or_reg) (registered (absent q))
            | inr (id, q) ↦
                rw (q, find_or_reg)
                  (hit id (
                    sound _
                      (find_in-some (λ x. test (get_elem? m.types x)) (get_or m.hash_table h [])
                        q).1))
          ]
      where
        hit : (id : ℕ) → get_elem? m.types id ≡ some d → Interned m d (id, m)
        hit id g = record {
          valid = v;
          named = g;
          kept = λ i e' p. p;
          found = λ i p. ap (λ j. (j, m)) (v.once id i d g p k);
        }

        absent :
            find_in (λ id. test (get_elem? m.types id)) (get_or m.hash_table h []) ≡ none
            → (i : ℕ) → get_elem? m.types i ≡ some d
            → ⊥
        absent q i g =
            let place : In i (get_or m.hash_table h []) =
              rw (e, ← hash_id-some m.types m.hash_size i g) (v.stores.holds.present i (d, g, k)) in
            let miss : test (some d) ≡ false = rw (← g) (find_in-none _ _ q i place) in cc

        registered : ((i : ℕ) → get_elem? m.types i ≡ some d → ⊥) → Interned m d (reg_type m d)
        registered no_one = record {
          valid = reg_type-IsValid (λ i p _. no_one i p);
          named = reg_type-named;
          kept = reg_type-kept;
          found = λ i p. absurd (no_one i p);
        }

same_inputs→eq : (ts us : List ℕ) → same_inputs ts us ≡ true → ts ≡ us
unfolding same_inputs
same_inputs→eq [] [] h = refl
same_inputs→eq [] (u ∷ us) h = cc
same_inputs→eq (t ∷ ts) [] h = cc
same_inputs→eq (t ∷ ts) (u ∷ us) h = ground (arith, same_inputs→eq ts us)

same_inputs_refl : (ts : List ℕ) → same_inputs ts ts ≡ true
unfolding same_inputs
same_inputs_refl [] = refl
same_inputs_refl (t ∷ ts) = ground (arith, same_inputs_refl ts)

module _ {S : Type 0} where
  is_array-eq : (e : ℕ) (o : Option (TypeDef S)) → is_array e o ≡ true → o ≡ some (array_type e)
  unfolding is_array
  is_array-eq e o h = ground arith

  is_set-eq : (e : ℕ) (o : Option (TypeDef S)) → is_set e o ≡ true → o ≡ some (set_type e)
  unfolding is_set
  is_set-eq e o h = ground arith

  is_map-eq : (k e : ℕ) (o : Option (TypeDef S)) → is_map k e o ≡ true → o ≡ some (map_type k e)
  unfolding is_map
  is_map-eq k e o h = ground arith

  is_func-eq :
      (r : ℕ) (i : List ℕ) (o : Option (TypeDef S))
      → is_func r i o ≡ true
      → o ≡ some (func_type r i)
  unfolding is_func
  is_func-eq r i none h = cc
  is_func-eq r i (some (func_type r' i')) h = ground (arith, same_inputs→eq i' i)
  is_func-eq r i (some (array_type e)) h = cc
  is_func-eq r i (some (set_type e)) h = cc
  is_func-eq r i (some (map_type k e)) h = cc
  is_func-eq r i (some (prim_type t)) h = cc
  is_func-eq r i (some (enum_type s l)) h = cc

  module _ (m : TypeMgr S) (v : IsValid m) where
    -- The array type of an element type: the manager stays valid, the result is that type, all
    -- earlier objects stay, and where the type exists already it is handed out again, with no change.
    pub get_array_type-Interned : (e : ℕ) → Interned m (array_type e) (get_array_type m e)
    unfolding get_array_type
    get_array_type-Interned e =
        find_or_reg-Interned m (array_type e) v _ (is_array e) refl (unfold hash_type in refl)
          (is_array-eq e) (unfold is_array in ground arith)

    -- The set type of an element type: the manager stays valid, the result
    -- is that type, all earlier objects stay, and where the type exists already it is handed out again,
    -- with no change.
    pub get_set_type-Interned : (e : ℕ) → Interned m (set_type e) (get_set_type m e)
    unfolding get_set_type
    get_set_type-Interned e =
        find_or_reg-Interned m (set_type e) v _ (is_set e) refl (unfold hash_type in refl)
          (is_set-eq e) (unfold is_set in ground arith)

    -- The map type of a key type and an element type: the manager stays valid, the result
    -- is that type, all earlier objects stay, and where the type exists already it is handed out again,
    -- with no change.
    pub get_map_type-Interned : (k e : ℕ) → Interned m (map_type k e) (get_map_type m k e)
    unfolding get_map_type
    get_map_type-Interned k e =
        find_or_reg-Interned m (map_type k e) v _ (is_map k e) refl (unfold hash_type in refl)
          (is_map-eq k e) (unfold is_map in ground arith)

    -- The function type of an output type and a list of input types: the manager stays valid, the result
    -- is that type, all earlier objects stay, and where the type exists already it is handed out again,
    -- with no change.
    pub get_function_type-Interned :
        (o : ℕ) (i : List ℕ) → Interned m (func_type o i) (get_function_type m o i)
    unfolding get_function_type
    get_function_type-Interned o i =
        find_or_reg-Interned m (func_type o i) v _ (is_func o i) refl (unfold hash_type in refl)
          (is_func-eq o i) (unfold is_func in ground (arith, same_inputs_refl i))
