-- ===== src/Ir/Elab/Ends/Scopes.antt =====
-- The scopes of the state (Scope::add of src/compiler/Scope.cc, IrMgr::new_scope and
-- IrMgr::check_name of src/ir): their pointers, which lead to older scopes.
use ymsl.Base.{
  ap, ◌*◌, leb, Bool-cases, undefined, ℕ, zero, suc, ◌≡◌, refl, sym, subst, arith, Option, none,
  some, Option-cases, inl, inr, ◌⊎◌, List, [], ◌∷◌, get_elem?, get_elem?-lt, set, Outcome, ok,
  fault,
}
use ymsl.Compiler.ShString.{ShString}
use ymsl.Compiler.Scope.{Scope, grow, put_handle, add, links, new_scope}
use ymsl.Compiler.Scope.Loops.{alloc_table-move_all}
use ymsl.Compiler.Scope.Resolve.{Older, AreLinked, new_scope-AreLinked}
use ymsl.Ir.Ast.{AstExpr, AstType, simple_type, array_of, set_of, map_of, name_of_type}
use ymsl.Compiler.Types.{TypeId}
use ymsl.Ir.Code.{Handle, handle_name}
use ymsl.Ir.Elab.{Elab, scope_at, add_to_scope, push_scope, check_name}
use ymsl.Ir.Elab.Decl.{or_return, or_null, if_free, elab_in, primary_in, resolve_type}
use ymsl.Ir.Elab.Ends.{
  Ends, returned, stopped, halted, at_undefined, at_not_reached, Ends-then, if-Ends,
}
use ymsl.Ir.Elab.Ends.Exprs.{elab_expr-Halts, elab_primary-Halts}

get_elem?-set :
    {A : Type 0} (xs : List A) (i : ℕ) (v : A) (j : ℕ) {t : A}
    → get_elem? (set xs i v) j ≡ some t
    → (get_elem? xs j ≡ some t) ⊎ ((j ≡ i) × (v ≡ t))
get_elem?-set [] i v j e = inl e
get_elem?-set (x ∷ xs) zero v zero e = inr (refl, cc)
get_elem?-set (x ∷ xs) zero v (suc j) e = inl e
get_elem?-set (x ∷ xs) (suc i) v zero e = inl e
get_elem?-set (x ∷ xs) (suc i) v (suc j) e = elim (get_elem?-set xs i v j e) [
  | inl q ↦ inl q
  | inr (p, q) ↦ inr (omega (arith, p), q)
]

module _ {S H : Type 0} ⦃str : ShString S⦄ (name : H → S) where
  add-parent_scope : (s : Scope S H) (h : H) → (add name s h).parent_scope ≡ s.parent_scope
  unfolding add grow put_handle
  add-parent_scope s h = elim (Bool-cases (leb s.next_limit s.hash_num)) [
    | inl e ↦
        rw e
          (ap (λ (u : Scope S H). u.parent_scope) (alloc_table-move_all name s (s.hash_size * 2)))
    | inr e ↦ rw e refl
  ]

  add-global_scope : (s : Scope S H) (h : H) → (add name s h).global_scope ≡ s.global_scope
  unfolding add grow put_handle
  add-global_scope s h = elim (Bool-cases (leb s.next_limit s.hash_num)) [
    | inl e ↦
        rw e
          (ap (λ (u : Scope S H). u.global_scope) (alloc_table-move_all name s (s.hash_size * 2)))
    | inr e ↦ rw e refl
  ]

  set-AreLinked :
      (scopes : List (Scope S H)) (id : ℕ) (s : Scope S H) (h : H)
      → AreLinked scopes
      → get_elem? scopes id ≡ some s
      → AreLinked (set scopes id (add name s h))
  set-AreLinked scopes id s h linked e j t q = elim (get_elem?-set scopes id (add name s h) j q) [
    | inl old ↦ linked j t old
    | inr (p, same) ↦
        let (a, b) = linked id s e in
        let at_j : Older j s.parent_scope × Older j s.global_scope =
          subst (λ k. Older k s.parent_scope × Older k s.global_scope) (sym p) (a, b) in
        subst (λ (u : Scope S H). Older j u.parent_scope × Older j u.global_scope) same
          (
            subst (Older j) (sym (add-parent_scope s h)) at_j.0,
            subst (Older j) (sym (add-global_scope s h)) at_j.1,
          )
  ]

  new_scope-Ends :
      (scopes : List (Scope S H))
      → AreLinked scopes
      → (parent : Option ℕ) (n : S) → Ends (λ r. AreLinked r.1) (new_scope name scopes parent n)
  unfolding new_scope
  new_scope-Ends scopes l none n =
      let (p, g, k, e, a) = new_scope-AreLinked name scopes l n none tt in rw e (returned a)
  new_scope-Ends scopes l (some q) n = elim (Option-cases (get_elem? scopes q)) [
    | inl e ↦ rw (e, new_scope, links) at_undefined
    | inr (s, e) ↦
        let lt = get_elem?-lt scopes q e in
        let (p, g, k, made, a) = new_scope-AreLinked name scopes l n (some q) lt in
        rw made (returned a)
  ]

module _ {S F : Type 0} where
  abbrev pub IsLinked : Elab S F → Type 0
  IsLinked st = AreLinked st.scopes

  abbrev pub IsLinkedWith : {A : Type 0} → A × Elab S F → Type 0
  IsLinkedWith r = AreLinked r.1.scopes

  pub or_return-Ends :
      {A : Type 0} (x : Outcome (Option A × Elab S F)) (f : A → Elab S F → Outcome (Elab S F))
      → Ends IsLinkedWith x
      → ((a : A) (st : Elab S F) → IsLinked st → Ends IsLinked (f a st))
      → Ends IsLinked (or_return x f)
  or_return-Ends (ok (none, st)) f (returned l) k = returned l
  or_return-Ends (ok (some a, st)) f (returned l) k = k a st l
  or_return-Ends (fault e) f (stopped n) k = stopped n

  pub or_null-Ends :
      {A B : Type 0} (x : Outcome (Option A × Elab S F))
      (f : A → Elab S F → Outcome (Option B × Elab S F))
      → Ends IsLinkedWith x
      → ((a : A) (st : Elab S F) → IsLinked st → Ends IsLinkedWith (f a st))
      → Ends IsLinkedWith (or_null x f)
  or_null-Ends (ok (none, st)) f (returned l) k = returned l
  or_null-Ends (ok (some a, st)) f (returned l) k = k a st l
  or_null-Ends (fault e) f (stopped n) k = stopped n

  module _ ⦃str : ShString S⦄ (no_name : S) where
    pub scope_at-Ends :
        (st : Elab S F) (id : ℕ)
        → Ends (λ s. get_elem? st.scopes id ≡ some s) (scope_at no_name st id)
    unfolding scope_at
    scope_at-Ends st id = found (get_elem? st.scopes id) refl
      where
        found :
            (o : Option (Scope S (Handle S F)))
            → get_elem? st.scopes id ≡ o
            → Ends
                (λ s. get_elem? st.scopes id ≡ some s)
                (elim o [ none ↦ fault undefined | some s ↦ ok s ])
        found none e = at_undefined
        found (some s) e = returned e

    pub add_to_scope-Ends :
        (id : ℕ) (h : Handle S F) (st : Elab S F)
        → IsLinked st
        → Ends IsLinked (add_to_scope no_name id h st)
    unfolding add_to_scope
    add_to_scope-Ends id h st l =
        Ends-then _ _ (scope_at-Ends st id)
          (λ s e. returned (set-AreLinked (handle_name no_name) st.scopes id s h l e))

    pub push_scope-Ends :
        (parent : Option ℕ) (n : S) (st : Elab S F)
        → IsLinked st
        → Ends IsLinkedWith (push_scope no_name parent n st)
    unfolding push_scope
    push_scope-Ends parent n st l =
        Ends-then _ _ (new_scope-Ends (handle_name no_name) st.scopes l parent n)
          (λ r linked. returned linked)

    pub if_free-Ends :
        (name : S) (scope : ℕ) (st : Elab S F) (next : Outcome (Elab S F))
        → IsLinked st
        → Ends IsLinked next
        → Ends IsLinked (if_free no_name name scope st next)
    unfolding check_name
    if_free-Ends name scope st next l k =
        Ends-then (check_name no_name name scope st) _
          (Ends-then _ _ (scope_at-Ends st scope) (λ s _. halted _))
          (λ free _. if-Ends free next (ok st) k (returned l))

    pub elab_in-Ends :
        (scope : ℕ) (e : AstExpr S F) (st : Elab S F)
        → IsLinked st
        → Ends IsLinkedWith (elab_in no_name scope e st)
    unfolding elab_in
    elab_in-Ends scope e st l =
        Ends-then _ _ (elab_expr-Halts no_name st.scopes l st.types scope e st.func_calls)
          (λ r _. returned l)

    pub primary_in-Ends :
        (scope : ℕ) (e : AstExpr S F) (st : Elab S F)
        → IsLinked st
        → Ends IsLinkedWith (primary_in no_name scope e st)
    unfolding primary_in
    primary_in-Ends scope e st l =
        Ends-then _ _ (elab_primary-Halts no_name st.scopes l st.types scope e st.func_calls)
          (λ r _. returned l)

    pub resolve_type-Ends :
        (scope : ℕ) (a : AstType S F) (st : Elab S F)
        → IsLinked st
        → Ends IsLinkedWith (resolve_type no_name scope a st)
    unfolding resolve_type
    resolve_type-Ends scope (simple_type TypeId.void) st l = returned l
    resolve_type-Ends scope (simple_type TypeId.boolean) st l = returned l
    resolve_type-Ends scope (simple_type TypeId.int) st l = returned l
    resolve_type-Ends scope (simple_type TypeId.float) st l = returned l
    resolve_type-Ends scope (simple_type TypeId.string) st l = returned l
    resolve_type-Ends scope (simple_type _) st l = at_not_reached
    resolve_type-Ends scope (array_of a) st l =
        or_null-Ends _ _ (resolve_type-Ends scope a st l) (λ e st1 l1. returned l1)
    resolve_type-Ends scope (set_of a) st l =
        or_null-Ends _ _ (resolve_type-Ends scope a st l) (λ e st1 l1. returned l1)
    resolve_type-Ends scope (map_of k a) st l =
        or_null-Ends _ _ (resolve_type-Ends scope k st l) (λ key st1 l1.
          or_null-Ends _ _ (resolve_type-Ends scope a st1 l1) (λ e st2 l2. returned l2))
    resolve_type-Ends scope (name_of_type e) st l =
        Ends-then _ _ (primary_in-Ends scope e st l) (λ r l1. returned l1)
