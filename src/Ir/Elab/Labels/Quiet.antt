-- ===== src/Ir/Elab/Labels/Quiet.antt =====
-- What makes no label and no jump: expressions, types and declarations (elab_expr, resolve_type,
-- reg_const, reg_enum and the parameters of reg_func in src/ir).
use ymsl.Base.{
  Fault, ℕ, ◌≡◌, refl, subst, Bool, true, false, if◌then◌else◌, Option, none, some, Outcome, ok,
  fault, ◌>>=◌,
}
use ymsl.Compiler.ShString.{ShString}
use ymsl.Compiler.Types.{TypeId}
use ymsl.Ir.Ast.{AstExpr, AstType, simple_type, array_of, set_of, map_of, name_of_type}
use ymsl.Ir.Code.{Handle}
use ymsl.Ir.Elab.{Elab, add_to_scope, push_scope, check_name}
use ymsl.Ir.Elab.Decl.{or_return, or_null, if_free, elab_in, primary_in, resolve_type}
use ymsl.Ir.Elab.Labels.{Trace, trace}

-- A run ends in a state with a property, or fails.
pub data Ensures {A : Type 0} (Q : A → Type 0) : Outcome A → Type 0 where
  done : {a : A} → Q a → Ensures Q (ok a)
  failed : {e : Fault} → Ensures Q (fault e)

pub Ensures-then :
    {A B : Type 0} {R : A → Type 0} {Q : B → Type 0} (x : Outcome A) (f : A → Outcome B)
    → Ensures R x
    → ((a : A) → R a → Ensures Q (f a))
    → Ensures Q (x >>= f)
Ensures-then (ok a) f (done h) k = k a h
Ensures-then (fault e) f h k = failed

pub Ensures-bind :
    {A B : Type 0} {Q : B → Type 0} (x : Outcome A) (f : A → Outcome B)
    → ((a : A) → Ensures Q (f a))
    → Ensures Q (x >>= f)
Ensures-bind (ok a) f k = k a
Ensures-bind (fault e) f k = failed

pub if-Ensures :
    {A : Type 0} {Q : A → Type 0} (b : Bool) (x y : Outcome A)
    → Ensures Q x
    → Ensures Q y
    → Ensures Q (if b then x else y)
if-Ensures true x y h k = h
if-Ensures false x y h k = k

pub option-Ensures :
    {A B : Type 0} {Q : B → Type 0} (o : Option A) (x : Outcome B) (f : A → Outcome B)
    → Ensures Q x
    → ((a : A) → Ensures Q (f a))
    → Ensures Q (elim o [ none ↦ x | some a ↦ f a ])
option-Ensures none x f h k = h
option-Ensures (some a) x f h k = k a

module _ {S F : Type 0} where
  -- The trace is `t` at the end.
  abbrev pub Keeps : Trace → Outcome (Elab S F) → Type 0
  Keeps t = Ensures (λ st. trace st ≡ t)

  abbrev pub KeepsWith : {A : Type 0} → Trace → Outcome (A × Elab S F) → Type 0
  KeepsWith t = Ensures (λ r. trace r.1 ≡ t)

  pub or_return-Ensures :
      {A : Type 0} {t : Trace} {Q : Elab S F → Type 0} (x : Outcome (Option A × Elab S F))
      (f : A → Elab S F → Outcome (Elab S F))
      → KeepsWith t x
      → ((st : Elab S F) → trace st ≡ t → Q st)
      → ((a : A) (st : Elab S F) → trace st ≡ t → Ensures Q (f a st))
      → Ensures Q (or_return x f)
  or_return-Ensures (ok (none, st)) f (done h) q k = done (q st h)
  or_return-Ensures (ok (some a, st)) f (done h) q k = k a st h
  or_return-Ensures (fault e) f h q k = failed

  pub or_null-KeepsWith :
      {A B : Type 0} {t : Trace} (x : Outcome (Option A × Elab S F))
      (f : A → Elab S F → Outcome (Option B × Elab S F))
      → KeepsWith t x
      → ((a : A) (st : Elab S F) → trace st ≡ t → KeepsWith t (f a st))
      → KeepsWith t (or_null x f)
  or_null-KeepsWith (ok (none, st)) f (done h) k = done h
  or_null-KeepsWith (ok (some a, st)) f (done h) k = k a st h
  or_null-KeepsWith (fault e) f h k = failed

  pub KeepsWith-subst :
      {A : Type 0} {t u : Trace} {x : Outcome (A × Elab S F)}
      → t ≡ u
      → KeepsWith t x
      → KeepsWith u x
  KeepsWith-subst {A} {t} {u} {x} p k = subst (λ v. KeepsWith v x) p k

  pub Keeps-subst : {t u : Trace} {x : Outcome (Elab S F)} → t ≡ u → Keeps t x → Keeps u x
  Keeps-subst {t} {u} {x} p k = subst (λ v. Keeps v x) p k

  module _ ⦃str : ShString S⦄ (no_name : S) where
    pub elab_in-KeepsWith :
        (scope : ℕ) (e : AstExpr S F) (st : Elab S F)
        → KeepsWith (trace st) (elab_in no_name scope e st)
    unfolding elab_in
    elab_in-KeepsWith scope e st = Ensures-bind _ _ (λ r. done refl)

    pub primary_in-KeepsWith :
        (scope : ℕ) (e : AstExpr S F) (st : Elab S F)
        → KeepsWith (trace st) (primary_in no_name scope e st)
    unfolding primary_in
    primary_in-KeepsWith scope e st = Ensures-bind _ _ (λ r. done refl)

    pub add_to_scope-Keeps :
        (id : ℕ) (h : Handle S F) (st : Elab S F) → Keeps (trace st) (add_to_scope no_name id h st)
    unfolding add_to_scope
    add_to_scope-Keeps id h st = Ensures-bind _ _ (λ s. done refl)

    pub push_scope-KeepsWith :
        (parent : Option ℕ) (n : S) (st : Elab S F)
        → KeepsWith (trace st) (push_scope no_name parent n st)
    unfolding push_scope
    push_scope-KeepsWith parent n st = Ensures-bind _ _ (λ s. done refl)

    pub if_free-Ensures :
        (Q : Elab S F → Type 0) (name : S) (scope : ℕ) (st : Elab S F) (next : Outcome (Elab S F))
        → Q st
        → Ensures Q next
        → Ensures Q (if_free no_name name scope st next)
    if_free-Ensures Q name scope st next q k =
        Ensures-bind (check_name no_name name scope st) _
          (λ free. if-Ensures free next (ok st) k (done q))

    pub resolve_type-KeepsWith :
        (scope : ℕ) (a : AstType S F) (st : Elab S F)
        → KeepsWith (trace st) (resolve_type no_name scope a st)
    unfolding resolve_type
    resolve_type-KeepsWith scope (simple_type TypeId.void) st = done refl
    resolve_type-KeepsWith scope (simple_type TypeId.boolean) st = done refl
    resolve_type-KeepsWith scope (simple_type TypeId.int) st = done refl
    resolve_type-KeepsWith scope (simple_type TypeId.float) st = done refl
    resolve_type-KeepsWith scope (simple_type TypeId.string) st = done refl
    resolve_type-KeepsWith scope (simple_type _) st = failed
    resolve_type-KeepsWith scope (array_of a) st =
        or_null-KeepsWith _ _ (resolve_type-KeepsWith scope a st) (λ e st1 p. done p)
    resolve_type-KeepsWith scope (set_of a) st =
        or_null-KeepsWith _ _ (resolve_type-KeepsWith scope a st) (λ e st1 p. done p)
    resolve_type-KeepsWith scope (map_of k a) st =
        or_null-KeepsWith _ _ (resolve_type-KeepsWith scope k st) (λ key st1 p.
          or_null-KeepsWith _ _ (KeepsWith-subst p (resolve_type-KeepsWith scope a st1))
            (λ e st2 q. done q))
    resolve_type-KeepsWith scope (name_of_type e) st =
        Ensures-then _ _ (primary_in-KeepsWith scope e st) (λ r p. done p)
