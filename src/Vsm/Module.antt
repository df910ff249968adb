-- ===== src/Vsm/Module.antt =====
-- Modules of the stack machine and their builder (include/VsmModule.h, src/vsm/VsmModule.cc). `S` is
-- ShString; `M`, `F` and `V` are the pointers to modules, functions and variables.
use mathlib.Core.List.{append_assoc, append-nil}
use ymsl.Base.{
  ℕ, ◌≤◌, ◌≡◌, sym, subst, ap, ◌∙◌, arith, none, some, List, [], ◌∷◌, ◌++◌, length, get_elem?,
  get_elem?-lt, Outcome, ok, fault, not_reached, undefined, ltb, if◌then◌else◌,
}

-- VsmModule::Builder
pub record Builder (S M F V : Type 0) : Type 0 where
  pub name : S
  pub imported_module_list : List M
  pub exported_function_list : List F
  pub exported_var_list : List V

-- An array of the module has as many places as it has elements; mFuncNum, which is never set, is left
-- out.
pub record VsmModule (S M F V : Type 0) : Type 0 where
  pub module_name : S
  pub imported_module_num : ℕ
  pub module_list : List M
  pub exported_function_num : ℕ
  pub func_table : List F
  pub exported_variable_num : ℕ
  pub var_list : List V

module _ {S M F V : Type 0} where
  unfoldable pub new_builder : S → Builder S M F V
  new_builder n = record {
    name = n;
    imported_module_list = [];
    exported_function_list = [];
    exported_var_list = [];
  }

  unfoldable pub add_module : M → Builder S M F V → ℕ × Builder S M F V
  add_module m b = (
    length b.imported_module_list,
    record b { imported_module_list = b.imported_module_list ++ m ∷ [] },
  )

  unfoldable pub add_function : F → Builder S M F V → ℕ × Builder S M F V
  add_function f b = (
    length b.exported_function_list,
    record b { exported_function_list = b.exported_function_list ++ f ∷ [] },
  )

  unfoldable pub add_exported_var : V → Builder S M F V → ℕ × Builder S M F V
  add_exported_var v b =
      (length b.exported_var_list, record b { exported_var_list = b.exported_var_list ++ v ∷ [] })

  -- The constructor of VsmModule.
  unfoldable pub new_module : Builder S M F V → VsmModule S M F V
  new_module b = record {
    module_name = b.name;
    imported_module_num = length b.imported_module_list;
    module_list = b.imported_module_list;
    exported_function_num = length b.exported_function_list;
    func_table = b.exported_function_list;
    exported_variable_num = length b.exported_var_list;
    var_list = b.exported_var_list;
  }

-- A call of the builder.
pub data Call (M F V : Type 0) : Type 0 where
  import_module : M → Call M F V
  export_function : F → Call M F V
  export_var : V → Call M F V

-- The element of an array of `num` places, behind ASSERT_COND( pos < num ).
unfoldable pub elem_at : {A : Type 0} → ℕ → List A → ℕ → Outcome A
elem_at num xs pos =
    if ltb pos num
    then elim (get_elem? xs pos) [ none ↦ fault undefined | some a ↦ ok a ]
    else fault not_reached

module _ {S M F V : Type 0} where
  unfoldable pub imported_module : VsmModule S M F V → ℕ → Outcome M
  unfolding elem_at
  imported_module m pos = elem_at m.imported_module_num m.module_list pos

  unfoldable pub exported_function : VsmModule S M F V → ℕ → Outcome F
  unfolding elem_at
  exported_function m pos = elem_at m.exported_function_num m.func_table pos

  unfoldable pub exported_variable : VsmModule S M F V → ℕ → Outcome V
  unfolding elem_at
  exported_variable m pos = elem_at m.exported_variable_num m.var_list pos

  -- A row of calls of the builder.
  unfoldable pub build : List (Call M F V) → Builder S M F V → Builder S M F V
  unfolding add_module add_function add_exported_var
  build [] b = b
  build (import_module m ∷ cs) b = build cs (add_module m b).1
  build (export_function f ∷ cs) b = build cs (add_function f b).1
  build (export_var v ∷ cs) b = build cs (add_exported_var v b).1

-- What an access gives: an element below the number, and a failed assertion from there on.
abbrev pub IsArray : {A : Type 0} → List A → (ℕ → Outcome A) → Type 0
IsArray {A} xs access =
    ((pos : ℕ) (a : A) → get_elem? xs pos ≡ some a → access pos ≡ ok a)
    × ((pos : ℕ) → length xs ≤ pos → access pos ≡ fault not_reached)

elem_at-IsArray : {A : Type 0} (xs : List A) → IsArray xs (elem_at (length xs) xs)
unfolding elem_at
elem_at-IsArray xs = (
  (λ pos a e. let lt = get_elem?-lt xs pos e in ground (arith, lt, e)),
  (λ pos le. ground (arith, le)),
)

-- The elements of each kind in the calls, in their order.
abbrev pub modules_of : {M F V : Type 0} → List (Call M F V) → List M
modules_of [] = []
modules_of (import_module m ∷ cs) = m ∷ modules_of cs
modules_of (_ ∷ cs) = modules_of cs

abbrev pub functions_of : {M F V : Type 0} → List (Call M F V) → List F
functions_of [] = []
functions_of (export_function f ∷ cs) = f ∷ functions_of cs
functions_of (_ ∷ cs) = functions_of cs

abbrev pub vars_of : {M F V : Type 0} → List (Call M F V) → List V
vars_of [] = []
vars_of (export_var v ∷ cs) = v ∷ vars_of cs
vars_of (_ ∷ cs) = vars_of cs

module _ {S M F V : Type 0} where
  -- The three lists behind a row of calls.
  abbrev IsBuilt : Builder S M F V → List (Call M F V) → Builder S M F V → Type 0
  IsBuilt b cs d =
      (d.imported_module_list ≡ b.imported_module_list ++ modules_of cs)
      × (d.exported_function_list ≡ b.exported_function_list ++ functions_of cs)
      × (d.exported_var_list ≡ b.exported_var_list ++ vars_of cs)

  build-IsBuilt : (cs : List (Call M F V)) (b : Builder S M F V) → IsBuilt b cs (build cs b)
  unfolding build add_module add_function add_exported_var
  build-IsBuilt [] b = (sym (append-nil _), sym (append-nil _), sym (append-nil _))
  build-IsBuilt (import_module m ∷ cs) b =
      let (p, q, r) = build-IsBuilt cs (add_module m b).1 in
      (p ∙ append_assoc b.imported_module_list (m ∷ []) (modules_of cs), q, r)
  build-IsBuilt (export_function f ∷ cs) b =
      let (p, q, r) = build-IsBuilt cs (add_function f b).1 in
      (p, q ∙ append_assoc b.exported_function_list (f ∷ []) (functions_of cs), r)
  build-IsBuilt (export_var v ∷ cs) b =
      let (p, q, r) = build-IsBuilt cs (add_exported_var v b).1 in
      (p, q, r ∙ append_assoc b.exported_var_list (v ∷ []) (vars_of cs))

  module _ (n : S) (cs : List (Call M F V)) where
    abbrev built : Builder S M F V
    built = build cs (new_builder n)

    -- The module that is made from a builder after a row of calls has the modules, functions and
    -- variables of the calls: an access gives those of its kind in their order, by a position below
    -- their number, and fails the assertion from there on; and the next call of each kind would have
    -- returned the number of those before it, which is the position of its own element.
    pub new_module-IsArray :
        (IsArray (modules_of cs) (imported_module (new_module built))
          × ((m : M) → (add_module m built).0 ≡ length (modules_of cs)))
        × (IsArray (functions_of cs) (exported_function (new_module built))
            × ((f : F) → (add_function f built).0 ≡ length (functions_of cs)))
        × (IsArray (vars_of cs) (exported_variable (new_module built))
            × ((v : V) → (add_exported_var v built).0 ≡ length (vars_of cs)))
    unfolding new_module imported_module exported_function exported_variable new_builder add_module
        add_function add_exported_var
    new_module-IsArray =
        let (p, q, r) = build-IsBuilt cs (new_builder n) in
        (
          (as_array p, (λ m. ap length p)),
          (as_array q, (λ f. ap length q)),
          (as_array r, (λ v. ap length r)),
        )
      where
        as_array : {A : Type 0} {xs ys : List A} → xs ≡ ys → IsArray ys (elem_at (length xs) xs)
        as_array {xs = xs} e =
            subst (λ zs. IsArray zs (elem_at (length xs) xs)) e (elem_at-IsArray xs)
