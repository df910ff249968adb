-- ===== src/Compiler/Scope.antt =====
-- Scopes (include/Scope.h, src/compiler/Scope.cc, and IrMgr::new_scope of src/ir/IrMgr.cc): each is
-- a chained hash table of handles by name. A scope is known by its pointer; the model's pointer is
-- the place of the scope in the list of all scopes (`mScopeList`), in the order of their creation.
-- `S` is ShString, `H` the handles, and `name` is IrHandle::name(). A handle is linked into the
-- table of one scope only, once.
pub mod Loops
pub mod Table
pub mod Resolve
pub mod Count
use ymsl.Base.{
  ℕ, zero, suc, ◌+◌, ◌*◌, ◌/◌, ◌%◌, Bool, Option, none, some, List, [], ◌∷◌, ◌++◌, leb,
  if◌then◌else◌, length, get_elem?, get_or, replicate, Outcome, ok, fault, undefined, no_fuel,
  ◌>>=◌,
}
use ymsl.Base.Chained.{put, find_in}
use ymsl.Compiler.ShString.{ShString}

pub record Scope (S H : Type 0) : Type 0 where
  pub parent_scope : Option ℕ
  pub global_scope : Option ℕ
  pub scope_name : S
  pub hash_size : ℕ
  pub next_limit : ℕ
  pub hash_table : List (List H)
  pub hash_num : ℕ

-- A step of `find` into another scope, if the pointer is not NULL.
abbrev pub find_at {ℓ} : {H : Type ℓ} → (ℕ → Outcome (Option H)) → Option ℕ → Outcome (Option H)
find_at find none = ok none
find_at find (some id) = find id

abbrev pub or_then {ℓ} : {H : Type ℓ} → Outcome (Option H) → Outcome (Option H) → Outcome (Option H)
or_then r next = r >>= λ o. elim o [ some h ↦ ok (some h) | none ↦ next ]

module _ {S H : Type 0} ⦃str : ShString S⦄ (name : H → S) where
  -- `handle->name().hash() % mHashSize`
  abbrev pub slot : ℕ → H → ℕ
  slot size h = str.hash (name h) % size

  -- Scope::_put
  unfoldable pub put_handle : Scope S H → H → Scope S H
  unfolding put
  put_handle s h = record s {
    hash_table = put (slot s.hash_size) h s.hash_table;
    hash_num = s.hash_num + 1;
  }

  -- The two loops of Scope::alloc_table, over a chain and over the old table.
  unfoldable pub put_chain : List H → Scope S H → Scope S H
  unfolding put_handle
  put_chain [] s = s
  put_chain (h ∷ c) s = put_chain c (put_handle s h)

  unfoldable pub put_table : List (List H) → Scope S H → Scope S H
  unfolding put_chain
  put_table [] s = s
  put_table (c ∷ old_table) s = put_table old_table (put_chain c s)

  unfoldable pub alloc_table : Scope S H → ℕ → Scope S H
  unfolding put_table
  alloc_table s req_size = put_table s.hash_table (record s {
    hash_size = req_size;
    next_limit = req_size * 9 / 5;
    hash_table = replicate req_size [];
  })

  -- The constructor.
  unfoldable pub make_scope : Option ℕ → Option ℕ → S → Scope S H
  unfolding alloc_table
  make_scope parent global n =
      alloc_table
        (record {
          parent_scope = parent;
          global_scope = global;
          scope_name = n;
          hash_size = 0;
          next_limit = 0;
          hash_table = [];
          hash_num = 0;
        })
        16

  unfoldable pub grow : Scope S H → Scope S H
  unfolding alloc_table
  grow s = if leb s.next_limit s.hash_num then alloc_table s (s.hash_size * 2) else s

  unfoldable pub add : Scope S H → H → Scope S H
  unfolding grow put_handle
  add s item = put_handle (grow s) item

  unfoldable pub find_local : Scope S H → S → Option H
  unfolding find_in
  find_local s n =
      find_in (λ h. str.equal (name h) n) (get_or s.hash_table (str.hash n % s.hash_size) [])

  -- Scope::find, on fuel: the recursion goes from a scope to its parent and to the global scope.
  unfoldable pub find : List (Scope S H) → ℕ → ℕ → S → Outcome (Option H)
  unfolding find_local
  find scopes zero id n = fault no_fuel
  find scopes (suc fuel) id n = elim (get_elem? scopes id) [
    | none ↦ fault undefined
    | some s ↦ or_then (ok (find_local s n)) (
        or_then (find_at (λ p. find scopes fuel p n) s.parent_scope)
          (find_at (λ g. find scopes fuel g n) s.global_scope))
  ]

  -- The two pointers that IrMgr::new_scope gives a scope below `parent`.
  unfoldable pub links : List (Scope S H) → Option ℕ → Outcome (Option ℕ × Option ℕ)
  links scopes none = ok (none, none)
  links scopes (some p) = elim (get_elem? scopes p) [
    | none ↦ fault undefined
    | some s ↦ elim s.global_scope [ some g ↦ ok (some p, some g) | none ↦ ok (none, some p) ]
  ]

  unfoldable pub new_scope : List (Scope S H) → Option ℕ → S → Outcome (ℕ × List (Scope S H))
  unfolding links make_scope
  new_scope scopes parent n = do
    (p, g) ← links scopes parent
    ok (length scopes, scopes ++ make_scope p g n ∷ [])
