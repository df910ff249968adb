-- ===== src/Compiler/Scope/Loops.antt =====
-- The loops of Scope::alloc_table (src/compiler/Scope.cc): what they change of a scope.
use ymsl.Base.{ℕ, ◌+◌, ◌*◌, ◌/◌, ◌≡◌, ap, ◌∙◌, List, [], ◌∷◌, arith, length, replicate}
use ymsl.Base.Chained.{move_chain, move_all}
use ymsl.Compiler.ShString.{ShString}
use ymsl.Compiler.Scope.{Scope, slot, put_handle, put_chain, put_table, alloc_table}

-- The number of the elements of all chains.
unfoldable pub chain_total {ℓ} : {A : Type ℓ} → List (List A) → ℕ
chain_total [] = 0
chain_total (c ∷ t) = length c + chain_total t

module _ {S H : Type 0} ⦃str : ShString S⦄ (name : H → S) where
  -- A scope with another table and another count.
  abbrev pub retabled : Scope S H → List (List H) → ℕ → Scope S H
  retabled s t n = record s { hash_table = t; hash_num = n }

  put_chain-move_chain :
      (c : List H) (s : Scope S H)
      → put_chain name c s
        ≡ retabled s (move_chain (slot name s.hash_size) c s.hash_table) (s.hash_num + length c)
  unfolding put_chain put_handle move_chain
  put_chain-move_chain [] s = ap (retabled s s.hash_table) (omega arith)
  put_chain-move_chain (h ∷ c) s =
      put_chain-move_chain c (put_handle name s h) ∙ ap (retabled s _) (omega arith)

  put_table-move_all :
      (t : List (List H)) (s : Scope S H)
      → put_table name t s
        ≡ retabled s (move_all (slot name s.hash_size) t s.hash_table) (s.hash_num + chain_total t)
  unfolding put_table move_all chain_total
  put_table-move_all [] s = ap (retabled s s.hash_table) (omega arith)
  put_table-move_all (c ∷ t) s =
      ap (put_table name t) (put_chain-move_chain c s)
      ∙ put_table-move_all t
          (retabled s (move_chain (slot name s.hash_size) c s.hash_table) (s.hash_num + length c))
      ∙ ap (retabled s _) (omega arith)

  -- The new table has the handles where a walk over the old chains puts them; each is counted again,
  -- and the names and pointers of the scope stay.
  pub alloc_table-move_all :
      (s : Scope S H) (n : ℕ)
      → alloc_table name s n ≡ record s {
        hash_size = n;
        next_limit = n * 9 / 5;
        hash_table = move_all (slot name n) s.hash_table (replicate n []);
        hash_num = s.hash_num + chain_total s.hash_table;
      }
  unfolding alloc_table
  alloc_table-move_all s n = put_table-move_all s.hash_table _
