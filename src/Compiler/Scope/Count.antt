-- ===== src/Compiler/Scope/Count.antt =====
-- The count of a scope's handles (mHashNum) against the handles that are in the table
-- (Scope::_put and alloc_table of src/compiler/Scope.cc).
use ymsl.Base.{
  ℕ, zero, suc, ◌+◌, ◌<◌, ◌≡◌, refl, ◌∙◌, List, [], ◌∷◌, arith, length, get_or, set, replicate,
  length-set, length-replicate,
}
use ymsl.Base.Chained.{put, move_chain, move_all}
use ymsl.Compiler.ShString.{ShString}
use ymsl.Compiler.Scope.{Scope, slot, alloc_table}
use ymsl.Compiler.Scope.Loops.{chain_total, alloc_table-move_all}

chain_total-replicate : (A : Type 0) (n : ℕ) → chain_total {A = A} (replicate n []) ≡ 0
unfolding chain_total
chain_total-replicate A zero = refl
chain_total-replicate A (suc n) = omega (arith, chain_total-replicate A n)

module _ {A : Type 0} where
  chain_total-set :
      (t : List (List A)) (i : ℕ) (x : A)
      → i < length t
      → chain_total (set t i (x ∷ get_or t i [])) ≡ chain_total t + 1
  unfolding chain_total
  chain_total-set [] i x h = absurd (omega arith)
  chain_total-set (c ∷ t) zero x h = omega arith
  chain_total-set (c ∷ t) (suc i) x h = omega (arith, chain_total-set t i x)

  module _ (h : A → ℕ) where
    chain_total-move_chain :
        (c : List A) (t : List (List A))
        → ((x : A) → h x < length t)
        → (chain_total (move_chain h c t) ≡ chain_total t + length c)
          × (length (move_chain h c t) ≡ length t)
    unfolding move_chain
    chain_total-move_chain [] t lt = (omega arith, refl)
    chain_total-move_chain (x ∷ c) t lt =
        let wide = length-set t (h x) (x ∷ get_or t (h x) []) in
        let one = chain_total-set t (h x) x (lt x) in
        let (a, b) = chain_total-move_chain c (put h x t) (λ y. rw wide (lt y)) in
        (omega (arith, a, one), b ∙ wide)

    chain_total-move_all :
        (old t : List (List A))
        → ((x : A) → h x < length t)
        → chain_total (move_all h old t) ≡ chain_total t + chain_total old
    unfolding move_all chain_total
    chain_total-move_all [] t lt = omega arith
    chain_total-move_all (c ∷ old) t lt =
        let (a, b) = chain_total-move_chain c t lt in
        let rest = chain_total-move_all old (move_chain h c t) (λ x. rw b (lt x)) in
        omega (arith, a, rest)

module _ {S H : Type 0} ⦃str : ShString S⦄ (name : H → S) where
  -- A new table of a positive size has as many handles as the old one, and mHashNum grows by that
  -- number, although no handle was added.
  pub hash_num-alloc_table :
      (s : Scope S H) (n : ℕ)
      → 0 < n
      → (chain_total (alloc_table name s n).hash_table ≡ chain_total s.hash_table)
        × ((alloc_table name s n).hash_num ≡ s.hash_num + chain_total s.hash_table)
  hash_num-alloc_table s n pos = rw (alloc_table-move_all name s n) (
    omega (
      arith,
      chain_total-move_all (slot name n) s.hash_table (replicate n [])
          (λ x. rw (length-replicate {A = List H} n []) (omega arith)),
      chain_total-replicate H n,
    ),
    refl,
  )
