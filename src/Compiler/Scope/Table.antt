-- ===== src/Compiler/Scope/Table.antt =====
-- One scope's hash table as a dictionary (src/compiler/Scope.cc).
use ymsl.Base.{
  ℕ, ◌*◌, ◌<◌, ◌≡◌, refl, sym, ap, ◌∙◌, subst, ◌⊎◌, inl, inr, false, Option, none, some, arith, leb,
  if◌then◌else◌, Bool-cases, Option-cases,
}
use ymsl.Base.Chained.{
  move_all, Holds, put-Holds, empty-Holds, rehash-Holds, find_in-some, find_in-none,
}
use ymsl.Compiler.ShString.{ShString}
use ymsl.Compiler.Scope.{Scope, slot, put_handle, make_scope, grow, add, find_local}
use ymsl.Compiler.Scope.Loops.{alloc_table-move_all}

module _ {S H : Type 0} ⦃str : ShString S⦄ (name : H → S) where
  -- The scope has the handles `P`, each in the chain of its name, and no two of one name.
  pub record IsScope (P : H → Type 0) (s : Scope S H) : Type 0 where
    pub pos : 0 < s.hash_size
    pub holds : Holds (slot name s.hash_size) s.hash_size P s.hash_table
    pub once : (a b : H) → P a → P b → name a ≡ name b → a ≡ b

  slot-lt : (n : ℕ) (h : H) → 0 < n → slot name n h < n
  slot-lt n h pos = omega arith

  -- `find_local` finds exactly the handle of this name.
  pub find_local-some :
      {P : H → Type 0} (s : Scope S H) (n : S) {h : H}
      → IsScope P s
      → find_local name s n ≡ some h
      → P h × (name h ≡ n)
  unfolding find_local
  find_local-some s n v e =
      let r = find_in-some (λ h. str.equal (name h) n) _ e in
      ((v.holds.placed _ _ r.0).0, (str.equal_iff _ _).0 r.1)

  pub find_local-present :
      {P : H → Type 0} (s : Scope S H) (h : H)
      → IsScope P s
      → P h
      → find_local name s (name h) ≡ some h
  unfolding find_local
  find_local-present s h v p = elim (Option-cases (find_local name s (name h))) [
    | inr (g, e) ↦ let r = find_local-some s (name h) v e in e ∙ ap some (v.once g h r.0 p r.1)
    | inl e ↦
        let miss = find_in-none (λ g. str.equal (name g) (name h)) _ e h (v.holds.present h p) in
        let hit = (str.equal_iff (name h) (name h)).1 refl in cc
  ]

  pub make_scope-IsScope : (p g : Option ℕ) (n : S) → IsScope (λ _. ⊥) (make_scope name p g n)
  unfolding make_scope move_all
  make_scope-IsScope p g n = record {
    pos = omega arith;
    holds = empty-Holds _ 16;
    once = λ a b q. absurd q;
  }

  grow-IsScope : (P : H → Type 0) (s : Scope S H) → IsScope P s → IsScope P (grow name s)
  unfolding grow
  grow-IsScope P s v = elim (Bool-cases (leb s.next_limit s.hash_num)) [
    | inr e ↦ rw e v
    | inl e ↦
        let wide : 0 < s.hash_size * 2 = omega (arith, v.pos) in
        rw (e, alloc_table-move_all name s (s.hash_size * 2))
          (record {
            pos = wide;
            holds = rehash-Holds v.holds (λ h p. slot-lt (s.hash_size * 2) h wide);
            once = v.once;
          })
  ]

  -- Adding a handle whose name the scope does not have.
  pub add-IsScope :
      (P : H → Type 0) (s : Scope S H) (h : H)
      → IsScope P s
      → find_local name s (name h) ≡ none
      → IsScope (λ g. (g ≡ h) ⊎ P g) (add name s h)
  unfolding add put_handle
  add-IsScope P s h v fresh =
      let w = grow-IsScope P s v in
      record {
        pos = w.pos;
        holds = put-Holds _ h (slot-lt _ h w.pos) w.holds;
        once = λ a b p q e. once' a b p q e;
      }
    where
      absent : (g : H) → P g → name g ≡ name h → ⊥
      absent g p e = let found = find_local-present s g v p in cc (fresh, ap (find_local name s) e)

      once' : (a b : H) → (a ≡ h) ⊎ P a → (b ≡ h) ⊎ P b → name a ≡ name b → a ≡ b
      once' a b (inl p) (inl q) e = p ∙ sym q
      once' a b (inl p) (inr q) e = absurd (absent b q (sym e ∙ ap name p))
      once' a b (inr p) (inl q) e = absurd (absent a p (e ∙ ap name q))
      once' a b (inr p) (inr q) e = v.once a b p q e

  -- After a handle of a new name has been added, a search for its name finds it, and every other
  -- search finds what it found before, also where the table has been doubled.
  pub find_local-add :
      (P : H → Type 0) (s : Scope S H) (h : H) (n : S)
      → IsScope P s
      → find_local name s (name h) ≡ none
      → find_local name (add name s h) n
        ≡ (if str.equal (name h) n then some h else find_local name s n)
  find_local-add P s h n v fresh = elim (Bool-cases (str.equal (name h) n)) [
    | inl e ↦ rw e (
        subst (λ k. find_local name (add name s h) k ≡ some h) ((str.equal_iff _ _).0 e)
          (find_local-present (add name s h) h w (inl refl)))
    | inr e ↦ rw e (elim (Option-cases (find_local name s n)) [
      | inr (g, q) ↦ old g (find_local-some s n v q) ∙ sym q
      | inl q ↦ elim (Option-cases (find_local name (add name s h) n)) [
        | inl q' ↦ q' ∙ sym q
        | inr (g, q') ↦ absurd (new g e q (find_local-some (add name s h) n w q'))
      ]
    ])
  ]
    where
      w : IsScope (λ g. (g ≡ h) ⊎ P g) (add name s h)
      w = add-IsScope P s h v fresh

      old : (g : H) → P g × (name g ≡ n) → find_local name (add name s h) n ≡ some g
      old g (p, e) =
          subst (λ k. find_local name (add name s h) k ≡ some g) e
            (find_local-present (add name s h) g w (inr p))

      new :
          (g : H)
          → str.equal (name h) n ≡ false
          → find_local name s n ≡ none
          → ((g ≡ h) ⊎ P g) × (name g ≡ n)
          → ⊥
      new g miss q (inl p, e) = let hit = (str.equal_iff (name h) n).1 (ap name (sym p) ∙ e) in cc
      new g miss q (inr p, e) =
          let found = find_local-present s g v p in cc (q, ap (find_local name s) e)
