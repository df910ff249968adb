-- ===== src/Compiler/Scope/Resolve.antt =====
-- Name resolution over nested scopes (Scope::find of src/compiler/Scope.cc and IrMgr::new_scope of
-- src/ir/IrMgr.cc).
use ymsl.Base.{
  ℕ, zero, suc, ◌<◌, ◌≡◌, refl, sym, ap, ◌∙◌, subst, inl, inr, Option, none, some, List, [], ◌∷◌,
  ◌++◌, arith, Option-cases, length, get_elem?, get_elem?-snoc, Outcome, ok, get_elem?-ne_none,
}
use ymsl.Compiler.ShString.{ShString}
use ymsl.Compiler.Scope.{Scope, find_local, find_at, or_then, find, make_scope, links, new_scope}

-- A pointer of a scope leads to an older scope.
abbrev pub Older : ℕ → Option ℕ → Type 0
Older id none = Unit
Older id (some p) = p < id

module _ {S H : Type 0} where
  -- All scopes point to older ones only.
  abbrev pub AreLinked : List (Scope S H) → Type 0
  AreLinked scopes =
      (id : ℕ) (s : Scope S H)
      → get_elem? scopes id ≡ some s
      → Older id s.parent_scope × Older id s.global_scope

  -- The parent scope and the global scope of a new scope below `parent`.
  pub data Pointers (scopes : List (Scope S H)) : Option ℕ → Option ℕ → Option ℕ → Type 0 where
    top : Pointers scopes none none none
    in_global :
        {q : ℕ} {s : Scope S H}
        → get_elem? scopes q ≡ some s
        → s.global_scope ≡ none
        → Pointers scopes (some q) none (some q)
    in_local :
        {q g : ℕ} {s : Scope S H}
        → get_elem? scopes q ≡ some s
        → s.global_scope ≡ some g
        → Pointers scopes (some q) (some q) (some g)

  -- The scopes that a name may be found in from the scope `id`: itself, and those of its parent and
  -- of its global scope.
  pub data Encloses (scopes : List (Scope S H)) : ℕ → Scope S H → Type 0 where
    here : {id : ℕ} {s : Scope S H} → get_elem? scopes id ≡ some s → Encloses scopes id s
    parent :
        {id : ℕ} {s t : Scope S H} (p : ℕ)
        → get_elem? scopes id ≡ some s
        → s.parent_scope ≡ some p
        → Encloses scopes p t
        → Encloses scopes id t
    global :
        {id : ℕ} {s t : Scope S H} (g : ℕ)
        → get_elem? scopes id ≡ some s
        → s.global_scope ≡ some g
        → Encloses scopes g t
        → Encloses scopes id t

  module _ ⦃str : ShString S⦄ (name : H → S) (n : S) where
    -- What a search from the scope `id` ends in: a handle of an enclosing scope, or nothing, and
    -- then no enclosing scope has the name.
    pub data Resolves (scopes : List (Scope S H)) (id : ℕ) : Outcome (Option H) → Type 0 where
      hit :
          {s : Scope S H} (h : H)
          → Encloses scopes id s
          → find_local name s n ≡ some h
          → Resolves scopes id (ok (some h))
      miss :
          ((s : Scope S H) → Encloses scopes id s → find_local name s n ≡ none)
          → Resolves scopes id (ok none)

    module _ (scopes : List (Scope S H)) (linked : AreLinked scopes) where
      -- The search through one pointer.
      data Through (o : Option ℕ) : Outcome (Option H) → Type 0 where
        null : o ≡ none → Through o (ok none)
        into : {r : Outcome (Option H)} (p : ℕ) → o ≡ some p → Resolves scopes p r → Through o r

      through :
          (fuel id : ℕ) (o : Option ℕ)
          → ((p : ℕ) → p < id → Resolves scopes p (find name scopes fuel p n))
          → Older id o
          → Through o (find_at (λ p. find name scopes fuel p n) o)
      through fuel id none r lt = null refl
      through fuel id (some p) r lt = into p refl (r p lt)

      same :
          (id : ℕ) {s t : Scope S H}
          → get_elem? scopes id ≡ some s
          → get_elem? scopes id ≡ some t
          → s ≡ t
      same id e f = some_eq (sym e ∙ f)
        where
          some_eq : {x y : Scope S H} → some x ≡ some y → x ≡ y
          some_eq p = cc

      missed :
          (o : Option ℕ)
          → Through o (ok none)
          → (p : ℕ) → o ≡ some p
          → (t : Scope S H) → Encloses scopes p t
          → find_local name t n ≡ none
      missed o (null e') p e t m = cc
      missed o (into p' e' (miss f)) p e t m =
          let same_p : p ≡ p' = cc in f t (subst (λ q. Encloses scopes q t) same_p m)

      none_of :
          {id : ℕ} {s : Scope S H}
          → get_elem? scopes id ≡ some s
          → find_local name s n ≡ none
          → Through s.parent_scope (ok none)
          → Through s.global_scope (ok none)
          → (t : Scope S H) → Encloses scopes id t
          → find_local name t n ≡ none
      none_of {id} {s} e q a b t (here e') =
          subst (λ u. find_local name u n ≡ none) (same id e e') q
      none_of {id} {s} e q a b t (parent p e' o m) =
          missed s.parent_scope a p (ap (λ (u : Scope S H). u.parent_scope) (same id e e') ∙ o) t m
      none_of {id} {s} e q a b t (global g e' o m) =
          missed s.global_scope b g (ap (λ (u : Scope S H). u.global_scope) (same id e e') ∙ o) t m

      step_none :
          {id : ℕ} {s : Scope S H}
          → get_elem? scopes id ≡ some s
          → find_local name s n ≡ none
          → {a b : Outcome (Option H)} → Through s.parent_scope a
          → Through s.global_scope b
          → Resolves scopes id (or_then a b)
      step_none e q (into p o (hit h m f)) b = hit h (parent p e o m) f
      step_none e q (null z) (into g o (hit h m f)) = hit h (global g e o m) f
      step_none e q (into p z (miss k)) (into g o (hit h m f)) = hit h (global g e o m) f
      step_none e q (null z) (null y) = miss (none_of e q (null z) (null y))
      step_none e q (null z) (into g y (miss k)) = miss (none_of e q (null z) (into g y (miss k)))
      step_none e q (into p z (miss j)) (null y) = miss (none_of e q (into p z (miss j)) (null y))
      step_none e q (into p z (miss j)) (into g y (miss k)) =
          miss (none_of e q (into p z (miss j)) (into g y (miss k)))

      step :
          {id : ℕ} {s : Scope S H}
          → get_elem? scopes id ≡ some s
          → {a b : Outcome (Option H)} → Through s.parent_scope a
          → Through s.global_scope b
          → Resolves scopes id (or_then (ok (find_local name s n)) (or_then a b))
      step {s = s} e a b = elim (Option-cases (find_local name s n)) [
        | inr (h, q) ↦ rw q (hit h (here e) q)
        | inl q ↦ rw q (step_none e q a b)
      ]

      -- `find` ends on any fuel above the number of the scope, and resolves the name: it finds a
      -- handle of this name in an enclosing scope, or there is none in any of them.
      pub find-Resolves :
          (fuel id : ℕ)
          → id < fuel
          → id < length scopes
          → Resolves scopes id (find name scopes fuel id n)
      unfolding find
      find-Resolves zero id lt in_list = absurd (omega arith)
      find-Resolves (suc fuel) id lt in_list = elim (Option-cases (get_elem? scopes id)) [
        | inl e ↦ absurd (get_elem?-ne_none scopes id in_list e)
        | inr (s, e) ↦
            let below =
              λ (p : ℕ) (small : p < id). find-Resolves fuel p (omega arith) (omega arith) in
            let (lp, lg) = linked id s e in
            rw (e, find)
              (step e (through fuel id s.parent_scope below lp)
                (through fuel id s.global_scope below lg))
      ]

module _ {S H : Type 0} ⦃str : ShString S⦄ (name : H → S) where
  -- The two pointers of a new scope.
  module _ (scopes : List (Scope S H)) (linked : AreLinked scopes) (n : S) where
    abbrev Below : ℕ → Scope S H → Type 0
    Below k s = Older k s.parent_scope × Older k s.global_scope

    make_scope-Below :
        (p g : Option ℕ)
        → Older (length scopes) p
        → Older (length scopes) g
        → Below (length scopes) (make_scope name p g n)
    unfolding make_scope
    make_scope-Below p g op og = (op, og)

    snoc-AreLinked :
        (p g : Option ℕ)
        → Older (length scopes) p
        → Older (length scopes) g
        → AreLinked (scopes ++ make_scope name p g n ∷ [])
    snoc-AreLinked p g op og id s e = elim (get_elem?-snoc scopes (make_scope name p g n) id e) [
      | inr old ↦ linked id s old
      | inl (i, q) ↦
          subst (λ k. Below k s) (sym i)
            (subst (Below (length scopes)) q (make_scope-Below p g op og))
    ]

    -- Where all scopes point to older ones only, a new scope is made below none or an existing one,
    -- as the last of the list, whose scopes still point to older ones only. Below none it has no
    -- pointers; below a scope without a global scope this is its global scope, and it has no parent;
    -- below any other scope this is its parent, and it has the global scope of its parent.
    pub new_scope-AreLinked :
        (parent : Option ℕ)
        → Older (length scopes) parent
        → (p g : Option ℕ) × Pointers scopes parent p g
          × (new_scope name scopes parent n
              ≡ ok (length scopes, scopes ++ make_scope name p g n ∷ []))
          × AreLinked (scopes ++ make_scope name p g n ∷ [])
    unfolding new_scope links
    new_scope-AreLinked none older = (none, none, top, refl, snoc-AreLinked none none tt tt)
    new_scope-AreLinked (some q) older = elim (Option-cases (get_elem? scopes q)) [
      | inl e ↦ absurd (get_elem?-ne_none scopes q older e)
      | inr (s, e) ↦ elim (Option-cases s.global_scope) [
        | inl f ↦
            (none, some q, in_global e f, rw (e, links, f), snoc-AreLinked none (some q) tt older)
        | inr (g, f) ↦ (
          some q,
          some g,
          in_local e f,
          rw (e, links, f),
          snoc-AreLinked (some q) (some g) older
              (let lt : g < q = subst (Older q) f (linked q s e).1 in omega arith),
        )
      ]
    ]
