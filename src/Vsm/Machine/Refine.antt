-- ===== src/Vsm/Machine/Refine.antt =====
-- The operand stack in the array (push and pop of include/Vsm.h) against a list with a bound, its
-- top first.
use ymsl.Base.{
  ℕ, zero, suc, ◌+◌, ◌<◌, ◌≤◌, ◌≡◌, refl, ap, ◌∙◌, subst, false, some, List, [], ◌∷◌, arith, ltb,
  ltb→lt, lt→ltb, if◌then◌else◌, Bool-cases, inl, inr, length, get_elem?, set, length-set, Outcome,
  ok, fault, undefined, ◌>>=◌,
}
use ymsl.Vsm.Stack.{StackOf}
use ymsl.Vsm.Effect.{Effect, skip, pushes, unary, binary, ternary, apply}
use ymsl.Vsm.Machine.{State, read_stack, read_at, write_stack, write_at, push, pop, pop_to, machine}

module _ {V : Type 0} where
  -- The stack as a list of at most `cap` values.
  unfoldable pub list_push : ℕ → V → List V → Outcome (List V)
  list_push cap v l = if ltb (length l) cap then ok (v ∷ l) else fault undefined

  unfoldable pub list_pop : List V → Outcome (V × List V)
  list_pop [] = fault undefined
  list_pop (v ∷ l) = ok (v, l)

  abbrev pub list_stack : ℕ → StackOf V (List V)
  list_stack cap = record { push = list_push cap; pop = list_pop }

  -- The first `n` values of the array are those of the list, the top last.
  abbrev pub Holds : List V → ℕ → List V → Type 0
  Holds xs zero [] = Unit
  Holds xs zero (v ∷ l) = ⊥
  Holds xs (suc n) [] = ⊥
  Holds xs (suc n) (v ∷ l) = (get_elem? xs n ≡ some v) × Holds xs n l

  -- The state has the list on its stack, an array of `cap` values, and the global variables `heap`.
  pub record Represents (cap : ℕ) (heap : List V) (s : State V) (l : List V) : Type 0 where
    pub holds : Holds s.local_stack s.sp l
    pub size : length s.local_stack ≡ cap
    pub same_heap : s.global_heap ≡ heap

-- Two runs end in related results, or fail alike.
abbrev pub Agree : {A B : Type 0} → (A → B → Type 0) → Outcome A → Outcome B → Type 0
Agree R (ok a) (ok b) = R a b
Agree R (ok a) (fault e) = ⊥
Agree R (fault e) (ok b) = ⊥
Agree R (fault e) (fault e') = e ≡ e'

pub Agree-bind :
    {A B C D : Type 0} (R : A → B → Type 0) (Q : C → D → Type 0) (x : Outcome A) (y : Outcome B)
    (f : A → Outcome C) (g : B → Outcome D)
    → Agree R x y
    → ((a : A) (b : B) → R a b → Agree Q (f a) (g b))
    → Agree Q (x >>= f) (y >>= g)
Agree-bind R Q (ok a) (ok b) f g h k = k a b h
Agree-bind R Q (ok a) (fault e) f g h k = absurd h
Agree-bind R Q (fault e) (ok b) f g h k = absurd h
Agree-bind R Q (fault e) (fault e') f g h k = h

pub Agree-refl : {A : Type 0} (x : Outcome A) → Agree (λ a b. a ≡ b) x x
Agree-refl (ok a) = refl
Agree-refl (fault e) = refl

get_elem?-set :
    {V : Type 0} (xs : List V) (i : ℕ) (v : V) → i < length xs → get_elem? (set xs i v) i ≡ some v
get_elem?-set [] i v h = absurd (omega arith)
get_elem?-set (x ∷ xs) zero v h = refl
get_elem?-set (x ∷ xs) (suc i) v h = get_elem?-set xs i v (omega arith)

get_elem?-set_other :
    {V : Type 0} (xs : List V) (i j : ℕ) (v : V) → j < i → get_elem? (set xs i v) j ≡ get_elem? xs j
get_elem?-set_other [] i j v h = refl
get_elem?-set_other (x ∷ xs) zero j v h = absurd (omega arith)
get_elem?-set_other (x ∷ xs) (suc i) zero v h = refl
get_elem?-set_other (x ∷ xs) (suc i) (suc j) v h = get_elem?-set_other xs i j v (omega arith)

module _ {V : Type 0} where
  Holds-length : (xs : List V) (n : ℕ) (l : List V) → Holds xs n l → length l ≡ n
  Holds-length xs zero [] h = refl
  Holds-length xs zero (v ∷ l) h = absurd h
  Holds-length xs (suc n) [] h = absurd h
  Holds-length xs (suc n) (v ∷ l) h = ap suc (Holds-length xs n l h.1)

  -- A write above the stack keeps it.
  pub Holds-set :
      (xs : List V) (n : ℕ) (l : List V) (i : ℕ) (v : V)
      → n ≤ i
      → Holds xs n l
      → Holds (set xs i v) n l
  Holds-set xs zero [] i v le h = tt
  Holds-set xs zero (w ∷ l) i v le h = absurd h
  Holds-set xs (suc n) [] i v le h = absurd h
  Holds-set xs (suc n) (w ∷ l) i v le h =
      (get_elem?-set_other xs i n v (omega arith) ∙ h.0, Holds-set xs n l i v (omega arith) h.1)

  module _ (cap : ℕ) (heap : List V) where
    push-Agree :
        (v : V) (s : State V) (l : List V)
        → Represents cap heap s l
        → Agree (Represents cap heap) (push v s) (list_push cap v l)
    unfolding push write_stack write_at list_push
    push-Agree v s l r =
        let depth = Holds-length s.local_stack s.sp l r.holds in
        let one : suc s.sp ≡ s.sp + 1 = omega arith in
        elim (Bool-cases (ltb (length l) cap)) [
          | inl e ↦
              let inside : s.sp < length s.local_stack =
                omega (arith, depth, r.size, ltb→lt _ _ e) in
              rw (e, lt→ltb _ _ inside, push, write_stack, write_at)
                (record {
                  holds =
                      subst (λ n. Holds (set s.local_stack s.sp v) n (v ∷ l)) one
                        (
                          get_elem?-set s.local_stack s.sp v inside,
                          Holds-set s.local_stack s.sp l s.sp v (omega arith) r.holds,
                        );
                  size = length-set s.local_stack s.sp v ∙ r.size;
                  same_heap = r.same_heap;
                })
          | inr e ↦
              let full : ltb s.sp (length s.local_stack) ≡ false = rw (← depth, r.size) e in
              rw (e, full, push, write_stack, write_at) refl
        ]

    -- What both pops give: the same value, and stacks that agree again.
    abbrev Popped : V × State V → V × List V → Type 0
    Popped (a, s) (b, l) = (a ≡ b) × Represents cap heap s l

    pop-Agree :
        (s : State V) (l : List V) → Represents cap heap s l → Agree Popped (pop s) (list_pop l)
    unfolding pop pop_to read_stack read_at list_pop
    pop-Agree s l r = popped s.sp refl l r.holds
      where
        popped :
            (n : ℕ)
            → s.sp ≡ n
            → (l : List V) → Holds s.local_stack n l
            → Agree Popped (pop_to n s) (list_pop l)
        popped zero e [] h = refl
        popped zero e (v ∷ l) h = absurd h
        popped (suc n) e [] h = absurd h
        popped (suc n) e (v ∷ l) h =
            rw (h.0, pop_to, read_stack, read_at)
              (refl, record { holds = h.1; size = r.size; same_heap = r.same_heap })

    abbrev pub Pushed : Outcome (State V) → Outcome (List V) → Type 0
    Pushed x y = Agree (Represents cap heap) x y

    pop-then :
        (k : V → State V → Outcome (State V)) (k' : V → List V → Outcome (List V))
        → ((a : V) (t : State V) (l : List V) → Represents cap heap t l → Pushed (k a t) (k' a l))
        → (s : State V) (l : List V) → Represents cap heap s l
        → Pushed (pop s >>= λ x. k x.0 x.1) (list_pop l >>= λ x. k' x.0 x.1)
    pop-then k k' go s l r =
        Agree-bind Popped (Represents cap heap) (pop s) (list_pop l) _ _ (pop-Agree s l r)
          (λ (a, t) (b, m) (e, q). subst (λ c. Pushed (k a t) (k' c m)) e (go a t m q))

    value-then :
        (x : Outcome V) (s : State V) (l : List V)
        → Represents cap heap s l
        → Pushed (x >>= λ v. push v s) (x >>= λ v. list_push cap v l)
    value-then (ok v) s l r = push-Agree v s l r
    value-then (fault e) s l r = refl

    -- Every effect of an instruction does to the array what it does to the list: it ends in a stack
    -- with the same values and the same global variables, or fails in both, also by a full stack or
    -- an empty one.
    pub apply-Agree :
        (e : Effect V) (s : State V) (l : List V)
        → Represents cap heap s l
        → Pushed (apply machine e s) (apply (list_stack cap) e l)
    unfolding apply
    apply-Agree skip s l r = r
    apply-Agree (pushes v) s l r = push-Agree v s l r
    apply-Agree (unary f) s l r = pop-then _ _ (λ a t m q. value-then (f a) t m q) s l r
    apply-Agree (binary f) s l r =
        pop-then _ _ (λ a. pop-then _ _ (λ b t m q. value-then (f a b) t m q)) s l r
    apply-Agree (ternary f) s l r =
        pop-then _ _ (λ a. pop-then _ _ (λ b. pop-then _ _ (λ c t m q. value-then (f a b c) t m q)))
          s l r
