-- ===== src/Ir/Enum/Values.antt =====
-- The values of the constants of an enum type differ, and the search for them ends
-- (IrMgr::reg_enum of src/ir/IrMgr_stmt.cc).
use mathlib.Core.List.{append_assoc, append-nil}
use ymsl.Base.{
  In, In-snoc, sym, replicate, ℕ, zero, suc, ◌^◌, ◌+◌, ◌<◌, ◌≤◌, ◌≡◌, refl, ap, ◌∙◌, subst, inl,
  inr, true, false, Bool-cases, arith, Option, none, some, List, [], ◌∷◌, ◌++◌, length,
  if◌then◌else◌, Outcome, ok, fault, ◌>>=◌, leb,
}
use ymsl.Base.Int.{ℤ, pos, negsuc, eq_ℤ, eq_ℤ_iff, ◌+ℤ◌, checked}
use ymsl.Base.Int32
use ymsl.Ir.Node.{IrNode}
use ymsl.Ir.Interp.{FloatOps, eval_int}
use ymsl.Ir.Enum.{check, next_free, elem_value, enum_values}

-- Each value is used once.
abbrev pub AreDistinct : List ℤ → Type 0
AreDistinct [] = Unit
AreDistinct (v ∷ vs) = (In v vs → ⊥) × AreDistinct vs

AreDistinct-snoc :
    (vs : List ℤ) (v : ℤ) → AreDistinct vs → (In v vs → ⊥) → AreDistinct (vs ++ v ∷ [])
AreDistinct-snoc [] v d h = ((λ i. i), tt)
AreDistinct-snoc (x ∷ vs) v d h = (
  (λ i. elim (In-snoc x v vs i) [ inl k ↦ d.0 k | inr e ↦ h (inl (sym e)) ]),
  AreDistinct-snoc vs v d.1 (λ i. h (inr i)),
)

-- `check` says whether a value is one of those in use.
pub check-In : (vs : List ℤ) (v : ℤ) → check vs v ≡ true → In v vs
unfolding check
check-In [] v e = cc
check-In (p ∷ vs) v e = elim (Bool-cases (eq_ℤ p v)) [
  | inl q ↦ inl (sym ((eq_ℤ_iff p v).0 q))
  | inr q ↦ inr (check-In vs v (rw q at e))
]

pub check-not_In : (vs : List ℤ) (v : ℤ) → check vs v ≡ false → In v vs → ⊥
unfolding check
check-not_In [] v e i = i
check-not_In (p ∷ vs) v e (inl q) =
    let hit = (eq_ℤ_iff p v).1 (sym q) in let miss = rw hit at e in cc
check-not_In (p ∷ vs) v e (inr i) = elim (Bool-cases (eq_ℤ p v)) [
  | inl q ↦ let hit = rw q at e in cc
  | inr q ↦ check-not_In vs v (rw q at e) i
]

-- A sequence of two runs that ends in a value.
ends_in :
    {S T : Type 0} (next : S → Outcome T) (r : Outcome S) {t : T}
    → (r >>= next) ≡ ok t
    → (s : S) × ((r ≡ ok s) × (next s ≡ ok t))
ends_in next (fault why) e = cc
ends_in next (ok s) e = (s, (refl, e))

same_value : {a b : ℤ} → ok a ≡ ok b → a ≡ b
same_value e = cc

next_free-fresh :
    (fuel : ℕ) (used_val : List ℤ) (n : ℤ) {v : ℤ}
    → next_free fuel used_val n ≡ ok v
    → check used_val v ≡ false
unfolding next_free
next_free-fresh zero used_val n e = cc
next_free-fresh (suc fuel) used_val n {v} e = elim (Bool-cases (check used_val n)) [
  | inl q ↦
      let (m, (a, b)) =
        ends_in (λ k. next_free fuel used_val k) (Int32.add n (pos 1)) (rw q at e) in
      next_free-fresh fuel used_val m b
  | inr q ↦ subst (λ k. check used_val k ≡ false) (same_value (rw q at e)) q
]

-- The number of the values from `n` on.
unfoldable pub above : ℕ → List ℤ → ℕ
above n [] = 0
above n (pos m ∷ vs) = if leb n m then suc (above n vs) else above n vs
above n (negsuc m ∷ vs) = above n vs

pub above-le : (n : ℕ) (vs : List ℤ) → above n vs ≤ length vs
unfolding above
above-le n [] = omega arith
above-le n (pos m ∷ vs) = ground (arith, above-le n vs)
above-le n (negsuc m ∷ vs) = omega (arith, above-le n vs)

above-suc : (n : ℕ) (vs : List ℤ) → above (suc n) vs ≤ above n vs
unfolding above
above-suc n [] = omega arith
above-suc n (pos m ∷ vs) = ground (arith, above-suc n vs)
above-suc n (negsuc m ∷ vs) = above-suc n vs

pub above-check : (n : ℕ) (vs : List ℤ) → check vs (pos n) ≡ true → above (suc n) vs < above n vs
unfolding above check
above-check n [] h = cc
above-check n (pos m ∷ vs) h = ground (arith, above-check n vs, above-suc n vs)
above-check n (negsuc m ∷ vs) h = above-check n vs h

add_one : (n : ℕ) → suc n < 2147483648 → Int32.add (pos n) (pos 1) ≡ ok (pos (suc n))
unfolding Int32.add checked ◌+ℤ◌
add_one n h = ground arith

next_free-above :
    (fuel : ℕ) (used_val : List ℤ) (n : ℕ)
    → above n used_val < fuel
    → n + above n used_val < 2147483648
    → (v : ℕ) × ((next_free fuel used_val (pos n) ≡ ok (pos v))
        × ((n ≤ v) × (v ≤ n + above n used_val)))
unfolding next_free
next_free-above zero used_val n lt small = absurd (omega arith)
next_free-above (suc fuel) used_val n lt small = elim (Bool-cases (check used_val (pos n))) [
  | inl q ↦
      let less = above-check n used_val q in
      let (v, (e, (low, high))) =
        next_free-above fuel used_val (suc n) (omega (arith, less)) (omega (arith, less)) in
      (v, (rw (q, add_one n (omega (arith, less))) e, (omega arith, omega (arith, less))))
  | inr q ↦ (n, (rw q, (omega arith, omega arith)))
]

-- The search for an unused value from `n` on ends, on any fuel above the number of the used values,
-- without overflow if `n` and this number stay below the range: the value is not used, is `n` or
-- more, and is at most the number of the used values away.
pub next_free-total :
    (fuel : ℕ) (used_val : List ℤ) (n : ℕ)
    → length used_val < fuel
    → n + length used_val < 2 ^ 31
    → (v : ℕ) × (next_free fuel used_val (pos n) ≡ ok (pos v))
      × (check used_val (pos v) ≡ false)
      × (n ≤ v)
      × (v ≤ n + length used_val)
next_free-total fuel used_val n lt small =
    let le = above-le n used_val in
    let (v, (e, (low, high))) =
      next_free-above fuel used_val n (omega (arith, le)) (omega (arith, le)) in
    (v, e, next_free-fresh fuel used_val (pos n) e, low, omega (arith, le))

module _ {F : Type 0} (ops : FloatOps F) where
  elem_value-fresh :
      (fuel : ℕ) (used_val : List ℤ) (n : ℤ) (e : Option (IrNode F)) {v m : ℤ}
      → elem_value ops fuel used_val n e ≡ ok (some (v, m))
      → check used_val v ≡ false
  unfolding elem_value
  elem_value-fresh fuel used_val n none {v} h =
      let (a, (p, q)) = ends_in _ (next_free fuel used_val n) h in
      let (k, (u, w)) = ends_in _ (Int32.add a (pos 1)) q in
      let same : a ≡ v = cc w in
      subst (λ x. check used_val x ≡ false) same (next_free-fresh fuel used_val n p)
  elem_value-fresh fuel used_val n (some node) h = ground arith

  -- The values of the constants one by one, each that of its expression if it has one.
  abbrev pub AreValues : List (Option (IrNode F)) → List ℤ → Type 0
  AreValues [] [] = Unit
  AreValues (none ∷ elems) (v ∷ vs) = AreValues elems vs
  AreValues (some node ∷ elems) (v ∷ vs) = (eval_int ops node ≡ ok v) × AreValues elems vs
  AreValues _ _ = ⊥

  -- The value of one constant in front of those of the others.
  AreValues-cons :
      (fuel : ℕ) (used_val : List ℤ) (n : ℤ) (e : Option (IrNode F))
      (elems : List (Option (IrNode F))) (vs : List ℤ) {v m : ℤ}
      → elem_value ops fuel used_val n e ≡ ok (some (v, m))
      → AreValues elems vs
      → AreValues (e ∷ elems) (v ∷ vs)
  unfolding elem_value
  AreValues-cons fuel used_val n none elems vs p h = h
  AreValues-cons fuel used_val n (some node) elems vs p h = (ground arith, h)

  -- The result of a row of constants, with the values that were in use before.
  abbrev Numbered : List ℤ → List (Option (IrNode F)) → List ℤ → Type 0
  Numbered used_val elems vs =
      (new : List ℤ) × (vs ≡ used_val ++ new) × AreValues elems new × AreDistinct vs

  -- Where the values in use differ and the constants of an enum type get values, these stand behind
  -- those in use, in the order of the constants and one for each; a constant with an expression has
  -- its value; and no two of all values are the same.
  pub enum_values-AreDistinct :
      (fuel : ℕ) (elems : List (Option (IrNode F))) (used_val : List ℤ) (n : ℤ) {vs : List ℤ}
      → AreDistinct used_val
      → enum_values ops fuel used_val n elems ≡ ok (some vs)
      → (new : List ℤ) × (vs ≡ used_val ++ new) × AreValues elems new × AreDistinct vs
  unfolding enum_values
  enum_values-AreDistinct fuel [] used_val n {vs} d h =
      let same : used_val ≡ vs = cc h in
      ([], sym same ∙ sym (append-nil used_val), tt, subst AreDistinct same d)
  enum_values-AreDistinct fuel (e ∷ elems) used_val n {vs} d h =
      let (r, (p, q)) = ends_in _ (elem_value ops fuel used_val n e) h in
      go r p q (λ u m c k. enum_values-AreDistinct fuel elems u m c k)
    where
      go :
          (r : Option (ℤ × ℤ))
          → elem_value ops fuel used_val n e ≡ ok r
          → elim r [
            | none ↦ ok none
            | some (v, n) ↦ enum_values ops fuel (used_val ++ v ∷ []) n elems
          ]
            ≡ ok (some vs)
          → ((u : List ℤ) (m : ℤ)
              → AreDistinct u
              → enum_values ops fuel u m elems ≡ ok (some vs)
              → Numbered u elems vs)
          → Numbered used_val (e ∷ elems) vs
      go none p q later = cc
      go (some (v, m)) p q later =
          let fresh = check-not_In used_val v (elem_value-fresh fuel used_val n e p) in
          let (new, s, g, a) =
            later (used_val ++ v ∷ []) m (AreDistinct-snoc used_val v d fresh) q in
          (
            v ∷ new,
            s ∙ append_assoc used_val (v ∷ []) new,
            AreValues-cons fuel used_val n e elems new p g,
            a,
          )

above-snoc : (n : ℕ) (vs : List ℤ) → above n vs ≡ 0 → above (suc n) (vs ++ pos n ∷ []) ≡ 0
unfolding above
above-snoc n [] h = ground arith
above-snoc n (pos m ∷ vs) h = ground (arith, above-snoc n vs)
above-snoc n (negsuc m ∷ vs) h = above-snoc n vs h

-- The numbers n, n + 1, and so on, `k` of them.
abbrev pub count_up : ℕ → ℕ → List ℤ
count_up n zero = []
count_up n (suc k) = pos n ∷ count_up (suc n) k

module _ {F : Type 0} (ops : FloatOps F) where
  elem_value-implicit :
      (fuel : ℕ) (used_val : List ℤ) (n : ℕ)
      → above n used_val ≡ 0
      → suc n < 2147483648
      → elem_value ops (suc fuel) used_val (pos n) none ≡ ok (some (pos n, pos (suc n)))
  unfolding elem_value next_free
  elem_value-implicit fuel used_val n free small = elim (Bool-cases (check used_val (pos n))) [
    | inl q ↦ absurd (omega (arith, free, above-check n used_val q))
    | inr q ↦ rw (q, add_one n small)
  ]

  implicit_from :
      (fuel k n : ℕ) (used_val : List ℤ)
      → above n used_val ≡ 0
      → n + k < 2147483648
      → enum_values ops (suc fuel) used_val (pos n) (replicate k none)
        ≡ ok (some (used_val ++ count_up n k))
  unfolding enum_values
  implicit_from fuel zero n used_val free small = rw (append-nil used_val)
  implicit_from fuel (suc k) n used_val free small =
      rw (elem_value-implicit fuel used_val n free (omega arith)) (
        implicit_from fuel k (suc n) (used_val ++ pos n ∷ []) (above-snoc n used_val free)
          (omega arith)
        ∙ ap (λ l. ok (some l)) (append_assoc used_val (pos n ∷ []) (count_up (suc n) k)))

  -- Without any expression, the constants get the values 0, 1, and so on in their order, on any fuel
  -- but none, as long as their number is below the range of 32 bits.
  pub enum_values-implicit :
      (fuel k : ℕ)
      → k < 2 ^ 31
      → enum_values ops (suc fuel) [] (pos 0) (replicate k none) ≡ ok (some (count_up 0 k))
  unfolding above
  enum_values-implicit fuel k small = implicit_from fuel k 0 [] refl (omega arith)
