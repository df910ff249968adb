-- ===== src/Base/Chained.antt =====
-- Chained hash tables as both the type manager and the scopes keep them: an element is linked in at
-- the head of its chain, and a new table is filled by walking over all chains of the old one.
use ymsl.Base.Lists.{
  In, length, get_or, set, replicate, get_or-push, length-set, length-replicate, get_or-replicate,
}
use ymsl.Base.Tests.{◌==◌, ==_iff, ==_refl, if◌then◌else◌, Bool-cases}
use Prim.Native.Nat.{ℕ, zero, suc, ◌<◌}
use mathlib.Core.Path.{◌≡◌, refl, sym, ap, ◌∙◌, subst}
use mathlib.Core.Logic.{◌⊎◌, inl, inr}
use mathlib.Core.Bool.{Bool, true, false}
use mathlib.Core.List.{List, [], ◌∷◌}
use mathlib.Core.Option.{Option, none, some}
use native.Mathlib.Omega.{arith}

abbrev pub InAny : {A : Type 0} → A → List (List A) → Type 0
InAny x [] = ⊥
InAny x (c ∷ t) = In x c ⊎ InAny x t

In→InAny : {A : Type 0} (x : A) (t : List (List A)) (b : ℕ) → In x (get_or t b []) → InAny x t
In→InAny x [] b m = m
In→InAny x (c ∷ t) zero m = inl m
In→InAny x (c ∷ t) (suc b) m = inr (In→InAny x t b m)

InAny→In : {A : Type 0} (x : A) (t : List (List A)) → InAny x t → (b : ℕ) × In x (get_or t b [])
InAny→In x [] m = absurd m
InAny→In x (c ∷ t) (inl m) = (0, m)
InAny→In x (c ∷ t) (inr m) = let (b, m') = InAny→In x t m in (suc b, m')

module _ {A : Type 0} (h : A → ℕ) where
  -- `item->mLink = mHashTable[pos]; mHashTable[pos] = item`
  unfoldable pub put : A → List (List A) → List (List A)
  put x t = set t (h x) (x ∷ get_or t (h x) [])

  unfoldable pub move_chain : List A → List (List A) → List (List A)
  unfolding put
  move_chain [] t = t
  move_chain (x ∷ c) t = move_chain c (put x t)

  unfoldable pub move_all : List (List A) → List (List A) → List (List A)
  unfolding move_chain
  move_all [] t = t
  move_all (c ∷ old) t = move_all old (move_chain c t)

  -- A table of `n` chains holds exactly the elements of `P`, each in the chain that `h` says.
  pub record Holds (n : ℕ) (P : A → Type 0) (t : List (List A)) : Type 0 where
    pub width : length t ≡ n
    pub placed : (b : ℕ) (y : A) → In y (get_or t b []) → P y × (h y ≡ b)
    pub present : (y : A) → P y → In y (get_or t (h y) [])

  pub Holds-iff :
      {n : ℕ} {P Q : A → Type 0} {t : List (List A)}
      → Holds n P t
      → ((y : A) → P y → Q y)
      → ((y : A) → Q y → P y)
      → Holds n Q t
  Holds-iff s f g = record {
    width = s.width;
    placed = λ b y m. (f y (s.placed b y m).0, (s.placed b y m).1);
    present = λ y q. s.present y (g y q);
  }

  pub empty-Holds : (n : ℕ) → Holds n (λ _. ⊥) (replicate n [])
  empty-Holds n = record {
    width = length-replicate n [];
    placed = λ b y m. absurd (subst (λ l. In y l) (get_or-replicate n b []) m);
    present = λ y q. absurd q;
  }

  pub put-Holds :
      {n : ℕ} {P : A → Type 0} {t : List (List A)} (x : A)
      → h x < n
      → Holds n P t
      → Holds n (λ y. (y ≡ x) ⊎ P y) (put x t)
  unfolding put
  put-Holds {n} {P} {t} x lt s = record {
    width = length-set t _ _ ∙ s.width;
    placed = λ b y m. placed' b y (subst (λ l. In y l) (get_or-push t (h x) b x small) m);
    present = λ y q. subst (λ l. In y l) (sym (get_or-push t (h x) (h y) x small)) (present' y q);
  }
    where
      small : h x < length t
      small = omega (arith, s.width)

      placed' :
          (b : ℕ) (y : A)
          → In y (if h x == b then x ∷ get_or t b [] else get_or t b [])
          → ((y ≡ x) ⊎ P y) × (h y ≡ b)
      placed' b y m = elim (Bool-cases (h x == b)) [
        | inl e ↦ hit b y ((==_iff _ _).0 e) (rw e at m)
        | inr e ↦ let q = s.placed b y (rw e at m) in (inr q.0, q.1)
      ]
        where
          hit : (b : ℕ) (y : A) → h x ≡ b → In y (x ∷ get_or t b []) → ((y ≡ x) ⊎ P y) × (h y ≡ b)
          hit b y e (inl p) = (inl p, ap h p ∙ e)
          hit b y e (inr m) = let q = s.placed b y m in (inr q.0, q.1)

      present' :
          (y : A)
          → (y ≡ x) ⊎ P y
          → In y (if h x == h y then x ∷ get_or t (h y) [] else get_or t (h y) [])
      present' y (inl p) = rw (p, ==_refl) (inl refl)
      present' y (inr q) = elim (Bool-cases (h x == h y)) [
        | inl e ↦ rw e (inr (s.present y q))
        | inr e ↦ rw e (s.present y q)
      ]

  pub move_chain-Holds :
      (c : List A) {n : ℕ} {P : A → Type 0} {t : List (List A)}
      → ((y : A) → In y c → h y < n)
      → Holds n P t
      → Holds n (λ y. In y c ⊎ P y) (move_chain c t)
  unfolding move_chain
  move_chain-Holds [] lt s =
      Holds-iff s (λ y p. inr p) (λ y q. elim q [ inl m ↦ absurd m | inr p ↦ p ])
  move_chain-Holds (x ∷ c) lt s =
      Holds-iff (move_chain-Holds c (λ y m. lt y (inr m)) (put-Holds x (lt x (inl refl)) s))
        (λ y q. elim q [
          | inl m ↦ inl (inr m)
          | inr q' ↦ elim q' [ inl e ↦ inl (inl e) | inr p ↦ inr p ]
        ])
        (λ y q. elim q [
          | inl m ↦ elim m [ inl e ↦ inr (inl e) | inr m' ↦ inl m' ]
          | inr p ↦ inr (inr p)
        ])

  pub move_all-Holds :
      (old : List (List A)) {n : ℕ} {P : A → Type 0} {t : List (List A)}
      → ((y : A) → InAny y old → h y < n)
      → Holds n P t
      → Holds n (λ y. InAny y old ⊎ P y) (move_all old t)
  unfolding move_all
  move_all-Holds [] lt s =
      Holds-iff s (λ y p. inr p) (λ y q. elim q [ inl m ↦ absurd m | inr p ↦ p ])
  move_all-Holds (c ∷ old) lt s =
      Holds-iff
        (move_all-Holds old (λ y m. lt y (inr m)) (move_chain-Holds c (λ y m. lt y (inl m)) s))
        (λ y q. elim q [
          | inl m ↦ inl (inr m)
          | inr q' ↦ elim q' [ inl m ↦ inl (inl m) | inr p ↦ inr p ]
        ])
        (λ y q. elim q [
          | inl m ↦ elim m [ inl m' ↦ inr (inl m') | inr m' ↦ inl m' ]
          | inr p ↦ inr (inr p)
        ])

-- Moving all of a table into an empty one of another size keeps exactly its elements.
pub rehash-Holds :
    {A : Type 0} {h g : A → ℕ} {n k : ℕ} {P : A → Type 0} {t : List (List A)}
    → Holds h n P t
    → ((y : A) → P y → g y < k)
    → Holds g k P (move_all g t (replicate k []))
rehash-Holds {h = h} {g} {t = t} s lt =
    let held : (y : _) → InAny y t → _ =
      λ y m. let (b, m') = InAny→In y t m in (s.placed b y m').0 in
    Holds-iff g (move_all-Holds g t (λ y m. lt y (held y m)) (empty-Holds g _))
      (λ y q. elim q [ inl m ↦ held y m | inr e ↦ absurd e ])
      (λ y p. inl (In→InAny y t (h y) (s.present y p)))

-- The search of one chain for the first element that passes a test.
unfoldable pub find_in {ℓ} : {A : Type ℓ} → (A → Bool) → List A → Option A
find_in p [] = none
find_in p (x ∷ c) = if p x then some x else find_in p c

some_eq : {A : Type 0} {a b : A} → some a ≡ some b → a ≡ b
some_eq e = cc

pub find_in-some :
    {A : Type 0} (p : A → Bool) (c : List A) {x : A} → find_in p c ≡ some x → In x c × (p x ≡ true)
unfolding find_in
find_in-some p [] e = cc
find_in-some p (y ∷ c) {x} e = elim (Bool-cases (p y)) [
  | inl q ↦ let y-x : y ≡ x = some_eq (rw q at e) in (inl (sym y-x), subst (λ z. p z ≡ true) y-x q)
  | inr q ↦ let r = find_in-some p c (rw q at e) in (inr r.0, r.1)
]

pub find_in-none :
    {A : Type 0} (p : A → Bool) (c : List A) → find_in p c ≡ none → (x : A) → In x c → p x ≡ false
unfolding find_in
find_in-none p [] e x m = absurd m
find_in-none p (y ∷ c) e x m = elim (Bool-cases (p y)) [
  | inl q ↦ absurd (ground (arith, q))
  | inr q ↦ elim m [ inl r ↦ rw r q | inr m' ↦ find_in-none p c (rw q at e) x m' ]
]

-- Only the chains of the elements matter.
pub Holds-congr :
    {A : Type 0} {h g : A → ℕ} {n : ℕ} {P : A → Type 0} {t : List (List A)}
    → ((y : A) → P y → h y ≡ g y)
    → Holds h n P t
    → Holds g n P t
Holds-congr {g = g} {t = t} e s = record {
  width = s.width;
  placed = λ b y m. let q = s.placed b y m in (q.0, sym (e y q.0) ∙ q.1);
  present = λ y p. subst (λ b. In y (get_or t b [])) (e y p) (s.present y p);
}
