-- ===== src/Compiler/TypeMgr/Valid.antt =====
-- The invariant of the type manager's table, kept by the registration of a type
-- (TypeMgr::reg_type, alloc_table and hash_type of src/compiler/TypeMgr.cc).
use ymsl.Base.{
  ℕ, ◌*◌, ◌<◌, ◌≡◌, refl, sym, ap, ◌∙◌, subst, ◌⊎◌, inl, inr, Bool, true, false, some, List, [],
  ◌∷◌, ◌++◌, arith, ltb, leb, lt→ltb, ltb→lt, Bool-cases, length, get_elem?, get_elem?-lt,
  get_elem?-append_left, get_elem?-append_length, get_elem?-snoc,
}
use ymsl.Base.Chained.{Holds, Holds-iff, Holds-congr, put-Holds, rehash-Holds}
use ymsl.Compiler.Types.{TypeDef, prim_type, array_type, set_type, map_type, func_type, enum_type}
use ymsl.Compiler.TypeMgr.{TypeMgr, hash_type, hash_id, grow, chain, reg_type}

module _ {S : Type 0} where
  -- The kinds of types that are chained.
  abbrev pub is_hashed : TypeDef S → Bool
  is_hashed (array_type e) = true
  is_hashed (set_type e) = true
  is_hashed (map_type k e) = true
  is_hashed (func_type o i) = true
  is_hashed _ = false

  -- The object with this number is of such a kind.
  abbrev pub IsHashed : List (TypeDef S) → ℕ → Type 0
  IsHashed types id = (d : TypeDef S) × (get_elem? types id ≡ some d) × (is_hashed d ≡ true)

  -- The table holds exactly the objects with the numbers `P`, each in its chain.
  pub record Stores (P : ℕ → Type 0) (m : TypeMgr S) : Type 0 where
    pub pos : 0 < m.hash_size
    pub holds : Holds (hash_id m.types m.hash_size) m.hash_size P m.hash_table

  -- The table holds all objects of the chained kinds and no other, and no two of them are the same
  -- type.
  pub record IsValid (m : TypeMgr S) : Type 0 where
    pub stores : Stores (IsHashed m.types) m
    pub once :
        (i j : ℕ) (d : TypeDef S)
        → get_elem? m.types i ≡ some d
        → get_elem? m.types j ≡ some d
        → is_hashed d ≡ true
        → i ≡ j

  Stores-iff :
      {P Q : ℕ → Type 0} {m : TypeMgr S}
      → Stores P m
      → ((id : ℕ) → P id → Q id)
      → ((id : ℕ) → Q id → P id)
      → Stores Q m
  Stores-iff v f g = record { pos = v.pos; holds = Holds-iff _ v.holds f g }

  pub hash_type-lt : (n : ℕ) (d : TypeDef S) → 0 < n → is_hashed d ≡ true → hash_type n d < n
  unfolding hash_type
  hash_type-lt n (array_type e) pos h = omega arith
  hash_type-lt n (set_type e) pos h = omega arith
  hash_type-lt n (map_type k e) pos h = omega arith
  hash_type-lt n (func_type o i) pos h = omega arith
  hash_type-lt n (prim_type t) pos h = cc
  hash_type-lt n (enum_type s l) pos h = cc

  pub hash_type-ge : (n : ℕ) (d : TypeDef S) → is_hashed d ≡ false → hash_type n d ≡ n
  unfolding hash_type
  hash_type-ge n (array_type e) h = cc
  hash_type-ge n (set_type e) h = cc
  hash_type-ge n (map_type k e) h = cc
  hash_type-ge n (func_type o i) h = cc
  hash_type-ge n (prim_type t) h = refl
  hash_type-ge n (enum_type s l) h = refl

  pub hash_id-some :
      (types : List (TypeDef S)) (n id : ℕ) {d : TypeDef S}
      → get_elem? types id ≡ some d
      → hash_id types n id ≡ hash_type n d
  unfolding hash_id
  hash_id-some types n id e = rw (e, hash_id)

  IsHashed-lt :
      (types : List (TypeDef S)) (n id : ℕ) → 0 < n → IsHashed types id → hash_id types n id < n
  IsHashed-lt types n id pos (d, e, h) = rw (hash_id-some types n id e) (hash_type-lt n d pos h)

  grow-Stores :
      (P : ℕ → Type 0) (m : TypeMgr S)
      → ((id : ℕ) → P id → IsHashed m.types id)
      → Stores P m
      → Stores P (grow m)
  unfolding grow
  grow-Stores P m sub v = elim (Bool-cases (leb m.next_limit m.hash_num)) [
    | inr e ↦ rw e v
    | inl e ↦
        let wide : 0 < m.hash_size * 2 = omega (arith, v.pos) in
        rw e (record {
          pos = wide;
          holds =
              rehash-Holds v.holds
                (λ id p. IsHashed-lt m.types (m.hash_size * 2) id wide (sub id p));
        })
  ]

  pub types-grow : (m : TypeMgr S) → (grow m).types ≡ m.types
  unfolding grow
  types-grow m = elim (Bool-cases (leb m.next_limit m.hash_num)) [ inl e ↦ rw e | inr e ↦ rw e ]

  chain-Stores :
      (P : ℕ → Type 0) (m : TypeMgr S) (id : ℕ)
      → hash_id m.types m.hash_size id < m.hash_size
      → Stores P m
      → Stores (λ y. (y ≡ id) ⊎ P y) (chain m id)
  unfolding chain
  chain-Stores P m id lt v =
      rw (lt→ltb _ _ lt) (record { pos = v.pos; holds = put-Holds _ id lt v.holds })

  chain_unhashed :
      (m : TypeMgr S) (id : ℕ) → hash_id m.types m.hash_size id ≡ m.hash_size → chain m id ≡ m
  unfolding chain
  chain_unhashed m id e = elim (Bool-cases (ltb (hash_id m.types m.hash_size id) m.hash_size)) [
    | inl q ↦ absurd (omega (arith, e, ltb→lt _ _ q))
    | inr q ↦ rw q
  ]

  pub types-chain : (m : TypeMgr S) (id : ℕ) → (chain m id).types ≡ m.types
  unfolding chain
  types-chain m id = elim (Bool-cases (ltb (hash_id m.types m.hash_size id) m.hash_size)) [
    | inl e ↦ rw e
    | inr e ↦ rw e
  ]

  -- The object is in the list, and in no chain yet.
  abbrev appended : TypeMgr S → TypeDef S → TypeMgr S
  appended m d = record m { types = m.types ++ d ∷ [] }

  pub types-reg_type : (m : TypeMgr S) (d : TypeDef S) → (reg_type m d).1.types ≡ m.types ++ d ∷ []
  unfolding reg_type
  types-reg_type m d =
      types-chain (grow (appended m d)) (length m.types) ∙ types-grow (appended m d)

  IsHashed-append :
      (types : List (TypeDef S)) (d : TypeDef S) (id : ℕ)
      → IsHashed types id
      → IsHashed (types ++ d ∷ []) id
  IsHashed-append types d id (d', e, h) =
      (d', get_elem?-append_left types (d ∷ []) id (get_elem?-lt types id e) ∙ e, h)

  module _ (m : TypeMgr S) (d : TypeDef S) (v : Stores (IsHashed m.types) m) where
    appended-Stores : Stores (IsHashed m.types) (appended m d)
    appended-Stores = record {
      pos = v.pos;
      holds =
          Holds-congr
            (λ id (d', e, h).
              hash_id-some m.types m.hash_size id e
              ∙ sym (
                  hash_id-some (m.types ++ d ∷ []) m.hash_size id
                    (get_elem?-append_left m.types (d ∷ []) id (get_elem?-lt m.types id e) ∙ e)))
            v.holds;
    }

    grown-Stores : Stores (IsHashed m.types) (grow (appended m d))
    grown-Stores =
        grow-Stores (IsHashed m.types) (appended m d) (λ id p. IsHashed-append m.types d id p)
          appended-Stores

    hash_id-new :
        hash_id (grow (appended m d)).types (grow (appended m d)).hash_size (length m.types)
        ≡ hash_type (grow (appended m d)).hash_size d
    hash_id-new =
        hash_id-some (grow (appended m d)).types (grow (appended m d)).hash_size (length m.types)
          (rw (types-grow (appended m d)) (get_elem?-append_length m.types d))

    reg_types : (reg_type m d).1.types ≡ m.types ++ d ∷ []
    reg_types = types-reg_type m d

    old-IsHashed : (id : ℕ) → IsHashed m.types id → IsHashed (reg_type m d).1.types id
    old-IsHashed id p = subst (λ t. IsHashed t id) (sym reg_types) (IsHashed-append m.types d id p)

    new-IsHashed : is_hashed d ≡ true → IsHashed (reg_type m d).1.types (length m.types)
    new-IsHashed e =
        subst (λ t. IsHashed t (length m.types)) (sym reg_types)
          (d, get_elem?-append_length m.types d, e)

    IsHashed-cases :
        (id : ℕ)
        → IsHashed (reg_type m d).1.types id
        → ((id ≡ length m.types) × (is_hashed d ≡ true)) ⊎ IsHashed m.types id
    IsHashed-cases id p =
        let (d', e, h) = subst (λ t. IsHashed t id) reg_types p in
        elim (get_elem?-snoc m.types d id e) [
          | inl q ↦ inl (q.0, ap is_hashed q.1 ∙ h)
          | inr q ↦ inr (d', q, h)
        ]

    pub reg_type-Stores : Stores (IsHashed (reg_type m d).1.types) (reg_type m d).1
    reg_type-Stores = elim (Bool-cases (is_hashed d)) [
      | inl e ↦
          unfold reg_type in
          Stores-iff
            (chain-Stores (IsHashed m.types) (grow (appended m d)) (length m.types)
              (rw hash_id-new (hash_type-lt _ d grown-Stores.pos e)) grown-Stores)
            (λ id q. elim q [
              | inl p ↦ subst (IsHashed _) (sym p) (new-IsHashed e)
              | inr p ↦ old-IsHashed id p
            ])
            (λ id q. elim (IsHashed-cases id q) [ inl p ↦ inl p.0 | inr p ↦ inr p ])
      | inr e ↦
          let same : (reg_type m d).1 ≡ grow (appended m d) =
            unfold reg_type in
            chain_unhashed (grow (appended m d)) (length m.types)
              (hash_id-new ∙ hash_type-ge _ d e) in
          subst (Stores (IsHashed (reg_type m d).1.types)) (sym same) (
            Stores-iff grown-Stores old-IsHashed
              (λ id q. elim (IsHashed-cases id q) [ inl (p, q) ↦ cc | inr p ↦ p ]))
    ]
