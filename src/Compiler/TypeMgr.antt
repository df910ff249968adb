-- ===== src/Compiler/TypeMgr.antt =====
-- The type manager (src/compiler/TypeMgr.cc, include/TypeMgr.h): every type that it hands out is an
-- object of `mTypeList`; array, set, map and function types are also chained in a hash table, so
-- that one is made only once. An object is its number in the list, which is also its `id()`.
-- Hash values wrap in 32 bits. The table sizes do not: they stay below the number of the objects.
pub mod Valid
pub mod Intern
pub mod Pointers
pub mod Init
pub mod Calc
pub mod Coercions
use ymsl.Base.{
  ℕ, zero, suc, ◌+◌, ◌*◌, ◌/◌, ◌%◌, ◌^◌, Bool, true, false, ◌&&◌, Option, none, some, List, [], ◌∷◌,
  ◌++◌, ltb, leb, ◌==◌, if◌then◌else◌, length, get_elem?, get_or, replicate,
}
use ymsl.Base.Int.{ℤ}
use ymsl.Base.Chained.{put, move_all, find_in}
use ymsl.Compiler.Types.{
  TypeId, TypeDef, prim_type, array_type, set_type, map_type, func_type, enum_type,
}

pub record TypeMgr (S : Type 0) : Type 0 where
  pub types : List (TypeDef S)
  pub void_type : ℕ
  pub boolean_type : ℕ
  pub int_type : ℕ
  pub float_type : ℕ
  pub string_type : ℕ
  pub hash_size : ℕ
  pub next_limit : ℕ
  pub hash_table : List (List ℕ)
  pub hash_num : ℕ

unfoldable pub hash_array : ℕ → ℕ
hash_array elem = elem

unfoldable pub hash_set : ℕ → ℕ
hash_set elem = (elem + 511) % 2 ^ 32

unfoldable pub hash_map : ℕ → ℕ → ℕ
hash_map key elem = (key * 2047 + elem + 511) % 2 ^ 32

-- The loop of hash_func and hash_func2, at the index `i`.
unfoldable pub hash_inputs : ℕ → ℕ → List ℕ → ℕ
hash_inputs h i [] = h
hash_inputs h i (t ∷ ts) = hash_inputs ((h + t * i) % 2 ^ 32) (i + 1) ts

unfoldable pub hash_func : ℕ → List ℕ → ℕ
unfolding hash_inputs
hash_func output inputs = hash_inputs ((output + 253) % 2 ^ 32) 0 inputs

-- The comparison of the numbers and then of the types of the inputs.
unfoldable pub same_inputs : List ℕ → List ℕ → Bool
same_inputs [] [] = true
same_inputs [] (u ∷ us) = false
same_inputs (t ∷ ts) [] = false
same_inputs (t ∷ ts) (u ∷ us) = t == u && same_inputs ts us

module _ {S : Type 0} where
  -- TypeMgr::hash_type for a table of `size` chains; `size` itself stands for a type that is not
  -- chained.
  unfoldable pub hash_type : ℕ → TypeDef S → ℕ
  unfolding hash_array hash_set hash_map hash_func
  hash_type size (array_type e) = hash_array e % size
  hash_type size (set_type e) = hash_set e % size
  hash_type size (map_type k e) = hash_map k e % size
  hash_type size (func_type o i) = hash_func o i % size
  hash_type size _ = size

  -- The same for the object with a number.
  unfoldable pub hash_id : List (TypeDef S) → ℕ → ℕ → ℕ
  unfolding hash_type
  hash_id types size id = elim (get_elem? types id) [ none ↦ size | some d ↦ hash_type size d ]

  unfoldable pub alloc_table : TypeMgr S → ℕ → TypeMgr S
  alloc_table m req_size = record m {
    hash_size = req_size;
    next_limit = req_size * 9 / 5;
    hash_table = move_all (hash_id m.types req_size) m.hash_table (replicate req_size []);
  }

  -- The growth test of reg_type.
  unfoldable pub grow : TypeMgr S → TypeMgr S
  unfolding alloc_table
  grow m = if leb m.next_limit m.hash_num then alloc_table m (m.hash_size * 2) else m

  -- The end of reg_type: the object `id` is chained, if its kind is.
  unfoldable pub chain : TypeMgr S → ℕ → TypeMgr S
  unfolding hash_id put
  chain m id =
      if ltb (hash_id m.types m.hash_size id) m.hash_size
      then record m {
        hash_table = put (hash_id m.types m.hash_size) id m.hash_table;
        hash_num = m.hash_num + 1;
      }
      else m

  unfoldable pub reg_type : TypeMgr S → TypeDef S → ℕ × TypeMgr S
  unfolding grow chain
  reg_type m d =
      let id = length m.types in (id, chain (grow (record m { types = m.types ++ d ∷ [] })) id)

  -- The tests of the four loops over a chain.
  unfoldable pub is_array : ℕ → Option (TypeDef S) → Bool
  is_array e (some (array_type e')) = e' == e
  is_array e _ = false

  unfoldable pub is_set : ℕ → Option (TypeDef S) → Bool
  is_set e (some (set_type e')) = e' == e
  is_set e _ = false

  unfoldable pub is_map : ℕ → ℕ → Option (TypeDef S) → Bool
  is_map k e (some (map_type k' e')) = k' == k && e' == e
  is_map k e _ = false

  unfoldable pub is_func : ℕ → List ℕ → Option (TypeDef S) → Bool
  unfolding same_inputs
  is_func o i (some (func_type o' i')) = o' == o && same_inputs i' i
  is_func o i _ = false

  -- The search of the chain `h`, and the registration of `d` where nothing is found.
  unfoldable pub find_or_reg :
      TypeMgr S → ℕ → (Option (TypeDef S) → Bool) → TypeDef S → ℕ × TypeMgr S
  unfolding find_in reg_type
  find_or_reg m h test d =
      elim (find_in (λ id. test (get_elem? m.types id)) (get_or m.hash_table h [])) [
        | some id ↦ (id, m)
        | none ↦ reg_type m d
      ]

  unfoldable pub get_array_type : TypeMgr S → ℕ → ℕ × TypeMgr S
  unfolding find_or_reg is_array hash_array
  get_array_type m e = find_or_reg m (hash_array e % m.hash_size) (is_array e) (array_type e)

  unfoldable pub get_set_type : TypeMgr S → ℕ → ℕ × TypeMgr S
  unfolding find_or_reg is_set hash_set
  get_set_type m e = find_or_reg m (hash_set e % m.hash_size) (is_set e) (set_type e)

  unfoldable pub get_map_type : TypeMgr S → ℕ → ℕ → ℕ × TypeMgr S
  unfolding find_or_reg is_map hash_map
  get_map_type m k e = find_or_reg m (hash_map k e % m.hash_size) (is_map k e) (map_type k e)

  unfoldable pub get_function_type : TypeMgr S → ℕ → List ℕ → ℕ × TypeMgr S
  unfolding find_or_reg is_func hash_func
  get_function_type m o i =
      find_or_reg m (hash_func o i % m.hash_size) (is_func o i) (func_type o i)

  unfoldable pub new_enum_type : TypeMgr S → S → List (S × ℤ) → ℕ × TypeMgr S
  unfolding reg_type
  new_enum_type m name elems = reg_type m (enum_type name elems)

  unfoldable pub new_prim_type : TypeMgr S → TypeId → ℕ × TypeMgr S
  unfolding reg_type
  new_prim_type m t = reg_type m (prim_type t)

  -- The members before init() has set them, with the table that it allocates first.
  unfoldable pub blank : TypeMgr S
  unfolding alloc_table
  blank =
      alloc_table
        (record {
          types = [];
          void_type = 0;
          boolean_type = 0;
          int_type = 0;
          float_type = 0;
          string_type = 0;
          hash_size = 0;
          next_limit = 0;
          hash_table = [];
          hash_num = 0;
        })
        1024

  unfoldable pub init : TypeMgr S
  unfolding new_prim_type blank
  init =
      let (v, m1) = new_prim_type blank TypeId.void in
      let (b, m2) = new_prim_type m1 TypeId.boolean in
      let (i, m3) = new_prim_type m2 TypeId.int in
      let (f, m4) = new_prim_type m3 TypeId.float in
      let (s, m5) = new_prim_type m4 TypeId.string in
      record m5 { void_type = v; boolean_type = b; int_type = i; float_type = f; string_type = s }
