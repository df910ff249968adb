-- ===== src/Vsm/CodeList/RoundTrip.antt =====
-- What has been written into a code list is read back (src/vsm/VsmCodeList.cc).
use mathlib.Core.List.{append_assoc, append-nil}
use ymsl.Base.{
  ℕ, ◌+◌, ◌≡◌, refl, sym, ap, ◌∙◌, arith, some, List, [], ◌∷◌, ◌++◌, length, length-append,
  get_elem?, get_elem?-append_length, get_elem?-append_left, Outcome, ok, ◌>>=◌,
}
use ymsl.Base.Int.{ℤ, pos, negsuc, InRange, to_word, of_word}
use ymsl.Vsm.CodeList.{
  TwoWords, Builder, write_opcode, write_int, write_two, VsmCodeList, new_code_list, word_at,
  read_opcode, read_int, read_two,
}

pub of_word-to_word : (n : ℤ) → InRange n → of_word (to_word n) ≡ n
unfolding of_word to_word
of_word-to_word (pos n) h = ground arith
of_word-to_word (negsuc n) h = ground arith

pub word_at-middle :
    (b rest : List ℕ) (w : ℕ) → word_at (new_code_list ((b ++ w ∷ []) ++ rest)) (length b) ≡ ok w
unfolding word_at new_code_list
word_at-middle b rest w =
    let inside : get_elem? ((b ++ w ∷ []) ++ rest) (length b) ≡ some w =
      get_elem?-append_left (b ++ w ∷ []) rest (length b) (omega (arith, length-append b (w ∷ [])))
      ∙ get_elem?-append_length b w in
    rw (inside, word_at)

pub read_two-write_two :
    {V : Type 0} (rep : TwoWords V) (b rest : List ℕ) (x : V)
    → rep.value (rep.first x) (rep.second x) ≡ x
    → read_two rep (new_code_list (write_two rep b x ++ rest)) (length b)
      ≡ ok (x, length (write_two rep b x))
unfolding read_two write_two
read_two-write_two rep b rest x law =
    let one = b ++ rep.first x ∷ [] in
    let two = one ++ rep.second x ∷ [] in
    let first : word_at (new_code_list (two ++ rest)) (length b) ≡ ok (rep.first x) =
      ap (λ l. word_at (new_code_list l) (length b)) (append_assoc one (rep.second x ∷ []) rest)
      ∙ word_at-middle b (rep.second x ∷ rest) (rep.first x) in
    let next : length b + 1 ≡ length one = omega (arith, length-append b (rep.first x ∷ [])) in
    let second : word_at (new_code_list (two ++ rest)) (length b + 1) ≡ ok (rep.second x) =
      rw next (word_at-middle one rest (rep.second x)) in
    let size : length b + 2 ≡ length two =
      omega (arith, length-append b (rep.first x ∷ []), length-append one (rep.second x ∷ [])) in
    rw (first, second, law, size)

-- What a code list is made of: operation codes, integers, floating-point numbers and pointers.
pub data Item (F P : Type 0) : Type 0 where
  opcode : ℕ → Item F P
  int : ℤ → Item F P
  float : F → Item F P
  objptr : P → Item F P

module _ {F P : Type 0} (floats : TwoWords F) (ptrs : TwoWords P) where
  -- The call of the builder for an item, and the calls for some items in a row.
  unfoldable pub write : Builder → Item F P → Builder
  unfolding write_opcode write_int write_two
  write b (opcode op) = write_opcode b op
  write b (int n) = write_int b n
  write b (float x) = write_two floats b x
  write b (objptr p) = write_two ptrs b p

  unfoldable pub write_all : Builder → List (Item F P) → Builder
  write_all b [] = b
  write_all b (i ∷ is) = write_all (write b i) is

  -- The call of the reader that fits an item.
  unfoldable pub read : VsmCodeList → Item F P → ℕ → Outcome (Item F P × ℕ)
  unfolding read_opcode read_int read_two
  read code (opcode _) addr = read_opcode code addr >>= λ r. ok (opcode r.0, r.1)
  read code (int _) addr = read_int code addr >>= λ r. ok (int r.0, r.1)
  read code (float _) addr = read_two floats code addr >>= λ r. ok (float r.0, r.1)
  read code (objptr _) addr = read_two ptrs code addr >>= λ r. ok (objptr r.0, r.1)

  unfoldable pub read_all : VsmCodeList → List (Item F P) → ℕ → Outcome (List (Item F P) × ℕ)
  read_all code [] addr = ok ([], addr)
  read_all code (i ∷ is) addr =
      read code i addr >>= λ r. read_all code is r.1 >>= λ t. ok (r.0 ∷ t.0, t.1)

  -- The integers of the items are of 32 bits.
  abbrev pub AreInRange : List (Item F P) → Type 0
  AreInRange [] = Unit
  AreInRange (int n ∷ is) = InRange n × AreInRange is
  AreInRange (opcode _ ∷ is) = AreInRange is
  AreInRange (float _ ∷ is) = AreInRange is
  AreInRange (objptr _ ∷ is) = AreInRange is

  AreInRange-split :
      (i : Item F P) (is : List (Item F P))
      → AreInRange (i ∷ is)
      → AreInRange (i ∷ []) × AreInRange is
  AreInRange-split (opcode op) is h = (tt, h)
  AreInRange-split (int n) is h = ((h.0, tt), h.1)
  AreInRange-split (float x) is h = (tt, h)
  AreInRange-split (objptr p) is h = (tt, h)

  -- The words that an item adds.
  written : (b : Builder) (i : Item F P) → (ws : List ℕ) × (write b i ≡ b ++ ws)
  unfolding write
  written b (opcode op) = (op ∷ [], refl)
  written b (int n) = (to_word n ∷ [], refl)
  written b (float x) = (floats.first x ∷ floats.second x ∷ [], append_assoc b _ _)
  written b (objptr p) = (ptrs.first p ∷ ptrs.second p ∷ [], append_assoc b _ _)

  written_all : (b : Builder) (is : List (Item F P)) → (ws : List ℕ) × (write_all b is ≡ b ++ ws)
  unfolding write_all
  written_all b [] = ([], sym (append-nil b))
  written_all b (i ∷ is) =
      let (v, e) = written b i in
      let (w, f) = written_all (write b i) is in
      (v ++ w, f ∙ ap (λ c. c ++ w) e ∙ append_assoc b v w)

  module _ (float_law : (x : F) → floats.value (floats.first x) (floats.second x) ≡ x)
      (ptr_law : (p : P) → ptrs.value (ptrs.first p) (ptrs.second p) ≡ p) where
    read-write :
        (b : Builder) (i : Item F P) (rest : List ℕ)
        → AreInRange (i ∷ [])
        → read (new_code_list (write b i ++ rest)) i (length b) ≡ ok (i, length (write b i))
    unfolding read write
    read-write b (opcode op) rest h =
        rw (word_at-middle b rest op)
          (ap (λ k. ok (opcode op, k)) (omega (arith, length-append b (op ∷ []))))
    read-write b (int n) rest h =
        rw (word_at-middle b rest (to_word n), of_word-to_word n h.0)
          (ap (λ k. ok (int n, k)) (omega (arith, length-append b (to_word n ∷ []))))
    read-write b (float x) rest h = rw (read_two-write_two floats b rest x (float_law x))
    read-write b (objptr p) rest h = rw (read_two-write_two ptrs b rest p (ptr_law p))

    -- Items written behind any code are read back from there, in their order, by the readers for
    -- their kinds, and the last address is the size of the code; provided that the integers are of
    -- 32 bits, and that two words of a floating-point number or of a pointer are this value again.
    pub read_all-write_all :
        (is : List (Item F P)) (b : Builder)
        → AreInRange is
        → read_all (new_code_list (write_all b is)) is (length b) ≡ ok (is, length (write_all b is))
    unfolding read_all write_all
    read_all-write_all [] b h = refl
    read_all-write_all (i ∷ is) b h =
        let (ws, f) = written_all (write b i) is in
        let (hi, hs) = AreInRange-split i is h in
        let first : read (new_code_list (write_all (write b i) is)) i (length b)
            ≡ ok (i, length (write b i)) =
          rw f (read-write b i ws hi) in
        let later = read_all-write_all is (write b i) hs in rw (first, later)
