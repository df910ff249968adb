-- ===== src/Vsm/CodeList.antt =====
-- The code of the stack machine and its builder (include/VsmCodeList.h, src/vsm/VsmCodeList.cc): an
-- array of 32-bit words, `Ymsl_CODE`, in which a `double` and a pointer take two words each. An
-- address is the place of a word; reading behind the end of the array is undefined.
pub mod RoundTrip
use ymsl.Base.{
  ℕ, ◌+◌, ◌≡◌, Option, none, some, List, [], ◌∷◌, ◌++◌, length, get_elem?, Outcome, ok, fault,
  undefined, ◌>>=◌,
}
use ymsl.Base.Int.{ℤ, to_word, of_word}

-- The words of a value of two words, and the value of two words: what the unions of the builder and
-- the casts of the reader do, on the machine at hand.
pub record TwoWords (V : Type 0) : Type 0 where
  pub first : V → ℕ
  pub second : V → ℕ
  pub value : ℕ → ℕ → V

-- The words of the builder, `mBody`.
abbrev pub Builder : Type 0
Builder = List ℕ

unfoldable pub write_opcode : Builder → ℕ → Builder
write_opcode b op = b ++ op ∷ []

unfoldable pub write_int : Builder → ℤ → Builder
unfolding to_word
write_int b val = b ++ to_word val ∷ []

-- `write_float` and `write_objptr`.
unfoldable pub write_two : {V : Type 0} → TwoWords V → Builder → V → Builder
write_two rep b val = (b ++ rep.first val ∷ []) ++ rep.second val ∷ []

-- VsmCodeList: the words are copied one by one from the builder.
pub record VsmCodeList : Type 0 where
  pub size : ℕ
  pub body : List ℕ

unfoldable pub new_code_list : Builder → VsmCodeList
new_code_list b = record { size = length b; body = b }

-- The word at an address.
unfoldable pub word_at : VsmCodeList → ℕ → Outcome ℕ
word_at code addr = elim (get_elem? code.body addr) [ none ↦ fault undefined | some w ↦ ok w ]

-- A read has the value and the address behind it as its result.
unfoldable pub read_opcode : VsmCodeList → ℕ → Outcome (ℕ × ℕ)
unfolding word_at
read_opcode code addr = word_at code addr >>= λ w. ok (w, addr + 1)

unfoldable pub read_int : VsmCodeList → ℕ → Outcome (ℤ × ℕ)
unfolding word_at of_word
read_int code addr = word_at code addr >>= λ w. ok (of_word w, addr + 1)

-- `read_float` and `read_objptr`.
unfoldable pub read_two : {V : Type 0} → TwoWords V → VsmCodeList → ℕ → Outcome (V × ℕ)
unfolding word_at
read_two rep code addr =
    word_at code addr >>= λ v. word_at code (addr + 1) >>= λ w. ok (rep.value v w, addr + 2)
