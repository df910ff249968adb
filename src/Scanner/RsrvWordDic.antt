-- ===== src/Scanner/RsrvWordDic.antt =====
-- The dictionary of reserved words (src/parser/RsrvWordDic.cc): two chained hash tables over one
-- array of cells, by spelling and by token number. The token numbers come from the parser that
-- bison generates, so they are a parameter.
use ymsl.Base.{
  ℕ, ◌+◌, ◌*◌, ◌%◌, ◌^◌, Bool, true, false, ◌&&◌, Option, none, some, List, [], ◌∷◌, ◌==◌,
  if◌then◌else◌, length, replicate, get_or, set,
}
use ymsl.Scanner.Token.{Token}

abbrev pub Text : Type 0
Text = List ℕ

-- `strcmp(a, b) == 0`
unfoldable pub str_eq : Text → Text → Bool
str_eq [] [] = true
str_eq [] (d ∷ t) = false
str_eq (c ∷ s) [] = false
str_eq (c ∷ s) (d ∷ t) = c == d && str_eq s t

-- `h = h * 37 + c` in 32 bits, for characters below 128.
unfoldable pub hash_func1 : ℕ → Text → ℕ
hash_func1 h [] = h
hash_func1 h (c ∷ s) = hash_func1 ((h * 37 + c) % 2 ^ 32) s

pub record Cell : Type 0 where
  pub str : Text
  pub tok : Token

-- `cell->mLink = table[pos]; table[pos] = cell`
unfoldable pub push_cell : List (List Cell) → ℕ → Cell → List (List Cell)
push_cell table pos cell = set table pos (cell ∷ get_or table pos [])

pub record RsrvWordDic : Type 0 where
  pub size : ℕ
  pub table1 : List (List Cell)
  pub table2 : List (List Cell)

-- The constructor, over the array `init_data`; `num` numbers the tokens. Each `p.mStr[0]` is ASCII.
module _ (num : Token → ℕ) where
  unfoldable pub add_cells : ℕ → List Cell → RsrvWordDic → RsrvWordDic
  unfolding push_cell
  add_cells size [] dic = dic
  add_cells size (p ∷ ps) dic = add_cells size ps (record dic {
    table1 = push_cell dic.table1 (hash_func1 0 p.str % size) p;
    table2 = push_cell dic.table2 (num p.tok % size) p;
  })

  unfoldable pub new_dic : List Cell → RsrvWordDic
  unfolding add_cells
  new_dic cells =
      let n = length cells in
      add_cells n cells (record { size = n; table1 = replicate n []; table2 = replicate n [] })

  -- The loop of `str` over one chain.
  unfoldable pub find_tok : Token → List Cell → Option Text
  find_tok token [] = none
  find_tok token (cell ∷ chain) =
      if num token == num cell.tok then some cell.str else find_tok token chain

  unfoldable pub str : RsrvWordDic → Token → Option Text
  unfolding find_tok
  str dic token = find_tok token (get_or dic.table2 (num token % dic.size) [])

-- The loop of `token` over one chain.
unfoldable pub find_str : Text → List Cell → Option Token
unfolding str_eq
find_str s [] = none
find_str s (cell ∷ chain) = if str_eq s cell.str then some cell.tok else find_str s chain

abbrev pub or_symbol : Option Token → Token
or_symbol none = Token.symbol
or_symbol (some t) = t

unfoldable pub token : RsrvWordDic → Text → Token
unfolding find_str hash_func1
token dic s = or_symbol (find_str s (get_or dic.table1 (hash_func1 0 s % dic.size) []))
