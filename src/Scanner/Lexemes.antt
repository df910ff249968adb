-- ===== src/Scanner/Lexemes.antt =====
-- The states of YmslScanner::scan() that end in a token without going back to ST_INIT
-- (src/parser/YmslScanner.cc). The input is the list of the characters that are still to come;
-- its end is EOF. `peek()` looks at the head, `accept()` and `get()` drop it. `cur` is the string
-- that `put_char` has built so far.
use ymsl.Base.{ℕ, ◌||◌, [], ◌∷◌, ◌++◌, ◌==◌, if◌then◌else◌}
use ymsl.Scanner.Token.{Token}
use ymsl.Scanner.Chars.{is_digit, is_word}
use ymsl.Scanner.RsrvWordDic.{Text, RsrvWordDic, token}

-- What a call of scan() leaves: the token, `mCurString`, and the input behind the token.
pub record Scanned : Type 0 where
  pub token : Token
  pub str : Text
  pub rest : Text

abbrev pub scanned : Token → Text → Text → Scanned
scanned t str rest = record { token = t; str = str; rest = rest }

unfoldable pub st_num4 : Text → Text → Scanned
st_num4 cur [] = scanned Token.float_val cur []
st_num4 cur (c ∷ s) =
    let next = st_num4 (cur ++ c ∷ []) s in
    if is_digit c then next else scanned Token.float_val cur (c ∷ s)

unfoldable pub st_num3 : Text → Text → Scanned
unfolding st_num4
st_num3 cur [] = scanned Token.error cur []
st_num3 cur (c ∷ s) =
    if is_digit c
    then st_num4 (cur ++ c ∷ []) s
    else if c == b'+' || c == b'-'
    then st_num4 (cur ++ c ∷ []) s
    else scanned Token.error cur (c ∷ s)

unfoldable pub st_num2 : Text → Text → Scanned
unfolding st_num3
st_num2 cur [] = scanned Token.float_val cur []
st_num2 cur (c ∷ s) =
    let next = st_num2 (cur ++ c ∷ []) s in
    if is_digit c
    then next
    else if c == b'e' || c == b'E'
    then st_num3 (cur ++ c ∷ []) s
    else scanned Token.float_val cur (c ∷ s)

unfoldable pub st_numdot : Text → Text → Scanned
unfolding st_num2
st_numdot cur [] = scanned Token.error cur []
st_numdot cur (c ∷ s) =
    if is_digit c then st_num2 (cur ++ c ∷ []) s else scanned Token.error cur (c ∷ s)

unfoldable pub st_num1 : Text → Text → Scanned
unfolding st_numdot
st_num1 cur [] = scanned Token.int_val cur []
st_num1 cur (c ∷ s) =
    let next = st_num1 (cur ++ c ∷ []) s in
    if is_digit c
    then next
    else if c == b'.'
    then st_numdot (cur ++ c ∷ []) s
    else scanned Token.int_val cur (c ∷ s)

-- Behind '.', which `put_char` has already added to `mCurString`.
unfoldable pub st_dot : Text → Text → Scanned
unfolding st_num2
st_dot cur [] = scanned Token.dot cur []
st_dot cur (c ∷ s) =
    if is_digit c then st_num2 ((cur ++ b'.' ∷ []) ++ c ∷ []) s else scanned Token.dot cur (c ∷ s)

-- The string of a word is looked up in the dictionary.
unfoldable pub st_id : RsrvWordDic → Text → Text → Scanned
st_id dic cur [] = scanned (token dic cur) cur []
st_id dic cur (c ∷ s) =
    let next = st_id dic (cur ++ c ∷ []) s in
    if is_word c then next else scanned (token dic cur) cur (c ∷ s)

-- In a quoted string. A backslash is dropped before a newline, and kept before anything else; what
-- stands behind it is kept. Behind a backslash at the end of the input the character EOF is added,
-- and the string is unfinished.
unfoldable pub st_dq : Text → Text → Scanned
st_dq cur [] = scanned Token.error cur []
st_dq cur (c ∷ []) =
    if c == b'"'
    then scanned Token.string_val cur []
    else if c == 10
    then scanned Token.error cur []
    else if c == 92
    then scanned Token.error (cur ++ 92 ∷ 255 ∷ []) []
    else scanned Token.error (cur ++ c ∷ []) []
st_dq cur (c ∷ d ∷ s) =
    let escaped = st_dq (cur ++ (if d == 10 then d ∷ [] else 92 ∷ d ∷ [])) s in
    let plain = st_dq (cur ++ c ∷ []) (d ∷ s) in
    if c == b'"'
    then scanned Token.string_val cur (d ∷ s)
    else if c == 10
    then scanned Token.error cur (d ∷ s)
    else if c == 92
    then escaped
    else plain

-- The states of an operator that may have '=' behind it, ST_MULT and its like.
unfoldable pub st_assign : Token → Token → Text → Scanned
st_assign alone with_eq [] = scanned alone [] []
st_assign alone with_eq (c ∷ s) =
    if c == b'=' then scanned with_eq [] s else scanned alone [] (c ∷ s)

unfoldable pub st_plus : Text → Scanned
st_plus [] = scanned Token.plus [] []
st_plus (c ∷ s) =
    if c == b'='
    then scanned Token.eqplus [] s
    else if c == b'+'
    then scanned Token.plusplus [] s
    else scanned Token.plus [] (c ∷ s)

-- A digit behind '-' starts a negative number.
unfoldable pub st_minus : Text → Scanned
unfolding st_num1
st_minus [] = scanned Token.minus [] []
st_minus (c ∷ s) =
    if c == b'='
    then scanned Token.eqminus [] s
    else if c == b'-'
    then scanned Token.minusminus [] s
    else if is_digit c
    then st_num1 (b'-' ∷ c ∷ []) s
    else scanned Token.minus [] (c ∷ s)

unfoldable pub st_not : Text → Scanned
st_not [] = scanned Token.error [] []
st_not (c ∷ s) = if c == b'=' then scanned Token.noteq [] s else scanned Token.error [] (c ∷ s)

-- ST_LT and ST_GT: `first` behind itself is a shift.
unfoldable pub st_angle : ℕ → Token → Token → Token → Token → Text → Scanned
unfolding st_assign
st_angle first alone with_eq shift shift_eq [] = scanned alone [] []
st_angle first alone with_eq shift shift_eq (c ∷ s) =
    if c == b'='
    then scanned with_eq [] s
    else if c == first
    then st_assign shift shift_eq s
    else scanned alone [] (c ∷ s)
