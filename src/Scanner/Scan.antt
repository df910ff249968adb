-- ===== src/Scanner/Scan.antt =====
-- YmslScanner::scan(), read_token() and unget_token() (src/parser/YmslScanner.cc).
use ymsl.Base.{ℕ, Bool, true, false, ◌||◌, Option, none, some, [], ◌∷◌, ◌==◌, if◌then◌else◌}
use ymsl.Scanner.Token.{Token}
use ymsl.Scanner.Chars.{is_digit, is_symbol}
use ymsl.Scanner.RsrvWordDic.{Text, RsrvWordDic}
use ymsl.Scanner.Lexemes.{
  Scanned, scanned, st_num1, st_dot, st_id, st_dq, st_assign, st_plus, st_minus, st_not, st_angle,
}

-- The characters that are a token by themselves.
unfoldable pub single : ℕ → Option Token
single c =
    if c == b':'
    then some Token.colon
    else if c == b';'
    then some Token.semi
    else if c == b','
    then some Token.comma
    else if c == b'?'
    then some Token.qst
    else if c == b'~'
    then some Token.bitneg
    else if c == b'('
    then some Token.lp
    else if c == b')'
    then some Token.rp
    else if c == b'{'
    then some Token.lcb
    else if c == b'}'
    then some Token.rcb
    else if c == b'['
    then some Token.lbk
    else if c == b']'
    then some Token.rbk
    else none

-- The characters that start an operator of more than one character, but '/'; any other is an error.
unfoldable pub operator : ℕ → Text → Scanned
unfolding st_assign st_plus st_minus st_not st_angle
operator c s =
    if c == b'+'
    then st_plus s
    else if c == b'-'
    then st_minus s
    else if c == b'*'
    then st_assign Token.mult Token.eqmult s
    else if c == b'%'
    then st_assign Token.mod_sign Token.eqmod s
    else if c == b'!'
    then st_not s
    else if c == b'&'
    then st_assign Token.bitand Token.eqbitand s
    else if c == b'|'
    then st_assign Token.bitor Token.eqbitor s
    else if c == b'^'
    then st_assign Token.bitxor Token.eqbitxor s
    else if c == b'='
    then st_assign Token.eq Token.eqeq s
    else if c == b'<'
    then st_angle b'<' Token.lt Token.le Token.lshift Token.eqlshift s
    else if c == b'>'
    then st_angle b'>' Token.gt Token.ge Token.rshift Token.eqrshift s
    else scanned Token.error [] s

-- A character that is neither blank, backslash nor '/', in ST_INIT.
unfoldable pub lexeme : RsrvWordDic → ℕ → Text → Scanned
unfolding single operator st_dq st_dot st_id st_num1
lexeme dic c s =
    if is_symbol c
    then st_id dic (c ∷ []) s
    else if is_digit c
    then st_num1 (c ∷ []) s
    else if c == b'.'
    then st_dot (c ∷ []) s
    else if c == b'"'
    then st_dq [] s
    else elim (single c) [ some t ↦ scanned t [] s | none ↦ operator c s ]

unfoldable pub is_blank : ℕ → Bool
is_blank c = c == b' ' || (c == 9 || c == 10)

-- The states in which no token has been begun: ST_INIT, behind a backslash, ST_DIV, and the
-- comments (`block_star` is ST_COMMENT4, behind a '*').
pub data Mode : Type 0 where
  init backslash slash line_comment block_comment block_star : Mode

-- ST_INIT at the character `c`; `next m` goes on in the state `m` with the input behind `c`.
unfoldable pub at_init : RsrvWordDic → ℕ → Text → (Mode → Scanned) → Scanned
unfolding lexeme is_blank
at_init dic c s next =
    if is_blank c
    then next Mode.init
    else if c == 92
    then next Mode.backslash
    else if c == b'/'
    then next Mode.slash
    else lexeme dic c s

unfoldable pub at_end : Mode → Scanned
at_end Mode.slash = scanned Token.div [] []
at_end Mode.block_comment = scanned Token.error [] []
at_end Mode.block_star = scanned Token.error [] []
at_end _ = scanned Token.eof [] []

unfoldable pub scan_from : RsrvWordDic → Mode → Text → Scanned
unfolding at_init at_end
scan_from dic m [] = at_end m
scan_from dic Mode.init (c ∷ s) = at_init dic c s (λ m. scan_from dic m s)
scan_from dic Mode.backslash (c ∷ s) =
    let next = scan_from dic Mode.init s in
    if c == 10 then next else at_init dic c s (λ m. scan_from dic m s)
scan_from dic Mode.slash (c ∷ s) =
    let line = scan_from dic Mode.line_comment s in
    let block = scan_from dic Mode.block_comment s in
    if c == b'='
    then scanned Token.eqdiv [] s
    else if c == b'/'
    then line
    else if c == b'*'
    then block
    else scanned Token.div [] (c ∷ s)
scan_from dic Mode.line_comment (c ∷ s) =
    scan_from dic (if c == 10 then Mode.init else Mode.line_comment) s
scan_from dic Mode.block_comment (c ∷ s) =
    scan_from dic (if c == b'*' then Mode.block_star else Mode.block_comment) s
scan_from dic Mode.block_star (c ∷ s) =
    scan_from dic
      (if c == b'/' then Mode.init else if c == b'*' then Mode.block_star else Mode.block_comment) s

unfoldable pub scan : RsrvWordDic → Text → Scanned
unfolding scan_from
scan dic s = scan_from dic Mode.init s

unfoldable pub is_dummy : Token → Bool
is_dummy Token.dummy = true
is_dummy _ = false

-- The scanner's own state: the input, the string of the last token, and the token put back, which
-- is DUMMY when there is none.
pub record YmslScanner : Type 0 where
  pub input : Text
  pub cur_string : Text
  pub unget : Token

unfoldable pub read_token : RsrvWordDic → YmslScanner → Token × YmslScanner
unfolding scan is_dummy
read_token dic sc =
    if is_dummy sc.unget
    then (let r = scan dic sc.input in (r.token, record sc { input = r.rest; cur_string = r.str }))
    else (sc.unget, record sc { unget = Token.dummy })

-- `ASSERT_COND( mUngetToken == DUMMY )` is a guard: without it the call has no result.
unfoldable pub unget_token : Token → YmslScanner → Option YmslScanner
unfolding is_dummy
unget_token t sc = if is_dummy sc.unget then some (record sc { unget = t }) else none
