-- ===== src/Scanner/Words.antt =====
-- The array `init_data` of the dictionary, entry by entry (src/parser/RsrvWordDic.cc).
use Prim.Native.Char.{code}
use Prim.Native.String.{String}
use ymsl.Base.{List, [], ◌∷◌}
use ymsl.Scanner.Token.{Token}
use ymsl.Scanner.RsrvWordDic.{Text, Cell}

-- The bytes of an ASCII text.
abbrev pub codes : String → Text
codes String.[] = []
codes (String.◌∷◌ c s) = code c ∷ codes s

abbrev cell : String → Token → Cell
cell s t = record { str = codes s; tok = t }

unfoldable pub init_data : List Cell
init_data =
    cell ":" Token.colon
    ∷ cell ";" Token.semi
    ∷ cell "," Token.comma
    ∷ cell "." Token.dot
    ∷ cell "?" Token.qst
    ∷ cell "++" Token.plusplus
    ∷ cell "--" Token.minusminus
    ∷ cell "=" Token.eq
    ∷ cell "+=" Token.eqplus
    ∷ cell "-=" Token.eqminus
    ∷ cell "*=" Token.eqmult
    ∷ cell "/=" Token.eqdiv
    ∷ cell "%=" Token.eqmod
    ∷ cell "<<=" Token.eqlshift
    ∷ cell ">>=" Token.eqrshift
    ∷ cell "&=" Token.eqbitand
    ∷ cell "|=" Token.eqbitor
    ∷ cell "^=" Token.eqbitxor
    ∷ cell "(" Token.lp
    ∷ cell ")" Token.rp
    ∷ cell "{" Token.lcb
    ∷ cell "}" Token.rcb
    ∷ cell "[" Token.lbk
    ∷ cell "]" Token.rbk
    ∷ cell "+" Token.plus
    ∷ cell "-" Token.minus
    ∷ cell "*" Token.mult
    ∷ cell "/" Token.div
    ∷ cell "%" Token.mod_sign
    ∷ cell "not" Token.lognot
    ∷ cell "and" Token.logand
    ∷ cell "or" Token.logor
    ∷ cell "~" Token.bitneg
    ∷ cell "&" Token.bitand
    ∷ cell "|" Token.bitor
    ∷ cell "^" Token.bitxor
    ∷ cell "<<" Token.lshift
    ∷ cell ">>" Token.rshift
    ∷ cell "==" Token.eqeq
    ∷ cell "!=" Token.noteq
    ∷ cell "<" Token.lt
    ∷ cell ">" Token.gt
    ∷ cell "<=" Token.le
    ∷ cell ">=" Token.ge
    ∷ cell "array" Token.array_word
    ∷ cell "as" Token.as_word
    ∷ cell "boolean" Token.boolean_word
    ∷ cell "break" Token.break_word
    ∷ cell "case" Token.case_word
    ∷ cell "const" Token.const_word
    ∷ cell "continue" Token.continue_word
    ∷ cell "default" Token.default_word
    ∷ cell "do" Token.do_word
    ∷ cell "elif" Token.elif_word
    ∷ cell "else" Token.else_word
    ∷ cell "enum" Token.enum_word
    ∷ cell "false" Token.false_word
    ∷ cell "float" Token.float_word
    ∷ cell "for" Token.for_word
    ∷ cell "function" Token.function_word
    ∷ cell "goto" Token.goto_word
    ∷ cell "if" Token.if_word
    ∷ cell "import" Token.import_word
    ∷ cell "int" Token.int_word
    ∷ cell "map" Token.map_word
    ∷ cell "return" Token.return_word
    ∷ cell "set" Token.set_word
    ∷ cell "string" Token.string_word
    ∷ cell "switch" Token.switch_word
    ∷ cell "true" Token.true_word
    ∷ cell "var" Token.var_word
    ∷ cell "void" Token.void_word
    ∷ cell "while" Token.while_word
    ∷ cell "_int_" Token.int_val
    ∷ cell "_dummy_" Token.dummy
    ∷ cell "_error_" Token.error
    ∷ cell "_float_" Token.float_val
    ∷ cell "_string_" Token.string_val
    ∷ cell "_symbol_" Token.symbol
    ∷ []
