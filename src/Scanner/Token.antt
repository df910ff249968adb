-- ===== src/Scanner/Token.antt =====
-- The token kinds of the grammar (the token declarations of src/parser/grammer.yy, which
-- src/parser/YmslScanner.cc and src/parser/RsrvWordDic.cc use under the same names in capitals).
-- A kind whose name is a word of the language has `_word` behind it, and MOD is `mod_sign`.

pub data Token : Type 0 where
  colon semi comma dot qst plusplus minusminus : Token
  eq eqplus eqminus eqmult eqdiv eqmod eqlshift eqrshift eqbitand eqbitor eqbitxor : Token
  lp rp lcb rcb lbk rbk : Token
  plus minus mult div mod_sign lognot logand logor bitneg bitand bitor bitxor lshift rshift : Token
  eqeq noteq lt gt le ge : Token
  class_word array_word as_word boolean_word break_word case_word const_word continue_word
        default_word :
      Token
  do_word elif_word else_word enum_word false_word float_word for_word function_word : Token
  goto_word if_word import_word int_word map_word return_word set_word string_word : Token
  switch_word true_word var_word void_word while_word : Token
  int_val dummy error float_val string_val symbol : Token
  eof : Token
