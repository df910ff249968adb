-- ===== src/Scanner/Tests.antt =====
-- Runs of the scanner over its own dictionary.
use mathlib.Core.List.{reverse}
use ymsl.Base.{ℕ, ◌≡◌, refl, some, List, [], ◌∷◌, ◌++◌, map, arith}
use ymsl.Scanner.Token.{Token}
use ymsl.Scanner.RsrvWordDic.{Text, RsrvWordDic, new_dic, token, str, find_str, find_tok, or_symbol}
use ymsl.Scanner.Chars.{is_symbol, is_digit, is_word, is_alpha}
use ymsl.Scanner.Words.{codes, init_data}
use ymsl.Scanner.Lexemes.{Scanned, scanned}
use ymsl.Scanner.Scan.{scan, YmslScanner, is_dummy}
use ymsl.Scanner.Progress.{Leaves, scan-Leaves}
use ymsl.Scanner.Driver.{read_all, read_all_total}
use ymsl.Scanner.Munch.{scan-word, scan-digits}
use ymsl.Scanner.Reals.{scan-real, scan-dot_real, scan-negative}
use ymsl.Scanner.Layout.{scan-string, scan-block_comment, scan-open_comment}
use ymsl.Scanner.Dictionary.{new_dic-find}
use ymsl.Scanner.Spelling.{first_token, scan-init_data}

abbrev num : Token → ℕ
num t = 0

dic : RsrvWordDic
unfolding new_dic init_data
dic = new_dic num init_data

abbrev rest : Text
rest = codes " = x"

run : Text → Scanned
unfolding dic scan token is_symbol is_digit is_word
run = scan dic

while_word : run (codes "  /* x **/ while(") ≡ scanned Token.while_word (codes "while") (codes "(")
unfolding run
while_word = refl

minus_number : run (codes "-1.5e+3;") ≡ scanned Token.float_val (codes "-1.5e+3") (codes ";")
unfolding run
minus_number = refl

scan-Leaves_example : Leaves (codes "f x") (scan dic (codes "if x"))
scan-Leaves_example = scan-Leaves dic b'i' (codes "f x")

abbrev fresh : YmslScanner
fresh = record { input = codes "a /* b"; cur_string = []; unget = Token.dummy }

read_all_total_example : (ts : List Token) × (read_all dic 7 fresh ≡ some ts)
unfolding is_dummy
read_all_total_example = read_all_total dic 7 fresh refl (omega arith)

new_dic-find_example :
    (token (new_dic num init_data) (codes "goto")
      ≡ or_symbol (find_str (codes "goto") (reverse init_data)))
    × (str num (new_dic num init_data) Token.goto_word
        ≡ find_tok num Token.goto_word (reverse init_data))
new_dic-find_example = new_dic-find num init_data (codes "goto") Token.goto_word

scan-init_data_example :
    map (λ cell. first_token (new_dic num init_data) (cell.str ++ b' ' ∷ rest)) init_data
    ≡ map (λ cell. (cell.tok, b' ' ∷ rest)) init_data
scan-init_data_example = scan-init_data num rest

scan-word_example : scan dic (codes "x1 = x") ≡ scanned (token dic (codes "x1")) (codes "x1") rest
unfolding is_word is_digit is_symbol is_alpha
scan-word_example = scan-word dic b'x' (codes "1") rest refl (refl, tt) refl

scan-digits_example : scan dic (codes "42 = x") ≡ scanned Token.int_val (codes "42") rest
unfolding is_digit
scan-digits_example = scan-digits dic b'4' (codes "2") rest refl (refl, tt) refl

scan-real_example : scan dic (codes "4.25 = x") ≡ scanned Token.float_val (codes "4.25") rest
unfolding is_digit
scan-real_example = scan-real dic b'2' (codes "5") rest refl (refl, tt) refl b'4' [] refl tt

scan-dot_real_example : scan dic (codes ".25 = x") ≡ scanned Token.float_val (codes "..25") rest
unfolding is_digit
scan-dot_real_example = scan-dot_real dic b'2' (codes "5") rest refl (refl, tt) refl

scan-negative_example : scan dic (codes "-12 = x") ≡ scanned Token.int_val (codes "-12") rest
unfolding is_digit
scan-negative_example = scan-negative dic b'1' (codes "2") rest refl (refl, tt) refl

scan-string_example : scan dic (codes "\"ab\" = x") ≡ scanned Token.string_val (codes "ab") rest
scan-string_example = scan-string dic (codes "ab") rest (refl, (refl, tt))

scan-block_comment_example : scan dic (codes "/*a**/x") ≡ scan dic (codes "x")
scan-block_comment_example = scan-block_comment dic (codes "a*") (codes "x") (refl, (refl, tt))

scan-open_comment_example : scan dic (codes "/*a*") ≡ scanned Token.error [] []
scan-open_comment_example = scan-open_comment dic (codes "a*") (refl, (refl, tt))
