-- ===== src/Scanner/Spelling.antt =====
-- The reserved words and signs of `init_data` scanned back (src/parser/RsrvWordDic.cc and
-- src/parser/YmslScanner.cc).
use ymsl.Base.{ℕ, ◌≡◌, refl, ◌∷◌, ◌++◌, map}
use ymsl.Scanner.Token.{Token}
use ymsl.Scanner.Chars.{is_symbol, is_digit, is_word}
use ymsl.Scanner.RsrvWordDic.{Text, RsrvWordDic, new_dic, token}
use ymsl.Scanner.Words.{init_data}
use ymsl.Scanner.Scan.{scan}

-- The token that an input starts with, and what is left behind it.
abbrev pub first_token : RsrvWordDic → Text → Token × Text
first_token dic s = ((scan dic s).token, (scan dic s).rest)

-- Every spelling of the array, with a blank and anything else behind it, is scanned as the token
-- that the array gives it, and the blank is what is left; whatever the token numbers are.
pub scan-init_data :
    (num : Token → ℕ) (rest : Text)
    → map (λ cell. first_token (new_dic num init_data) (cell.str ++ b' ' ∷ rest)) init_data
      ≡ map (λ cell. (cell.tok, b' ' ∷ rest)) init_data
unfolding scan new_dic init_data token is_symbol is_digit is_word
scan-init_data num rest = refl
