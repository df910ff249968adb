-- ===== src/Scanner/Munch.antt =====
-- What scan() makes of words, numbers, quoted strings, blanks and comments
-- (src/parser/YmslScanner.cc): each lexeme extends as far as it can.
use mathlib.Core.List.{append_assoc, append-nil}
use ymsl.Base.{ℕ, ◌≡◌, ◌∙◌, Bool, true, false, ◌||◌, [], ◌∷◌, ◌++◌, arith, ◌==◌}
use ymsl.Scanner.Token.{Token}
use ymsl.Scanner.Chars.{is_digit, is_alpha, is_symbol, is_word}
use ymsl.Scanner.RsrvWordDic.{Text, RsrvWordDic, token}
use ymsl.Scanner.Lexemes.{scanned, st_num1, st_id}
use ymsl.Scanner.Scan.{lexeme, is_blank, at_init, scan_from, scan}

-- All characters of a text pass a test.
abbrev pub Every : (ℕ → Bool) → Text → Type 0
Every p [] = Unit
Every p (c ∷ s) = (p c ≡ true) × Every p s

-- A text is empty, or its first character fails the test.
abbrev pub Stops : (ℕ → Bool) → Text → Type 0
Stops p [] = Unit
Stops p (c ∷ s) = p c ≡ false

st_id_lem :
    (dic : RsrvWordDic) (cur w rest : Text)
    → Every is_word w
    → Stops is_word rest
    → st_id dic cur (w ++ rest) ≡ scanned (token dic (cur ++ w)) (cur ++ w) rest
unfolding st_id
st_id_lem dic cur [] [] hw hr = rw append-nil
st_id_lem dic cur [] (c ∷ s) hw hr = rw (append-nil, hr)
st_id_lem dic cur (c ∷ w) rest hw hr =
    rw hw.0 (st_id_lem dic (cur ++ c ∷ []) w rest hw.1 hr ∙ rw (append_assoc))

pub lexeme_at_init :
    (dic : RsrvWordDic) (c : ℕ) (s : Text) → is_word c ≡ true → scan dic (c ∷ s) ≡ lexeme dic c s
unfolding scan scan_from at_init is_blank is_word is_symbol is_digit is_alpha
lexeme_at_init dic c s h = ground arith

-- A word, up to the first character that no word can have, is one token: what the dictionary says
-- of exactly this word.
pub scan-word :
    (dic : RsrvWordDic) (c : ℕ) (w rest : Text)
    → is_symbol c ≡ true
    → Every is_word w
    → Stops is_word rest
    → scan dic (c ∷ w ++ rest) ≡ scanned (token dic (c ∷ w)) (c ∷ w) rest
unfolding lexeme is_word
scan-word dic c w rest hc hw hr =
    lexeme_at_init dic c (w ++ rest) (rw hc) ∙ rw hc (st_id_lem dic (c ∷ []) w rest hw hr)

-- The characters that go on an integer, or turn it into a real number.
abbrev pub is_digit_or_dot : ℕ → Bool
is_digit_or_dot c = is_digit c || c == b'.'

pub st_num1_lem :
    (cur w rest : Text)
    → Every is_digit w
    → Stops is_digit_or_dot rest
    → st_num1 cur (w ++ rest) ≡ scanned Token.int_val (cur ++ w) rest
unfolding st_num1
st_num1_lem cur [] [] hw hr = rw append-nil
st_num1_lem cur [] (c ∷ s) hw hr = rw append-nil (ground arith)
st_num1_lem cur (c ∷ w) rest hw hr =
    rw hw.0 (st_num1_lem (cur ++ c ∷ []) w rest hw.1 hr ∙ rw append_assoc)

pub digit_no_symbol : (c : ℕ) → is_digit c ≡ true → is_symbol c ≡ false
unfolding is_digit is_symbol is_alpha
digit_no_symbol c h = ground arith

-- A run of digits is one integer, whose text is the run.
pub scan-digits :
    (dic : RsrvWordDic) (c : ℕ) (w rest : Text)
    → is_digit c ≡ true
    → Every is_digit w
    → Stops is_digit_or_dot rest
    → scan dic (c ∷ w ++ rest) ≡ scanned Token.int_val (c ∷ w) rest
unfolding lexeme is_word
scan-digits dic c w rest hc hw hr =
    lexeme_at_init dic c (w ++ rest) (rw (hc, digit_no_symbol c hc))
    ∙ rw (digit_no_symbol c hc, hc) (st_num1_lem (c ∷ []) w rest hw hr)
