-- ===== src/Scanner/Reals.antt =====
-- Real and negative numbers in scan() (src/parser/YmslScanner.cc).
use mathlib.Core.List.{append_assoc, append-nil}
use ymsl.Base.{ℕ, ◌≡◌, refl, ◌∙◌, Bool, true, false, ◌||◌, [], ◌∷◌, ◌++◌, arith, ◌==◌}
use ymsl.Scanner.Token.{Token}
use ymsl.Scanner.Chars.{is_digit, is_alpha, is_symbol, is_word}
use ymsl.Scanner.RsrvWordDic.{Text, RsrvWordDic}
use ymsl.Scanner.Lexemes.{scanned, st_num1, st_num2, st_numdot, st_dot, st_minus}
use ymsl.Scanner.Scan.{lexeme, single, operator, is_blank, at_init, scan_from, scan}
use ymsl.Scanner.Munch.{Every, Stops, is_digit_or_dot, st_num1_lem, lexeme_at_init, digit_no_symbol}

-- The characters that go on a fraction, or start its exponent.
abbrev pub is_digit_or_exp : ℕ → Bool
is_digit_or_exp c = is_digit c || (c == b'e' || c == b'E')

st_num2_lem :
    (cur w rest : Text)
    → Every is_digit w
    → Stops is_digit_or_exp rest
    → st_num2 cur (w ++ rest) ≡ scanned Token.float_val (cur ++ w) rest
unfolding st_num2
st_num2_lem cur [] [] hw hr = rw append-nil
st_num2_lem cur [] (c ∷ s) hw hr = rw append-nil (ground arith)
st_num2_lem cur (c ∷ w) rest hw hr =
    rw hw.0 (st_num2_lem (cur ++ c ∷ []) w rest hw.1 hr ∙ rw append_assoc)

no_digit : (is_digit b'.' ≡ false) × (is_digit b'-' ≡ false)
unfolding is_digit
no_digit = (refl, refl)

digit_tests : (c : ℕ) → is_digit c ≡ true → ((c == b'=') ≡ false) × ((c == b'-') ≡ false)
unfolding is_digit
digit_tests c h = (ground arith, ground arith)

module _ (dic : RsrvWordDic) (d : ℕ) (v rest : Text) (hd : is_digit d ≡ true)
    (hv : Every is_digit v) (hr : Stops is_digit_or_exp rest) where
  st_num1_dot :
      (cur w : Text)
      → Every is_digit w
      → st_num1 cur (w ++ b'.' ∷ d ∷ v ++ rest)
        ≡ scanned Token.float_val (cur ++ w ++ b'.' ∷ d ∷ v) rest
  unfolding st_num1 st_numdot is_digit
  st_num1_dot cur [] hw =
      rw hd (st_num2_lem ((cur ++ b'.' ∷ []) ++ d ∷ []) v rest hv hr ∙ simp append_assoc)
  st_num1_dot cur (c ∷ w) hw = rw hw.0 (st_num1_dot (cur ++ c ∷ []) w hw.1 ∙ simp append_assoc)

  -- Digits, a dot and digits are one real number, whose text is all of them.
  pub scan-real :
      (c : ℕ) (w : Text)
      → is_digit c ≡ true
      → Every is_digit w
      → scan dic (c ∷ w ++ b'.' ∷ d ∷ v ++ rest)
        ≡ scanned Token.float_val (c ∷ w ++ b'.' ∷ d ∷ v) rest
  unfolding lexeme is_word
  scan-real c w hc hw =
      lexeme_at_init dic c _ (rw (hc, digit_no_symbol c hc))
      ∙ rw (digit_no_symbol c hc, hc) (st_num1_dot (c ∷ []) w hw)

  -- A real number that starts with its dot is scanned with a text that has the dot twice.
  pub scan-dot_real :
      scan dic (b'.' ∷ d ∷ v ++ rest) ≡ scanned Token.float_val (b'.' ∷ b'.' ∷ d ∷ v) rest
  unfolding scan scan_from at_init lexeme is_blank is_symbol is_alpha st_dot
  scan-dot_real = rw (no_digit.0, hd) (st_num2_lem (b'.' ∷ b'.' ∷ d ∷ []) v rest hv hr)

-- A minus sign with digits right behind it is one negative integer, also behind an operand.
pub scan-negative :
    (dic : RsrvWordDic) (c : ℕ) (w rest : Text)
    → is_digit c ≡ true
    → Every is_digit w
    → Stops is_digit_or_dot rest
    → scan dic (b'-' ∷ c ∷ w ++ rest) ≡ scanned Token.int_val (b'-' ∷ c ∷ w) rest
unfolding scan scan_from at_init lexeme is_blank is_symbol is_alpha single operator st_minus
scan-negative dic c w rest hc hw hr =
    rw (no_digit.1, (digit_tests c hc).0, (digit_tests c hc).1, hc)
      (st_num1_lem (b'-' ∷ c ∷ []) w rest hw hr)
