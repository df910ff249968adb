-- ===== src/Scanner/Layout.antt =====
-- Quoted strings, blanks and comments in scan() (src/parser/YmslScanner.cc).
use mathlib.Core.List.{append_assoc, append-nil}
use ymsl.Base.{ℕ, ◌≡◌, refl, Bool, true, ◌&&◌, not, [], ◌∷◌, ◌++◌, arith, ◌==◌}
use ymsl.Scanner.Token.{Token}
use ymsl.Scanner.Chars.{is_digit, is_alpha, is_symbol}
use ymsl.Scanner.RsrvWordDic.{Text, RsrvWordDic}
use ymsl.Scanner.Lexemes.{scanned, st_dq}
use ymsl.Scanner.Scan.{Mode, lexeme, is_blank, at_init, at_end, scan_from, scan}
use ymsl.Scanner.Munch.{Every}

-- A character that a quoted string takes as it is.
abbrev pub is_plain : ℕ → Bool
is_plain c = not (c == b'"') && (not (c == 10) && not (c == 92))

st_dq_lem :
    (cur w rest : Text)
    → Every is_plain w
    → st_dq cur (w ++ b'"' ∷ rest) ≡ scanned Token.string_val (cur ++ w) rest
unfolding st_dq
st_dq_lem cur [] [] hw = rw append-nil
st_dq_lem cur [] (d ∷ rest) hw = rw append-nil
st_dq_lem cur (c ∷ []) rest hw =
    ground (arith, st_dq_lem (cur ++ c ∷ []) [] rest tt, append-nil (cur ++ c ∷ []))
st_dq_lem cur (c ∷ d ∷ w) rest hw =
    ground (arith, st_dq_lem (cur ++ c ∷ []) (d ∷ w) rest hw.1, append_assoc cur (c ∷ []) (d ∷ w))

-- A quoted text without quotes, newlines and backslashes is one string with exactly this text.
pub scan-string :
    (dic : RsrvWordDic) (w rest : Text)
    → Every is_plain w
    → scan dic (b'"' ∷ w ++ b'"' ∷ rest) ≡ scanned Token.string_val w rest
unfolding scan scan_from at_init is_blank lexeme is_symbol is_digit is_alpha
scan-string dic w rest hw = st_dq_lem [] w rest hw

-- Blanks before a token are skipped.
scan-blanks :
    (dic : RsrvWordDic) (w rest : Text) → Every is_blank w → scan dic (w ++ rest) ≡ scan dic rest
unfolding scan scan_from at_init
scan-blanks dic [] rest hw = refl
scan-blanks dic (c ∷ w) rest hw = rw hw.0 (scan-blanks dic w rest hw.1)

line_lem :
    (dic : RsrvWordDic) (w rest : Text)
    → Every (λ c. not (c == 10)) w
    → scan_from dic Mode.line_comment (w ++ 10 ∷ rest) ≡ scan_from dic Mode.init rest
unfolding scan_from
line_lem dic [] rest hw = refl
line_lem dic (c ∷ w) rest hw = ground (arith, line_lem dic w rest hw.1)

-- A comment of one line is skipped with its newline.
scan-line_comment :
    (dic : RsrvWordDic) (w rest : Text)
    → Every (λ c. not (c == 10)) w
    → scan dic (b'/' ∷ b'/' ∷ w ++ 10 ∷ rest) ≡ scan dic rest
unfolding scan scan_from at_init is_blank
scan-line_comment dic w rest hw = line_lem dic w rest hw

-- A star and a slash do not meet at this place.
abbrev pub no_close : ℕ → Text → Bool
no_close c [] = true
no_close c (d ∷ s) = not (c == b'*' && d == b'/')

-- The text holds no end of a comment.
abbrev pub NoClose : Text → Type 0
NoClose [] = Unit
NoClose (c ∷ s) = (no_close c s ≡ true) × NoClose s

module _ (dic : RsrvWordDic) where
  block_lem :
      (w rest : Text)
      → (NoClose w
          → scan_from dic Mode.block_comment (w ++ b'*' ∷ b'/' ∷ rest)
            ≡ scan_from dic Mode.init rest)
        × (NoClose (b'*' ∷ w)
            → scan_from dic Mode.block_star (w ++ b'*' ∷ b'/' ∷ rest)
              ≡ scan_from dic Mode.init rest)
  unfolding scan_from
  block_lem [] rest = (λ h. refl, λ h. refl)
  block_lem (c ∷ w) rest = (
    λ h. ground (arith, block_lem w rest, h.0, h.1),
    λ h. ground (arith, block_lem w rest, h.0, h.1),
  )

  -- A comment between slash-star and the first star-slash is skipped.
  pub scan-block_comment :
      (w rest : Text) → NoClose w → scan dic (b'/' ∷ b'*' ∷ w ++ b'*' ∷ b'/' ∷ rest) ≡ scan dic rest
  unfolding scan scan_from at_init is_blank
  scan-block_comment w rest hw = (block_lem w rest).0 hw

  open_lem :
      (w : Text)
      → (NoClose w → scan_from dic Mode.block_comment w ≡ scanned Token.error [] [])
        × (NoClose (b'*' ∷ w) → scan_from dic Mode.block_star w ≡ scanned Token.error [] [])
  unfolding scan_from at_end
  open_lem [] = (λ h. refl, λ h. refl)
  open_lem (c ∷ w) =
      (λ h. ground (arith, open_lem w, h.0, h.1), λ h. ground (arith, open_lem w, h.0, h.1))

  -- A comment that is never closed is an error, and takes all of the input.
  pub scan-open_comment :
      (w : Text) → NoClose w → scan dic (b'/' ∷ b'*' ∷ w) ≡ scanned Token.error [] []
  unfolding scan scan_from at_init is_blank
  scan-open_comment w hw = (open_lem w).0 hw
