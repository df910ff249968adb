-- ===== src/Scanner/Progress.antt =====
-- What a call of scan() leaves of the input (src/parser/YmslScanner.cc).
use ymsl.Base.{
  ℕ, ◌<◌, ◌≡◌, refl, ap, Bool, true, false, ◌||◌, none, some, [], ◌∷◌, ◌++◌, arith, ◌==◌,
  if◌then◌else◌, length, length-append,
}
use ymsl.Scanner.Token.{Token}
use ymsl.Scanner.Chars.{is_digit, is_word, is_symbol}
use ymsl.Scanner.RsrvWordDic.{Text, RsrvWordDic}
use ymsl.Scanner.Lexemes.{
  Scanned, scanned, st_num1, st_num2, st_num3, st_num4, st_numdot, st_dot, st_id, st_dq, st_assign,
  st_plus, st_minus, st_not, st_angle,
}
use ymsl.Scanner.Scan.{Mode, single, operator, lexeme, is_blank, at_init, at_end, scan_from, scan}

-- What `r` leaves is the end of `s`, behind some prefix.
pub record Leaves (s : Text) (r : Scanned) : Type 0 where
  pub before : Text
  pub whole : before ++ r.rest ≡ s

all : (s : Text) {t : Token} {str : Text} → Leaves s (scanned t str s)
all s = record { before = []; whole = refl }

behind : (c : ℕ) {s : Text} {r : Scanned} → Leaves s r → Leaves (c ∷ s) r
behind c l = record { before = c ∷ l.before; whole = ap (λ t. c ∷ t) l.whole }

if_Leaves :
    (s : Text) (b : Bool) {x y : Scanned} → Leaves s x → Leaves s y → Leaves s (if b then x else y)
if_Leaves s true hx hy = hx
if_Leaves s false hx hy = hy

-- `if_Leaves` behind a character that is consumed by both branches, or by the first alone.
st_num4-Leaves : (cur s : Text) → Leaves s (st_num4 cur s)
unfolding st_num4
st_num4-Leaves cur [] = all []
st_num4-Leaves cur (c ∷ s) =
    if_Leaves (c ∷ s) (is_digit c) (behind c (st_num4-Leaves (cur ++ c ∷ []) s)) (all (c ∷ s))

st_num3-Leaves : (cur s : Text) → Leaves s (st_num3 cur s)
unfolding st_num3
st_num3-Leaves cur [] = all []
st_num3-Leaves cur (c ∷ s) =
    let more = behind c (st_num4-Leaves (cur ++ c ∷ []) s) in
    if_Leaves (c ∷ s) (is_digit c) more
      (if_Leaves (c ∷ s) (c == b'+' || c == b'-') more (all (c ∷ s)))

st_num2-Leaves : (cur s : Text) → Leaves s (st_num2 cur s)
unfolding st_num2
st_num2-Leaves cur [] = all []
st_num2-Leaves cur (c ∷ s) =
    if_Leaves (c ∷ s) (is_digit c) (behind c (st_num2-Leaves (cur ++ c ∷ []) s)) (
      if_Leaves (c ∷ s) (c == b'e' || c == b'E') (behind c (st_num3-Leaves (cur ++ c ∷ []) s))
        (all (c ∷ s)))

st_numdot-Leaves : (cur s : Text) → Leaves s (st_numdot cur s)
unfolding st_numdot
st_numdot-Leaves cur [] = all []
st_numdot-Leaves cur (c ∷ s) =
    if_Leaves (c ∷ s) (is_digit c) (behind c (st_num2-Leaves (cur ++ c ∷ []) s)) (all (c ∷ s))

st_num1-Leaves : (cur s : Text) → Leaves s (st_num1 cur s)
unfolding st_num1
st_num1-Leaves cur [] = all []
st_num1-Leaves cur (c ∷ s) =
    if_Leaves (c ∷ s) (is_digit c) (behind c (st_num1-Leaves (cur ++ c ∷ []) s))
      (if_Leaves (c ∷ s) (c == b'.') (behind c (st_numdot-Leaves (cur ++ c ∷ []) s)) (all (c ∷ s)))

st_dot-Leaves : (cur s : Text) → Leaves s (st_dot cur s)
unfolding st_dot
st_dot-Leaves cur [] = all []
st_dot-Leaves cur (c ∷ s) =
    if_Leaves (c ∷ s) (is_digit c) (behind c (st_num2-Leaves ((cur ++ b'.' ∷ []) ++ c ∷ []) s))
      (all (c ∷ s))

st_id-Leaves : (dic : RsrvWordDic) (cur s : Text) → Leaves s (st_id dic cur s)
unfolding st_id
st_id-Leaves dic cur [] = all []
st_id-Leaves dic cur (c ∷ s) =
    if_Leaves (c ∷ s) (is_word c) (behind c (st_id-Leaves dic (cur ++ c ∷ []) s)) (all (c ∷ s))

st_dq-Leaves : (cur s : Text) → Leaves s (st_dq cur s)
unfolding st_dq
st_dq-Leaves cur [] = all []
st_dq-Leaves cur (c ∷ []) = if_Leaves (c ∷ []) (c == b'"') (behind c (all [])) (
    if_Leaves (c ∷ []) (c == 10) (behind c (all []))
      (if_Leaves (c ∷ []) (c == 92) (behind c (all [])) (behind c (all []))))
st_dq-Leaves cur (c ∷ d ∷ s) =
    let skip = st_dq-Leaves (cur ++ (if d == 10 then d ∷ [] else 92 ∷ d ∷ [])) s in
    if_Leaves (c ∷ d ∷ s) (c == b'"') (behind c (all (d ∷ s))) (
      if_Leaves (c ∷ d ∷ s) (c == 10) (behind c (all (d ∷ s))) (
        if_Leaves (c ∷ d ∷ s) (c == 92) (behind c (behind d skip))
          (behind c (st_dq-Leaves (cur ++ c ∷ []) (d ∷ s)))))

st_assign-Leaves : (t u : Token) (s : Text) → Leaves s (st_assign t u s)
unfolding st_assign
st_assign-Leaves t u [] = all []
st_assign-Leaves t u (c ∷ s) = if_Leaves (c ∷ s) (c == b'=') (behind c (all s)) (all (c ∷ s))

st_plus-Leaves : (s : Text) → Leaves s (st_plus s)
unfolding st_plus
st_plus-Leaves [] = all []
st_plus-Leaves (c ∷ s) =
    if_Leaves (c ∷ s) (c == b'=') (behind c (all s))
      (if_Leaves (c ∷ s) (c == b'+') (behind c (all s)) (all (c ∷ s)))

st_minus-Leaves : (s : Text) → Leaves s (st_minus s)
unfolding st_minus
st_minus-Leaves [] = all []
st_minus-Leaves (c ∷ s) = if_Leaves (c ∷ s) (c == b'=') (behind c (all s)) (
    if_Leaves (c ∷ s) (c == b'-') (behind c (all s))
      (if_Leaves (c ∷ s) (is_digit c) (behind c (st_num1-Leaves (b'-' ∷ c ∷ []) s)) (all (c ∷ s))))

st_not-Leaves : (s : Text) → Leaves s (st_not s)
unfolding st_not
st_not-Leaves [] = all []
st_not-Leaves (c ∷ s) = if_Leaves (c ∷ s) (c == b'=') (behind c (all s)) (all (c ∷ s))

st_angle-Leaves : (f : ℕ) (t u v w : Token) (s : Text) → Leaves s (st_angle f t u v w s)
unfolding st_angle
st_angle-Leaves f t u v w [] = all []
st_angle-Leaves f t u v w (c ∷ s) =
    if_Leaves (c ∷ s) (c == b'=') (behind c (all s))
      (if_Leaves (c ∷ s) (c == f) (behind c (st_assign-Leaves v w s)) (all (c ∷ s)))

operator-Leaves : (c : ℕ) (s : Text) → Leaves s (operator c s)
unfolding operator
operator-Leaves c s = if_Leaves s (c == b'+') (st_plus-Leaves s) (
    if_Leaves s (c == b'-') (st_minus-Leaves s) (
      if_Leaves s (c == b'*') (st_assign-Leaves _ _ s) (
        if_Leaves s (c == b'%') (st_assign-Leaves _ _ s) (
          if_Leaves s (c == b'!') (st_not-Leaves s) (
            if_Leaves s (c == b'&') (st_assign-Leaves _ _ s) (
              if_Leaves s (c == b'|') (st_assign-Leaves _ _ s) (
                if_Leaves s (c == b'^') (st_assign-Leaves _ _ s) (
                  if_Leaves s (c == b'=') (st_assign-Leaves _ _ s) (
                    if_Leaves s (c == b'<') (st_angle-Leaves _ _ _ _ _ s)
                      (if_Leaves s (c == b'>') (st_angle-Leaves _ _ _ _ _ s) (all s)))))))))))

lexeme-Leaves : (dic : RsrvWordDic) (c : ℕ) (s : Text) → Leaves s (lexeme dic c s)
unfolding lexeme
lexeme-Leaves dic c s = if_Leaves s (is_symbol c) (st_id-Leaves dic (c ∷ []) s) (
    if_Leaves s (is_digit c) (st_num1-Leaves (c ∷ []) s) (
      if_Leaves s (c == b'.') (st_dot-Leaves (c ∷ []) s) (
        if_Leaves s (c == b'"') (st_dq-Leaves [] s)
          (elim (single c)
            as (λ o. Leaves s (elim o [ some t ↦ scanned t [] s | none ↦ operator c s ])) [
              | some t ↦ all s
              | none ↦ operator-Leaves c s
            ]))))

at_init-Leaves :
    (dic : RsrvWordDic) (c : ℕ) (s : Text) (next : Mode → Scanned)
    → ((m : Mode) → Leaves s (next m))
    → Leaves s (at_init dic c s next)
unfolding at_init
at_init-Leaves dic c s next h = if_Leaves s (is_blank c) (h Mode.init) (
    if_Leaves s (c == 92) (h Mode.backslash)
      (if_Leaves s (c == b'/') (h Mode.slash) (lexeme-Leaves dic c s)))

scan_from-Leaves : (dic : RsrvWordDic) (m : Mode) (s : Text) → Leaves s (scan_from dic m s)
unfolding scan_from at_end
scan_from-Leaves dic Mode.init [] = all []
scan_from-Leaves dic Mode.backslash [] = all []
scan_from-Leaves dic Mode.slash [] = all []
scan_from-Leaves dic Mode.line_comment [] = all []
scan_from-Leaves dic Mode.block_comment [] = all []
scan_from-Leaves dic Mode.block_star [] = all []
scan_from-Leaves dic Mode.init (c ∷ s) =
    behind c (at_init-Leaves dic c s (λ m. scan_from dic m s) (λ m. scan_from-Leaves dic m s))
scan_from-Leaves dic Mode.backslash (c ∷ s) = behind c (
    if_Leaves s (c == 10) (scan_from-Leaves dic Mode.init s)
      (at_init-Leaves dic c s (λ m. scan_from dic m s) (λ m. scan_from-Leaves dic m s)))
scan_from-Leaves dic Mode.slash (c ∷ s) = if_Leaves (c ∷ s) (c == b'=') (behind c (all s)) (
    if_Leaves (c ∷ s) (c == b'/') (behind c (scan_from-Leaves dic Mode.line_comment s)) (
      if_Leaves (c ∷ s) (c == b'*') (behind c (scan_from-Leaves dic Mode.block_comment s))
        (all (c ∷ s))))
scan_from-Leaves dic Mode.line_comment (c ∷ s) =
    behind c (scan_from-Leaves dic (if c == 10 then Mode.init else Mode.line_comment) s)
scan_from-Leaves dic Mode.block_comment (c ∷ s) =
    behind c (scan_from-Leaves dic (if c == b'*' then Mode.block_star else Mode.block_comment) s)
scan_from-Leaves dic Mode.block_star (c ∷ s) = behind c (
    scan_from-Leaves dic
      (if c == b'/' then Mode.init else if c == b'*' then Mode.block_star else Mode.block_comment)
      s)

-- A call of `scan` on an input that is not empty consumes at least one character, and what it
-- leaves is the end of the input, unchanged.
pub scan-Leaves : (dic : RsrvWordDic) (c : ℕ) (s : Text) → Leaves s (scan dic (c ∷ s))
unfolding scan scan_from
scan-Leaves dic c s =
    at_init-Leaves dic c s (λ m. scan_from dic m s) (λ m. scan_from-Leaves dic m s)

pub length-scan-lt :
    (dic : RsrvWordDic) (c : ℕ) (s : Text) → length (scan dic (c ∷ s)).rest < length (c ∷ s)
length-scan-lt dic c s =
    let l = scan-Leaves dic c s in
    omega (arith, ap length l.whole, length-append l.before (scan dic (c ∷ s)).rest)
