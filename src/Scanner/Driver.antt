-- ===== src/Scanner/Driver.antt =====
-- Reading a whole input: the loop of tests/scanner_test.cc and of the parser, which call
-- read_token() until it returns EOF (src/parser/YmslScanner.cc).
use ymsl.Base.{
  ℕ, zero, suc, ◌<◌, ◌≡◌, refl, ap, Bool, true, false, Option, none, some, List, [], ◌∷◌, arith,
  if◌then◌else◌, length, Bool-cases, inl, inr,
}
use mathlib.Core.Option
use ymsl.Scanner.Token.{Token}
use ymsl.Scanner.RsrvWordDic.{Text, RsrvWordDic}
use ymsl.Scanner.Scan.{at_end, scan_from, scan, is_dummy, YmslScanner, read_token}
use ymsl.Scanner.Progress.{length-scan-lt}

unfoldable pub is_eof : Token → Bool
is_eof Token.eof = true
is_eof _ = false

-- `none` means that the fuel ran out before EOF.
unfoldable pub read_all : RsrvWordDic → ℕ → YmslScanner → Option (List Token)
unfolding is_eof
read_all dic zero sc = none
read_all dic (suc n) sc =
    let rest = read_all dic n (read_token dic sc).1 in
    if is_eof (read_token dic sc).0
    then some []
    else Option.map (λ ts. (read_token dic sc).0 ∷ ts) rest

map-eq-some {ℓ} :
    {A B : Type ℓ} (f : A → B) (o : Option A)
    → (a : A) × (o ≡ some a)
    → (b : B) × (Option.map f o ≡ some b)
map-eq-some f none (a, e) = (f a, cc)
map-eq-some f (some x) h = (f x, refl)

read_token_input :
    (dic : RsrvWordDic) (sc : YmslScanner)
    → is_dummy sc.unget ≡ true
    → ((read_token dic sc).0 ≡ (scan dic sc.input).token)
      × ((read_token dic sc).1.input ≡ (scan dic sc.input).rest)
      × ((read_token dic sc).1.unget ≡ sc.unget)
unfolding read_token
read_token_input dic sc h = rw h (refl, refl, refl)

scan_shortens :
    (dic : RsrvWordDic) (s : Text)
    → is_eof (scan dic s).token ≡ false
    → length (scan dic s).rest < length s
unfolding scan scan_from is_eof at_end
scan_shortens dic [] h = cc
scan_shortens dic (c ∷ s) h = length-scan-lt dic c s

-- With nothing put back, one read more than the input has characters is enough to reach EOF: the
-- scanner never loops, whatever the input and the dictionary.
pub read_all_total :
    (dic : RsrvWordDic) (n : ℕ) (sc : YmslScanner)
    → is_dummy sc.unget ≡ true
    → length sc.input < n
    → (ts : List Token) × (read_all dic n sc ≡ some ts)
unfolding read_all
read_all_total dic zero sc h lt = absurd (omega arith)
read_all_total dic (suc n) sc h lt =
    let (t, i, u) = read_token_input dic sc h in
    elim (Bool-cases (is_eof (read_token dic sc).0)) [
      | inl e ↦ ([], rw e)
      | inr e ↦ rw e (
          map-eq-some _ _ (
            read_all_total dic n (read_token dic sc).1 (rw u h)
              (omega (arith, ap length i, scan_shortens dic sc.input (rw t at e)))))
    ]
