-- ===== src/Base/Int32.antt =====
-- The operators of C++ on `Ymsl_INT`, a 32-bit signed integer (include/ymsl_int.h). Overflow,
-- division by zero and a bad shift are undefined behaviour of the language, and end in `undefined`;
-- the bitwise operators work on the two's complement patterns, and `>>` is arithmetic.
use Prim.Native.Nat.{ℕ, suc, ◌*◌, ◌/◌, ◌%◌, ◌^◌, bit_and, bit_or, bit_xor}
use mathlib.Core.Path.{◌≡◌}
use native.Mathlib.Omega.{arith}
use ymsl.Base.Tests.{ltb, leb, ◌==◌, if◌then◌else◌}
use ymsl.Base.Faults.{Outcome, ok, fault, undefined}
use ymsl.Base.Int.{
  ℤ, pos, negsuc, pos_part, neg_part, ◌+ℤ◌, ◌-ℤ◌, ◌*ℤ◌, InRange, checked, to_word, of_word,
}

unfoldable pub add : ℤ → ℤ → Outcome ℤ
unfolding checked ◌+ℤ◌
add a b = checked (a +ℤ b)

unfoldable pub sub : ℤ → ℤ → Outcome ℤ
unfolding checked ◌-ℤ◌
sub a b = checked (a -ℤ b)

unfoldable pub mul : ℤ → ℤ → Outcome ℤ
unfolding checked ◌*ℤ◌
mul a b = checked (a *ℤ b)

unfoldable pub neg : ℤ → Outcome ℤ
unfolding checked ◌-ℤ◌
neg a = checked (pos 0 -ℤ a)

-- `~a`
unfoldable pub bit_neg : ℤ → ℤ
bit_neg (pos n) = negsuc n
bit_neg (negsuc n) = pos n

-- `a / b` and `a % b` round towards zero.
unfoldable pub div : ℤ → ℤ → Outcome ℤ
unfolding checked ◌-ℤ◌
div a (pos b) =
    if b == 0 then fault undefined else checked (pos (pos_part a / b) -ℤ pos (neg_part a / b))
div a (negsuc b) = checked (pos (neg_part a / suc b) -ℤ pos (pos_part a / suc b))

unfoldable pub rem : ℤ → ℤ → Outcome ℤ
unfolding checked ◌-ℤ◌
rem a (pos b) =
    if b == 0 then fault undefined else checked (pos (pos_part a % b) -ℤ pos (neg_part a % b))
rem a (negsuc b) =
    if leb (2 ^ 31) (neg_part a / suc b)
    then fault undefined
    else checked (pos (pos_part a % suc b) -ℤ pos (neg_part a % suc b))

unfoldable pub and : ℤ → ℤ → ℤ
unfolding to_word of_word
and a b = of_word (bit_and (to_word a) (to_word b))

unfoldable pub or : ℤ → ℤ → ℤ
unfolding to_word of_word
or a b = of_word (bit_or (to_word a) (to_word b))

unfoldable pub xor : ℤ → ℤ → ℤ
unfolding to_word of_word
xor a b = of_word (bit_xor (to_word a) (to_word b))

unfoldable pub lshift : ℤ → ℤ → Outcome ℤ
unfolding checked
lshift (pos a) (pos k) = if ltb k 32 then checked (pos (a * 2 ^ k)) else fault undefined
lshift _ _ = fault undefined

unfoldable pub rshift : ℤ → ℤ → Outcome ℤ
rshift (pos a) (pos k) = if ltb k 32 then ok (pos (a / 2 ^ k)) else fault undefined
rshift (negsuc a) (pos k) = if ltb k 32 then ok (negsuc (a / 2 ^ k)) else fault undefined
rshift _ _ = fault undefined

pub of_word-InRange : (w : ℕ) → InRange (of_word w)
unfolding of_word
of_word-InRange w = ground arith

pub bit_neg-InRange : (a : ℤ) → InRange a → InRange (bit_neg a)
unfolding bit_neg
bit_neg-InRange (pos n) h = h
bit_neg-InRange (negsuc n) h = h

pub checked-InRange : (a b : ℤ) → checked a ≡ ok b → InRange b
unfolding checked
checked-InRange (pos n) b h = ground arith
checked-InRange (negsuc n) b h = ground arith
