-- ===== src/Scanner/Chars.antt =====
-- The character tests of the scanner: `isalpha` and `isdigit` of the C library in the C locale, and
-- YmslScanner::is_symbol (src/parser/YmslScanner.cc).
use ymsl.Base.{ℕ, Bool, ◌&&◌, ◌||◌, leb, ◌==◌}

unfoldable pub is_digit : ℕ → Bool
is_digit c = leb b'0' c && leb c b'9'

unfoldable pub is_alpha : ℕ → Bool
is_alpha c = leb b'a' c && leb c b'z' || leb b'A' c && leb c b'Z'

unfoldable pub is_symbol : ℕ → Bool
unfolding is_alpha
is_symbol c = is_alpha c || c == b'_'

-- The test of the state ST_ID.
unfoldable pub is_word : ℕ → Bool
unfolding is_symbol is_digit
is_word c = is_symbol c || is_digit c
