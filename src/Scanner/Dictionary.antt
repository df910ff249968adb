-- ===== src/Scanner/Dictionary.antt =====
-- The dictionary's chained tables against a search of the whole array of reserved words
-- (src/parser/RsrvWordDic.cc).
use mathlib.Core.List.{append-nil, append_assoc, reverse, reverse-cons}
use ymsl.Base.{
  ℕ, ◌%◌, ◌<◌, ◌≡◌, refl, ap, ◌∙◌, true, List, [], ◌∷◌, ◌++◌, arith, ◌==◌, ==_iff, ==_refl, length,
  replicate, get_or, get_or-push, get_or-replicate, length-set, length-replicate, Bool-cases, inl,
  inr,
}
use ymsl.Scanner.Token.{Token}
use ymsl.Scanner.RsrvWordDic.{
  Text, Cell, RsrvWordDic, str_eq, hash_func1, push_cell, add_cells, new_dic, find_tok, str,
  find_str, or_symbol, token,
}

pub str_eq→eq : (s t : Text) → str_eq s t ≡ true → s ≡ t
unfolding str_eq
str_eq→eq [] [] h = refl
str_eq→eq [] (d ∷ t) h = cc
str_eq→eq (c ∷ s) [] h = cc
str_eq→eq (c ∷ s) (d ∷ t) h = ground (arith, str_eq→eq s t)

pub str_eq_refl : (s : Text) → str_eq s s ≡ true
unfolding str_eq
str_eq_refl [] = refl
str_eq_refl (c ∷ s) = rw (==_refl c) (str_eq_refl s)

-- The tables answer as a search of the cells `seen`, the latest first.
record Serves (num : Token → ℕ) (n : ℕ) (seen : List Cell) (dic : RsrvWordDic) : Type 0 where
  sized : dic.size ≡ n
  width1 : length dic.table1 ≡ n
  width2 : length dic.table2 ≡ n
  words : (s : Text) → find_str s (get_or dic.table1 (hash_func1 0 s % n) []) ≡ find_str s seen
  tokens : (t : Token) → find_tok num t (get_or dic.table2 (num t % n) []) ≡ find_tok num t seen

module _ (num : Token → ℕ) (n : ℕ) (pos : 0 < n) (p : Cell) (table : List (List Cell))
    (w : length table ≡ n) (seen : List Cell) where
  find_str-push :
      (s : Text)
      → find_str s (get_or table (hash_func1 0 s % n) []) ≡ find_str s seen
      → find_str s (get_or (push_cell table (hash_func1 0 p.str % n) p) (hash_func1 0 s % n) [])
        ≡ find_str s (p ∷ seen)
  unfolding push_cell find_str
  find_str-push s h =
      rw (get_or-push table (hash_func1 0 p.str % n) (hash_func1 0 s % n) p (rw w (omega arith)))
        (elim (Bool-cases (hash_func1 0 p.str % n == hash_func1 0 s % n)) [
          | inl e ↦ rw (e, h)
          | inr e ↦ elim (Bool-cases (str_eq s p.str)) [
            | inl q ↦
                ground
                  (arith, str_eq→eq s p.str q, ap (λ u. hash_func1 0 u % n) (str_eq→eq s p.str q))
            | inr q ↦ rw (e, q) h
          ]
        ])

  find_tok-push :
      (t : Token)
      → find_tok num t (get_or table (num t % n) []) ≡ find_tok num t seen
      → find_tok num t (get_or (push_cell table (num p.tok % n) p) (num t % n) [])
        ≡ find_tok num t (p ∷ seen)
  unfolding push_cell find_tok
  find_tok-push t h =
      rw (get_or-push table (num p.tok % n) (num t % n) p (rw w (omega arith)))
        (elim (Bool-cases (num p.tok % n == num t % n)) [
          | inl e ↦ rw (e, h)
          | inr e ↦ elim (Bool-cases (num t == num p.tok)) [
            | inl q ↦ ground (arith, ap (λ u. u % n) ((==_iff _ _).0 q))
            | inr q ↦ rw (e, q) h
          ]
        ])

add_cells-Serves :
    (num : Token → ℕ) (n : ℕ) (cells seen : List Cell) (dic : RsrvWordDic)
    → 0 < n
    → Serves num n seen dic
    → Serves num n (reverse cells ++ seen) (add_cells num n cells dic)
unfolding add_cells push_cell
add_cells-Serves num n [] seen dic pos h = h
add_cells-Serves num n (p ∷ cells) seen dic pos h =
    rw (reverse-cons, append_assoc)
      (add_cells-Serves num n cells (p ∷ seen) _ pos (record {
        sized = h.sized;
        width1 = length-set dic.table1 _ _ ∙ h.width1;
        width2 = length-set dic.table2 _ _ ∙ h.width2;
        words = λ s. find_str-push num n pos p dic.table1 h.width1 seen s (h.words s);
        tokens = λ t. find_tok-push num n pos p dic.table2 h.width2 seen t (h.tokens t);
      }))

new_dic-Serves :
    (num : Token → ℕ) (p : Cell) (cells : List Cell)
    → Serves num (length (p ∷ cells)) (reverse (p ∷ cells)) (new_dic num (p ∷ cells))
unfolding new_dic
new_dic-Serves num p cells =
    let n = length (p ∷ cells) in
    rw (append-nil) at (
      add_cells-Serves num n (p ∷ cells) []
        (record { size = n; table1 = replicate n []; table2 = replicate n [] }) (omega arith)
        (record {
          sized = refl;
          width1 = length-replicate n [];
          width2 = length-replicate n [];
          words = λ s. rw get_or-replicate;
          tokens = λ t. rw get_or-replicate;
        }))

-- The hashed lookup of a text gives the token of the last cell of the array with this spelling, and
-- SYMBOL if there is none; the hashed lookup of a token gives the spelling of the last cell with
-- this token number.
pub new_dic-find :
    (num : Token → ℕ) (cells : List Cell) (s : Text) (t : Token)
    → (token (new_dic num cells) s ≡ or_symbol (find_str s (reverse cells)))
      × (str num (new_dic num cells) t ≡ find_tok num t (reverse cells))
unfolding token str
new_dic-find num [] s t = unfold new_dic find_str find_tok in (refl, refl)
new_dic-find num (p ∷ cells) s t =
    let h = new_dic-Serves num p cells in (rw (h.sized, h.words), rw (h.sized, h.tokens))
