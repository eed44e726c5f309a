-- ===== src/Python/Numerals.antt =====
-- `text.strip()`, `text.split()` and `int(text)` of Python.
pub mod Decimal
use post_quantum_iot_auth.Prelude.{
  ℕ, ◌+◌, ◌-◌, ◌*◌, Bool, ◌&&◌, ◌||◌, List, [], ◌∷◌, leb, ◌==◌, if◌then◌else◌, Text, length,
}
use post_quantum_iot_auth.Python.{value_error, Result, ok, raised}

-- An integer that is read from a text.
pub data Integer : Type 0 where
  natural negative : ℕ → Integer

-- the white space of ASCII
abbrev pub is_space : ℕ → Bool
is_space c = c == 32 || (leb 9 c && leb c 13 || leb 28 c && leb c 31)

-- `text.strip()`
abbrev drop_left : Text → Text
drop_left [] = []
drop_left (c ∷ cs) = let rest = drop_left cs in if is_space c then rest else c ∷ cs

abbrev drop_right : Text → Text
drop_right [] = []
drop_right (c ∷ cs) =
    let rest = drop_right cs in if is_space c && leb (length rest) 0 then [] else c ∷ rest

unfoldable pub strip : Text → Text
strip s = drop_right (drop_left s)

-- The word that a text begins with, and the words after it.
abbrev pub first_word : Text → Text × List Text
first_word [] = ([], [])
first_word (c ∷ cs) =
    let (word, rest) = first_word cs in
    if is_space c then ([], if leb 1 (length word) then word ∷ rest else rest) else (c ∷ word, rest)

-- `text.split()`
unfoldable pub split : Text → List Text
split s = let (word, rest) = first_word s in if leb 1 (length word) then word ∷ rest else rest

abbrev digits_from : ℕ → Text → Result ℕ
digits_from acc [] = ok acc
digits_from acc (c ∷ cs) =
    let rest = digits_from (acc * 10 + (c - 48)) cs in
    if leb 48 c && leb c 57 then rest else raised value_error

abbrev unsigned : Text → Result ℕ
unsigned [] = raised value_error
unsigned (c ∷ cs) = digits_from 0 (c ∷ cs)

abbrev as_natural : Result ℕ → Result Integer
as_natural (ok n) = ok (natural n)
as_natural (raised e) = raised e

abbrev as_negative : Result ℕ → Result Integer
as_negative (ok n) = ok (negative n)
as_negative (raised e) = raised e

abbrev signed : Text → Result Integer
signed [] = raised value_error
signed (c ∷ cs) =
    if c == 45
    then as_negative (unsigned cs)
    else if c == 43
    then as_natural (unsigned cs)
    else as_natural (unsigned (c ∷ cs))

-- `int(text)`, without the underscores that Python allows between digits; white space around the
-- number is skipped.
abbrev one_word : List Text → Result Integer
one_word (w ∷ []) = signed w
one_word _ = raised value_error

unfoldable pub parse_int : Text → Result Integer
parse_int s = one_word (split s)
