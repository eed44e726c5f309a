-- ===== src/Python/Text.antt =====
-- `bytes.hex`, `bytes.fromhex` and `str.encode` of Python's standard library.
use post_quantum_iot_auth.Prelude.{
  ℕ, zero, suc, ◌+◌, ◌-◌, ◌*◌, ◌/◌, ◌%◌, ◌<◌, ◌≡◌, refl, Bool, ◌&&◌, ◌||◌, Option, none, some, [],
  ◌∷◌, ◌++◌, arith, ltb, leb, ◌==◌, if◌then◌else◌, Bytes, Text, length, All,
}
use post_quantum_iot_auth.Python.{value_error, Result, ok, raised}

hex_digit : ℕ → ℕ
hex_digit n = if ltb n 10 then n + 48 else n + 87

-- `b.hex()`: two lower-case digits for each byte.
unfoldable pub hex : Bytes → Text
unfolding hex_digit
hex [] = []
hex (b ∷ bs) = hex_digit (b / 16) ∷ hex_digit (b % 16) ∷ hex bs

from_digit : ℕ → Option ℕ
from_digit c =
    if leb 48 c && leb c 57
    then some (c - 48)
    else if leb 97 c && leb c 102
    then some (c - 87)
    else if leb 65 c && leb c 70
    then some (c - 55)
    else none

is_space : ℕ → Bool
is_space c = c == 32 || leb 9 c && leb c 13

abbrev join_byte : Option ℕ → Option ℕ → Result Bytes → Result Bytes
join_byte (some h) (some l) (ok bs) = ok ((h * 16 + l) ∷ bs)
join_byte (some h) (some l) (raised e) = raised e
join_byte (some h) none rest = raised value_error
join_byte none l rest = raised value_error

-- `bytes.fromhex(s)`: white space is skipped between bytes, and both cases of digit are read.
unfoldable pub fromhex : Text → Result Bytes
unfolding from_digit is_space
fromhex [] = ok []
fromhex (c ∷ []) = if is_space c then ok [] else raised value_error
fromhex (c ∷ d ∷ cs) =
    let skip = fromhex (d ∷ cs) in
    let rest = fromhex cs in
    if is_space c then skip else join_byte (from_digit c) (from_digit d) rest

abbrev pub IsByte : ℕ → Type 0
IsByte b = b < 256

pub length-hex : (b : Bytes) → length (hex b) ≡ 2 * length b
unfolding hex
length-hex [] = refl
length-hex (b ∷ bs) = omega (arith, length-hex bs)

from_digit-hex_digit : (n : ℕ) → n < 16 → from_digit (hex_digit n) ≡ some n
unfolding from_digit hex_digit
from_digit-hex_digit n h = ground arith

is_space-hex_digit : (n : ℕ) → n < 16 → is_space (hex_digit n) ≡ Bool.false
unfolding is_space hex_digit
is_space-hex_digit n h = ground arith

-- Reading back what `hex` wrote gives the bytes again.
pub fromhex-hex : (b : Bytes) → All IsByte b → fromhex (hex b) ≡ ok b
unfolding fromhex hex
fromhex-hex [] h = refl
fromhex-hex (b ∷ bs) h =
    rw
      (
        is_space-hex_digit (b / 16) (omega arith),
        from_digit-hex_digit (b / 16) (omega arith),
        from_digit-hex_digit (b % 16) (omega arith),
        fromhex-hex bs h.1,
      )
      (ground arith)

encode_char : ℕ → Bytes
encode_char c =
    if ltb c 128
    then c ∷ []
    else if ltb c 2048
    then (192 + c / 64) ∷ (128 + c % 64) ∷ []
    else if ltb c 65536
    then (224 + c / 4096) ∷ (128 + c / 64 % 64) ∷ (128 + c % 64) ∷ []
    else (240 + c / 262144) ∷ (128 + c / 4096 % 64) ∷ (128 + c / 64 % 64) ∷ (128 + c % 64) ∷ []

-- `s.encode("utf-8")` of a text without surrogates.
unfoldable pub encode : Text → Bytes
unfolding encode_char
encode [] = []
encode (c ∷ cs) = encode_char c ++ encode cs

unfoldable pub decimal_loop : ℕ → ℕ → Text → Text
decimal_loop zero n acc = acc
decimal_loop (suc fuel) n acc =
    let rest = decimal_loop fuel (n / 10) ((48 + n % 10) ∷ acc) in
    if ltb n 10 then (48 + n) ∷ acc else rest

-- `str(n)` of a number that is not negative.
unfoldable pub decimal : ℕ → Text
unfolding decimal_loop
decimal n = decimal_loop (suc n) n []

decimal_example : decimal 1700 ≡ 49 ∷ 55 ∷ 48 ∷ 48 ∷ []
unfolding decimal
decimal_example = refl
