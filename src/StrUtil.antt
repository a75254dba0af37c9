-- ===== src/StrUtil.antt =====
-- baselib/StrUtil.h: integers as decimal text, and back.
pub mod Decimal
use adchubd.Base.{
  ℕ, zero, suc, ◌+◌, ◌-◌, ◌*◌, ◌/◌, ◌%◌, ◌^◌, Bool, true, false, ◌&&◌, ◌||◌, List, [], ◌∷◌, Bytes,
  ltb, leb, ◌==◌, if◌then◌else◌,
}

-- The `while (v)` loop of `intToString`, which fills its buffer of 64 characters from the end. The
-- fuel is the room that is left.
unfoldable pub digits_loop : ℕ → ℕ → Bytes → Bytes
digits_loop zero v s = s
digits_loop (suc i) v s =
    let rest = digits_loop i (v / 10) ((b'0' + v % 10) ∷ s) in if v == 0 then s else rest

abbrev pub buf_size : ℕ
buf_size = 64

abbrev pub or_zero : Bytes → Bytes
or_zero [] = b'0' ∷ []
or_zero (c ∷ s) = c ∷ s

-- `toString` of an unsigned type.
unfoldable pub to_string : ℕ → Bytes
to_string v = or_zero (digits_loop buf_size v [])

-- `toString` of a signed type, of the value with this sign and magnitude.
unfoldable pub int_to_string : Bool → ℕ → Bytes
int_to_string negative v = if negative && not_zero v then b'-' ∷ to_string v else to_string v
  where
    not_zero : ℕ → Bool
    not_zero n = ltb 0 n

unfoldable pub is_white_space : ℕ → Bool
is_white_space c = c == b' ' || c == 12 || c == b'\n' || c == b'\r' || c == b'\t' || c == 11

unfoldable pub skip_spaces : Bytes → Bytes
skip_spaces [] = []
skip_spaces (c ∷ s) = if is_white_space c then skip_spaces s else c ∷ s

abbrev pub skip_plus : Bytes → Bytes
skip_plus [] = []
skip_plus (c ∷ s) = if c == b'+' then s else c ∷ s

-- The digits, in an unsigned type of `w` bits.
unfoldable pub read_digits : ℕ → ℕ → Bytes → ℕ
read_digits w result [] = result
read_digits w result (c ∷ s) =
    if leb b'0' c && leb c b'9' then read_digits w ((result * 10 + c - b'0') % 2 ^ w) s else result

-- `stringToInt` for an unsigned type of `w` bits.
unfoldable pub string_to_uint : ℕ → Bytes → ℕ
string_to_uint w s = read_digits w 0 (skip_plus (skip_spaces s))

-- `stringToInt` for a signed type of `w` bits, as the bit pattern of the result. A result that is too
-- large wraps around, as it does where the compiler leaves the multiplication as it is.
unfoldable pub string_to_int : ℕ → Bytes → ℕ
string_to_int w s = signed (skip_spaces s)
  where
    signed : Bytes → ℕ
    signed [] = 0
    signed (c ∷ t) =
        if c == b'-'
        then (2 ^ w - read_digits w 0 t) % 2 ^ w
        else read_digits w 0 (skip_plus (c ∷ t))

-- `toInt`, and its result as 64 bits: a `size_t` or an `int64_t`.
abbrev pub to_int : Bytes → ℕ
to_int s = string_to_int 32 s

abbrev pub extended : ℕ → ℕ
extended x = if ltb x (2 ^ 31) then x else x + (2 ^ 64 - 2 ^ 32)
