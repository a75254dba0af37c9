-- ===== src/Text/Utf8.antt =====
-- baselib/Text.cpp: `wcToUtf8`, `utf8ToWc` and `validateUtf8`. A `char` is its byte, below 256; the
-- pair of a buffer and a position is the rest of the buffer from there, so `len - pos` is a length.
pub mod Masks
pub mod Decode
pub mod Encode
pub mod Valid
use adchubd.Base.{
  ℕ, zero, suc, ◌-◌, ◌*◌, ◌/◌, ◌^◌, ◌<◌, bit_and, bit_or, Bool, true, false, not, ◌&&◌, ◌||◌, List,
  [], ◌∷◌, Option, none, some, Bytes, ltb, leb, ◌==◌, if◌then◌else◌, length, get_elem?, get_or,
  drop,
}

-- x << k and x >> k.
infixl 75 ◌<<<◌ ◌>>>◌
abbrev pub ◌<<<◌ : ℕ → ℕ → ℕ
x <<< k = x * 2 ^ k

abbrev pub ◌>>>◌ : ℕ → ℕ → ℕ
x >>> k = x / 2 ^ k

-- The bytes that `wcToUtf8` writes to `out`; their number is what it returns.
unfoldable pub wc_to_utf8 : ℕ → Bytes
wc_to_utf8 v =
    if ltb v 0x80
    then v ∷ []
    else if ltb v 0x800
    then bit_or 0xC0 (v >>> 6) ∷ bit_or 0x80 (bit_and v 0x3F) ∷ []
    else if ltb v 0x10000
    then bit_or 0xE0 (v >>> 12)
      ∷ bit_or 0x80 (bit_and (v >>> 6) 0x3F)
      ∷ bit_or 0x80 (bit_and v 0x3F)
      ∷ []
    else bit_or 0xF0 (v >>> 18)
      ∷ bit_or 0x80 (bit_and (v >>> 12) 0x3F)
      ∷ bit_or 0x80 (bit_and (v >>> 6) 0x3F)
      ∷ bit_or 0x80 (bit_and v 0x3F)
      ∷ []

-- What `utf8ToWc` returns: the length with the code point in `wc`, or minus the bytes to skip.
pub data Decoded : Type 0 where
  good : ℕ → ℕ → Decoded
  bad : ℕ → Decoded

-- `len - pos < i + 2 || (s[pos + i + 1] & 0xC0) != 0x80`, on the bytes behind the first one.
unfoldable pub no_cont : Bytes → ℕ → Bool
no_cont rest i = elim (get_elem? rest i) [ none ↦ true | some b ↦ not (bit_and b 0xC0 == 0x80) ]

unfoldable pub decode2 : ℕ → Bytes → Decoded
decode2 b rest =
    if no_cont rest 0
    then bad 1
    else let wc = bit_or (bit_and b 0x1F <<< 6) (bit_and (get_or rest 0 0) 0x3F) in
      if ltb wc 0x80 then bad 1 else good 2 wc

unfoldable pub decode3 : ℕ → Bytes → Decoded
decode3 b rest =
    if no_cont rest 0
    then bad 1
    else if no_cont rest 1
    then bad 2
    else let wc =
        bit_or (bit_or (bit_and b 0xF <<< 12) (bit_and (get_or rest 0 0) 0x3F <<< 6))
          (bit_and (get_or rest 1 0) 0x3F) in
      if ltb wc 0x800 then bad 2 else if leb 0xD800 wc && leb wc 0xDFFF then bad 2 else good 3 wc

unfoldable pub decode4 : ℕ → Bytes → Decoded
decode4 b rest =
    if no_cont rest 0
    then bad 1
    else let top = bit_and b 0x7 <<< 18 in
      if ltb 0x10FFFF top
      then bad 1
      else if no_cont rest 1
      then bad 2
      else let high = bit_or top (bit_and (get_or rest 0 0) 0x3F <<< 12) in
        if ltb 0x10FFFF high || ltb high 0x10000
        then bad 2
        else if no_cont rest 2
        then bad 3
        else good 4 (
            bit_or high
              (bit_or (bit_and (get_or rest 1 0) 0x3F <<< 6) (bit_and (get_or rest 2 0) 0x3F)))

-- `utf8ToWc` at the byte `b`, with `rest` behind it.
unfoldable pub utf8_to_wc : ℕ → Bytes → Decoded
utf8_to_wc b rest =
    if bit_and b 0x80 == 0
    then good 1 b
    else if bit_and b 0xC0 == 0x80
    then bad 1
    else if bit_and b 0xE0 == 0xC0
    then decode2 b rest
    else if bit_and b 0xF0 == 0xE0
    then decode3 b rest
    else if bit_and b 0xF8 == 0xF0
    then decode4 b rest
    else bad 1

-- The loop of `validateUtf8`. Each round passes at least one byte, so the length is fuel enough.
unfoldable pub validate_loop : ℕ → Bytes → Bool
validate_loop fuel [] = true
validate_loop zero (b ∷ rest) = false
validate_loop (suc fuel) (b ∷ rest) = elim (utf8_to_wc b rest) [
  | good n wc ↦ validate_loop fuel (drop (n - 1) rest)
  | bad n ↦ false
]

unfoldable pub validate_utf8 : Bytes → Bool
validate_utf8 s = validate_loop (length s) s

-- A Unicode scalar value: a code point that is no surrogate.
abbrev pub is_scalar : ℕ → Bool
is_scalar c = ltb c 0xD800 || (ltb 0xDFFF c && ltb c 0x110000)
