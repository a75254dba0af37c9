-- ===== src/Base32.antt =====
-- baselib/Base32.cpp: bytes as letters, five bits each, and back.
pub mod Steps
pub mod RoundTrip
use adchubd.Base.{
  ℕ, zero, suc, ◌+◌, ◌-◌, ◌*◌, ◌/◌, ◌%◌, ◌^◌, Bool, true, false, ◌&&◌, List, [], ◌∷◌, ◌++◌, Option,
  none, some, Bytes, ◌==◌, ltb, leb, if◌then◌else◌, get_or, length, bit_and, bit_or, codes,
}

abbrev pub base32_alphabet : Bytes
base32_alphabet = codes "ABCDEFGHIJKLMNOPQRSTUVWXYZ234567"

-- `base32Table`; `none` stands for -1.
unfoldable pub base32_value : ℕ → Option ℕ
base32_value c =
    if leb b'2' c && leb c b'7'
    then some (c - 24)
    else if leb b'A' c && leb c b'Z'
    then some (c - 65)
    else if leb b'a' c && leb c b'z'
    then some (c - 97)
    else none

-- The word that crosses into the next byte, if there is one, and the one that does not.
unfoldable pub crossing : ℕ → ℕ → Bytes → ℕ
crossing index b [] = bit_and b (255 / 2 ^ index) * 2 ^ (index - 3) % 256
crossing index b (c ∷ s) =
    bit_or (bit_and b (255 / 2 ^ index) * 2 ^ (index - 3) % 256) (c / 2 ^ (11 - index))

unfoldable pub within : ℕ → ℕ → ℕ
within index b = bit_and (b / 2 ^ (3 - index)) 31

-- The loop of `toBase32` at the bit `index` of the first byte. Each round emits a letter, and two
-- rounds pass at least one byte.
unfoldable pub encode_loop : ℕ → ℕ → Bytes → Bytes
encode_loop fuel index [] = []
encode_loop zero index (b ∷ s) = []
encode_loop (suc fuel) index (b ∷ s) = elim (ltb 3 index) [
  | true ↦ get_or base32_alphabet (crossing index b s) 0 ∷ encode_loop fuel (index - 3) s
  | false ↦ elim (index == 3) [
    | true ↦ get_or base32_alphabet (within index b) 0 ∷ encode_loop fuel 0 s
    | false ↦ get_or base32_alphabet (within index b) 0 ∷ encode_loop fuel (index + 5) (b ∷ s)
  ]
]

unfoldable pub to_base32 : Bytes → Bytes
to_base32 s = encode_loop (2 * length s) 0 s

-- The loop of `fromBase32`: the bits read of the byte `cur` are `index`, and `room` bytes of the
-- target are not complete. A zero byte ends the text, and other bytes that are no letters are passed
-- over. What it returns is the target from `cur` on.
unfoldable pub zeros : ℕ → Bytes
zeros zero = []
zeros (suc n) = 0 ∷ zeros n

unfoldable pub decode_loop : Bytes → ℕ → ℕ → ℕ → Bytes
decode_loop s index cur zero = []
decode_loop [] index cur (suc room) = cur ∷ zeros room
decode_loop (c ∷ s) index cur (suc room) = elim (base32_value c) [
  | none ↦ elim (c == 0) [ true ↦ cur ∷ zeros room | false ↦ decode_loop s index cur (suc room) ]
  | some w ↦ elim (leb index 3) [
    | true ↦ elim (index == 3) [
      | true ↦ bit_or cur w ∷ decode_loop s 0 0 room
      | false ↦ decode_loop s (index + 5) (bit_or cur (w * 2 ^ (3 - index) % 256)) (suc room)
    ]
    | false ↦
        bit_or cur (w / 2 ^ (index - 3))
        ∷ decode_loop s (index - 3) (w * 2 ^ (11 - index) % 256) room
  ]
]

-- `fromBase32` without an error pointer. Its source ends at the first zero byte, so that what a
-- `std::string` has behind one is not read.
unfoldable pub from_base32 : Bytes → ℕ → Bytes
from_base32 s len = decode_loop s 0 0 len
