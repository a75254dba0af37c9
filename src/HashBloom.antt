-- ===== src/HashBloom.antt =====
-- adchpp/HashBloom.cpp: bloom filters over Tiger tree hashes of 24 bytes. A `std::vector<bool>` is a
-- list.
pub mod Sizes
pub mod Added
use adchubd.Base.{
  ℕ, zero, suc, ◌+◌, ◌-◌, ◌*◌, ◌/◌, ◌%◌, ◌^◌, bit_or, Bool, true, false, List, [], ◌∷◌, ◌++◌,
  Option, none, some, Bytes, ltb, ◌==◌, if◌then◌else◌, length, get_or, is_empty,
}

pub record HashBloom : Type 0 where
  pub bloom : List Bool
  pub k : ℕ
  pub h : ℕ

-- `TTHValue::BITS`
abbrev pub bits : ℕ
bits = 192

-- `HashBloom()`
abbrev pub new_bloom : HashBloom
new_bloom = record { bloom = []; k = 0; h = 0 }

-- `optimal n k` is n * k / ln 2 in floating point, rounded up and cast to 64 bits.
module _ (optimal : ℕ → ℕ → ℕ) where
  unfoldable pub get_m : ℕ → ℕ → ℕ
  get_m n k = (optimal n k + 63) % 2 ^ 64 / 64 * 64

  -- The loop of `get_k`, which counts down.
  unfoldable pub get_k_loop : ℕ → ℕ → ℕ
  get_k_loop n zero = 1
  get_k_loop n (suc zero) = 1
  get_k_loop n (suc (suc k)) =
      let rest = get_k_loop n (suc k) in
      if get_m n (suc (suc k)) / 2 ^ 24 == 0 then suc (suc k) else rest

  unfoldable pub get_k : ℕ → ℕ → ℕ
  get_k n h = get_k_loop n (bits / h)

-- Bit number `bit` of the hash, the lowest one of each byte first.
abbrev pub is_bit : Bytes → ℕ → Bool
is_bit tth bit = get_or tth (bit / 8) 0 / 2 ^ (bit % 8) % 2 == 1

-- The loop of `pos`: the rounds that are left, and `i`.
unfoldable pub key_bits : Bytes → ℕ → ℕ → ℕ → ℕ → ℕ
key_bits tth start zero i x = x
key_bits tth start (suc r) i x =
    key_bits tth start r (i + 1) (if is_bit tth (start + i) then bit_or x (2 ^ i) else x)

-- The position in a filter of `size` bits, which is not empty.
unfoldable pub pos : ℕ → ℕ → Bytes → ℕ → ℕ
pos size h tth n =
    if ltb bits ((n + 1) * h % 2 ^ 64) then 0 else key_bits tth (n * h % 2 ^ 64) h 0 0 % size

unfoldable pub set_bit : List Bool → ℕ → List Bool
set_bit [] i = []
set_bit (x ∷ l) zero = true ∷ l
set_bit (x ∷ l) (suc i) = x ∷ set_bit l i

unfoldable pub add_loop : ℕ → Bytes → ℕ → ℕ → List Bool → List Bool
add_loop h tth zero i l = l
add_loop h tth (suc r) i l = add_loop h tth r (i + 1) (set_bit l (pos (length l) h tth i))

-- `none`: with an empty filter the first round divides by zero, or writes behind the end.
unfoldable pub add : Bytes → HashBloom → Option HashBloom
add tth b =
    if is_empty b.bloom
    then (if b.k == 0 then some b else none)
    else some (record b { bloom = add_loop b.h tth b.k 0 b.bloom })

unfoldable pub match_loop : ℕ → Bytes → ℕ → ℕ → List Bool → Bool
match_loop h tth zero i l = true
match_loop h tth (suc r) i l =
    let rest = match_loop h tth r (i + 1) l in
    if get_or l (pos (length l) h tth i) false then rest else false

-- `match`
unfoldable pub matches : Bytes → HashBloom → Bool
matches tth b = if is_empty b.bloom then false else match_loop b.h tth b.k 0 b.bloom

unfoldable pub push_back : Bool → HashBloom → HashBloom
push_back v b = record b { bloom = b.bloom ++ v ∷ [] }

-- The eight bits of a byte, from bit `j` on.
unfoldable pub byte_bits : ℕ → ℕ → ℕ → List Bool
byte_bits v zero j = []
byte_bits v (suc r) j = (v / 2 ^ j % 2 == 1) ∷ byte_bits v r (j + 1)

unfoldable pub bits_of : Bytes → List Bool
bits_of [] = []
bits_of (v ∷ s) = byte_bits v 8 0 ++ bits_of s

unfoldable pub reset : Bytes → ℕ → ℕ → HashBloom
reset v k h = record { bloom = bits_of v; k = k; h = h }

abbrev pub size : HashBloom → ℕ
size b = length b.bloom
