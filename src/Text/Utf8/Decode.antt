-- ===== src/Text/Utf8/Decode.antt =====
-- What `utf8ToWc` reads from a lead byte and continuation bytes, as arithmetic.
use adchubd.Base.{
  ℕ, ◌+◌, ◌*◌, ◌%◌, ◌^◌, ◌≤◌, ◌<◌, bit_and, bit_or, ◌≡◌, arith, ◌∷◌, false, Bytes, if◌then◌else◌,
  ltb,
}
use adchubd.Text.Utf8.{good, bad, no_cont, decode2, decode3, decode4, utf8_to_wc}
use adchubd.Text.Utf8.Masks.{
  is_ascii, is_cont, is_lead2, is_lead3, is_lead4, low6, low5, low4, low3, join2, join_12, join_18,
}

abbrev pub Cont : ℕ → Type 0
Cont c = (128 ≤ c) × (c < 192)

pub utf8_to_wc_lead :
    (b : ℕ) (rest : Bytes)
    → b < 256
    → utf8_to_wc b rest ≡ (
        if ltb b 128
        then good 1 b
        else if ltb b 192
        then bad 1
        else if ltb b 224
        then decode2 b rest
        else if ltb b 240
        then decode3 b rest
        else if ltb b 248
        then decode4 b rest
        else bad 1)
unfolding utf8_to_wc
utf8_to_wc_lead b rest h =
    ground (arith, is_ascii b h, is_cont b h, is_lead2 b h, is_lead3 b h, is_lead4 b h)

pub no_cont-cons_Cont : (c : ℕ) (rest : Bytes) → Cont c → no_cont (c ∷ rest) 0 ≡ false
unfolding no_cont
no_cont-cons_Cont c rest h = ground (arith, is_cont c (omega arith))

pub word2 : (b c : ℕ) → bit_or (bit_and b 0x1F * 2 ^ 6) (bit_and c 0x3F) ≡ b % 32 * 64 + c % 64
word2 b c = rw (low5, low6) (join2 (b % 32) (c % 64) (omega arith))

pub word3 :
    (b c d : ℕ)
    → bit_or (bit_or (bit_and b 0xF * 2 ^ 12) (bit_and c 0x3F * 2 ^ 6)) (bit_and d 0x3F)
      ≡ b % 16 * 4096 + c % 64 * 64 + d % 64
word3 b c d = ground (
  arith,
  low4 b,
  low6 c,
  low6 d,
  join_12 (b % 16) (c % 64 * 64) (omega arith),
  join2 (b % 16 * 64 + c % 64) (d % 64) (omega arith),
)

pub high4 :
    (b c : ℕ)
    → bit_or (bit_and b 0x7 * 2 ^ 18) (bit_and c 0x3F * 2 ^ 12) ≡ b % 8 * 262144 + c % 64 * 4096
high4 b c = ground (arith, low3 b, low6 c, join_18 (b % 8) (c % 64 * 4096) (omega arith))

pub word4 :
    (b c d e : ℕ)
    → bit_or
        (bit_or (bit_and b 0x7 * 2 ^ 18) (bit_and c 0x3F * 2 ^ 12))
        (bit_or (bit_and d 0x3F * 2 ^ 6) (bit_and e 0x3F))
      ≡ b % 8 * 262144 + c % 64 * 4096 + d % 64 * 64 + e % 64
word4 b c d e = ground (
  arith,
  high4 b c,
  low6 d,
  low6 e,
  join2 (d % 64) (e % 64) (omega arith),
  join_12 (b % 8 * 64 + c % 64) (d % 64 * 64 + e % 64) (omega arith),
)

pub utf8_to_wc_four :
    (b : ℕ) (rest : Bytes) → 240 ≤ b → b < 248 → utf8_to_wc b rest ≡ decode4 b rest
utf8_to_wc_four b rest lo hi = ground (arith, utf8_to_wc_lead b rest (omega arith))

pub decode4-Cont :
    (b c d e v : ℕ) (rest : Bytes)
    → Cont c
    → Cont d
    → Cont e
    → v ≡ b % 8 * 262144 + c % 64 * 4096 + d % 64 * 64 + e % 64
    → 65536 ≤ v
    → v < 1114112
    → decode4 b (c ∷ d ∷ e ∷ rest) ≡ good 4 v
unfolding decode4 no_cont
decode4-Cont b c d e v rest hc hd he eq lo hi = ground (
  arith,
  low3 b,
  is_cont c (omega arith),
  is_cont d (omega arith),
  is_cont e (omega arith),
  high4 b c,
  word4 b c d e,
)
