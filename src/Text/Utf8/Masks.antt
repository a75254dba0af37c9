-- ===== src/Text/Utf8/Masks.antt =====
-- The masks and shifts of the UTF-8 code as arithmetic on bytes.
use adchubd.Base.{ℕ, ◌+◌, ◌*◌, ◌%◌, ◌^◌, ◌<◌, bit_and, bit_or, ◌≡◌, refl, ◌&&◌, ◌==◌, ltb, leb}
use adchubd.Base.Bits.{agree_below, agree_below_sound, bit_or-add, bit_and-mod}

module _ (b : ℕ) (h : b < 256) where
  pub is_ascii : (bit_and b 0x80 == 0) ≡ ltb b 128
  unfolding agree_below
  is_ascii = agree_below_sound 256 (λ b. bit_and b 0x80 == 0) (λ b. ltb b 128) b h refl

  pub is_cont : (bit_and b 0xC0 == 0x80) ≡ (leb 128 b && ltb b 192)
  unfolding agree_below
  is_cont =
      agree_below_sound 256 (λ b. bit_and b 0xC0 == 0x80) (λ b. (leb 128 b && ltb b 192)) b h refl

  pub is_lead2 : (bit_and b 0xE0 == 0xC0) ≡ (leb 192 b && ltb b 224)
  unfolding agree_below
  is_lead2 =
      agree_below_sound 256 (λ b. bit_and b 0xE0 == 0xC0) (λ b. (leb 192 b && ltb b 224)) b h refl

  pub is_lead3 : (bit_and b 0xF0 == 0xE0) ≡ (leb 224 b && ltb b 240)
  unfolding agree_below
  is_lead3 =
      agree_below_sound 256 (λ b. bit_and b 0xF0 == 0xE0) (λ b. (leb 224 b && ltb b 240)) b h refl

  pub is_lead4 : (bit_and b 0xF8 == 0xF0) ≡ (leb 240 b && ltb b 248)
  unfolding agree_below
  is_lead4 =
      agree_below_sound 256 (λ b. bit_and b 0xF8 == 0xF0) (λ b. (leb 240 b && ltb b 248)) b h refl

pub low6 : (b : ℕ) → bit_and b 0x3F ≡ b % 64
low6 b = bit_and-mod 6 b

pub low5 : (b : ℕ) → bit_and b 0x1F ≡ b % 32
low5 b = bit_and-mod 5 b

pub low4 : (b : ℕ) → bit_and b 0xF ≡ b % 16
low4 b = bit_and-mod 4 b

pub low3 : (b : ℕ) → bit_and b 0x7 ≡ b % 8
low3 b = bit_and-mod 3 b

pub mark_cont : (r : ℕ) → r < 64 → bit_or 0x80 r ≡ 128 + r
mark_cont r h = bit_or-add 6 2 r h

pub mark2 : (r : ℕ) → r < 32 → bit_or 0xC0 r ≡ 192 + r
mark2 r h = bit_or-add 5 6 r h

pub mark3 : (r : ℕ) → r < 16 → bit_or 0xE0 r ≡ 224 + r
mark3 r h = bit_or-add 4 14 r h

pub mark4 : (r : ℕ) → r < 8 → bit_or 0xF0 r ≡ 240 + r
mark4 r h = bit_or-add 3 30 r h

pub join2 : (x y : ℕ) → y < 64 → bit_or (x * 2 ^ 6) y ≡ x * 64 + y
join2 x y h = bit_or-add 6 x y h

pub join_12 : (x y : ℕ) → y < 4096 → bit_or (x * 2 ^ 12) y ≡ x * 4096 + y
join_12 x y h = bit_or-add 12 x y h

pub join_18 : (x y : ℕ) → y < 262144 → bit_or (x * 2 ^ 18) y ≡ x * 262144 + y
join_18 x y h = bit_or-add 18 x y h
