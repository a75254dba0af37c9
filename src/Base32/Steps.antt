-- ===== src/Base32/Steps.antt =====
-- baselib/Base32.cpp: what one round of each loop does with the bits of a byte.
use adchubd.Base.{
  ℕ, ◌+◌, ◌-◌, ◌*◌, ◌/◌, ◌%◌, ◌^◌, ◌<◌, ◌≡◌, refl, ◌∙◌, ap, Bool, true, false, [], ◌∷◌, Option,
  none, some, Bytes, ◌==◌, ==_iff, get_or, bit_and, bit_or, arith, All,
}
use adchubd.Base.Bits.{agree_below, agree_below_sound, bit_or-add, bit_and-mod}
use adchubd.Base32.{base32_alphabet, base32_value, crossing, within}

is_value : Option ℕ → ℕ → Bool
is_value none w = false
is_value (some v) w = v == w

is_value_sound : (o : Option ℕ) (w : ℕ) → is_value o w ≡ true → o ≡ some w
unfolding is_value
is_value_sound (some v) w h = ap (λ (t : ℕ). some t) ((==_iff v w).0 h)
is_value_sound none w h = absurd cc

pub base32_value_letter : (w : ℕ) → w < 32 → base32_value (get_or base32_alphabet w 0) ≡ some w
unfolding base32_value agree_below is_value
base32_value_letter w h = is_value_sound (base32_value (get_or base32_alphabet w 0)) w (
    agree_below_sound 32 (λ w. is_value (base32_value (get_or base32_alphabet w 0)) w) (λ w. true) w
      h refl)

-- The bits of a byte that a reader has at the bit `index`.
unfoldable pub high : ℕ → ℕ → ℕ
high index b = b / 2 ^ (8 - index) * 2 ^ (8 - index)

-- Numbers that agree below a bound.
equal_below :
    (n : ℕ) (f g : ℕ → ℕ)
    → agree_below n (λ x. f x == g x) (λ x. true) ≡ true
    → (x : ℕ) → x < n
    → f x ≡ g x
equal_below n f g e x h =
    (==_iff (f x) (g x)).0 (agree_below_sound n (λ x. f x == g x) (λ x. true) x h e)

pub within-lt : (index b : ℕ) → within index b < 32
unfolding within
within-lt index b = rw (bit_and-mod 5 (b / 2 ^ (3 - index))) (omega arith)

module _ (b : ℕ) (h : b < 256) where
  pub within0 : bit_or (high 0 b) (within 0 b * 2 ^ 3 % 256) ≡ high 5 b
  unfolding high within agree_below
  within0 = equal_below 256 (λ b. bit_or (high 0 b) (within 0 b * 2 ^ 3 % 256)) (high 5) refl b h

  pub within1 : bit_or (high 1 b) (within 1 b * 2 ^ 2 % 256) ≡ high 6 b
  unfolding high within agree_below
  within1 = equal_below 256 (λ b. bit_or (high 1 b) (within 1 b * 2 ^ 2 % 256)) (high 6) refl b h

  pub within2 : bit_or (high 2 b) (within 2 b * 2 ^ 1 % 256) ≡ high 7 b
  unfolding high within agree_below
  within2 = equal_below 256 (λ b. bit_or (high 2 b) (within 2 b * 2 ^ 1 % 256)) (high 7) refl b h

  pub within3 : bit_or (high 3 b) (within 3 b) ≡ b
  unfolding high within agree_below
  within3 = equal_below 256 (λ b. bit_or (high 3 b) (within 3 b)) (λ b. b) refl b h

  -- The part of a crossing word that comes from its first byte.
  low4 : bit_and b (255 / 2 ^ 4) * 2 ^ 1 % 256 ≡ b % 16 * 2 ^ 1
  unfolding agree_below
  low4 = equal_below 256 (λ b. bit_and b (255 / 2 ^ 4) * 2 ^ 1 % 256) (λ b. b % 16 * 2 ^ 1) refl b h

  low5 : bit_and b (255 / 2 ^ 5) * 2 ^ 2 % 256 ≡ b % 8 * 2 ^ 2
  unfolding agree_below
  low5 = equal_below 256 (λ b. bit_and b (255 / 2 ^ 5) * 2 ^ 2 % 256) (λ b. b % 8 * 2 ^ 2) refl b h

  low6 : bit_and b (255 / 2 ^ 6) * 2 ^ 3 % 256 ≡ b % 4 * 2 ^ 3
  unfolding agree_below
  low6 = equal_below 256 (λ b. bit_and b (255 / 2 ^ 6) * 2 ^ 3 % 256) (λ b. b % 4 * 2 ^ 3) refl b h

  low7 : bit_and b (255 / 2 ^ 7) * 2 ^ 4 % 256 ≡ b % 2 * 2 ^ 4
  unfolding agree_below
  low7 = equal_below 256 (λ b. bit_and b (255 / 2 ^ 7) * 2 ^ 4 % 256) (λ b. b % 2 * 2 ^ 4) refl b h

-- The first byte of what is left, if any.
unfoldable pub next_byte : Bytes → ℕ
next_byte [] = 0
next_byte (c ∷ s) = c

module _ (b : ℕ) (h : b < 256) where
  pub crossing4 :
      (s : Bytes) → All (λ c. c < 256) s → crossing 4 b s ≡ b % 16 * 2 + next_byte s / 128
  unfolding crossing next_byte
  crossing4 [] hs = omega (arith, low4 b h)
  crossing4 (c ∷ s) hs = rw (low4 b h) (bit_or-add 1 (b % 16) (c / 2 ^ 7) (omega (arith, hs.0)))

  pub done4 : (r : ℕ) → r < 2 → bit_or (high 4 b) ((b % 16 * 2 + r) / 2 ^ 1) ≡ b
  unfolding high
  done4 r hr =
      ap (λ t. bit_or (b / 16 * 2 ^ 4) t) (omega arith)
      ∙ bit_or-add 4 (b / 16) (b % 16) (omega arith)
      ∙ omega arith

  pub crossing5 : (s : Bytes) → All (λ c. c < 256) s → crossing 5 b s ≡ b % 8 * 4 + next_byte s / 64
  unfolding crossing next_byte
  crossing5 [] hs = omega (arith, low5 b h)
  crossing5 (c ∷ s) hs = rw (low5 b h) (bit_or-add 2 (b % 8) (c / 2 ^ 6) (omega (arith, hs.0)))

  pub done5 : (r : ℕ) → r < 4 → bit_or (high 5 b) ((b % 8 * 4 + r) / 2 ^ 2) ≡ b
  unfolding high
  done5 r hr =
      ap (λ t. bit_or (b / 8 * 2 ^ 3) t) (omega arith)
      ∙ bit_or-add 3 (b / 8) (b % 8) (omega arith)
      ∙ omega arith

  pub crossing6 : (s : Bytes) → All (λ c. c < 256) s → crossing 6 b s ≡ b % 4 * 8 + next_byte s / 32
  unfolding crossing next_byte
  crossing6 [] hs = omega (arith, low6 b h)
  crossing6 (c ∷ s) hs = rw (low6 b h) (bit_or-add 3 (b % 4) (c / 2 ^ 5) (omega (arith, hs.0)))

  pub done6 : (r : ℕ) → r < 8 → bit_or (high 6 b) ((b % 4 * 8 + r) / 2 ^ 3) ≡ b
  unfolding high
  done6 r hr =
      ap (λ t. bit_or (b / 4 * 2 ^ 2) t) (omega arith)
      ∙ bit_or-add 2 (b / 4) (b % 4) (omega arith)
      ∙ omega arith

  pub crossing7 :
      (s : Bytes) → All (λ c. c < 256) s → crossing 7 b s ≡ b % 2 * 16 + next_byte s / 16
  unfolding crossing next_byte
  crossing7 [] hs = omega (arith, low7 b h)
  crossing7 (c ∷ s) hs = rw (low7 b h) (bit_or-add 4 (b % 2) (c / 2 ^ 4) (omega (arith, hs.0)))

  pub done7 : (r : ℕ) → r < 16 → bit_or (high 7 b) ((b % 2 * 16 + r) / 2 ^ 4) ≡ b
  unfolding high
  done7 r hr =
      ap (λ t. bit_or (b / 2 * 2 ^ 1) t) (omega arith)
      ∙ bit_or-add 1 (b / 2) (b % 2) (omega arith)
      ∙ omega arith

pub rest4 : (x c : ℕ) → c < 256 → (x * 2 + c / 128) * 2 ^ 7 % 256 ≡ high 1 c
unfolding high
rest4 x c h = omega arith

pub rest5 : (x c : ℕ) → c < 256 → (x * 4 + c / 64) * 2 ^ 6 % 256 ≡ high 2 c
unfolding high
rest5 x c h = omega arith

pub rest6 : (x c : ℕ) → c < 256 → (x * 8 + c / 32) * 2 ^ 5 % 256 ≡ high 3 c
unfolding high
rest6 x c h = omega arith

pub rest7 : (x c : ℕ) → c < 256 → (x * 16 + c / 16) * 2 ^ 4 % 256 ≡ high 4 c
unfolding high
rest7 x c h = omega arith

pub high_zero : (c : ℕ) → c < 256 → high 0 c ≡ 0
unfolding high
high_zero c h = omega arith
