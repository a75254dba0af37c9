-- ===== src/Base32/RoundTrip.antt =====
-- baselib/Base32.cpp: `fromBase32` undoes `toBase32`.
use adchubd.Base.{
  ℕ, zero, suc, ◌+◌, ◌*◌, ◌/◌, ◌%◌, ◌≤◌, ◌<◌, ◌≡◌, refl, sym, ◌∙◌, ap, [], ◌∷◌, Bytes, ltb,
  if◌then◌else◌, length, arith, All,
}
use adchubd.Base32.{within, encode_loop, to_base32, decode_loop, from_base32}
use adchubd.Base32.Steps.{
  high, next_byte, base32_value_letter, within-lt, high_zero, within0, within1, within2, within3,
  crossing4, crossing5, crossing6, crossing7, done4, done5, done6, done7, rest4, rest5, rest6,
  rest7,
}

-- The letters that are left to write at the bit `index` of a byte that `n` bytes follow.
abbrev letters : ℕ → ℕ → ℕ
letters index n = 2 * n + (if ltb index 3 then 2 else 1)

decode_loop-encode_loop :
    (fuel index b : ℕ) (s : Bytes)
    → index < 8
    → All (λ c. c < 256) (b ∷ s)
    → letters index (length s) ≤ fuel
    → decode_loop (encode_loop fuel index (b ∷ s)) index (high index b) (suc (length s)) ≡ b ∷ s
unfolding encode_loop decode_loop next_byte
decode_loop-encode_loop zero index b s i h le = absurd (ground arith)
decode_loop-encode_loop (suc fuel) zero b s i h le =
    rw (decode_loop, base32_value_letter (within 0 b) (within-lt 0 b), within0 b h.0)
      (decode_loop-encode_loop fuel 5 b s (omega arith) h (omega arith))
decode_loop-encode_loop (suc fuel) (suc zero) b s i h le =
    rw (decode_loop, base32_value_letter (within 1 b) (within-lt 1 b), within1 b h.0)
      (decode_loop-encode_loop fuel 6 b s (omega arith) h (omega arith))
decode_loop-encode_loop (suc fuel) (suc (suc zero)) b s i h le =
    rw (decode_loop, base32_value_letter (within 2 b) (within-lt 2 b), within2 b h.0)
      (decode_loop-encode_loop fuel 7 b s (omega arith) h (omega arith))
decode_loop-encode_loop (suc fuel) (suc (suc (suc zero))) b [] i h le =
    rw (decode_loop, base32_value_letter (within 3 b) (within-lt 3 b), within3 b h.0) refl
decode_loop-encode_loop (suc fuel) (suc (suc (suc zero))) b (c ∷ s) i h le =
    rw (decode_loop, base32_value_letter (within 3 b) (within-lt 3 b), within3 b h.0)
      (ap (λ x. b ∷ decode_loop (encode_loop fuel 0 (c ∷ s)) 0 x (suc (length s)))
          (sym (high_zero c h.1.0))
        ∙ ap (λ (t : Bytes). b ∷ t)
            (decode_loop-encode_loop fuel 0 c s (omega arith) h.1 (omega arith)))
decode_loop-encode_loop (suc fuel) (suc (suc (suc (suc zero)))) b [] i h le =
    rw
      (
        crossing4 b h.0 [] tt,
        decode_loop,
        base32_value_letter (b % 16 * 2 + 0) (omega arith),
        done4 b h.0 0 (omega arith),
      )
      refl
decode_loop-encode_loop (suc fuel) (suc (suc (suc (suc zero)))) b (c ∷ s) i h le =
    rw
      (
        crossing4 b h.0 (c ∷ s) h.1,
        decode_loop,
        base32_value_letter (b % 16 * 2 + c / 128) (omega (arith, h.1.0)),
        done4 b h.0 (c / 128) (omega (arith, h.1.0)),
        rest4 (b % 16) c h.1.0,
      )
      (ap (λ (t : Bytes). b ∷ t)
        (decode_loop-encode_loop fuel 1 c s (omega arith) h.1 (omega arith)))
decode_loop-encode_loop (suc fuel) (suc (suc (suc (suc (suc zero))))) b [] i h le =
    rw
      (
        crossing5 b h.0 [] tt,
        decode_loop,
        base32_value_letter (b % 8 * 4 + 0) (omega arith),
        done5 b h.0 0 (omega arith),
      )
      refl
decode_loop-encode_loop (suc fuel) (suc (suc (suc (suc (suc zero))))) b (c ∷ s) i h le =
    rw
      (
        crossing5 b h.0 (c ∷ s) h.1,
        decode_loop,
        base32_value_letter (b % 8 * 4 + c / 64) (omega (arith, h.1.0)),
        done5 b h.0 (c / 64) (omega (arith, h.1.0)),
        rest5 (b % 8) c h.1.0,
      )
      (ap (λ (t : Bytes). b ∷ t)
        (decode_loop-encode_loop fuel 2 c s (omega arith) h.1 (omega arith)))
decode_loop-encode_loop (suc fuel) (suc (suc (suc (suc (suc (suc zero)))))) b [] i h le =
    rw
      (
        crossing6 b h.0 [] tt,
        decode_loop,
        base32_value_letter (b % 4 * 8 + 0) (omega arith),
        done6 b h.0 0 (omega arith),
      )
      refl
decode_loop-encode_loop (suc fuel) (suc (suc (suc (suc (suc (suc zero)))))) b (c ∷ s) i h le =
    rw
      (
        crossing6 b h.0 (c ∷ s) h.1,
        decode_loop,
        base32_value_letter (b % 4 * 8 + c / 32) (omega (arith, h.1.0)),
        done6 b h.0 (c / 32) (omega (arith, h.1.0)),
        rest6 (b % 4) c h.1.0,
      )
      (ap (λ (t : Bytes). b ∷ t)
        (decode_loop-encode_loop fuel 3 c s (omega arith) h.1 (omega arith)))
decode_loop-encode_loop (suc fuel) (suc (suc (suc (suc (suc (suc (suc zero))))))) b [] i h le =
    rw
      (
        crossing7 b h.0 [] tt,
        decode_loop,
        base32_value_letter (b % 2 * 16 + 0) (omega arith),
        done7 b h.0 0 (omega arith),
      )
      refl
decode_loop-encode_loop (suc fuel) (suc (suc (suc (suc (suc (suc (suc zero))))))) b (c ∷ s) i h le =
    rw
      (
        crossing7 b h.0 (c ∷ s) h.1,
        decode_loop,
        base32_value_letter (b % 2 * 16 + c / 16) (omega (arith, h.1.0)),
        done7 b h.0 (c / 16) (omega (arith, h.1.0)),
        rest7 (b % 2) c h.1.0,
      )
      (ap (λ (t : Bytes). b ∷ t)
        (decode_loop-encode_loop fuel 4 c s (omega arith) h.1 (omega arith)))
decode_loop-encode_loop (suc fuel) (suc (suc (suc (suc (suc (suc (suc (suc index)))))))) b s i h
      le =
    absurd (omega arith)

-- `fromBase32` of what `toBase32` writes for a string of bytes, with the length of the string, is
-- the string.
pub from_base32-to_base32 :
    (s : Bytes) → All (λ c. c < 256) s → from_base32 (to_base32 s) (length s) ≡ s
unfolding from_base32 to_base32 decode_loop
from_base32-to_base32 [] h = refl
from_base32-to_base32 (b ∷ s) h =
    ap (λ x. decode_loop (encode_loop (2 * suc (length s)) 0 (b ∷ s)) 0 x (suc (length s)))
      (sym (high_zero b h.0))
    ∙ decode_loop-encode_loop (2 * suc (length s)) 0 b s (omega arith) h (omega arith)
