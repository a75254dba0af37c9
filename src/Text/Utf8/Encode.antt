-- ===== src/Text/Utf8/Encode.antt =====
-- What `wcToUtf8` writes, field by field.
use adchubd.Base.{ℕ, ◌+◌, ◌/◌, ◌%◌, ◌≤◌, ◌<◌, bit_and, bit_or, ◌≡◌, arith, [], ◌∷◌}
use adchubd.Text.Utf8.{wc_to_utf8}
use adchubd.Text.Utf8.Masks.{low6, mark_cont, mark2, mark3, mark4}

pub encode1 : (v : ℕ) → v < 128 → wc_to_utf8 v ≡ v ∷ []
unfolding wc_to_utf8
encode1 v h = ground arith

cont_byte : (v : ℕ) → bit_or 0x80 (bit_and v 0x3F) ≡ 128 + v % 64
cont_byte v = rw low6 (mark_cont (v % 64) (omega arith))

pub encode2 : (v : ℕ) → 128 ≤ v → v < 2048 → wc_to_utf8 v ≡ (192 + v / 64) ∷ (128 + v % 64) ∷ []
unfolding wc_to_utf8
encode2 v lo hi = ground (arith, mark2 (v / 64) (omega arith), cont_byte v)

pub encode3 :
    (v : ℕ)
    → 2048 ≤ v
    → v < 65536
    → wc_to_utf8 v ≡ (224 + v / 4096) ∷ (128 + v / 64 % 64) ∷ (128 + v % 64) ∷ []
unfolding wc_to_utf8
encode3 v lo hi = ground (arith, mark3 (v / 4096) (omega arith), cont_byte (v / 64), cont_byte v)

pub encode4 :
    (v : ℕ)
    → 65536 ≤ v
    → v < 1114112
    → wc_to_utf8 v
      ≡ (240 + v / 262144) ∷ (128 + v / 4096 % 64) ∷ (128 + v / 64 % 64) ∷ (128 + v % 64) ∷ []
unfolding wc_to_utf8
encode4 v lo hi =
    ground (
      arith,
      mark4 (v / 262144) (omega arith),
      cont_byte (v / 4096),
      cont_byte (v / 64),
      cont_byte v,
    )
