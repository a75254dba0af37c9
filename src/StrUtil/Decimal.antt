-- ===== src/StrUtil/Decimal.antt =====
-- Decimal text is read back as the number that it was written from.
use adchubd.Base.{
  ℕ, zero, suc, ◌+◌, ◌/◌, ◌%◌, ◌^◌, ◌<◌, ◌≤◌, ◌≡◌, refl, ◌∙◌, arith, [], ◌∷◌, Bytes, ◌==◌, All,
  Bool-cases, inl, inr,
}
use native.Mathlib.Nat.{pow-suc, mod-eq_of_lt}
use adchubd.StrUtil.{
  digits_loop, or_zero, to_string, is_white_space, skip_spaces, skip_plus, read_digits,
  string_to_uint,
}

abbrev pub IsDigit : ℕ → Type 0
IsDigit c = (b'0' ≤ c) × (c ≤ b'9')

digits_loop-All : (i v : ℕ) (s : Bytes) → All IsDigit s → All IsDigit (digits_loop i v s)
unfolding digits_loop
digits_loop-All zero v s h = h
digits_loop-All (suc i) v s h = elim (Bool-cases (v == 0)) [
  | inl e ↦ rw e h
  | inr e ↦ rw e (digits_loop-All i (v / 10) _ (omega arith, h))
]

read_digits-digits_loop :
    (w i v : ℕ) (s : Bytes)
    → v < 10 ^ i
    → v < 2 ^ w
    → read_digits w 0 (digits_loop i v s) ≡ read_digits w v s
unfolding digits_loop
read_digits-digits_loop w zero v s hi hw = let e : v ≡ 0 = omega arith in rw e
read_digits-digits_loop w (suc i) v s hi hw = elim (Bool-cases (v == 0)) [
  | inl e ↦ ground arith
  | inr e ↦ rw e (
      read_digits-digits_loop w i (v / 10) ((b'0' + v % 10) ∷ s) (omega (arith, pow-suc 10 i))
        (omega arith)
      ∙ one)
]
  where
    one : read_digits w (v / 10) ((b'0' + v % 10) ∷ s) ≡ read_digits w v s
    one = unfold read_digits in ground (arith, mod-eq_of_lt hw)

skips_digit : (c : ℕ) (s : Bytes) → IsDigit c → skip_plus (skip_spaces (c ∷ s)) ≡ c ∷ s
unfolding skip_spaces is_white_space
skips_digit c s h = ground arith

read_or_zero :
    (w v : ℕ) (s : Bytes) → All IsDigit s → read_digits w 0 s ≡ v → string_to_uint w (or_zero s) ≡ v
unfolding string_to_uint
read_or_zero w v [] h e =
    rw (skips_digit b'0' [] (omega arith)) (unfold read_digits in ground (arith, mod_zero w))
  where
    mod_zero : (w : ℕ) → 0 % 2 ^ w ≡ 0
    mod_zero w = omega arith
read_or_zero w v (c ∷ s) h e = rw (skips_digit c s h.0) e

-- `toString` of an unsigned number that fits a type of `w` bits, and the 64 characters of the
-- buffer, is read back as that number.
pub string_to_uint-to_string :
    (w v : ℕ) → v < 2 ^ w → v < 10 ^ 64 → string_to_uint w (to_string v) ≡ v
unfolding to_string
string_to_uint-to_string w v hw hi =
    read_or_zero w v (digits_loop 64 v []) (digits_loop-All 64 v [] tt)
      (read_digits-digits_loop w 64 v [] hi hw ∙ unfold read_digits in refl)
