-- ===== src/HashBloom/Sizes.antt =====
-- The number of hashes and the size of a filter, and where the bits of a hash come to stand.
use adchubd.Base.{
  ℕ, zero, suc, ◌+◌, ◌*◌, ◌/◌, ◌%◌, ◌^◌, ◌≤◌, ◌<◌, ◌≡◌, ◌⊎◌, inl, inr, refl, sym, subst, true,
  false, Bytes, Bool-cases, arith, ◌==◌, ltb,
}
use native.Mathlib.Decide.{dec_lt}
use adchubd.HashBloom.{get_m, get_k_loop, get_k, pos, key_bits, bits}

fits_lt : (m : ℕ) → (m / 2 ^ 24 == 0) ≡ true → m < 2 ^ 24
fits_lt m h = ground arith

large_le : (m : ℕ) → (m / 2 ^ 24 == 0) ≡ false → 2 ^ 24 ≤ m
large_le m h = ground arith

pos-own : (m : ℕ) (tth : Bytes) (i : ℕ) → i < 8 → pos m 24 tth i ≡ key_bits tth (i * 24) 24 0 0 % m
unfolding pos
pos-own m tth i h = rw (fits_bits i h, in_range i h) refl
  where
    fits_bits : (i : ℕ) → i < 8 → ltb bits ((i + 1) * 24 % 2 ^ 64) ≡ false
    fits_bits i h = ground arith

    in_range : (i : ℕ) → i < 8 → i * 24 % 2 ^ 64 ≡ i * 24
    in_range i h = omega arith

pub pos-lt : (m h : ℕ) (tth : Bytes) (i : ℕ) → 0 < m → pos m h tth i < m
unfolding pos
pos-lt m h tth i p = grind arith

module _ (optimal : ℕ → ℕ → ℕ) where
  -- Of the numbers up to `j`, `r` is the greatest for which 24 bits address the filter, or it is 1.
  abbrev pub Greatest : ℕ → ℕ → ℕ → Type 0
  Greatest n j r =
      (1 ≤ r)
      × ((r ≡ 1) ⊎ ((r ≤ j) × (get_m optimal n r < 2 ^ 24)))
      × ((i : ℕ) → r < i → i ≤ j → 2 ^ 24 ≤ get_m optimal n i)

  get_k_loop-Greatest : (n j : ℕ) → Greatest n j (get_k_loop optimal n j)
  unfolding get_k_loop
  get_k_loop-Greatest n zero = (omega arith, inl refl, λ i a b. absurd (omega arith))
  get_k_loop-Greatest n (suc zero) = (omega arith, inl refl, λ i a b. absurd (omega arith))
  get_k_loop-Greatest n (suc (suc j)) =
      let (a, b, c) = get_k_loop-Greatest n (suc j) in
      elim (Bool-cases (get_m optimal n (suc (suc j)) / 2 ^ 24 == 0)) [
        | inl fits ↦
            rw fits (omega arith, inr (omega arith, fits_lt _ fits), λ i p q. absurd (omega arith))
        | inr large ↦ rw large (a, wider b, longer (large_le _ large) c)
      ]
    where
      wider :
          {r : ℕ}
          → (r ≡ 1) ⊎ ((r ≤ suc j) × (get_m optimal n r < 2 ^ 24))
          → (r ≡ 1) ⊎ ((r ≤ suc (suc j)) × (get_m optimal n r < 2 ^ 24))
      wider (inl e) = inl e
      wider (inr (p, q)) = inr (omega arith, q)

      longer :
          {r : ℕ}
          → 2 ^ 24 ≤ get_m optimal n (suc (suc j))
          → ((i : ℕ) → r < i → i ≤ suc j → 2 ^ 24 ≤ get_m optimal n i)
          → (i : ℕ) → r < i
          → i ≤ suc (suc j)
          → 2 ^ 24 ≤ get_m optimal n i
      longer last c i p q = elim (dec_lt i (suc (suc j))) [
        | yes below ↦ c i p (omega arith)
        | no other ↦
            let e : i ≡ suc (suc j) = omega arith in
            subst (λ t. 2 ^ 24 ≤ get_m optimal n t) (sym e) last
      ]

  get_m-multiple : (n k : ℕ) → get_m optimal n k % 64 ≡ 0
  unfolding get_m
  get_m-multiple n k = omega arith

  -- For 24 bits to a position, `getK` is the greatest of the numbers 2 to 8, odd ones and 7 included,
  -- whose filter has fewer than 2 ^ 24 bits, or 1 if there is none; the comment on the class names the
  -- divisors of the size of a hash alone, and another bound for each. The number of bits of the filter is
  -- a multiple of 64; and if there are bits at all, each of the positions of a hash is that of its own 24
  -- bits, reduced to the filter, and lies within it.
  pub get_k_bounds :
      (n : ℕ)
      → Greatest n 8 (get_k optimal n 24)
        × (get_m optimal n (get_k optimal n 24) % 64 ≡ 0)
        × ((tth : Bytes) (i : ℕ)
            → i < get_k optimal n 24
            → 0 < get_m optimal n (get_k optimal n 24)
            → (pos (get_m optimal n (get_k optimal n 24)) 24 tth i
                < get_m optimal n (get_k optimal n 24))
              × (pos (get_m optimal n (get_k optimal n 24)) 24 tth i
                  ≡ key_bits tth (i * 24) 24 0 0 % get_m optimal n (get_k optimal n 24)))
  unfolding get_k
  get_k_bounds n =
      let g = get_k_loop-Greatest n 8 in
      (
        g,
        get_m-multiple n (get_k_loop optimal n 8),
        λ tth i below some_bits.
            (pos-lt _ 24 tth i some_bits, pos-own _ tth i (omega (arith, at_most g))),
      )
    where
      at_most : {r : ℕ} → Greatest n 8 r → r ≤ 8
      at_most (a, inl e, c) = omega arith
      at_most (a, inr (p, q), c) = p
