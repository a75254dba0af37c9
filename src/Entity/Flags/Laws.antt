-- ===== src/Entity/Flags/Laws.antt =====
-- `setFlag`, `unsetFlag` and `isSet` on the bits of an entity.
use adchubd.Base.{
  ℕ, zero, suc, ◌+◌, ◌-◌, ◌/◌, ◌^◌, ◌<◌, ◌≤◌, ◌≡◌, refl, sym, ==_refl, ◌∙◌, arith, true, false,
  ◌==◌, bit_and, bit_or, Bool-cases, inl, inr,
}
use adchubd.Base.Bits.{bit_and_halves, bit_or_halves, bit_and-zero}
use native.Mathlib.Nat.{pow-suc, one-le-pow}
use adchubd.Entity.{Entity}
use adchubd.Entity.Fields.{set_field}
use adchubd.Entity.Flags.{
  set_bits, unset_bits, is_set_in, is_set, set_flag, unset_flag, with_client_type, mask_client_type,
}

-- `(f | m) & m = m`, and `(f & ~m) & m = 0` in `k` bits.
absorb : (n f m : ℕ) → f ≤ n → m ≤ n → bit_and (bit_or f m) m ≡ m
absorb zero f m hf hm = let e : m ≡ 0 = omega arith in rw e (bit_and-zero (bit_or f 0))
absorb (suc n) f m hf hm =
    ground (arith, bit_and_halves (bit_or f m) m, bit_or_halves f m, absorb n (f / 2) (m / 2))

masked : (k f m : ℕ) → m < 2 ^ k → bit_and (bit_and f (2 ^ k - 1 - m)) m ≡ 0
masked zero f m h = let e : m ≡ 0 = omega arith in rw e (bit_and-zero (bit_and f 0))
masked (suc k) f m h = ground (
  arith,
  bit_and_halves (bit_and f (2 ^ suc k - 1 - m)) m,
  bit_and_halves f (2 ^ suc k - 1 - m),
  pow-suc 2 k,
  one-le-pow k 2,
  masked k (f / 2) (m / 2),
)

-- A mask that has no bit of `m` reads the same before and after.
or_other : (n f m o : ℕ) → o ≤ n → bit_and m o ≡ 0 → bit_and (bit_or f m) o ≡ bit_and f o
or_other zero f m o h d =
    let e : o ≡ 0 = omega arith in rw e (bit_and-zero (bit_or f m) ∙ sym (bit_and-zero f))
or_other (suc n) f m o h d = ground (
  arith,
  bit_and_halves (bit_or f m) o,
  bit_and_halves f o,
  bit_and_halves m o,
  bit_or_halves f m,
  or_other n (f / 2) (m / 2) (o / 2),
)

mask_other :
    (k f m o : ℕ)
    → m < 2 ^ k
    → o < 2 ^ k
    → bit_and m o ≡ 0
    → bit_and (bit_and f (2 ^ k - 1 - m)) o ≡ bit_and f o
mask_other zero f m o h l d =
    let e : o ≡ 0 = omega arith in
    rw e (bit_and-zero (bit_and f (2 ^ 0 - 1 - m)) ∙ sym (bit_and-zero f))
mask_other (suc k) f m o h l d = ground (
  arith,
  bit_and_halves (bit_and f (2 ^ suc k - 1 - m)) o,
  bit_and_halves f (2 ^ suc k - 1 - m),
  bit_and_halves f o,
  bit_and_halves m o,
  pow-suc 2 k,
  one-le-pow k 2,
  mask_other k (f / 2) (m / 2) (o / 2),
)

flags-with_client_type : (e : Entity) (flag : ℕ) → (with_client_type e flag).flags ≡ e.flags
flags-with_client_type e flag = elim (Bool-cases (bit_and flag mask_client_type == 0)) [
  | inl z ↦ rw z
  | inr z ↦ rw z (unfold set_field in refl)
]

flags-set_flag : (e : Entity) (flag : ℕ) → (set_flag e flag).flags ≡ bit_or e.flags flag
unfolding set_flag set_bits
flags-set_flag e flag = flags-with_client_type (record e { flags = bit_or e.flags flag }) flag

flags-unset_flag :
    (e : Entity) (flag : ℕ) → (unset_flag e flag).flags ≡ bit_and e.flags (2 ^ 32 - 1 - flag)
unfolding unset_flag unset_bits
flags-unset_flag e flag =
    flags-with_client_type (record e { flags = bit_and e.flags (2 ^ 32 - 1 - flag) }) flag

-- A flag that is not zero is set after `setFlag`, and not set after `unsetFlag`.
pub is_set-set_flag :
    (e : Entity) (flag : ℕ)
    → 0 < flag
    → flag < 2 ^ 32
    → (is_set (set_flag e flag) flag ≡ true) × (is_set (unset_flag e flag) flag ≡ false)
unfolding is_set_in
is_set-set_flag e flag pos h = (
  rw (flags-set_flag e flag, absorb (e.flags + flag) e.flags flag (omega arith) (omega arith))
      (==_refl flag),
  rw (flags-unset_flag e flag, masked 32 e.flags flag h) (ground arith),
)

-- `setFlag` and `unsetFlag` leave every flag alone that shares no bit with theirs.
pub is_set-set_flag_ne :
    (e : Entity) (flag other : ℕ)
    → flag < 2 ^ 32
    → other < 2 ^ 32
    → bit_and flag other ≡ 0
    → (is_set (set_flag e flag) other ≡ is_set e other)
      × (is_set (unset_flag e flag) other ≡ is_set e other)
unfolding is_set_in
is_set-set_flag_ne e flag other h l d = (
  rw (flags-set_flag e flag, or_other other e.flags flag other (omega arith) d),
  rw (flags-unset_flag e flag, mask_other 32 e.flags flag other h l d),
)
