-- ===== src/HashBloom/Added.antt =====
-- A filter finds every hash that was added to it.
use adchubd.Base.{
  ℕ, zero, suc, ◌+◌, ◌<◌, ◌≡◌, refl, sym, ap, ◌∙◌, subst, Bool, true, false, List, [], ◌∷◌, Option,
  none, some, Bytes, arith, if◌then◌else◌, length, get_or, is_empty, All,
}
use adchubd.HashBloom.{HashBloom, add, add_loop, set_bit, matches, match_loop, pos}
use adchubd.HashBloom.Sizes.{pos-lt}

length-set_bit : (l : List Bool) (i : ℕ) → length (set_bit l i) ≡ length l
unfolding set_bit
length-set_bit [] i = refl
length-set_bit (x ∷ l) zero = refl
length-set_bit (x ∷ l) (suc i) = ap suc (length-set_bit l i)

-- Bits are only ever set.
abbrev pub Grows : List Bool → List Bool → Type 0
Grows l m = (length m ≡ length l) × ((i : ℕ) → get_or l i false ≡ true → get_or m i false ≡ true)

get_or-set_bit :
    (l : List Bool) (i j : ℕ) → get_or l j false ≡ true → get_or (set_bit l i) j false ≡ true
unfolding set_bit
get_or-set_bit [] i j h = h
get_or-set_bit (x ∷ l) zero zero h = refl
get_or-set_bit (x ∷ l) zero (suc j) h = h
get_or-set_bit (x ∷ l) (suc i) zero h = h
get_or-set_bit (x ∷ l) (suc i) (suc j) h = get_or-set_bit l i j h

get_or-set_bit_self : (l : List Bool) (i : ℕ) → i < length l → get_or (set_bit l i) i false ≡ true
unfolding set_bit
get_or-set_bit_self [] i h = absurd (omega arith)
get_or-set_bit_self (x ∷ l) zero h = refl
get_or-set_bit_self (x ∷ l) (suc i) h = get_or-set_bit_self l i (omega arith)

set_bit-Grows : (l : List Bool) (i : ℕ) → Grows l (set_bit l i)
set_bit-Grows l i = (length-set_bit l i, λ j h. get_or-set_bit l i j h)

Grows-trans : (l m n : List Bool) → Grows l m → Grows m n → Grows l n
Grows-trans l m n (a, p) (b, q) = (b ∙ a, λ i h. q i (p i h))

both : (b c : Bool) → (if b then c else false) ≡ true → (b ≡ true) × (c ≡ true)
both true c h = (refl, h)
both false c h = absurd (cc)

module _ (h : ℕ) (tth : Bytes) where
  add_loop-Grows : (r i : ℕ) (l : List Bool) → Grows l (add_loop h tth r i l)
  unfolding add_loop
  add_loop-Grows zero i l = (refl, λ j p. p)
  add_loop-Grows (suc r) i l =
      Grows-trans l (set_bit l (pos (length l) h tth i)) _
        (set_bit-Grows l (pos (length l) h tth i))
        (add_loop-Grows r (i + 1) (set_bit l (pos (length l) h tth i)))

  match_loop-Grows :
      (r i : ℕ) (l m : List Bool)
      → Grows l m
      → match_loop h tth r i l ≡ true
      → match_loop h tth r i m ≡ true
  unfolding match_loop
  match_loop-Grows zero i l m g p = refl
  match_loop-Grows (suc r) i l m (e, g) p =
      let (here, later) =
        both (get_or l (pos (length l) h tth i) false) (match_loop h tth r (i + 1) l) p in
      rw (e, g (pos (length l) h tth i) here) (match_loop-Grows r (i + 1) l m (e, g) later)

  match_loop-add_loop :
      (r i : ℕ) (l : List Bool) → 0 < length l → match_loop h tth r i (add_loop h tth r i l) ≡ true
  unfolding match_loop add_loop
  match_loop-add_loop zero i l p = refl
  match_loop-add_loop (suc r) i l p =
      let at = pos (length l) h tth i in
      let l' = set_bit l at in
      let (e, g) = add_loop-Grows r (i + 1) l' in
      let found = g at (get_or-set_bit_self l at (pos-lt (length l) h tth i p)) in
      rw (e, length-set_bit l at, found)
        (match_loop-add_loop r (i + 1) l' (subst (λ t. 0 < t) (sym (length-set_bit l at)) p))

-- A filter that another one of the same shape has become.
abbrev pub Extends : HashBloom → HashBloom → Type 0
Extends b c = Grows b.bloom c.bloom × (c.k ≡ b.k) × (c.h ≡ b.h)

-- The filter after a list of hashes has been added.
unfoldable pub add_all : List Bytes → HashBloom → Option HashBloom
add_all [] b = some b
add_all (t ∷ ts) b = elim (add t b) [ none ↦ none | some c ↦ add_all ts c ]

nonempty : (l : List Bool) → 0 < length l → is_empty l ≡ false
unfolding is_empty
nonempty [] h = absurd (omega arith)
nonempty (x ∷ l) h = refl

add-Extends :
    (t : Bytes) (b : HashBloom)
    → 0 < length b.bloom
    → (c : HashBloom) × (add t b ≡ some c) × Extends b c × (matches t c ≡ true)
unfolding add matches
add-Extends t b h =
    let (e, g) = add_loop-Grows b.h t b.k 0 b.bloom in
    rw (nonempty b.bloom h) (
      record b { bloom = add_loop b.h t b.k 0 b.bloom },
      refl,
      ((e, g), refl, refl),
      rw (nonempty _ (subst (λ n. 0 < n) (sym e) h)) (match_loop-add_loop b.h t b.k 0 b.bloom h),
    )

matches-Extends :
    (t : Bytes) (b c : HashBloom)
    → 0 < length b.bloom
    → Extends b c
    → matches t b ≡ true
    → matches t c ≡ true
unfolding matches
matches-Extends t b c h ((e, g), ek, eh) p =
    let q = match_loop-Grows b.h t b.k 0 b.bloom c.bloom (e, g) (rw (nonempty b.bloom h) at p) in
    rw (nonempty c.bloom (subst (λ n. 0 < n) (sym e) h)) (
      subst (λ k. match_loop c.h t k 0 c.bloom ≡ true) (sym ek)
        (subst (λ n. match_loop n t b.k 0 c.bloom ≡ true) (sym eh) q))

Extends-trans : (b c d : HashBloom) → Extends b c → Extends c d → Extends b d
Extends-trans b c d (g, p, q) (g', p', q') =
    (Grows-trans b.bloom c.bloom d.bloom g g', p' ∙ p, q' ∙ q)

-- Every list of hashes can be added to a filter that is not empty, and the filter finds them all.
pub add_all-matches :
    (ts : List Bytes) (b : HashBloom)
    → 0 < length b.bloom
    → (c : HashBloom) × (add_all ts b ≡ some c) × Extends b c × All (λ t. matches t c ≡ true) ts
unfolding add_all
add_all-matches [] b h = (b, refl, ((refl, λ i p. p), refl, refl), tt)
add_all-matches (t ∷ ts) b h =
    let (c, e, x, found) = add-Extends t b h in
    let room : 0 < length c.bloom = subst (λ n. 0 < n) (sym x.0.0) h in
    let (d, e', y, rest) = add_all-matches ts c room in
    (d, rw (e, add_all) e', Extends-trans b c d x y, (matches-Extends t c d room y found, rest))
