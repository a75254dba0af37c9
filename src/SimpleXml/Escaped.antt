-- ===== src/SimpleXml/Escaped.antt =====
-- An escaped text is read back as it was.
use adchubd.Base.{
  ℕ, zero, suc, ◌≤◌, ◌≡◌, refl, sym, subst, ap, ◌∙◌, Bool, true, false, ◌&&◌, ◌||◌, [], ◌∷◌, ◌++◌,
  Bytes, ◌==◌, ==_iff, Bool-cases, inl, inr, length, length-append, All, All-append, arith, same,
}
use adchubd.SimpleXml.{is_special, escape_char, escape, entity, unescape_loop, unescape}

-- The characters that are escaped.
pub data Special (is_attrib : Bool) : ℕ → Type 0 where
  less : Special is_attrib b'<'
  amp : Special is_attrib b'&'
  greater : Special is_attrib b'>'
  apos : is_attrib ≡ true → Special is_attrib b'\''
  quot : is_attrib ≡ true → Special is_attrib b'"'

pub special : (a : Bool) (c : ℕ) → is_special a c ≡ true → Special a c
special a c h = elim (Bool-cases (c == b'<')) [
  | inl e ↦ subst (Special a) (sym ((==_iff c b'<').0 e)) less
  | inr n1 ↦ elim (Bool-cases (c == b'&')) [
    | inl e ↦ subst (Special a) (sym ((==_iff c b'&').0 e)) amp
    | inr n2 ↦ elim (Bool-cases (c == b'>')) [
      | inl e ↦ subst (Special a) (sym ((==_iff c b'>').0 e)) greater
      | inr n3 ↦ elim (Bool-cases (c == b'\'')) [
        | inl e ↦ subst (Special a) (sym ((==_iff c b'\'').0 e)) (apos (ground arith))
        | inr n4 ↦ subst (Special a) (sym (ground arith)) (quot (ground arith))
      ]
    ]
  ]
]

-- A reader meets an escape.
unescape_loop-escape_char :
    (a : Bool) (c fuel : ℕ) (t : Bytes)
    → Special a c
    → unescape_loop (suc fuel) a (escape_char c ++ t) ≡ c ∷ unescape_loop fuel a t
unfolding unescape_loop escape_char entity same
unescape_loop-escape_char a c fuel t less = refl
unescape_loop-escape_char a c fuel t amp = refl
unescape_loop-escape_char a c fuel t greater = refl
unescape_loop-escape_char a c fuel t (apos e) = rw e refl
unescape_loop-escape_char a c fuel t (quot e) = rw e refl

unescape_loop-other :
    (a : Bool) (c fuel : ℕ) (t : Bytes)
    → is_special a c ≡ false
    → unescape_loop (suc fuel) a (c ∷ t) ≡ c ∷ unescape_loop fuel a t
unfolding unescape_loop
unescape_loop-other a c fuel t h =
    let plain : (c == b'&') ≡ false = ground arith in rw (plain, unescape_loop) refl

length-escape_char : (c : ℕ) → 1 ≤ length (escape_char c)
unfolding escape_char
length-escape_char c = ground arith

unescape_loop-nil : (a : Bool) (fuel : ℕ) → unescape_loop fuel a [] ≡ []
unfolding unescape_loop
unescape_loop-nil a zero = refl
unescape_loop-nil a (suc fuel) = refl

-- The round for an escape, and the one for another character, where the rest is read back.
unescape_loop-met :
    (a : Bool) (c : ℕ) (s t : Bytes) (fuel : ℕ)
    → Special a c
    → suc (length t) ≤ fuel
    → ((f : ℕ) → length t ≤ f → unescape_loop f a t ≡ s)
    → unescape_loop fuel a (escape_char c ++ t) ≡ c ∷ s
unescape_loop-met a c s t zero sp room rest = absurd (omega arith)
unescape_loop-met a c s t (suc fuel) sp room rest =
    unescape_loop-escape_char a c fuel t sp ∙ ap (◌∷◌ c) (rest fuel (omega arith))

unescape_loop-passed :
    (a : Bool) (c : ℕ) (s t : Bytes) (fuel : ℕ)
    → is_special a c ≡ false
    → suc (length t) ≤ fuel
    → ((f : ℕ) → length t ≤ f → unescape_loop f a t ≡ s)
    → unescape_loop fuel a (c ∷ t) ≡ c ∷ s
unescape_loop-passed a c s t zero plain room rest = absurd (omega arith)
unescape_loop-passed a c s t (suc fuel) plain room rest =
    unescape_loop-other a c fuel t plain ∙ ap (◌∷◌ c) (rest fuel (omega arith))

unescape_loop-escape :
    (a : Bool) (s : Bytes) (fuel : ℕ)
    → length (escape a s) ≤ fuel
    → unescape_loop fuel a (escape a s) ≡ s
unfolding escape
unescape_loop-escape a [] fuel room = unescape_loop-nil a fuel
unescape_loop-escape a (c ∷ s) fuel room =
    let t = escape a s in
    let rest = unescape_loop-escape a s in
    elim (Bool-cases (is_special a c)) [
      | inl met ↦
          let sized = length-append (escape_char c) t in
          let room' : length (escape_char c ++ t) ≤ fuel = rw met at room in
          rw met (
            unescape_loop-met a c s t fuel (special a c met)
              (omega (arith, sized, length-escape_char c, room')) rest)
      | inr plain ↦
          let room' : suc (length t) ≤ fuel = rw plain at room in
          rw plain (unescape_loop-passed a c s t fuel plain room' rest)
    ]

-- What may not stand in a text or an attribute.
abbrev pub is_markup : Bool → ℕ → Bool
is_markup is_attrib c = c == b'<' || c == b'>' || (is_attrib && (c == b'\'' || c == b'"'))

escape_char-is_markup : (a : Bool) (c : ℕ) → All (λ x. is_markup a x ≡ false) (escape_char c)
unfolding escape_char
escape_char-is_markup true c = ground arith
escape_char-is_markup false c = ground arith

escape-is_markup : (a : Bool) (s : Bytes) → All (λ x. is_markup a x ≡ false) (escape a s)
unfolding escape
escape-is_markup a [] = tt
escape-is_markup a (c ∷ s) = elim (Bool-cases (is_special a c)) [
  | inl met ↦ rw met (
      All-append (λ x. is_markup a x ≡ false) (escape_char c) (escape a s)
        (escape_char-is_markup a c) (escape-is_markup a s))
  | inr plain ↦ rw plain (ground arith, escape-is_markup a s)
]

-- Whatever the text is, what `escape` writes for it as a text or as an attribute has no angle bracket
-- and, as an attribute, no quotation mark of either kind, and `escape` of what has been read gives it
-- back.
pub unescape-escape :
    (a : Bool) (s : Bytes)
    → All (λ x. is_markup a x ≡ false) (escape a s) × (unescape a (escape a s) ≡ s)
unfolding unescape
unescape-escape a s =
    (escape-is_markup a s, unescape_loop-escape a s (length (escape a s)) (omega arith))
