-- ===== src/SimpleXmlReader/Process/Adv.antt =====
-- baselib/SimpleXMLReader.cpp: what a function of the reader does to the position and the state.
use adchubd.Base.{
  suc, zero, ℕ, ◌+◌, ◌-◌, ◌*◌, ◌≤◌, ◌<◌, ◌≡◌, ◌⊎◌, inl, inr, refl, Bool, true, false, [], ◌∷◌,
  Bytes, Bool-cases, ◌==◌, if◌then◌else◌, length, length-drop, drop, ◌++◌, ap, codes, arith, ltb,
}
use adchubd.SimpleXmlReader.{
  ParseState, Reader, Outcome, thrown, hangs, went, or_else, error, character, literal,
  literal_space, agrees, skip_loop, skip_space, space_or_error, advance_pos, is_space, need_chars,
  max_value_size,
}
use adchubd.SimpleXmlReader.Process.{code, or_space, or_error}

-- Twice the characters that are left, and one more in the state `element_end`, which a round may leave
-- without a character.
abbrev pub weight : Reader → ℕ
weight r = 2 * length r.buf + (if code r.state == 21 then 1 else 0)

-- How many ampersands a text has.
unfoldable pub amps : Bytes → ℕ
amps [] = 0
amps (c ∷ s) = (if c == b'&' then 1 else 0) + amps s

pub amps-drop : (n : ℕ) (s : Bytes) → amps (drop n s) ≤ amps s
unfolding amps
amps-drop zero s = omega arith
amps-drop (suc n) [] = omega arith
amps-drop (suc n) (c ∷ s) = ground (arith, amps-drop n s)

-- The reader goes on by the characters that it takes off the buffer, in which no ampersands are added,
-- and weighs less if it changes its state.
abbrev pub Adv : Reader → Reader → Type 0
Adv r next =
    (length next.buf + next.pos ≡ length r.buf + r.pos)
    × (length next.buf ≤ length r.buf)
    × (amps next.buf ≤ amps r.buf)
    × ((code next.state ≡ code r.state) ⊎ (weight next < weight r))

-- A run goes on, or throws; it hangs only if `n` is not zero.
abbrev pub Goes : ℕ → Reader → Outcome → Type 0
Goes n r (thrown e) = Unit {0}
Goes n r hangs = 0 < n
Goes n r (went b next) = Adv r next

-- A run hangs only if there is an ampersand in the buffer.
abbrev pub Good : Reader → Outcome → Type 0
Good r o = Goes (amps r.buf) r o

pub Adv-refl : (r : Reader) → Adv r r
Adv-refl r = (refl, omega arith, omega arith, inl refl)

pub Adv-trans : (r s t : Reader) → Adv r s → Adv s t → Adv r t
Adv-trans r s t p q = ground arith

pub Goes-trans : (n : ℕ) (r s : Reader) (o : Outcome) → Adv r s → Goes n s o → Goes n r o
Goes-trans n r s (thrown e) p g = tt
Goes-trans n r s hangs p g = g
Goes-trans n r s (went b t) p g = Adv-trans r s t p g

pub Good-trans : (r s : Reader) (o : Outcome) → Adv r s → Good s o → Good r o
Good-trans r s (thrown e) p g = tt
Good-trans r s hangs p g = ground arith
Good-trans r s (went b t) p g = Adv-trans r s t p g

pub Good-or_else :
    (r : Reader) (o : Outcome) (next : Reader → Outcome)
    → Good r o
    → ((s : Reader) → Good s (next s))
    → Good r (or_else o next)
Good-or_else r (thrown e) next g h = tt
Good-or_else r hangs next g h = g
Good-or_else r (went true s) next g h = g
Good-or_else r (went false s) next g h = Good-trans r s (next s) g (h s)

pub character-Good : (c : ℕ) (st : ParseState) (r : Reader) → Good r (character c st r)
unfolding character
character-Good c st r = ground (arith, length-drop 1 r.buf, amps-drop 1 r.buf)

-- What follows a literal in the buffer.
literal_space-Good :
    (lit rest : Bytes) (st : ParseState) (r : Reader)
    → 0 < length lit
    → length rest + length lit ≡ length r.buf
    → Good r (literal_space (length lit) rest st r)
literal_space-Good lit [] st r p e = Adv-refl r
literal_space-Good lit (c ∷ rest) st r p e =
    ground (arith, length-drop (length lit + 1) r.buf, amps-drop (length lit + 1) r.buf)

fits : (n m k : ℕ) → k ≡ n - m → ltb n m ≡ false → k + m ≡ n
fits n m k e h = ground arith

pub literal-Good :
    (lit : Bytes) (with_space : Bool) (st : ParseState) (r : Reader)
    → 0 < length lit
    → Good r (literal lit with_space st r)
unfolding literal
literal-Good lit with_space st r p = elim (Bool-cases (agrees lit r.buf)) [
  | inr differs ↦ rw differs (Adv-refl r)
  | inl same_so_far ↦ elim (Bool-cases (ltb (length r.buf) (length lit))) [
    | inl short ↦ rw (same_so_far, short) (Adv-refl r)
    | inr enough ↦ elim (Bool-cases with_space) [
      | inl spaced ↦
          rw (same_so_far, enough, spaced)
            (literal_space-Good lit (drop (length lit) r.buf) st r p
              (fits _ _ _ (length-drop (length lit) r.buf) enough))
      | inr plain ↦
          rw (same_so_far, enough, plain)
            (ground (arith, length-drop (length lit) r.buf, amps-drop (length lit) r.buf))
    ]
  ]
]

-- A character less, and another value.
pub value-Adv :
    (r : Reader) (v : Bytes) → 0 < length r.buf → Adv r (advance_pos 1 (record r { value = v }))
value-Adv r v h = ground (arith, length-drop 1 r.buf, amps-drop 1 r.buf)

skip_round :
    (r : Reader) (t over skipped : Bool) (message : Bytes) (o : Outcome)
    → Good r o
    → Good r (if t then (if over then error r message else o) else went skipped r)
skip_round r true true skipped message o g = tt
skip_round r true false skipped message o g = g
skip_round r false over skipped message o g = Adv-refl r

pub skip_loop-Good :
    (store : Bool) (s : Bytes) (skipped : Bool) (r : Reader)
    → r.buf ≡ s
    → Good r (skip_loop store s skipped r)
unfolding skip_loop
skip_loop-Good store [] skipped r e = Adv-refl r
skip_loop-Good true (c ∷ s) skipped r e =
    let next = advance_pos 1 (record r { value = r.value ++ c ∷ [] }) in
    skip_round r (is_space c) (ltb max_value_size (length r.value + 1)) skipped _ _ (
      Good-trans r next (skip_loop true s true next)
        (value-Adv r (r.value ++ c ∷ []) (omega (arith, ap length e)))
        (skip_loop-Good true s true next (ap (λ (t : Bytes). drop 1 t) e)))
skip_loop-Good false (c ∷ s) skipped r e =
    let next = advance_pos 1 r in
    skip_round r (is_space c) false skipped (codes "Buffer overflow") _ (
      Good-trans r next (skip_loop false s true next)
        (value-Adv r r.value (omega (arith, ap length e)))
        (skip_loop-Good false s true next (ap (λ (t : Bytes). drop 1 t) e)))

pub skip_space-Good : (store : Bool) (r : Reader) → Good r (skip_space store r)
unfolding skip_space
skip_space-Good store r = elim (Bool-cases (need_chars 1 r)) [
  | inl some_left ↦ rw some_left (skip_loop-Good store r.buf false r refl)
  | inr nothing_left ↦ rw nothing_left (Adv-refl r)
]

pub or_space-Good :
    (message : Bytes) (r : Reader) (o : Outcome) → Good r o → Good r (or_space message o)
unfolding space_or_error
or_space-Good message r o g =
    Good-or_else r o _ g
      (λ s. Good-or_else s (skip_space false s) _ (skip_space-Good false s) (λ t. tt))

pub or_error-Good :
    (message : Bytes) (r : Reader) (o : Outcome) → Good r o → Good r (or_error message o)
or_error-Good message r o g = Good-or_else r o _ g (λ s. tt)
