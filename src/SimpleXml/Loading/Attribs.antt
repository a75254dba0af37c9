-- ===== src/SimpleXml/Loading/Attribs.antt =====
-- baselib/SimpleXMLReader.cpp: the attributes of a tag that baselib/SimpleXML.cpp has written.
use adchubd.Base.{
  ℕ, suc, ◌+◌, ◌≤◌, ◌<◌, ◌≡◌, refl, ap, ◌∙◌, true, false, List, [], ◌∷◌, ◌++◌, Bytes, ltb, length,
  length-append, codes, All, arith,
}
use adchubd.SimpleXml.{escaped}
use adchubd.SimpleXml.Loading.Values.{
  at_value, rounds, process_step, process-escaped, drop_suc-append,
}
use adchubd.SimpleXmlReader.{
  ParseState, Reader, span, charset_utf8, max_value_size, max_name_size, is_name_char,
  is_name_start_char, skip_space, skip_loop, space_or_error, character,
}
use adchubd.SimpleXmlReader.Elements.{
  element_attr, element_attr_name, element_attr_name_at, element_end_complex,
}
use adchubd.SimpleXmlReader.Process.{Result, round, process, code, or_error}

abbrev pub IsNameBytes : Bytes → Type 0
IsNameBytes = All (λ c. is_name_char c ≡ true)

-- A name that the reader takes: its first character begins a name, and it is not too long.
abbrev pub IsName : Bytes → Type 0
IsName [] = ⊥
IsName (c ∷ s) = (is_name_start_char c ≡ true) × IsNameBytes s × (length s + 1 ≤ max_name_size)

pub span-name :
    (s : Bytes) (c : ℕ) (t : Bytes)
    → IsNameBytes s
    → is_name_char c ≡ false
    → span is_name_char (s ++ c ∷ t) ≡ (s, c ∷ t)
unfolding span
span-name [] c t h e = rw e refl
span-name (x ∷ s) c t h e = rw (h.0, span-name s c t h.1 e) refl

-- Within the brackets of a start tag.
abbrev pub at_attr : Reader → ParseState → ℕ → Bytes → List (Bytes × Bytes) → Reader
at_attr r st pos buf attribs = record r { buf = buf; pos = pos; attribs = attribs; state = st }

-- An attribute as it is written.
abbrev pub written : Bytes → Bytes → Bytes → Bytes
written name v rest = name ++ (codes "=\"" ++ (escaped true v ++ b'"' ∷ rest))

abbrev pub one : Bytes → ℕ → ℕ
one v fuel = suc (suc (suc (rounds v fuel)))

unfoldable pub after_name : ℕ → Bytes → Bytes → ℕ
after_name pos name v = pos + length name + length (escaped true v) + 3

-- What a reader needs to take an attribute.
abbrev pub IsAttrib : Bytes × Bytes → Type 0
IsAttrib (name, v) = IsName name × (length v + 1 < max_value_size)

-- More attributes, each behind a space.
unfoldable pub more : List (Bytes × Bytes) → Bytes → Bytes
more [] rest = rest
more ((name, v) ∷ attribs) rest = b' ' ∷ written name v (more attribs rest)

unfoldable pub more_rounds : List (Bytes × Bytes) → ℕ → ℕ
more_rounds [] fuel = fuel
more_rounds ((name, v) ∷ attribs) fuel = suc (one v (more_rounds attribs fuel))

unfoldable pub more_pos : List (Bytes × Bytes) → ℕ → ℕ
more_pos [] pos = pos
more_pos ((name, v) ∷ attribs) pos = more_pos attribs (after_name (pos + 1) name v)

-- The attributes behind those that have been read, the newest first.
unfoldable pub newest : List (Bytes × Bytes) → List (Bytes × Bytes) → List (Bytes × Bytes)
newest [] read = read
newest (a ∷ attribs) read = newest attribs (a ∷ read)

pub length-more :
    (attribs : List (Bytes × Bytes)) (rest : Bytes) → length rest ≤ length (more attribs rest)
unfolding more
length-more [] rest = omega arith
length-more ((name, v) ∷ attribs) rest = omega (
  arith,
  length-more attribs rest,
  length-append name (codes "=\"" ++ (escaped true v ++ b'"' ∷ more attribs rest)),
  length-append (escaped true v) (b'"' ∷ more attribs rest),
)

module _ (to_utf8 : Bytes → ℕ → Bytes) (to_lower : Bytes → Bytes) (charset_from_string : Bytes → ℕ)
    (r : Reader) where
  abbrev pub run : ℕ → Reader → Result
  run = process to_utf8 to_lower charset_from_string

  -- A space before a name.
  space_round :
      (fuel pos c : ℕ) (t : Bytes) (attribs : List (Bytes × Bytes))
      → is_name_start_char c ≡ true
      → run (suc fuel) (at_attr r ParseState.element_attr pos (b' ' ∷ c ∷ t) attribs)
        ≡ run fuel (at_attr r ParseState.element_attr (pos + 1) (c ∷ t) attribs)
  unfolding round code element_attr element_end_complex character space_or_error skip_space
      skip_loop
  space_round fuel pos c t attribs h =
      process_step to_utf8 to_lower charset_from_string fuel true
        (at_attr r ParseState.element_attr pos (b' ' ∷ c ∷ t) attribs)
        (at_attr r ParseState.element_attr (pos + 1) (c ∷ t) attribs) refl (ground arith)
        (ground arith)

  -- The first character of the name.
  first_round :
      (fuel pos c : ℕ) (t : Bytes) (attribs : List (Bytes × Bytes))
      → is_name_start_char c ≡ true
      → run (suc fuel) (at_attr r ParseState.element_attr pos (c ∷ t) attribs)
        ≡ run fuel (at_attr r ParseState.element_attr_name (pos + 1) t ((c ∷ [], []) ∷ attribs))
  unfolding round code element_attr
  first_round fuel pos c t attribs h =
      process_step to_utf8 to_lower charset_from_string fuel true
        (at_attr r ParseState.element_attr pos (c ∷ t) attribs)
        (at_attr r ParseState.element_attr_name (pos + 1) t ((c ∷ [], []) ∷ attribs)) refl
        (ground arith) refl

  -- The name up to the equals sign.
  name_round :
      (fuel pos : ℕ) (s t first : Bytes) (attribs : List (Bytes × Bytes))
      → IsNameBytes s
      → length first + length s ≤ max_name_size
      → run
          (suc fuel)
          (at_attr r ParseState.element_attr_name pos (s ++ b'=' ∷ t) ((first, []) ∷ attribs))
        ≡ run fuel (
            at_attr r ParseState.element_attr_value
              (pos + (length s + 1))
              t
              ((first ++ s, []) ∷ attribs))
  unfolding round code element_attr_name
  name_round fuel pos s t first attribs h l =
      let from =
        at_attr r ParseState.element_attr_name pos (s ++ b'=' ∷ t) ((first, []) ∷ attribs) in
      let fits : ltb max_name_size (length first + length s) ≡ false = ground arith in
      process_step to_utf8 to_lower charset_from_string fuel true from
        (at_attr r ParseState.element_attr_value (pos + (length s + 1)) t
          ((first ++ s, []) ∷ attribs))
        refl
        (ap
            (λ (p : Bytes × Bytes).
              or_error (codes "Expecting attribute name") (element_attr_name_at p from))
            (span-name s b'=' t h refl)
          ∙ rw (fits, drop_suc-append s b'=' t) refl)
        refl

  -- The opening quotation mark.
  quote_round :
      (fuel pos : ℕ) (t name : Bytes) (attribs : List (Bytes × Bytes))
      → run
          (suc fuel)
          (at_attr r ParseState.element_attr_value pos (b'"' ∷ t) ((name, []) ∷ attribs))
        ≡ run fuel (at_value r (pos + 1) t name [] attribs)
  unfolding round code character
  quote_round fuel pos t name attribs =
      process_step to_utf8 to_lower charset_from_string fuel true
        (at_attr r ParseState.element_attr_value pos (b'"' ∷ t) ((name, []) ∷ attribs))
        (at_value r (pos + 1) t name [] attribs) refl (ground arith) refl

  pub attrib_read :
      (name v rest : Bytes) (pos fuel : ℕ) (attribs : List (Bytes × Bytes))
      → IsAttrib (name, v)
      → r.charset ≡ charset_utf8
      → 1 < length rest
      → run (one v fuel) (at_attr r ParseState.element_attr pos (written name v rest) attribs)
        ≡ run fuel
            (at_attr r ParseState.element_attr (after_name pos name v) rest ((name, v) ∷ attribs))
  unfolding after_name
  attrib_read [] v rest pos fuel attribs h u l = absurd h.0
  attrib_read (c ∷ s) v rest pos fuel attribs h u l =
      first_round (suc (suc (rounds v fuel))) pos c
        (s ++ (codes "=\"" ++ (escaped true v ++ b'"' ∷ rest))) attribs h.0.0
      ∙ name_round (suc (rounds v fuel)) (pos + 1) s (b'"' ∷ (escaped true v ++ b'"' ∷ rest))
          (c ∷ []) attribs h.0.1 (omega (arith, h.0.2))
      ∙ quote_round (rounds v fuel) (pos + 1 + (length s + 1)) (escaped true v ++ b'"' ∷ rest)
          (c ∷ s) attribs
      ∙ process-escaped to_utf8 to_lower charset_from_string r (c ∷ s) rest attribs v
          (pos + 1 + (length s + 1) + 1) fuel u l h.1
      ∙ ap (λ (n : ℕ). run fuel (at_attr r ParseState.element_attr n rest (((c ∷ s), v) ∷ attribs)))
          (omega arith)

  pub more_read :
      (attribs read : List (Bytes × Bytes)) (rest : Bytes) (pos fuel : ℕ)
      → All IsAttrib attribs
      → r.charset ≡ charset_utf8
      → 1 < length rest
      → run
          (more_rounds attribs fuel)
          (at_attr r ParseState.element_attr pos (more attribs rest) read)
        ≡ run fuel
            (at_attr r ParseState.element_attr (more_pos attribs pos) rest (newest attribs read))
  unfolding more more_rounds more_pos newest
  more_read [] read rest pos fuel h u l = refl
  more_read (([], v) ∷ attribs) read rest pos fuel h u l = absurd h.0.0
  more_read ((c ∷ s, v) ∷ attribs) read rest pos fuel h u l =
      space_round (one v (more_rounds attribs fuel)) pos c
        (s ++ (codes "=\"" ++ (escaped true v ++ b'"' ∷ more attribs rest))) read h.0.0.0
      ∙ attrib_read (c ∷ s) v (more attribs rest) (pos + 1) (more_rounds attribs fuel) read h.0 u
          (omega (arith, length-more attribs rest))
      ∙ more_read attribs ((c ∷ s, v) ∷ read) rest (after_name (pos + 1) (c ∷ s) v) fuel h.1 u l
