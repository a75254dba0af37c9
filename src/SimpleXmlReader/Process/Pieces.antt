-- ===== src/SimpleXmlReader/Process/Pieces.antt =====
-- baselib/SimpleXMLReader.cpp: the functions of the reader for elements, texts and the declaration go on, or throw.
use adchubd.Base.{
  ℕ, zero, suc, ◌+◌, ◌≤◌, ◌<◌, ◌≡◌, ◌⊎◌, inl, inr, refl, ap, Bool, true, false, List, [], ◌∷◌, ◌++◌,
  Bytes, Option, none, some, Bool-cases, ◌==◌, length, length-drop, drop, get_or, arith, ltb, leb,
}
use adchubd.SimpleXmlReader.{
  Reader, Outcome, thrown, hangs, went, span, advance_pos, need_chars, char_at, is_name_char,
  max_value_size,
}
use adchubd.SimpleXmlReader.Elements.{
  element, element_name, element_name_at, element_attr, element_attr_name, element_attr_name_at,
  last_attrib, element_end_simple, element_end_complex, element_end, element_end_of,
  element_end_end,
}
use adchubd.SimpleXmlReader.Texts.{
  entref, put_reference, reference, number_ref, element_attr_value, element_attr_value_at, content,
  comment, comment_loop, cdata, cdata_loop, in_value, is_digit, is_x_digit, with_value, put_value,
  is_quote,
}
use adchubd.SimpleXmlReader.Declaration.{
  version_loop, decl_version_num, encoding_loop, decl_encoding_value, again, put_encoding,
}
use adchubd.SimpleXmlReader.Process.{code}
use adchubd.SimpleXmlReader.Process.Adv.{
  Good, Goes, Goes-trans, amps, amps-drop, Adv-refl, Good-trans, value-Adv,
}

length-span : (p : ℕ → Bool) (s : Bytes) → length (span p s).0 + length (span p s).1 ≡ length s
unfolding span
length-span p [] = omega arith
length-span p (c ∷ s) = ground (arith, length-span p s)

pub element-Good : (r : Reader) → Good r (element r)
unfolding element
element-Good r = ground (arith, length-drop 2 r.buf, amps-drop 2 r.buf)

element_name_at-Good :
    (p : Bytes × Bytes) (r : Reader)
    → length (p.0) + length (p.1) ≡ length r.buf
    → Good r (element_name_at p r)
element_name_at-Good (name, []) r e =
    ground (arith, length-drop (length name) r.buf, amps-drop (length name) r.buf)
element_name_at-Good (name, c ∷ s) r e =
    ground (arith, length-drop (length name + 1) r.buf, amps-drop (length name + 1) r.buf)

pub element_name-Good : (r : Reader) → Good r (element_name r)
unfolding element_name
element_name-Good r =
    element_name_at-Good (span is_name_char r.buf) r (length-span is_name_char r.buf)

pub element_attr-Good : (r : Reader) → Good r (element_attr r)
unfolding element_attr
element_attr-Good r = ground (arith, length-drop 1 r.buf, amps-drop 1 r.buf)

element_attr_name_at-Good :
    (p : Bytes × Bytes) (r : Reader)
    → length (p.0) + length (p.1) ≡ length r.buf
    → Good r (element_attr_name_at p r)
element_attr_name_at-Good (name, []) r e =
    ground (arith, length-drop (length name) r.buf, amps-drop (length name) r.buf)
element_attr_name_at-Good (name, c ∷ s) r e =
    ground (arith, length-drop (length name + 1) r.buf, amps-drop (length name + 1) r.buf)

pub element_attr_name-Good : (r : Reader) → Good r (element_attr_name r)
unfolding element_attr_name
element_attr_name-Good r =
    element_attr_name_at-Good (span is_name_char r.buf) r (length-span is_name_char r.buf)

pub element_end_simple-Good : (r : Reader) → Good r (element_end_simple r)
unfolding element_end_simple
element_end_simple-Good r = ground (arith, length-drop 1 r.buf, amps-drop 1 r.buf)

pub element_end_complex-Good : (r : Reader) → Good r (element_end_complex r)
unfolding element_end_complex
element_end_complex-Good r = ground (arith, length-drop 1 r.buf, amps-drop 1 r.buf)

element_end_of-Good :
    (names : List Bytes) (r : Reader) → code r.state ≡ 21 → Good r (element_end_of names r)
unfolding code
element_end_of-Good [] r e = Adv-refl r
element_end_of-Good (name ∷ outer) r e =
    ground (arith, length-drop (length name) r.buf, amps-drop (length name) r.buf)

pub element_end-Good : (r : Reader) → code r.state ≡ 21 → Good r (element_end r)
unfolding element_end
element_end-Good r e = element_end_of-Good r.elements r e

pub element_end_end-Good :
    (to_utf8 : Bytes → ℕ → Bytes) (r : Reader) → Good r (element_end_end to_utf8 r)
unfolding element_end_end
element_end_end-Good to_utf8 r = ground (arith, length-drop 1 r.buf, amps-drop 1 r.buf)

get_or-inside : (s : Bytes) (i : ℕ) → (get_or s i 0 == b';') ≡ true → i < length s
get_or-inside [] i h = absurd (cc)
get_or-inside (c ∷ s) zero h = omega arith
get_or-inside (c ∷ s) (suc i) h = omega (arith, get_or-inside s i h)

-- The length of a reference.
abbrev Inside : Bytes → Option (Bytes × ℕ) → Type 0
Inside s none = Unit {0}
Inside s (some (c, n)) = n ≤ length s

number_ref-Inside : (p : ℕ → Bool) (n most : ℕ) (s : Bytes) → Inside s (number_ref p n most s)
unfolding number_ref
number_ref-Inside p n most s = ground (arith, get_or-inside s (n + length (span p (drop n s)).0))

reference-Inside : (s : Bytes) → 6 < length s → Inside s (reference s)
unfolding reference
reference-Inside s h =
    ground (arith, number_ref-Inside is_x_digit 3 4 s, number_ref-Inside is_digit 2 5 s)

-- A text is stored, and nothing else changes.
abbrev Keeps : (Bytes → Reader → Reader) → Type 0
Keeps put =
    (v : Bytes) (r : Reader)
    → ((put v r).buf ≡ r.buf) × ((put v r).pos ≡ r.pos) × ((put v r).state ≡ r.state)

put_reference-Good :
    (put : Bytes → Reader → Reader) (d : Bytes) (o : Option (Bytes × ℕ)) (r : Reader)
    → Keeps put
    → Inside r.buf o
    → Good r (put_reference put d o r)
put_reference-Good put d none r keeps i = Adv-refl r
put_reference-Good put d (some (c, n)) r keeps i =
    let (b, p, s) = keeps (d ++ c) r in
    (
      omega (arith, ap length b, p, i, length-drop n (put (d ++ c) r).buf),
      omega (arith, ap length b, i, length-drop n (put (d ++ c) r).buf),
      omega (arith, ap amps b, amps-drop n (put (d ++ c) r).buf),
      inl (ap code s),
    )

entref-Good :
    (put : Bytes → Reader → Reader) (d : Bytes) (r : Reader) → Keeps put → Good r (entref put d r)
unfolding entref
entref-Good put d r keeps = elim (Bool-cases (leb max_value_size (length d + 1))) [
  | inl long ↦ rw long tt
  | inr short ↦ elim (Bool-cases (ltb 6 (length r.buf))) [
    | inl room ↦
        rw (short, room)
          (put_reference-Good put d (reference r.buf) r keeps
            (reference-Inside r.buf (ground arith)))
    | inr little ↦ rw (short, little) (Adv-refl r)
  ]
]

with_value-Keeps : Keeps with_value
with_value-Keeps v r = (refl, refl, refl)

put_value-Keeps : Keeps put_value
put_value-Keeps v r = (refl, refl, refl)

put_encoding-Keeps : Keeps put_encoding
put_encoding-Keeps v r = (refl, refl, refl)

element_attr_value_at-Good :
    (to_utf8 : Bytes → ℕ → Bytes) (p : Bytes × Bytes) (r : Reader)
    → length (p.0) + length (p.1) ≡ length r.buf
    → Good r (element_attr_value_at to_utf8 p r)
element_attr_value_at-Good to_utf8 (v, []) r e =
    ground (arith, length-drop (length v) r.buf, amps-drop (length v) r.buf)
element_attr_value_at-Good to_utf8 (v, c ∷ s) r e =
    let t = (last_attrib r.attribs).1 in
    let next = advance_pos (length v) (with_value (t ++ v) r) in
    elim (Bool-cases (ltb max_value_size (length t + length v))) [
      | inl long ↦ rw long tt
      | inr short ↦ elim (Bool-cases (is_quote r.state c)) [
        | inl quote ↦
            rw (short, quote)
              (ground (arith, length-drop (length v + 1) r.buf, amps-drop (length v + 1) r.buf))
        | inr other ↦
            rw (short, other)
              (Good-trans r next _
                (ground (arith, length-drop (length v) r.buf, amps-drop (length v) r.buf))
                (entref-Good with_value (t ++ v) next with_value-Keeps))
      ]
    ]

pub element_attr_value-Good :
    (to_utf8 : Bytes → ℕ → Bytes) (r : Reader) → Good r (element_attr_value to_utf8 r)
unfolding element_attr_value
element_attr_value-Good to_utf8 r =
    element_attr_value_at-Good to_utf8 (span (in_value r.state) r.buf) r
      (length-span (in_value r.state) r.buf)

pub content-Good : (r : Reader) → Good r (content r)
unfolding content
content-Good r =
    ground (
      arith,
      length-drop 1 r.buf,
      amps-drop 1 r.buf,
      entref-Good put_value r.value r put_value-Keeps,
    )

comment_loop-Good : (s : Bytes) (r : Reader) → r.buf ≡ s → Good r (comment_loop s r)
unfolding comment_loop
comment_loop-Good [] r e = Adv-refl r
comment_loop-Good (c ∷ s) r e =
    let after = comment_loop-Good s (advance_pos 1 r) (ap (λ (t : Bytes). drop 1 t) e) in
    let rest =
      Good-trans r (advance_pos 1 r) (comment_loop s (advance_pos 1 r))
        (value-Adv r r.value (omega (arith, ap length e))) after in
    ground (arith, rest, length-drop 3 r.buf, amps-drop 3 r.buf)

pub comment-Good : (r : Reader) → Good r (comment r)
unfolding comment
comment-Good r = comment_loop-Good r.buf r refl

cdata_loop-Good : (s : Bytes) (r : Reader) → r.buf ≡ s → Good r (cdata_loop s r)
unfolding cdata_loop
cdata_loop-Good [] r e = Adv-refl r
cdata_loop-Good (c ∷ s) r e =
    let after = cdata_loop-Good s (advance_pos 1 r) (ap (λ (t : Bytes). drop 1 t) e) in
    let rest =
      Good-trans r (advance_pos 1 r) (cdata_loop s (advance_pos 1 r))
        (value-Adv r r.value (omega (arith, ap length e))) after in
    ground (arith, rest, length-drop 2 r.buf, amps-drop 2 r.buf)

pub cdata-Good : (r : Reader) → Good r (cdata r)
unfolding cdata
cdata-Good r = cdata_loop-Good r.buf r refl

version_loop-Good :
    (sep n : ℕ) (s : Bytes) (r : Reader)
    → length s + n ≡ length r.buf
    → Good r (version_loop sep n s r)
unfolding version_loop
version_loop-Good sep n [] r e = Adv-refl r
version_loop-Good sep n (c ∷ s) r e = ground (
  arith,
  version_loop-Good sep (n + 1) s r (omega arith),
  length-drop (n + 1) r.buf,
  amps-drop (n + 1) r.buf,
)

pub decl_version_num-Good : (r : Reader) → Good r (decl_version_num r)
unfolding decl_version_num
decl_version_num-Good r = ground (
  arith,
  length-drop 4 r.buf,
  amps-drop 4 r.buf,
  version_loop-Good (char_at r 0) 4 (drop 4 r.buf) r,
)

again-Goes :
    (n : ℕ) (r : Reader) (o : Outcome) (next : Reader → Outcome)
    → Goes n r o
    → ((s : Reader) → Goes n s (next s))
    → Goes n r (again o next)
again-Goes n r (thrown e) next g h = tt
again-Goes n r hangs next g h = g
again-Goes n r (went true s) next g h = Goes-trans n r s (next s) g (h s)
again-Goes n r (went false s) next g h = g

amps-first : (s : Bytes) → (get_or s 0 0 == b'&') ≡ true → 0 < amps s
unfolding amps
amps-first [] h = absurd (cc)
amps-first (c ∷ s) h = ground arith

Good-Goes : (n : ℕ) (r : Reader) (o : Outcome) → 0 < n → Good r o → Goes n r o
Good-Goes n r (thrown e) p g = tt
Good-Goes n r hangs p g = p
Good-Goes n r (went b s) p g = g

some_amps :
    (fuel n : ℕ) (r : Reader)
    → (length r.buf < fuel) × (amps r.buf ≤ n) ⊎ (0 < n)
    → 0 < amps r.buf
    → 0 < n
some_amps fuel n r p q = ground arith

module _ (to_lower : Bytes → Bytes) (charset_from_string : Bytes → ℕ) where
  encoding_loop-Goes :
      (fuel n : ℕ) (r : Reader)
      → (length r.buf < fuel) × (amps r.buf ≤ n) ⊎ (0 < n)
      → Goes n r (encoding_loop to_lower charset_from_string fuel r)
  unfolding encoding_loop
  encoding_loop-Goes zero n r (inl p) = absurd (omega arith)
  encoding_loop-Goes zero n r (inr p) = p
  encoding_loop-Goes (suc fuel) n r p = elim (Bool-cases (need_chars 1 r)) [
    | inr nothing_left ↦ rw (nothing_left, encoding_loop) (Adv-refl r)
    | inl some_left ↦ elim (Bool-cases (is_quote r.state (char_at r 0))) [
      | inl quote ↦
          rw (some_left, quote, encoding_loop)
            (ground (arith, length-drop 1 r.buf, amps-drop 1 r.buf))
      | inr other ↦ elim (Bool-cases (char_at r 0 == b'&')) [
        | inl amp ↦
            let hanging = some_amps (suc fuel) n r p (amps-first r.buf amp) in
            rw (some_left, other, amp, encoding_loop)
              (again-Goes n r _ _
                (Good-Goes n r _ hanging (entref-Good put_encoding r.encoding r put_encoding-Keeps))
                (λ s. encoding_loop-Goes fuel n s (inr hanging)))
        | inr plain ↦
            let next = advance_pos 1 (put_encoding (r.encoding ++ char_at r 0 ∷ []) r) in
            elim (Bool-cases (ltb max_value_size (length r.encoding + 1))) [
              | inl long ↦ rw (some_left, other, plain, long, encoding_loop) tt
              | inr short ↦
                  rw (some_left, other, plain, short, encoding_loop)
                    (Goes-trans n r next _ (ground (arith, length-drop 1 r.buf, amps-drop 1 r.buf))
                      (encoding_loop-Goes fuel n next
                        (ground (arith, length-drop 1 r.buf, amps-drop 1 r.buf))))
            ]
      ]
    ]
  ]

  pub decl_encoding_value-Good :
      (r : Reader) → Good r (decl_encoding_value to_lower charset_from_string r)
  unfolding decl_encoding_value
  decl_encoding_value-Good r =
      encoding_loop-Goes (suc (length r.buf)) (amps r.buf) r (inl (omega arith, omega arith))
