-- ===== src/SimpleXmlReader/Nested/Pieces.antt =====
-- baselib/SimpleXMLReader.cpp: what each function of the reader does to the tags.
use adchubd.Base.{
  ℕ, zero, suc, ◌+◌, ◌<◌, ◌≡◌, inl, inr, refl, sym, ap, ◌∙◌, subst, Bool, true, false, List, [],
  ◌∷◌, ◌++◌, Bytes, Option, none, some, Bool-cases, ◌==◌, length, drop, arith, ltb, same_iff,
}
use adchubd.SimpleXmlReader.{
  ParseState, Told, start_tag, end_tag, Reader, Outcome, thrown, hangs, went, span, literal,
  literal_space, character, skip_loop, skip_space, advance_pos, enter, need_chars, char_at,
  is_name_char, max_value_size,
}
use adchubd.SimpleXmlReader.Elements.{
  element, oldest_first, element_name, element_name_at, name_ended, with_top, top, pop,
  element_attr, element_attr_name, element_attr_name_at, last_attrib, as_utf8, element_end_simple,
  element_end_complex, element_end, element_end_of, element_end_end,
}
use adchubd.SimpleXmlReader.Texts.{
  entref, put_reference, reference, element_attr_value, element_attr_value_at, content, comment,
  comment_loop, cdata, cdata_loop, in_value, with_value, put_value, is_quote,
}
use adchubd.SimpleXmlReader.Declaration.{
  version_loop, decl_version_num, encoding_loop, decl_encoding_value, again, put_encoding,
}
use adchubd.SimpleXmlReader.Nested.{
  opens, opened, Phase, phase, outside, pending, with_attrib, closing, Holds, At, Nested, Same,
  Same-refl, Does, Does-Same, At-Same,
}
use adchubd.SimpleXmlReader.Process.{or_error}

-- To leave the tags alone and enter a state of the same phase is right.
moved_on :
    (p : Phase) (r s : Reader) (st : ParseState)
    → At p r
    → (s.elements ≡ r.elements) × (s.told ≡ r.told) × (s.attribs ≡ r.attribs)
    → phase st ≡ p
    → Nested (enter st s)
moved_on outside r s st a e q = rw q (ground arith)
moved_on pending r s st a e q = rw q (ground arith)
moved_on with_attrib r s st a e q = rw q (ground arith)
moved_on closing r s st a e q = rw q (ground arith)

pub character-Does :
    (p : Phase) (c : ℕ) (st : ParseState) (r : Reader)
    → At p r
    → phase st ≡ p
    → Does r (character c st r)
unfolding character
character-Does p c st r a q =
    ground (arith, moved_on p r (advance_pos 1 r) st a (refl, refl, refl) q)

literal_space-Does :
    (p : Phase) (n : ℕ) (rest : Bytes) (st : ParseState) (r : Reader)
    → At p r
    → phase st ≡ p
    → Does r (literal_space n rest st r)
literal_space-Does p n [] st r a q = inl (Same-refl r)
literal_space-Does p n (c ∷ rest) st r a q =
    ground (arith, moved_on p r (advance_pos (n + 1) r) st a (refl, refl, refl) q)

pub literal-Does :
    (p : Phase) (lit : Bytes) (with_space : Bool) (st : ParseState) (r : Reader)
    → At p r
    → phase st ≡ p
    → Does r (literal lit with_space st r)
unfolding literal
literal-Does p lit with_space st r a q = ground (
  arith,
  literal_space-Does p (length lit) (drop (length lit) r.buf) st r a q,
  moved_on p r (advance_pos (length lit) r) st a (refl, refl, refl) q,
)

pub element-Does : (r : Reader) → At outside r → Does r (element r)
unfolding element
element-Does r a = ground arith

pub element_attr-Does : (r : Reader) → At pending r → Does r (element_attr r)
unfolding element_attr
element_attr-Does r a = ground arith

top-pop : (es : List Bytes) → 0 < length es → top es ∷ pop es ≡ es
top-pop [] h = absurd (omega arith)
top-pop (e ∷ es) h = refl

-- The tag that is being read is told of.
told_simple :
    (r s : Reader) (name : Bytes) (attribs : List (Bytes × Bytes))
    → At pending r
    → opens (start_tag name attribs true ∷ r.told) ≡ some (pop r.elements)
unfolding opens
told_simple r s name attribs a = a.1.0

told_start :
    (es : List Bytes) (told : List Told) (attribs : List (Bytes × Bytes))
    → opens told ≡ some (pop es)
    → 0 < length es
    → opens (start_tag (top es) attribs false ∷ told) ≡ some es
unfolding opens
told_start es told attribs e h = ap (opened (top es)) e ∙ ap some (top-pop es h)

pub element_end_simple-Does : (r : Reader) → At pending r → Does r (element_end_simple r)
unfolding element_end_simple opens
element_end_simple-Does r a = ground arith

pub element_end_complex-Does : (r : Reader) → At pending r → Does r (element_end_complex r)
unfolding element_end_complex
element_end_complex-Does r a =
    ground (arith, told_start r.elements r.told (oldest_first r.attribs) a.1.0 a.1.1)

-- The last element may get another name.
renamed-Holds : (name : Bytes) (r : Reader) → At pending r → Nested (with_top name r)
renamed-Holds name r a =
    subst (λ (p : Phase). Holds p (with_top name r)) (sym a.0) (a.1.0, omega arith)

named-Does :
    (n c : ℕ) (name : Bytes) (r : Reader) → At pending r → Does r (name_ended n c (with_top name r))
named-Does n c name r a =
    ground (
      arith,
      told_start (name ∷ pop r.elements) r.told (oldest_first r.attribs) a.1.0 (omega arith),
    )

element_name_at-Does :
    (p : Bytes × Bytes) (r : Reader) → At pending r → Does r (element_name_at p r)
element_name_at-Does (name, []) r a = ground (arith, renamed-Holds (top r.elements ++ name) r a)
element_name_at-Does (name, c ∷ s) r a =
    ground (arith, named-Does (length name + 1) c (top r.elements ++ name) r a)

pub element_name-Does : (r : Reader) → At pending r → Does r (element_name r)
unfolding element_name
element_name-Does r a = element_name_at-Does (span is_name_char r.buf) r a

-- The last attribute may get another name or value.
with_attribs :
    (attribs : List (Bytes × Bytes)) (r : Reader)
    → At with_attrib r
    → 0 < length attribs
    → Nested (record r { attribs = attribs })
with_attribs attribs r a h =
    subst (λ (p : Phase). Holds p (record r { attribs = attribs })) (sym a.0) (a.1.0, a.1.1, h)

element_attr_name_at-Does :
    (p : Bytes × Bytes) (r : Reader) → At with_attrib r → Does r (element_attr_name_at p r)
element_attr_name_at-Does (name, []) r a = ground (
  arith,
  with_attribs (((last_attrib r.attribs).0 ++ name, (last_attrib r.attribs).1) ∷ pop r.attribs) r a
      (omega arith),
)
element_attr_name_at-Does (name, c ∷ s) r a = ground arith

pub element_attr_name-Does : (r : Reader) → At with_attrib r → Does r (element_attr_name r)
unfolding element_attr_name
element_attr_name-Does r a = element_attr_name_at-Does (span is_name_char r.buf) r a

-- A function that leaves the tags alone.
abbrev Leaves : Reader → Outcome → Type 0
Leaves r (thrown e) = Unit {0}
Leaves r hangs = Unit {0}
Leaves r (went b s) = Same r s

Leaves-Does : (r : Reader) (o : Outcome) → Leaves r o → Does r o
Leaves-Does r (thrown e) h = tt
Leaves-Does r hangs h = tt
Leaves-Does r (went true s) h = inl h
Leaves-Does r (went false s) h = h

put_reference-Leaves :
    (put : Bytes → Reader → Reader) (d : Bytes) (o : Option (Bytes × ℕ)) (r : Reader)
    → ((v : Bytes) → Same r (put v r))
    → Leaves r (put_reference put d o r)
put_reference-Leaves put d none r h = Same-refl r
put_reference-Leaves put d (some (c, n)) r h = h (d ++ c)

entref-Leaves :
    (put : Bytes → Reader → Reader) (d : Bytes) (r : Reader)
    → ((v : Bytes) → Same r (put v r))
    → Leaves r (entref put d r)
unfolding entref
entref-Leaves put d r h = ground (arith, put_reference-Leaves put d (reference r.buf) r h)

-- A function that ends within an attribute.
abbrev Inside : Outcome → Type 0
Inside (thrown e) = Unit {0}
Inside hangs = Unit {0}
Inside (went b s) = At with_attrib s

Inside-Does : (r : Reader) (message : Bytes) (o : Outcome) → Inside o → Does r (or_error message o)
Inside-Does r message (thrown e) h = tt
Inside-Does r message hangs h = tt
Inside-Does r message (went true s) h = inr (subst (λ (p : Phase). Holds p s) (sym h.0) h.1)
Inside-Does r message (went false s) h = tt

put_reference-Inside :
    (d : Bytes) (o : Option (Bytes × ℕ)) (r : Reader)
    → At with_attrib r
    → Inside (put_reference with_value d o r)
put_reference-Inside d none r a = a
put_reference-Inside d (some (c, n)) r a = (a.0, (a.1.0, a.1.1, omega arith))

entref-Inside : (d : Bytes) (r : Reader) → At with_attrib r → Inside (entref with_value d r)
unfolding entref
entref-Inside d r a = ground (arith, put_reference-Inside d (reference r.buf) r a)

element_attr_value_at-Does :
    (to_utf8 : Bytes → ℕ → Bytes) (message : Bytes) (p : Bytes × Bytes) (r : Reader)
    → At with_attrib r
    → Does r (or_error message (element_attr_value_at to_utf8 p r))
element_attr_value_at-Does to_utf8 message (v, []) r a = ground (
  arith,
  with_attribs (((last_attrib r.attribs).0, (last_attrib r.attribs).1 ++ v) ∷ pop r.attribs) r a
      (omega arith),
)
element_attr_value_at-Does to_utf8 message (v, c ∷ s) r a =
    let t = (last_attrib r.attribs).1 ++ v in
    let next = advance_pos (length v) (with_value t r) in
    elim (Bool-cases (ltb max_value_size (length (last_attrib r.attribs).1 + length v))) [
      | inl long ↦ rw long tt
      | inr short ↦ elim (Bool-cases (is_quote r.state c)) [
        | inl quote ↦ rw (short, quote) (inr (a.1.0, a.1.1))
        | inr other ↦
            rw (short, other)
              (Inside-Does r message (entref with_value t next)
                (entref-Inside t next (a.0, (a.1.0, a.1.1, omega arith))))
      ]
    ]

pub element_attr_value-Does :
    (to_utf8 : Bytes → ℕ → Bytes) (message : Bytes) (r : Reader)
    → At with_attrib r
    → Does r (or_error message (element_attr_value to_utf8 r))
unfolding element_attr_value
element_attr_value-Does to_utf8 message r a =
    element_attr_value_at-Does to_utf8 message (span (in_value r.state) r.buf) r a

element_end_of-Does :
    (names : List Bytes) (r : Reader)
    → names ≡ r.elements
    → At outside r
    → Does r (element_end_of names r)
element_end_of-Does [] r e a = Same-refl r
element_end_of-Does (name ∷ outer) r e a = ground (arith, ap length e)

pub element_end-Does : (r : Reader) → At outside r → Does r (element_end r)
unfolding element_end
element_end-Does r a = element_end_of-Does r.elements r refl a

-- The end tag of the innermost element closes it.
told_end :
    (es : List Bytes) (told : List Told) (text : Bytes)
    → opens told ≡ some es
    → 0 < length es
    → opens (end_tag (top es) text ∷ told) ≡ some (pop es)
unfolding opens
told_end [] told text e h = absurd (omega arith)
told_end (name ∷ es) told text e h = rw (e, (same_iff name name).1 refl) refl

pub element_end_end-Does :
    (to_utf8 : Bytes → ℕ → Bytes) (r : Reader) → At closing r → Does r (element_end_end to_utf8 r)
unfolding element_end_end
element_end_end-Does to_utf8 r a =
    ground (arith, told_end r.elements r.told (as_utf8 to_utf8 r.value r.charset) a.1.0 a.1.1)

pub content-Does : (r : Reader) → Does r (content r)
unfolding content
content-Does r =
    ground (arith, Leaves-Does r _ (entref-Leaves put_value r.value r (λ (v : Bytes). Same-refl r)))

comment_loop-Does : (s : Bytes) (r : Reader) → At outside r → Does r (comment_loop s r)
unfolding comment_loop
comment_loop-Does [] r a = inl (Same-refl r)
comment_loop-Does (c ∷ s) r a = ground (arith, comment_loop-Does s (advance_pos 1 r) a)

pub comment-Does : (r : Reader) → At outside r → Does r (comment r)
unfolding comment
comment-Does r a = comment_loop-Does r.buf r a

cdata_loop-Does : (s : Bytes) (r : Reader) → At outside r → Does r (cdata_loop s r)
unfolding cdata_loop
cdata_loop-Does [] r a = inl (Same-refl r)
cdata_loop-Does (c ∷ s) r a = ground (arith, cdata_loop-Does s (advance_pos 1 r) a)

pub cdata-Does : (r : Reader) → At outside r → Does r (cdata r)
unfolding cdata
cdata-Does r a = cdata_loop-Does r.buf r a

version_loop-Does :
    (sep n : ℕ) (s : Bytes) (r : Reader) → At outside r → Does r (version_loop sep n s r)
unfolding version_loop
version_loop-Does sep n [] r a = inl (Same-refl r)
version_loop-Does sep n (c ∷ s) r a = ground (arith, version_loop-Does sep (n + 1) s r a)

pub decl_version_num-Does : (r : Reader) → At outside r → Does r (decl_version_num r)
unfolding decl_version_num
decl_version_num-Does r a = ground (arith, version_loop-Does (char_at r 0) 4 (drop 4 r.buf) r a)

skip_loop-Does :
    (store : Bool) (s : Bytes) (skipped : Bool) (r : Reader) → Does r (skip_loop store s skipped r)
unfolding skip_loop
skip_loop-Does store [] true r = inl (Same-refl r)
skip_loop-Does store [] false r = Same-refl r
skip_loop-Does true (c ∷ s) skipped r =
    let next = advance_pos 1 (record r { value = r.value ++ c ∷ [] }) in
    ground (arith, Does-Same r next _ (Same-refl r) (skip_loop-Does true s true next))
skip_loop-Does false (c ∷ s) skipped r = ground (
  arith,
  Does-Same r (advance_pos 1 r) _ (Same-refl r) (skip_loop-Does false s true (advance_pos 1 r)),
)

pub skip_space-Does : (store : Bool) (r : Reader) → Does r (skip_space store r)
unfolding skip_space
skip_space-Does store r = ground (arith, skip_loop-Does store r.buf false r)

again-Does :
    (r : Reader) (o : Outcome) (next : Reader → Outcome)
    → At outside r
    → Leaves r o
    → ((s : Reader) → At outside s → Does s (next s))
    → Does r (again o next)
again-Does r (thrown e) next a l h = tt
again-Does r hangs next a l h = tt
again-Does r (went true s) next a l h = Does-Same r s (next s) l (h s (At-Same outside r s a l))
again-Does r (went false s) next a l h = l

module _ (to_lower : Bytes → Bytes) (charset_from_string : Bytes → ℕ) where
  encoding_loop-Does :
      (fuel : ℕ) (r : Reader)
      → At outside r
      → Does r (encoding_loop to_lower charset_from_string fuel r)
  unfolding encoding_loop
  encoding_loop-Does zero r a = tt
  encoding_loop-Does (suc fuel) r a = elim (Bool-cases (need_chars 1 r)) [
    | inr nothing_left ↦ rw (nothing_left, encoding_loop) (inl (Same-refl r))
    | inl some_left ↦ elim (Bool-cases (is_quote r.state (char_at r 0))) [
      | inl quote ↦ rw (some_left, quote, encoding_loop) (inr (ground arith))
      | inr other ↦ elim (Bool-cases (char_at r 0 == b'&')) [
        | inl amp ↦
            rw (some_left, other, amp, encoding_loop)
              (again-Does r _ _ a
                (entref-Leaves put_encoding r.encoding r (λ (v : Bytes). Same-refl r))
                (encoding_loop-Does fuel))
        | inr plain ↦
            let next = advance_pos 1 (put_encoding (r.encoding ++ char_at r 0 ∷ []) r) in
            elim (Bool-cases (ltb max_value_size (length r.encoding + 1))) [
              | inl long ↦ rw (some_left, other, plain, long, encoding_loop) tt
              | inr short ↦
                  rw (some_left, other, plain, short, encoding_loop)
                    (Does-Same r next _ (Same-refl r) (encoding_loop-Does fuel next a))
            ]
      ]
    ]
  ]

  pub decl_encoding_value-Does :
      (r : Reader) → At outside r → Does r (decl_encoding_value to_lower charset_from_string r)
  unfolding decl_encoding_value
  decl_encoding_value-Does r a = encoding_loop-Does (suc (length r.buf)) r a
