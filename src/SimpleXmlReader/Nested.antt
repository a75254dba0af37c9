-- ===== src/SimpleXmlReader/Nested.antt =====
-- baselib/SimpleXMLReader.cpp: the tags that the callback has been told of, and those that the reader
-- has open.
pub mod Pieces
pub mod Rounds
use adchubd.Base.{
  ℕ, ◌<◌, ◌≡◌, ◌⊎◌, inl, inr, refl, Bool, true, false, List, [], ◌∷◌, Bytes, Option, none, some,
  same, if◌then◌else◌, length, arith, ◌∙◌,
}
use adchubd.SimpleXmlReader.{
  ParseState, Told, start_tag, end_tag, Reader, Outcome, thrown, hangs, went, or_else,
}
use adchubd.SimpleXmlReader.Elements.{pop}

-- An end tag closes the innermost tag that is open, if that has its name.
abbrev pub closes : Bytes → Option (List Bytes) → Option (List Bytes)
closes name none = none
closes name (some []) = none
closes name (some (n ∷ names)) = if same name n then some names else none

abbrev pub opened : Bytes → Option (List Bytes) → Option (List Bytes)
opened name none = none
opened name (some names) = some (name ∷ names)

-- The names of the tags that are open after these calls of the callback, the newest call and the
-- innermost tag first; `none` where an end tag is not that of the innermost one.
unfoldable pub opens : List Told → Option (List Bytes)
opens [] = some []
opens (start_tag name attribs true ∷ before) = opens before
opens (start_tag name attribs false ∷ before) = opened name (opens before)
opens (end_tag name text ∷ before) = closes name (opens before)

-- Outside the brackets of a start tag, within them, within them behind the name of an attribute, and
-- behind the name of an end tag.
pub data Phase : Type 0 where
  outside pending with_attrib closing : Phase

abbrev pub phase : ParseState → Phase
phase ParseState.element_name = pending
phase ParseState.element_attr = pending
phase ParseState.element_end_simple = pending
phase ParseState.element_attr_name = with_attrib
phase ParseState.element_attr_eq = with_attrib
phase ParseState.element_attr_value = with_attrib
phase ParseState.element_attr_value_quot = with_attrib
phase ParseState.element_attr_value_apos = with_attrib
phase ParseState.element_end_end = closing
phase st = outside

-- The elements of the reader are the tags that are open, and the one that is being read. There is an
-- element, or an attribute, wherever the reader looks at the last one.
abbrev pub Holds : Phase → Reader → Type 0
Holds outside r = opens r.told ≡ some r.elements
Holds pending r = (opens r.told ≡ some (pop r.elements)) × (0 < length r.elements)
Holds with_attrib r =
    (opens r.told ≡ some (pop r.elements)) × (0 < length r.elements) × (0 < length r.attribs)
Holds closing r = (opens r.told ≡ some r.elements) × (0 < length r.elements)

abbrev pub At : Phase → Reader → Type 0
At p r = (phase r.state ≡ p) × Holds p r

abbrev pub Nested : Reader → Type 0
Nested r = Holds (phase r.state) r

abbrev pub Same : Reader → Reader → Type 0
Same r s =
    (s.elements ≡ r.elements) × (s.told ≡ r.told) × (s.attribs ≡ r.attribs) × (s.state ≡ r.state)

-- A function that returns false leaves the tags alone, and one that returns true does so, or ends in a
-- state that is right.
abbrev pub Does : Reader → Outcome → Type 0
Does r (thrown e) = Unit {0}
Does r hangs = Unit {0}
Does r (went false s) = Same r s
Does r (went true s) = Same r s ⊎ Nested s

pub Same-refl : (r : Reader) → Same r r
Same-refl r = (refl, refl, refl, refl)

pub At-Same : (p : Phase) (r s : Reader) → At p r → Same r s → At p s
At-Same outside r s h e = ground arith
At-Same pending r s h e = ground arith
At-Same with_attrib r s h e = ground arith
At-Same closing r s h e = ground arith

pub Does-Same : (r s : Reader) (o : Outcome) → Same r s → Does s o → Does r o
Does-Same r s (thrown e) h d = tt
Does-Same r s hangs h d = tt
Does-Same r s (went true t) h d = ground arith
Does-Same r s (went false t) h d = ground arith

pub Does-or_else :
    (p : Phase) (r : Reader) (o : Outcome) (next : Reader → Outcome)
    → At p r
    → Does r o
    → ((s : Reader) → At p s → Does s (next s))
    → Does r (or_else o next)
Does-or_else p r (thrown e) next a d h = tt
Does-or_else p r hangs next a d h = tt
Does-or_else p r (went true s) next a d h = d
Does-or_else p r (went false s) next a d h = Does-Same r s (next s) d (h s (At-Same p r s a d))
